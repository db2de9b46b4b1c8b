-- ===== src/Store/Settle.antt =====
-- How an order follows its authorisations in acme/store.rs: `FAIL_ORDERS` and `settle_order_of`.
use op_ca.Prelude.{ℕ, Bool, true, false, not, ◌&&◌, List, any, update_where, ◌==◌}
use op_ca.Store.Status.{OrderStatus}
use op_ca.Store.Moves.{is_open, is_live, is_valid}
use op_ca.Store.Tables.{
  OrderRow, AuthorisationRow, Db, refused, row_not_found, Tx, ◌>>=◌, read, write, found_or,
}
use op_ca.Store.Lifecycle.{authorisations_table, row_of}

abbrev pub set_status : OrderStatus → OrderRow → OrderRow
set_status s o = record o { status = s }

-- Some authorisation of the order with that id is neither pending nor valid.
unfoldable pub has_failed : List AuthorisationRow → ℕ → Bool
has_failed auths id = any (λ a. (a.order == id) && not (is_live a.status)) auths

-- Some authorisation of the order with that id is not valid.
unfoldable pub has_unproved : List AuthorisationRow → ℕ → Bool
has_unproved auths id = any (λ a. (a.order == id) && not (is_valid a.status)) auths

-- The `WHERE` of FAIL_ORDERS.
unfoldable pub must_fail : List AuthorisationRow → OrderRow → Bool
must_fail auths o = is_open o.status && has_failed auths o.id

-- FAIL_ORDERS
unfoldable pub fail_orders : Db → Db
fail_orders d = record d {
  orders = update_where (must_fail d.authorisations) (set_status OrderStatus.invalid) d.orders;
}

-- `{FAIL_ORDERS} AND id = ?`
unfoldable pub fail_order : ℕ → Db → Db
fail_order id d = record d {
  orders =
      update_where (λ o. must_fail d.authorisations o && (o.id == id))
        (set_status OrderStatus.invalid) d.orders;
}

abbrev pub awaits : OrderStatus → Bool
awaits OrderStatus.pending = true
awaits _ = false

-- A pending order whose authorisations are all valid becomes ready.
unfoldable pub ready_order : ℕ → Db → Db
ready_order id d = record d {
  orders =
      update_where
        (λ o. (o.id == id) && (awaits o.status && not (has_unproved d.authorisations o.id)))
        (set_status OrderStatus.ready) d.orders;
}

unfoldable pub settle_order : ℕ → Db → Db
settle_order id d = ready_order id (fail_order id d)

unfoldable pub settle_order_of : ℕ → Tx (Unit {0})
settle_order_of authorisation = do
  row ← read (row_of authorisations_table authorisation)
  a ← found_or row (refused row_not_found)
  write (settle_order a.order)
