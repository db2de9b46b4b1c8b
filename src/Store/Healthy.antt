-- ===== src/Store/Healthy.antt =====
-- The invariant of acme.db's orders: authorisations under rising ids and of orders that are there, and
-- every order in step with its authorisations.
pub mod Settles
pub mod Filling
pub mod Orders
pub mod Rest
pub mod Run
use op_ca.Prelude.{
  Result, ok, err, ℕ, ◌≤◌, ◌≡◌, refl, ap, ap₂, subst, sym, Bool, true, false, not, ◌&&◌, ◌∙◌, ◌==◌,
  if◌then◌else◌, List, [], ◌∷◌, ◌++◌, map, arith, All, All-append, All-map, update_where,
}
use op_ca.Store.Status.{OrderStatus}
use op_ca.Store.Tables.{OrderRow, AuthorisationRow, Db, Error, Tx, greatest}
use op_ca.Store.Lifecycle.{authorisations_table}
use op_ca.Store.Lifecycles.{Rising, keys-update}
use op_ca.Store.Settle.{
  set_status, must_fail, has_unproved, awaits, fail_orders, fail_order, ready_order, settle_order,
}
use op_ca.Store.Settled.{InStep, AllInStep}
use op_ca.Store.Within.{Within, Committed, IsOrder}

abbrev pub order_ids : Db → List ℕ
order_ids d = map (λ o. o.id) d.orders

pub record Healthy (d : Db) : Type 0 where
  pub ids : Rising (map (λ a. a.id) d.authorisations)
  pub refs : All (λ a. a.order ≤ greatest (order_ids d)) d.authorisations
  pub in_step : AllInStep d

-- A property of databases that a transaction keeps.
abbrev pub Keeps : (Db → Type 0) → Db → Db → Type 0
Keeps P d d' = P d → P d'

pub keeping : (P : Db → Type 0) → IsOrder (Keeps P)
keeping P = record { here = λ d h. h; chain = λ a b c f g h. g (f h) }

Committed-Keeps :
    {A : Type 0} (P : Db → Type 0) (d : Db) (r : Result Error (A × Db))
    → (P d → Committed P r)
    → Committed (Keeps P d) r
Committed-Keeps P d (ok (a, d')) f = f
Committed-Keeps P d (err e) f = tt

pub keeping_tx :
    {A : Type 0} (P : Db → Type 0) (m : Tx A)
    → ((d : Db) → P d → Committed P (m d))
    → Within (Keeps P) m
keeping_tx P m f = record { at = λ d. Committed-Keeps P d (m d) (f d) }

-- An update of the orders that keeps their ids keeps the references to them.
pub order_ids-update :
    (p : OrderRow → Bool) (f : OrderRow → OrderRow)
    → ((o : OrderRow) → (f o).id ≡ o.id)
    → (orders : List OrderRow) → map (λ o. o.id) (update_where p f orders) ≡ map (λ o. o.id) orders
order_ids-update p f same [] = refl
order_ids-update p f same (o ∷ orders) = ap₂ ◌∷◌ (one (p o)) (order_ids-update p f same orders)
  where
    one : (b : Bool) → (if b then f o else o).id ≡ o.id
    one true = same o
    one false = refl

-- A predicate kept by an update.
pub All-update {ℓ κ μ} :
    {A : Type ℓ} (P : A → Type κ) (Q : A → Type μ) (p : A → Bool) (f : A → A)
    → ((x : A) → P x → p x ≡ true → Q (f x))
    → ((x : A) → P x → p x ≡ false → Q x)
    → (xs : List A) → All P xs
    → All Q (update_where p f xs)
All-update P Q p f hit miss [] h = tt
All-update P Q p f hit miss (x ∷ xs) h =
    (one (p x) (hit x h.0) (miss x h.0), All-update P Q p f hit miss xs h.1)
  where
    one : (b : Bool) → (b ≡ true → Q (f x)) → (b ≡ false → Q x) → Q (if b then f x else x)
    one true t n = t refl
    one false t n = n refl

-- Orders changed under their ids, each still in step.
pub with_orders-Healthy :
    (p : OrderRow → Bool) (f : OrderRow → OrderRow) (d : Db)
    → ((o : OrderRow) → (f o).id ≡ o.id)
    → ((o : OrderRow) → InStep d.authorisations o → p o ≡ true → InStep d.authorisations (f o))
    → Healthy d
    → Healthy (record d { orders = update_where p f d.orders })
with_orders-Healthy p f d same step h = record {
  ids = h.ids;
  refs =
      subst (λ ns. All (λ a. a.order ≤ greatest ns) d.authorisations)
        (sym (order_ids-update p f same d.orders)) h.refs;
  in_step = All-update _ _ p f step (λ o s e. s) d.orders h.in_step;
}

fail_order_ids : (k : ℕ) (d : Db) → order_ids (fail_order k d) ≡ order_ids d
unfolding fail_order
fail_order_ids k d =
    order_ids-update (λ o. must_fail d.authorisations o && (o.id == k))
      (set_status OrderStatus.invalid) (λ o. refl) d.orders

ready_order_ids : (k : ℕ) (d : Db) → order_ids (ready_order k d) ≡ order_ids d
unfolding ready_order
ready_order_ids k d =
    order_ids-update
      (λ o. (o.id == k) && (awaits o.status && not (has_unproved d.authorisations o.id)))
      (set_status OrderStatus.ready) (λ o. refl) d.orders

pub settle_order_ids : (k : ℕ) (d : Db) → order_ids (settle_order k d) ≡ order_ids d
unfolding settle_order
settle_order_ids k d = ready_order_ids k (fail_order k d) ∙ fail_order_ids k d

pub fail_orders_ids : (d : Db) → order_ids (fail_orders d) ≡ order_ids d
unfolding fail_orders
fail_orders_ids d =
    order_ids-update (must_fail d.authorisations) (set_status OrderStatus.invalid) (λ o. refl)
      d.orders
