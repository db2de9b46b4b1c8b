-- ===== src/Store/Settled.antt =====
-- Orders in step with their authorisations: none that is pending or ready has one that failed, and a
-- ready one has only valid ones.
use op_ca.Prelude.{
  ℕ, ◌≡◌, refl, ◌⊎◌, inr, Bool, true, false, not, ◌&&◌, List, [], ◌∷◌, arith, All, update_where,
  ◌==◌, if◌then◌else◌,
}
use op_ca.Store.Status.{OrderStatus}
use op_ca.Store.Moves.{is_open, is_pending}
use op_ca.Store.Tables.{OrderRow, AuthorisationRow, Db}
use op_ca.Store.Settle.{
  set_status, has_failed, has_unproved, must_fail, fail_orders, fail_order, awaits, ready_order,
  settle_order,
}

-- What a status says of whether an authorisation failed, and of whether one is not valid.
abbrev pub Standing : OrderStatus → Bool → Bool → Type 0
Standing OrderStatus.pending failed unproved = failed ≡ false
Standing OrderStatus.ready failed unproved = unproved ≡ false
Standing _ failed unproved = Unit

abbrev pub InStep : List AuthorisationRow → OrderRow → Type 0
InStep auths o = Standing o.status (has_failed auths o.id) (has_unproved auths o.id)

failed-unproved :
    (auths : List AuthorisationRow) (id : ℕ)
    → has_failed auths id ≡ true
    → has_unproved auths id ≡ true
unfolding has_failed has_unproved
failed-unproved [] id h = cc
failed-unproved (a ∷ auths) id h = ground (arith, failed-unproved auths id)

-- A change of the authorisations that pass a test, which leaves none of them pending.
module _ (p : AuthorisationRow → Bool) (f : AuthorisationRow → AuthorisationRow)
    (same_order : (a : AuthorisationRow) → (f a).order ≡ a.order)
    (decided : (a : AuthorisationRow) → is_pending (f a).status ≡ false) where
  unproved_after :
      (auths : List AuthorisationRow) (id : ℕ)
      → has_unproved (update_where p f auths) id ≡ true
      → (has_failed (update_where p f auths) id ≡ true) ⊎ (has_unproved auths id ≡ true)
  unfolding has_failed has_unproved
  unproved_after [] id h = inr h
  unproved_after (a ∷ auths) id h = ground (arith, unproved_after auths id, same_order a, decided a)

  elsewhere :
      (k : ℕ) (auths : List AuthorisationRow) (id : ℕ)
      → All (λ a. p a ≡ true → a.order ≡ k) auths
      → (id == k) ≡ false
      → (has_failed (update_where p f auths) id ≡ has_failed auths id)
        × (has_unproved (update_where p f auths) id ≡ has_unproved auths id)
  unfolding has_failed has_unproved
  elsewhere k [] id q h = (refl, refl)
  elsewhere k (a ∷ auths) id q h = ground (arith, elsewhere k auths id q.1, same_order a, q.0)

failing_status : Bool → OrderStatus → OrderStatus
failing_status b s = if b then OrderStatus.invalid else s

-- One order over the two statements of `settle_order`.
settled :
    (s : OrderStatus) (here f u f' u' : Bool)
    → Standing s f u
    → (here ≡ false → (f' ≡ f) × (u' ≡ u))
    → (u' ≡ true → (f' ≡ true) ⊎ (u ≡ true))
    → (f' ≡ true → u' ≡ true)
    → (let t = if (is_open s && f') && here then OrderStatus.invalid else s in
        Standing (if here && (awaits t && not u') then OrderStatus.ready else t) f' u')
settled s here f u f' u' st away un fu = ground arith

-- `settle_order` of one order.
settle_one : ℕ → List AuthorisationRow → OrderRow → OrderRow
settle_one k auths o =
    let failed = if must_fail auths o && (o.id == k) then set_status OrderStatus.invalid o else o in
    if (failed.id == k) && (awaits failed.status && not (has_unproved auths failed.id))
    then set_status OrderStatus.ready failed
    else failed

settle_one-InStep :
    (k : ℕ) (auths auths' : List AuthorisationRow) (o : OrderRow)
    → InStep auths o
    → ((o.id == k) ≡ false
        → (has_failed auths' o.id ≡ has_failed auths o.id)
          × (has_unproved auths' o.id ≡ has_unproved auths o.id))
    → (has_unproved auths' o.id ≡ true
        → (has_failed auths' o.id ≡ true) ⊎ (has_unproved auths o.id ≡ true))
    → InStep auths' (settle_one k auths' o)
unfolding settle_one must_fail
settle_one-InStep k auths auths' o st away un = ground (arith, failed-unproved auths' o.id)

module _ (k : ℕ) (auths auths' : List AuthorisationRow)
    (away : (id : ℕ)
      → (id == k) ≡ false
      → (has_failed auths' id ≡ has_failed auths id)
        × (has_unproved auths' id ≡ has_unproved auths id))
    (un : (id : ℕ)
      → has_unproved auths' id ≡ true
      → (has_failed auths' id ≡ true) ⊎ (has_unproved auths id ≡ true)) where
  settle_orders-InStep :
      (orders : List OrderRow)
      → All (InStep auths) orders
      → All (InStep auths') (
          update_where
            (λ o. (o.id == k) && (awaits o.status && not (has_unproved auths' o.id)))
            (set_status OrderStatus.ready)
            (update_where
              (λ o. must_fail auths' o && (o.id == k))
              (set_status OrderStatus.invalid)
              orders))
  unfolding settle_one
  settle_orders-InStep [] h = tt
  settle_orders-InStep (o ∷ orders) h = (
    settle_one-InStep k auths auths' o h.0 (away o.id) (un o.id),
    settle_orders-InStep orders h.1,
  )

-- The orders of a database are in step with its authorisations.
abbrev pub AllInStep : Db → Type 0
AllInStep d = All (InStep d.authorisations) d.orders

-- A change of authorisations of one order that leaves none of them pending, and then that order
-- settled.
pub settle_order-AllInStep :
    (p : AuthorisationRow → Bool) (f : AuthorisationRow → AuthorisationRow) (k : ℕ) (d : Db)
    → ((a : AuthorisationRow) → (f a).order ≡ a.order)
    → ((a : AuthorisationRow) → is_pending (f a).status ≡ false)
    → All (λ a. p a ≡ true → a.order ≡ k) d.authorisations
    → AllInStep d
    → AllInStep (settle_order k (record d { authorisations = update_where p f d.authorisations }))
unfolding settle_order fail_order ready_order
settle_order-AllInStep p f k d same dec one h =
    settle_orders-InStep k d.authorisations (update_where p f d.authorisations)
      (λ id. elsewhere p f same dec k d.authorisations id one)
      (unproved_after p f same dec d.authorisations) d.orders h

fail_one-InStep :
    (auths auths' : List AuthorisationRow) (q : OrderRow → Bool) (o : OrderRow)
    → InStep auths o
    → (has_unproved auths' o.id ≡ true
        → (has_failed auths' o.id ≡ true) ⊎ (has_unproved auths o.id ≡ true))
    → InStep auths' (
        let expired = if q o then set_status OrderStatus.invalid o else o in
        if must_fail auths' expired then set_status OrderStatus.invalid expired else expired)
unfolding must_fail
fail_one-InStep auths auths' q o st un = ground (arith, failed-unproved auths' o.id)

-- The same of any authorisations, where some orders are made invalid and then all that must fail.
pub fail_orders-AllInStep :
    (p : AuthorisationRow → Bool) (f : AuthorisationRow → AuthorisationRow) (q : OrderRow → Bool)
    (d : Db)
    → ((a : AuthorisationRow) → (f a).order ≡ a.order)
    → ((a : AuthorisationRow) → is_pending (f a).status ≡ false)
    → AllInStep d
    → AllInStep (
        fail_orders (record d {
          authorisations = update_where p f d.authorisations;
          orders = update_where q (set_status OrderStatus.invalid) d.orders;
        }))
unfolding fail_orders
fail_orders-AllInStep p f q d same dec h = each d.orders h
  where
    each :
        (orders : List OrderRow)
        → All (InStep d.authorisations) orders
        → All (InStep (update_where p f d.authorisations)) (
            update_where
              (must_fail (update_where p f d.authorisations))
              (set_status OrderStatus.invalid)
              (update_where q (set_status OrderStatus.invalid) orders))
    each [] h = tt
    each (o ∷ orders) h = (
      fail_one-InStep d.authorisations _ q o h.0
          (unproved_after p f same dec d.authorisations o.id),
      each orders h.1,
    )
