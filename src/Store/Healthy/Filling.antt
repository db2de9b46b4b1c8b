-- ===== src/Store/Healthy/Filling.antt =====
-- `create_order` keeps the invariant.
use op_ca.Prelude.{
  ℕ, suc, ◌≡◌, ◌≤◌, ◌<◌, refl, ap, true, false, List, [], ◌∷◌, ◌++◌, map, arith, All, All-map,
  All-append, any, Bool-cases, inl, inr, ◌==◌, text_eq,
}
use op_ca.Base64url.{base64url}
use op_ca.Store.Status.{OrderStatus}
use op_ca.Store.Moves.{is_live}
use op_ca.Store.Tables.{
  OrderRow, Challenge, AuthorisationRow, ChallengeType, Token, Db, Tx, found_or, random, ◌>>=◌,
  greatest, next_id,
}
use op_ca.Store.Lifecycle.{authorisations_table}
use op_ca.Store.Lifecycles.{le-greatest, Advance-append}
use op_ca.Store.Within.{
  Committed, Committed-map, Within, Within-bind, Within-found_or, within_rules,
}
use op_ca.Store.Settle.{has_failed, has_unproved}
use op_ca.Store.Settled.{InStep}
use op_ca.Store.Orders.{
  Draws, NewOrder, NewAuthorisation, Order, insert_order, insert_authorisation,
  insert_authorisations, insert_challenge, insert_challenges, create_order,
}
use op_ca.Store.Healthy.{Healthy, Keeps, keeping_tx, keeping, order_ids}

-- While the authorisations of order `k` are put in, all orders of that id are pending.
record Filling (k : ℕ) (d : Db) : Type 0 where
  healthy : Healthy d
  known : k ≤ greatest (order_ids d)
  waiting : All (λ o. o.id ≡ k → o.status ≡ OrderStatus.pending) d.orders

has_failed-append :
    (auths : List AuthorisationRow) (a : AuthorisationRow) (id : ℕ)
    → is_live a.status ≡ true
    → has_failed (auths ++ a ∷ []) id ≡ has_failed auths id
unfolding has_failed
has_failed-append [] a id h = ground arith
has_failed-append (x ∷ auths) a id h = ground (arith, has_failed-append auths a id h)

has_unproved-append :
    (auths : List AuthorisationRow) (a : AuthorisationRow) (id : ℕ)
    → (a.order == id) ≡ false
    → has_unproved (auths ++ a ∷ []) id ≡ has_unproved auths id
unfolding has_unproved
has_unproved-append [] a id h = ground arith
has_unproved-append (x ∷ auths) a id h = ground (arith, has_unproved-append auths a id h)

-- One order, where a pending authorisation of order `k` is added.
append-InStep :
    (auths : List AuthorisationRow) (a : AuthorisationRow) (o : OrderRow)
    → is_live a.status ≡ true
    → (o.id ≡ a.order → o.status ≡ OrderStatus.pending)
    → InStep auths o
    → InStep (auths ++ a ∷ []) o
append-InStep auths a o live p s =
    ground (arith, has_failed-append auths a o.id live, has_unproved-append auths a o.id)

append_all-InStep :
    (auths : List AuthorisationRow) (a : AuthorisationRow) (orders : List OrderRow)
    → is_live a.status ≡ true
    → All (λ o. o.id ≡ a.order → o.status ≡ OrderStatus.pending) orders
    → All (InStep auths) orders
    → All (InStep (auths ++ a ∷ [])) orders
append_all-InStep auths a [] live p s = tt
append_all-InStep auths a (o ∷ orders) live p s =
    (append-InStep auths a o live p.0 s.0, append_all-InStep auths a orders live p.1 s.1)

insert_authorisation-Filling :
    (k : ℕ) (new : NewAuthorisation) → Within (Keeps (Filling k)) (insert_authorisation k new)
unfolding insert_authorisation
insert_authorisation-Filling k new = keeping_tx (Filling k) _ λ d h. record {
  healthy = record {
    ids = ((Advance-append authorisations_table d.authorisations _ refl).advance h.healthy.ids).0;
    refs = All-append _ d.authorisations _ h.healthy.refs (h.known, tt);
    in_step = append_all-InStep d.authorisations _ d.orders refl h.waiting h.healthy.in_step;
  };
  known = h.known;
  waiting = h.waiting;
}

challenges-Filling :
    (k : ℕ) (d : Db) (cs : List Challenge) → Filling k d → Filling k (record d { challenges = cs })
challenges-Filling k d cs h = record {
  healthy = record { ids = h.healthy.ids; refs = h.healthy.refs; in_step = h.healthy.in_step };
  known = h.known;
  waiting = h.waiting;
}

insert_challenge-Filling :
    (k a : ℕ) (kind : ChallengeType) (token : Token)
    → Within (Keeps (Filling k)) (insert_challenge a kind token)
unfolding insert_challenge
insert_challenge-Filling k a kind token = keeping_tx (Filling k) _ λ d h.
    elim (Bool-cases (any (λ c. text_eq c.token token) d.challenges)) [
      | inl e ↦ rw e tt
      | inr e ↦ rw e (challenges-Filling k d _ h)
    ]

insert_challenges-Filling :
    (k : ℕ) (draws : Draws) (n a : ℕ) (kinds : List ChallengeType)
    → Within (Keeps (Filling k)) (insert_challenges draws n a kinds)
unfolding insert_challenges
insert_challenges-Filling k draws n a [] = record { at = λ d h. h }
insert_challenges-Filling k draws n a (kind ∷ kinds) =
    let o = keeping (Filling k) in
    Within-bind o (found_or (draws n) random) _ (Within-found_or o _ _) λ bytes.
      Within-bind o _ _ (insert_challenge-Filling k a kind (base64url bytes))
        (λ u. insert_challenges-Filling k draws (suc n) a kinds)

insert_authorisations-Filling :
    (k : ℕ) (draws : Draws) (n : ℕ) (news : List NewAuthorisation)
    → Within (Keeps (Filling k)) (insert_authorisations draws n k news)
unfolding insert_authorisations
insert_authorisations-Filling k draws n [] = record { at = λ d h. h }
insert_authorisations-Filling k draws n (new ∷ rest) =
    let o = keeping (Filling k) in
    Within-bind o _ _ (insert_authorisation-Filling k new) λ a.
      Within-bind o _ _ (insert_challenges-Filling k draws n a new.challenges)
        (λ m. insert_authorisations-Filling k draws m rest)

greatest-append :
    (ns : List ℕ) (k : ℕ) → (greatest ns ≤ greatest (ns ++ k ∷ [])) × (k ≤ greatest (ns ++ k ∷ []))
unfolding greatest
greatest-append [] k = omega arith
greatest-append (n ∷ ns) k = omega (arith, greatest-append ns k)

map-snoc :
    (orders : List OrderRow) (o : OrderRow)
    → map (λ o. o.id) (orders ++ o ∷ []) ≡ map (λ o. o.id) orders ++ o.id ∷ []
map-snoc [] o = refl
map-snoc (x ∷ orders) o = ap (◌∷◌ x.id) (map-snoc orders o)

fresh-has_failed :
    (auths : List AuthorisationRow) (g id : ℕ)
    → All (λ a. a.order ≤ g) auths
    → g < id
    → has_failed auths id ≡ false
unfolding has_failed
fresh-has_failed [] g id h l = refl
fresh-has_failed (a ∷ auths) g id h l = ground (arith, fresh-has_failed auths g id h.1)

below_next :
    (ns : List ℕ) (orders : List OrderRow) (k : ℕ)
    → All (λ n. n < k) (map (λ o. o.id) orders)
    → All (λ o. o.id ≡ k → o.status ≡ OrderStatus.pending) orders
below_next ns [] k h = tt
below_next ns (o ∷ orders) k h = ((λ e. absurd (omega arith)), below_next ns orders k h.1)

-- The database once an order without authorisations is put in.
put_order-Filling :
    (o : OrderRow) (d : Db)
    → o.id ≡ next_id (order_ids d)
    → o.status ≡ OrderStatus.pending
    → Healthy d
    → Filling o.id (record d { orders = d.orders ++ o ∷ [] })
unfolding next_id
put_order-Filling o d e pending h =
    let (old, new) = greatest-append (order_ids d) o.id in
    record {
      healthy = record {
        ids = h.ids;
        refs =
            rw (map-snoc d.orders o)
              (All-map _ _ (λ a l. omega (arith, old, l)) d.authorisations h.refs);
        in_step = All-append _ d.orders (o ∷ []) h.in_step (
          rw pending (
              fresh-has_failed d.authorisations (greatest (order_ids d)) o.id h.refs (omega arith)),
          tt,
        );
      };
      known = rw (map-snoc d.orders o) new;
      waiting =
          All-append _ d.orders (o ∷ [])
            (below_next [] d.orders o.id (
              All-map (λ n. n ≤ greatest (order_ids d)) _ (λ n l. omega arith) (order_ids d)
                (le-greatest (order_ids d))))
            ((λ u. pending), tt);
    }

insert_order-Filling :
    (new : NewOrder) (now : ℕ) (d : Db) (f : ℕ → Tx Order)
    → ((k : ℕ) → Within (Keeps (Filling k)) (f k))
    → Healthy d
    → Committed Healthy ((insert_order new now >>= f) d)
unfolding insert_order
insert_order-Filling new now d f rest h =
    elim (Bool-cases (any (λ a. a.id == new.account) d.accounts)) [
      | inl e ↦ rw e (
          Committed-map _ Healthy (λ d' g. (g (put_order-Filling _ d refl refl h)).healthy) _
            ((rest _).at _))
      | inr e ↦ rw e tt
    ]

-- `create_order` keeps the invariant.
pub create_order-Healthy :
    (draws : Draws) (now : ℕ) (new : NewOrder) → Within (Keeps Healthy) (create_order draws now new)
unfolding create_order
create_order-Healthy draws now new = keeping_tx Healthy _ λ d h.
    insert_order-Filling new now d _
      (λ k.
        let o = keeping (Filling k) in
        Within-bind o _ _ (insert_authorisations-Filling k draws 0 new.authorisations)
          (λ u. search (within_rules, o)))
      h
