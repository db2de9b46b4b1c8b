-- ===== src/Store/Progress/Orders.antt =====
-- The calls on orders, authorisations and challenges advance.
use op_ca.Prelude.{
  ℕ, suc, ◌≡◌, refl, Bool, true, not, ◌&&◌, Option, none, some, List, [], ◌∷◌, arith, Bool-cases,
  inl, inr, any, update_where, ◌==◌, if◌then◌else◌, text_eq,
}
use op_ca.Problem.{ProblemType}
use op_ca.Base64url.{base64url}
use op_ca.Store.Status.{OrderStatus, AuthorisationStatus, ChallengeStatus}
use op_ca.Store.Moves.{
  challenge_is_valid, is_pending, order_may_become, authorisation_may_become, is_open,
}
use op_ca.Store.Tables.{ChallengeType, Token, Db, random, found_or}
use op_ca.Store.Lifecycle.{orders_table, authorisations_table, challenges_table}
use op_ca.Store.Lifecycles.{Reaches, here, next, Advance-update, Advance-append}
use op_ca.Store.Within.{Within-bind, Within-found_or, Within, within_rules}
use op_ca.Store.Settle.{
  fail_order, ready_order, settle_order, settle_order_of, must_fail, has_unproved, awaits,
  has_failed, fail_orders,
}
use op_ca.Store.Orders.{
  NewAuthorisation, NewOrder, Draws, insert_order, insert_authorisation, insert_challenge,
  insert_challenges, insert_authorisations, order, create_order, set_order_error,
  set_challenge_error, set_order_status, set_authorisation_status, stamp_validated,
  decide_authorisation, decided_by, decide, set_challenge_status,
}
use op_ca.Store.Progress.{
  Advances, advancing, with_orders, with_authorisations, with_challenges, transition-Advances,
}

-- The arrows that the queries follow by themselves.
pub failing : (s : OrderStatus) → is_open s ≡ true → Reaches order_may_become s OrderStatus.invalid
unfolding order_may_become
failing OrderStatus.pending h = next here refl
failing OrderStatus.ready h = next here refl
failing _ h = absurd (ground arith)

readying : (s : OrderStatus) → awaits s ≡ true → Reaches order_may_become s OrderStatus.ready
unfolding order_may_become
readying OrderStatus.pending h = next here refl
readying _ h = absurd (ground arith)

pub &&-left : (a b : Bool) → (a && b) ≡ true → a ≡ true
&&-left a b h = ground arith

pub &&-right : (a b : Bool) → (a && b) ≡ true → b ≡ true
&&-right a b h = ground arith

pub fail_orders-Advances : (d : Db) → Advances d (fail_orders d)
unfolding fail_orders must_fail
fail_orders-Advances d = with_orders d _ (
    Advance-update orders_table _ _ (λ o. refl)
      (λ o h. failing o.status (&&-left _ (has_failed d.authorisations o.id) h)) d.orders)

fail_order-Advances : (id : ℕ) (d : Db) → Advances d (fail_order id d)
unfolding fail_order must_fail
fail_order-Advances id d = with_orders d _ (
    Advance-update orders_table _ _ (λ o. refl)
      (λ o h.
        failing o.status (&&-left _ (has_failed d.authorisations o.id) (&&-left _ (o.id == id) h)))
      d.orders)

ready_order-Advances : (id : ℕ) (d : Db) → Advances d (ready_order id d)
unfolding ready_order
ready_order-Advances id d = with_orders d _ (
    Advance-update orders_table _ _ (λ o. refl)
      (λ o h.
        readying o.status
          (&&-left _ (not (has_unproved d.authorisations o.id)) (&&-right (o.id == id) _ h)))
      d.orders)

settle_order-Advances : (id : ℕ) (d : Db) → Advances d (settle_order id d)
unfolding settle_order
settle_order-Advances id d =
    advancing.chain d (fail_order id d) (ready_order id (fail_order id d))
      (fail_order-Advances id d) (ready_order-Advances id (fail_order id d))

settle_order_of-Advances : (a : ℕ) → Within Advances (settle_order_of a)
unfolding settle_order_of
settle_order_of-Advances a = search (within_rules, advancing, settle_order-Advances)

insert_order-Advances : (new : NewOrder) (now : ℕ) → Within Advances (insert_order new now)
unfolding insert_order
insert_order-Advances new now = record {
  at = λ d. elim (Bool-cases (any (λ a. a.id == new.account) d.accounts)) [
    | inl e ↦ rw e (with_orders d _ (Advance-append orders_table d.orders _ refl))
    | inr e ↦ rw e tt
  ];
}

insert_authorisation-Advances :
    (order : ℕ) (new : NewAuthorisation) → Within Advances (insert_authorisation order new)
unfolding insert_authorisation
insert_authorisation-Advances order new = record {
  at = λ d. with_authorisations d _ (Advance-append authorisations_table d.authorisations _ refl);
}

insert_challenge-Advances :
    (a : ℕ) (kind : ChallengeType) (token : Token) → Within Advances (insert_challenge a kind token)
unfolding insert_challenge
insert_challenge-Advances a kind token = record {
  at = λ d. elim (Bool-cases (any (λ c. text_eq c.token token) d.challenges)) [
    | inl e ↦ rw e tt
    | inr e ↦ rw e (with_challenges d _ (Advance-append challenges_table d.challenges _ refl))
  ];
}

insert_challenges-Advances :
    (draws : Draws) (n a : ℕ) (kinds : List ChallengeType)
    → Within Advances (insert_challenges draws n a kinds)
unfolding insert_challenges
insert_challenges-Advances draws n a [] = search (within_rules, advancing)
insert_challenges-Advances draws n a (kind ∷ kinds) =
    Within-bind advancing (found_or (draws n) random) _ (Within-found_or advancing _ _) λ bytes.
      Within-bind advancing _ _ (insert_challenge-Advances a kind (base64url bytes))
        (λ u. insert_challenges-Advances draws (suc n) a kinds)

insert_authorisations-Advances :
    (draws : Draws) (n order : ℕ) (news : List NewAuthorisation)
    → Within Advances (insert_authorisations draws n order news)
unfolding insert_authorisations
insert_authorisations-Advances draws n order [] = search (within_rules, advancing)
insert_authorisations-Advances draws n order (new ∷ rest) =
    let more = λ (m : ℕ). insert_authorisations-Advances draws m order rest in
    search
      (within_rules, advancing, insert_authorisation-Advances, insert_challenges-Advances, more)

pub create_order-Advances :
    (draws : Draws) (now : ℕ) (new : NewOrder) → Within Advances (create_order draws now new)
unfolding create_order
create_order-Advances draws now new =
    search (within_rules, advancing, insert_order-Advances, insert_authorisations-Advances)

set_order_error-Advances :
    (id : ℕ) (error : Option ProblemType) → Within Advances (set_order_error id error)
unfolding set_order_error
set_order_error-Advances id error = record {
  at = λ d. with_orders d _ (Advance-update orders_table _ _ (λ o. refl) (λ o h. here) d.orders);
}

set_challenge_error-Advances :
    (id : ℕ) (error : Option ProblemType) → Within Advances (set_challenge_error id error)
unfolding set_challenge_error
set_challenge_error-Advances id error = record {
  at = λ d.
      with_challenges d _
        (Advance-update challenges_table _ _ (λ o. refl) (λ o h. here) d.challenges);
}

pub set_order_status-Advances :
    (id : ℕ) (to : OrderStatus) (error : Option ProblemType)
    → Within Advances (set_order_status id to error)
unfolding set_order_status
set_order_status-Advances id to error =
    let moved = transition-Advances orders_table with_orders in
    search (within_rules, advancing, moved, set_order_error-Advances)

pub set_authorisation_status-Advances :
    (id : ℕ) (to : AuthorisationStatus) → Within Advances (set_authorisation_status id to)
unfolding set_authorisation_status
set_authorisation_status-Advances id to =
    let moved = transition-Advances authorisations_table with_authorisations in
    search (within_rules, advancing, moved, settle_order_of-Advances)

stamp_challenge-Advances :
    (id now : ℕ) (d : Db)
    → Advances d (record d {
      challenges =
          update_where
            (λ c. c.id == id)
            (λ c. record c { validated = if challenge_is_valid c.status then some now else none })
            d.challenges;
    })
stamp_challenge-Advances id now d =
    with_challenges d _ (Advance-update challenges_table _ _ (λ o. refl) (λ o h. here) d.challenges)

stamp_validated-Advances : (id now : ℕ) → Within Advances (stamp_validated id now)
unfolding stamp_validated
stamp_validated-Advances id now = search (within_rules, advancing, stamp_challenge-Advances)

deciding :
    (to s : AuthorisationStatus)
    → authorisation_may_become AuthorisationStatus.pending to ≡ true
    → is_pending s ≡ true
    → Reaches authorisation_may_become s to
deciding to AuthorisationStatus.pending m h = next here m
deciding to _ m h = absurd (ground arith)

decide_authorisation-Advances :
    (id : ℕ) (to : AuthorisationStatus)
    → authorisation_may_become AuthorisationStatus.pending to ≡ true
    → Within Advances (decide_authorisation id to)
unfolding decide_authorisation
decide_authorisation-Advances id to m = record {
  at = λ d. with_authorisations d _ (
      Advance-update authorisations_table _ _ (λ o. refl)
        (λ o h. deciding to o.status m (&&-right (o.id == id) _ h)) d.authorisations);
}

decide-Advances :
    (id now : ℕ) (to : ChallengeStatus) → Within Advances (decide id now (decided_by to))
unfolding decide decided_by authorisation_may_become
decide-Advances id now ChallengeStatus.valid =
    let decided = λ (a : ℕ). decide_authorisation-Advances a AuthorisationStatus.valid refl in
    search (within_rules, advancing, stamp_validated-Advances, decided, settle_order_of-Advances)
decide-Advances id now ChallengeStatus.invalid =
    let decided = λ (a : ℕ). decide_authorisation-Advances a AuthorisationStatus.invalid refl in
    search (within_rules, advancing, stamp_validated-Advances, decided, settle_order_of-Advances)
decide-Advances id now _ = search (within_rules, advancing)

pub set_challenge_status-Advances :
    (id : ℕ) (to : ChallengeStatus) (error : Option ProblemType) (now : ℕ)
    → Within Advances (set_challenge_status id to error now)
unfolding set_challenge_status
set_challenge_status-Advances id to error now =
    let moved = transition-Advances challenges_table with_challenges in
    search (within_rules, advancing, moved, set_challenge_error-Advances, decide-Advances)
