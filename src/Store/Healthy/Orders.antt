-- ===== src/Store/Healthy/Orders.antt =====
-- The other calls on orders and challenges keep the invariant of the orders.
use op_ca.Prelude.{
  ℕ, ◌≡◌, ◌≢◌, refl, Bool, true, Option, none, some, List, arith, update_where, ◌==◌, if◌then◌else◌,
}
use op_ca.Problem.{ProblemType}
use op_ca.Store.Status.{OrderStatus, AuthorisationStatus, ChallengeStatus}
use op_ca.Store.Moves.{order_may_become, challenge_is_valid}
use op_ca.Store.Tables.{Challenge, Db}
use op_ca.Store.Lifecycle.{orders_table, challenges_table, transition, put_status}
use op_ca.Store.Within.{Within, Within-transition, Within-bind, within_rules}
use op_ca.Store.Settled.{Standing}
use op_ca.Store.Orders.{
  set_order_error, set_order_status, set_challenge_error, stamp_validated, decided_by, decide,
  set_challenge_status,
}
use op_ca.Store.Healthy.{Healthy, Keeps, keeping_tx, keeping, with_orders-Healthy}
use op_ca.Store.Healthy.Settles.{decide_and_settle-Healthy}

-- Only `ready` says anything that a move to it would have to show.
moved-Standing :
    (from to : OrderStatus) (failed unproved : Bool)
    → order_may_become from to ≡ true
    → to ≢ OrderStatus.ready
    → Standing to failed unproved
unfolding order_may_become
moved-Standing from OrderStatus.ready failed unproved h n = absurd (n refl)
moved-Standing from OrderStatus.pending failed unproved h n = absurd (ground arith)
moved-Standing from OrderStatus.processing failed unproved h n = tt
moved-Standing from OrderStatus.valid failed unproved h n = tt
moved-Standing from OrderStatus.invalid failed unproved h n = tt

pub transition-Healthy :
    (id : ℕ) (to : OrderStatus)
    → to ≢ OrderStatus.ready
    → Within (Keeps Healthy) (transition orders_table id to)
transition-Healthy id to n = Within-transition orders_table id to λ d r e m h.
    unfold put_status in
    with_orders-Healthy (λ o. o.id == id) (λ o. record o { status = to }) d (λ o. refl)
      (λ o s t. moved-Standing r.status to _ _ m n) h

set_order_error-Healthy :
    (id : ℕ) (error : Option ProblemType) → Within (Keeps Healthy) (set_order_error id error)
unfolding set_order_error
set_order_error-Healthy id error = keeping_tx Healthy _ λ d h.
    with_orders-Healthy (λ o. o.id == id) (λ o. record o { error = error }) d (λ o. refl)
      (λ o s t. s) h

-- `set_order_status` keeps the invariant, but for a move to `ready` of its own.
pub set_order_status-Healthy :
    (id : ℕ) (to : OrderStatus) (error : Option ProblemType)
    → to ≢ OrderStatus.ready
    → Within (Keeps Healthy) (set_order_status id to error)
unfolding set_order_status
set_order_status-Healthy id to error n =
    Within-bind (keeping Healthy) _ _ (transition-Healthy id to n)
      (λ u. set_order_error-Healthy id error)

-- What is not in the orders and authorisations has no part in the invariant.
pub challenges-Healthy :
    (d : Db) (cs : List Challenge) → Healthy d → Healthy (record d { challenges = cs })
challenges-Healthy d cs h = record { ids = h.ids; refs = h.refs; in_step = h.in_step }

transition_challenge-Healthy :
    (id : ℕ) (to : ChallengeStatus) → Within (Keeps Healthy) (transition challenges_table id to)
transition_challenge-Healthy id to =
    Within-transition challenges_table id to
      λ d r e m h. unfold put_status in challenges-Healthy d _ h

set_challenge_error-Healthy :
    (id : ℕ) (error : Option ProblemType) → Within (Keeps Healthy) (set_challenge_error id error)
unfolding set_challenge_error
set_challenge_error-Healthy id error = keeping_tx Healthy _ λ d h. challenges-Healthy d _ h

stamp-Healthy :
    (id now : ℕ) (d : Db)
    → Keeps Healthy d (record d {
      challenges =
          update_where
            (λ c. c.id == id)
            (λ c. record c { validated = if challenge_is_valid c.status then some now else none })
            d.challenges;
    })
stamp-Healthy id now d h = challenges-Healthy d _ h

stamp_validated-Healthy : (id now : ℕ) → Within (Keeps Healthy) (stamp_validated id now)
unfolding stamp_validated
stamp_validated-Healthy id now = search (within_rules, keeping Healthy, stamp-Healthy) depth 12

decide-Healthy :
    (id now : ℕ) (to : ChallengeStatus) → Within (Keeps Healthy) (decide id now (decided_by to))
unfolding decide decided_by
decide-Healthy id now ChallengeStatus.valid =
    Within-bind (keeping Healthy) _ _ (stamp_validated-Healthy id now)
      (λ a. decide_and_settle-Healthy a AuthorisationStatus.valid refl)
decide-Healthy id now ChallengeStatus.invalid =
    Within-bind (keeping Healthy) _ _ (stamp_validated-Healthy id now)
      (λ a. decide_and_settle-Healthy a AuthorisationStatus.invalid refl)
decide-Healthy id now _ = record { at = λ d h. h }

-- `set_challenge_status` keeps the invariant.
pub set_challenge_status-Healthy :
    (id : ℕ) (to : ChallengeStatus) (error : Option ProblemType) (now : ℕ)
    → Within (Keeps Healthy) (set_challenge_status id to error now)
unfolding set_challenge_status
set_challenge_status-Healthy id to error now =
    let o = keeping Healthy in
    Within-bind o _ _ (transition_challenge-Healthy id to)
      λ u. Within-bind o _ _ (set_challenge_error-Healthy id error) (λ v. decide-Healthy id now to)
