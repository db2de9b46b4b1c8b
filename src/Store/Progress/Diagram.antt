-- ===== src/Store/Progress/Diagram.antt =====
-- The moves of each status, drawn one by one, and what the calls together do to the tables.
use op_ca.Prelude.{◌≡◌, true, List, [], ◌∷◌, map}
use op_ca.Store.Status.{AccountStatus, OrderStatus, AuthorisationStatus, ChallengeStatus}
use op_ca.Store.Moves.{
  account_may_become, order_may_become, authorisation_may_become, challenge_may_become,
}
use op_ca.Store.Tables.{Db}
use op_ca.Store.Lifecycle.{
  Lifecycle, accounts_table, orders_table, authorisations_table, challenges_table,
}
use op_ca.Store.Lifecycles.{Reaches, here, next, Rising, Extends, Advance}
use op_ca.Store.Calls.{Call, run}
use op_ca.Store.Progress.{Stands}
use op_ca.Store.Progress.Run.{run-Advances}

pub data AccountMove : AccountStatus → AccountStatus → Type 0 where
  deactivates : AccountMove AccountStatus.valid AccountStatus.deactivated
  revokes : AccountMove AccountStatus.valid AccountStatus.revoked

pub data OrderMove : OrderStatus → OrderStatus → Type 0 where
  all_authorised : OrderMove OrderStatus.pending OrderStatus.ready
  not_authorised : OrderMove OrderStatus.pending OrderStatus.invalid
  finalises : OrderMove OrderStatus.ready OrderStatus.processing
  lapses : OrderMove OrderStatus.ready OrderStatus.invalid
  issues : OrderMove OrderStatus.processing OrderStatus.valid
  fails_issuing : OrderMove OrderStatus.processing OrderStatus.invalid

pub data AuthorisationMove : AuthorisationStatus → AuthorisationStatus → Type 0 where
  proves : AuthorisationMove AuthorisationStatus.pending AuthorisationStatus.valid
  fails_proof : AuthorisationMove AuthorisationStatus.pending AuthorisationStatus.invalid
  withdraws : AuthorisationMove AuthorisationStatus.pending AuthorisationStatus.deactivated
  runs_out : AuthorisationMove AuthorisationStatus.pending AuthorisationStatus.expired
  deactivates : AuthorisationMove AuthorisationStatus.valid AuthorisationStatus.deactivated
  expires : AuthorisationMove AuthorisationStatus.valid AuthorisationStatus.expired
  revokes : AuthorisationMove AuthorisationStatus.valid AuthorisationStatus.revoked

-- The store also puts a challenge that was being validated back.
pub data ChallengeMove : ChallengeStatus → ChallengeStatus → Type 0 where
  answers : ChallengeMove ChallengeStatus.pending ChallengeStatus.processing
  put_back : ChallengeMove ChallengeStatus.processing ChallengeStatus.pending
  succeeds : ChallengeMove ChallengeStatus.processing ChallengeStatus.valid
  fails : ChallengeMove ChallengeStatus.processing ChallengeStatus.invalid

-- A number of moves one after another, none included.
pub data Moves {S : Type 0} (Move : S → S → Type 0) : S → S → Type 0 where
  none_yet : {s : S} → Moves Move s s
  one_more : {s t u : S} → Moves Move s t → Move t u → Moves Move s u

account_move : (s t : AccountStatus) → account_may_become s t ≡ true → AccountMove s t
unfolding account_may_become
account_move AccountStatus.valid AccountStatus.valid e = absurd (cc e)
account_move AccountStatus.valid AccountStatus.deactivated e = AccountMove.deactivates
account_move AccountStatus.valid AccountStatus.revoked e = AccountMove.revokes
account_move AccountStatus.deactivated t e = absurd (cc e)
account_move AccountStatus.revoked t e = absurd (cc e)

order_move : (s t : OrderStatus) → order_may_become s t ≡ true → OrderMove s t
unfolding order_may_become
order_move OrderStatus.pending OrderStatus.ready e = all_authorised
order_move OrderStatus.pending OrderStatus.invalid e = not_authorised
order_move OrderStatus.ready OrderStatus.processing e = finalises
order_move OrderStatus.ready OrderStatus.invalid e = lapses
order_move OrderStatus.processing OrderStatus.valid e = issues
order_move OrderStatus.processing OrderStatus.invalid e = fails_issuing
order_move _ _ e = absurd (cc e)

authorisation_move :
    (s t : AuthorisationStatus) → authorisation_may_become s t ≡ true → AuthorisationMove s t
unfolding authorisation_may_become
authorisation_move AuthorisationStatus.pending AuthorisationStatus.valid e = proves
authorisation_move AuthorisationStatus.pending AuthorisationStatus.invalid e = fails_proof
authorisation_move AuthorisationStatus.pending AuthorisationStatus.deactivated e = withdraws
authorisation_move AuthorisationStatus.pending AuthorisationStatus.expired e = runs_out
authorisation_move AuthorisationStatus.valid AuthorisationStatus.deactivated e =
    AuthorisationMove.deactivates
authorisation_move AuthorisationStatus.valid AuthorisationStatus.expired e = expires
authorisation_move AuthorisationStatus.valid AuthorisationStatus.revoked e =
    AuthorisationMove.revokes
authorisation_move _ _ e = absurd (cc e)

challenge_move : (s t : ChallengeStatus) → challenge_may_become s t ≡ true → ChallengeMove s t
unfolding challenge_may_become
challenge_move ChallengeStatus.pending ChallengeStatus.processing e = answers
challenge_move ChallengeStatus.processing ChallengeStatus.pending e = put_back
challenge_move ChallengeStatus.processing ChallengeStatus.valid e = succeeds
challenge_move ChallengeStatus.processing ChallengeStatus.invalid e = fails
challenge_move _ _ e = absurd (cc e)

module _ {S Row : Type 0} (l : Lifecycle S Row) (M : S → S → Type 0) where
  -- The rows are in place with the columns that no statement is to update, and only moved.
  abbrev pub Moved : Row → Row → Type 0
  Moved x y = (l.fixed x ≡ l.fixed y) × Moves M (l.status x) (l.status y)

  -- The ids of the table still rise, and its rows only moved.
  abbrev pub Progress : List Row → List Row → Type 0
  Progress xs ys = Rising (map l.key xs) → Rising (map l.key ys) × Extends Moved xs ys

  module _ (drawn : (s t : S) → l.may_become s t ≡ true → M s t) where
    moves : {s t : S} → Reaches l.may_become s t → Moves M s t
    moves here = none_yet
    moves (next p e) = one_more (moves p) (drawn _ _ e)

    moved :
        (xs ys : List Row)
        → Extends
            (λ x y. (l.fixed x ≡ l.fixed y) × Reaches l.may_become (l.status x) (l.status y))
            xs
            ys
        → Extends Moved xs ys
    moved [] ys h = tt
    moved (x ∷ xs) [] h = h
    moved (x ∷ xs) (y ∷ ys) h = ((h.0.0, moves h.0.1), moved xs ys h.1)

    progress : (xs ys : List Row) → Advance l xs ys → Progress xs ys
    progress xs ys a r = let (rises, extends) = a.advance r in (rises, moved xs ys extends)

pub record Progresses (d d' : Db) : Type 0 where
  pub accounts : Progress accounts_table AccountMove d.accounts d'.accounts
  pub orders : Progress orders_table OrderMove d.orders d'.orders
  pub authorisations :
      Progress authorisations_table AuthorisationMove d.authorisations d'.authorisations
  pub challenges : Progress challenges_table ChallengeMove d.challenges d'.challenges
  pub certificates : Extends Stands d.certificates d'.certificates

-- Whatever the calls, failing ones included (a restore is no such call): in a table of accounts, orders,
-- authorisations or challenges whose ids rise along it, the ids rise along it afterwards, every row is
-- still in its place with all the columns that no statement is to update, and its status is one that the
-- drawn moves lead to from the old. They are those of RFC 8555 §7.1.6, and the way back of a challenge
-- from processing to pending, which is not there. Every certificate is in its place as it was issued, and
-- one that was revoked is as it was altogether.
pub run-Progresses : (d : Db) (calls : List Call) → Progresses d (run d calls)
run-Progresses d calls =
    let a = run-Advances d calls in
    record {
      accounts = progress accounts_table AccountMove account_move _ _ a.accounts;
      orders = progress orders_table OrderMove order_move _ _ a.orders;
      authorisations =
          progress authorisations_table AuthorisationMove authorisation_move _ _ a.authorisations;
      challenges = progress challenges_table ChallengeMove challenge_move _ _ a.challenges;
      certificates = a.certificates;
    }
