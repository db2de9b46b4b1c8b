-- ===== src/Store/Orders.antt =====
-- The orders of acme/store.rs, their authorisations and challenges: `create_order` to
-- `set_challenge_status`.
use op_ca.Prelude.{
  Text, ℕ, suc, Bool, ◌&&◌, Option, none, some, List, [], ◌∷◌, ◌++◌, map, any, filter, update_where,
  text_eq, ◌==◌, if◌then◌else◌,
}
use op_ca.Problem.{ProblemType}
use op_ca.Base64url.{base64url}
use op_ca.Store.Status.{OrderStatus, AuthorisationStatus, ChallengeStatus}
use op_ca.Store.Moves.{is_pending, challenge_is_valid}
use op_ca.Store.Tables.{
  Token, ChallengeType, OrderRow, AuthorisationRow, Challenge, Db, refused, foreign_key, unique,
  random, panicked, row_not_found, Tx, ◌>>=◌, ◌>>◌, pure, fail, read, write, found_or, next_id,
}
use op_ca.Store.Lifecycle.{orders_table, authorisations_table, challenges_table, row_of, transition}
use op_ca.Store.Settle.{settle_order_of}

pub record NewAuthorisation : Type 0 where
  pub identifier : Text
  pub wildcard : Bool
  pub expires : ℕ
  pub challenges : List ChallengeType

pub record NewOrder : Type 0 where
  pub account : ℕ
  pub identifiers : List Text
  pub not_before : Option ℕ
  pub not_after : Option ℕ
  pub expires : ℕ
  pub authorisations : List NewAuthorisation

-- What `order` reads: the row, and its authorisations' ids.
pub record Order : Type 0 where
  pub row : OrderRow
  pub open row use *
  pub authorisations : List ℕ

-- What `authorisation` reads: the row, and its challenges.
pub record Authorisation : Type 0 where
  pub row : AuthorisationRow
  pub open row use *
  pub challenges : List Challenge

-- The random bytes of the provider's successive draws; `none` is a draw that fails.
abbrev pub Draws : Type 0
Draws = ℕ → Option (List ℕ)

-- `REFERENCES accounts (id)`
abbrev has_account : ℕ → Db → Bool
has_account account d = any (λ a. a.id == account) d.accounts

unfoldable pub insert_order : NewOrder → ℕ → Tx ℕ
insert_order new now d =
    if has_account new.account d
    then (do write (λ d. record d { orders = d.orders ++ row ∷ [] }); pure id) d
    else fail (refused foreign_key) d
  where
    id : ℕ
    id = next_id (map (λ o. o.id) d.orders)

    row : OrderRow
    row = record {
      id = id;
      account = new.account;
      status = OrderStatus.pending;
      identifiers = new.identifiers;
      not_before = new.not_before;
      not_after = new.not_after;
      expires = new.expires;
      error = none;
      certificate = none;
      created = now;
    }

unfoldable pub insert_authorisation : ℕ → NewAuthorisation → Tx ℕ
insert_authorisation order new d =
    (do write (λ d. record d { authorisations = d.authorisations ++ row ∷ [] }); pure id) d
  where
    id : ℕ
    id = next_id (map (λ a. a.id) d.authorisations)

    row : AuthorisationRow
    row = record {
      id = id;
      order = order;
      identifier = new.identifier;
      wildcard = new.wildcard;
      status = AuthorisationStatus.pending;
      expires = new.expires;
    }

-- The column `token` is UNIQUE.
unfoldable pub insert_challenge : ℕ → ChallengeType → Token → Tx (Unit {0})
insert_challenge authorisation kind token d =
    if any (λ c. text_eq c.token token) d.challenges
    then fail (refused unique) d
    else write (λ d. record d { challenges = d.challenges ++ row ∷ [] }) d
  where
    row : Challenge
    row = record {
      id = next_id (map (λ c. c.id) d.challenges);
      authorisation = authorisation;
      kind = kind;
      token = token;
      status = ChallengeStatus.pending;
      validated = none;
      error = none;
    }

-- One challenge of each kind, each with a token of its own; the next draw's number comes back.
unfoldable pub insert_challenges : Draws → ℕ → ℕ → List ChallengeType → Tx ℕ
insert_challenges draws n authorisation [] = pure n
insert_challenges draws n authorisation (kind ∷ kinds) = do
  bytes ← found_or (draws n) random
  insert_challenge authorisation kind (base64url bytes)
  insert_challenges draws (suc n) authorisation kinds

unfoldable pub insert_authorisations : Draws → ℕ → ℕ → List NewAuthorisation → Tx (Unit {0})
insert_authorisations draws n order [] = pure tt
insert_authorisations draws n order (new ∷ rest) = do
  authorisation ← insert_authorisation order new
  m ← insert_challenges draws n authorisation new.challenges
  insert_authorisations draws m order rest

unfoldable pub order : ℕ → Db → Option Order
order id d = elim (row_of orders_table id d) [
  | none ↦ none
  | some o ↦ some (record {
    row = o;
    authorisations = map (λ a. a.id) (filter (λ a. a.order == id) d.authorisations);
  })
]

unfoldable pub authorisation : ℕ → Db → Option Authorisation
authorisation id d = elim (row_of authorisations_table id d) [
  | none ↦ none
  | some a ↦
      some (record { row = a; challenges = filter (λ c. c.authorisation == id) d.challenges })
]

unfoldable pub challenge : ℕ → Db → Option Challenge
challenge id d = row_of challenges_table id d

unfoldable pub create_order : Draws → ℕ → NewOrder → Tx Order
create_order draws now new = do
  id ← insert_order new now
  insert_authorisations draws 0 id new.authorisations
  made ← read (order id)
  found_or made panicked

unfoldable pub set_order_error : ℕ → Option ProblemType → Tx (Unit {0})
set_order_error id error = write λ d. record d {
  orders = update_where (λ o. o.id == id) (λ o. record o { error = error }) d.orders;
}

unfoldable pub set_challenge_error : ℕ → Option ProblemType → Tx (Unit {0})
set_challenge_error id error = write λ d. record d {
  challenges = update_where (λ c. c.id == id) (λ c. record c { error = error }) d.challenges;
}

unfoldable pub set_order_status : ℕ → OrderStatus → Option ProblemType → Tx (Unit {0})
set_order_status id to error = do transition orders_table id to; set_order_error id error

unfoldable pub set_authorisation_status : ℕ → AuthorisationStatus → Tx (Unit {0})
set_authorisation_status id to = do transition authorisations_table id to; settle_order_of id

-- `UPDATE challenges SET validated = … WHERE id = ? RETURNING authorisation`
unfoldable pub stamp_validated : ℕ → ℕ → Tx ℕ
stamp_validated id now = do
  write λ d. record d {
    challenges =
        update_where (λ c. c.id == id)
          (λ c. record c { validated = if challenge_is_valid c.status then some now else none })
          d.challenges;
  }
  row ← read (row_of challenges_table id)
  c ← found_or row (refused row_not_found)
  pure c.authorisation

-- `UPDATE authorisations SET status = ? WHERE id = ? AND status = 'pending'`
unfoldable pub decide_authorisation : ℕ → AuthorisationStatus → Tx (Unit {0})
decide_authorisation id decided = write λ d. record d {
  authorisations =
      update_where (λ a. (a.id == id) && is_pending a.status) (λ a. record a { status = decided })
        d.authorisations;
}

-- What a challenge's new status makes of its authorisation.
unfoldable pub decided_by : ChallengeStatus → Option AuthorisationStatus
decided_by ChallengeStatus.valid = some AuthorisationStatus.valid
decided_by ChallengeStatus.invalid = some AuthorisationStatus.invalid
decided_by _ = none

unfoldable pub decide : ℕ → ℕ → Option AuthorisationStatus → Tx (Unit {0})
decide id now none = pure tt
decide id now (some decided) = do
  authorisation ← stamp_validated id now
  decide_authorisation authorisation decided
  settle_order_of authorisation

unfoldable pub set_challenge_status : ℕ → ChallengeStatus → Option ProblemType → ℕ → Tx (Unit {0})
set_challenge_status id to error now = do
  transition challenges_table id to
  set_challenge_error id error
  decide id now (decided_by to)
