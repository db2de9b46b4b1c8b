-- ===== src/Store/Lifecycle.antt =====
-- The trait `Lifecycle` of acme/store.rs: a status kept in its table's column, and `transition`,
-- which moves it only as RFC 8555 §7.1.6 draws it.
use op_ca.Prelude.{
  ◌≡◌, refl, ℕ, String, Bool, Option, none, List, [], find, update_where, ◌==◌, if◌then◌else◌,
}
use op_ca.Store.Status.{
  AccountStatus, OrderStatus, AuthorisationStatus, ChallengeStatus, Named, account_named,
  order_named, authorisation_named, challenge_named,
}
use op_ca.Store.Moves.{
  account_may_become, order_may_become, authorisation_may_become, challenge_may_become,
}
use op_ca.Store.Tables.{
  Account, OrderRow, AuthorisationRow, Challenge, Db, Error, by_id, Tx, ◌>>=◌, pure, fail, read,
  write, found_or,
}

pub record Lifecycle (S Row : Type 0) : Type 0 where
  pub named : Named S
  pub open named use *
  pub table : String
  pub may_become : S → S → Bool
  pub rows : Db → List Row
  pub with_rows : List Row → Db → Db
  pub key : Row → ℕ
  pub status : Row → S
  pub with_status : S → Row → Row
  -- The row with each column blank that some statement updates.
  pub fixed : Row → Row
  pub rows-with_rows : (rs : List Row) (d : Db) → rows (with_rows rs d) ≡ rs
  pub key-fixed : (r : Row) → key (fixed r) ≡ key r
  pub fixed-with_status : (s : S) (r : Row) → fixed (with_status s r) ≡ fixed r
  pub status-with_status : (s : S) (r : Row) → status (with_status s r) ≡ s

abbrev pub accounts_table : Lifecycle AccountStatus Account
accounts_table = record {
  named = account_named;
  table = "accounts";
  may_become = account_may_become;
  rows = λ d. d.accounts;
  with_rows = λ rs d. record d { accounts = rs };
  key = λ r. r.id;
  status = λ r. r.status;
  with_status = λ s r. record r { status = s };
  fixed = λ r. record r { jwk = ""; thumbprint = ""; status = AccountStatus.valid; contacts = [] };
  rows-with_rows = λ rs d. refl;
  key-fixed = λ r. refl;
  fixed-with_status = λ s r. refl;
  status-with_status = λ s r. refl;
}

abbrev pub orders_table : Lifecycle OrderStatus OrderRow
orders_table = record {
  named = order_named;
  table = "orders";
  may_become = order_may_become;
  rows = λ d. d.orders;
  with_rows = λ rs d. record d { orders = rs };
  key = λ r. r.id;
  status = λ r. r.status;
  with_status = λ s r. record r { status = s };
  fixed = λ r. record r { status = OrderStatus.pending; error = none; certificate = none };
  rows-with_rows = λ rs d. refl;
  key-fixed = λ r. refl;
  fixed-with_status = λ s r. refl;
  status-with_status = λ s r. refl;
}

abbrev pub authorisations_table : Lifecycle AuthorisationStatus AuthorisationRow
authorisations_table = record {
  named = authorisation_named;
  table = "authorisations";
  may_become = authorisation_may_become;
  rows = λ d. d.authorisations;
  with_rows = λ rs d. record d { authorisations = rs };
  key = λ r. r.id;
  status = λ r. r.status;
  with_status = λ s r. record r { status = s };
  fixed = λ r. record r { status = AuthorisationStatus.pending };
  rows-with_rows = λ rs d. refl;
  key-fixed = λ r. refl;
  fixed-with_status = λ s r. refl;
  status-with_status = λ s r. refl;
}

abbrev pub challenges_table : Lifecycle ChallengeStatus Challenge
challenges_table = record {
  named = challenge_named;
  table = "challenges";
  may_become = challenge_may_become;
  rows = λ d. d.challenges;
  with_rows = λ rs d. record d { challenges = rs };
  key = λ r. r.id;
  status = λ r. r.status;
  with_status = λ s r. record r { status = s };
  fixed = λ r. record r { status = ChallengeStatus.pending; validated = none; error = none };
  rows-with_rows = λ rs d. refl;
  key-fixed = λ r. refl;
  fixed-with_status = λ s r. refl;
  status-with_status = λ s r. refl;
}

module _ {S Row : Type 0} (l : Lifecycle S Row) where
  -- The row with a key, as `WHERE id = ?` finds it.
  unfoldable pub row_of : ℕ → Db → Option Row
  row_of i d = find (λ r. l.key r == i) (l.rows d)

  unfoldable pub read_status : ℕ → Tx S
  read_status i = do
    row ← read (row_of i)
    r ← found_or row (Error.not_found l.table (by_id i))
    pure (l.status r)

  -- `UPDATE … SET status = ? WHERE id = ?`
  unfoldable pub put_status : ℕ → S → Db → Db
  put_status i to d = l.with_rows (update_where (λ r. l.key r == i) (l.with_status to) (l.rows d)) d

  unfoldable pub transition : ℕ → S → Tx (Unit {0})
  transition i to = do
    from ← read_status i
    if l.may_become from to
        then write (put_status i to)
        else fail (Error.transition l.table (l.as_str from) (l.as_str to))
