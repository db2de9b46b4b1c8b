-- ===== src/Store/Upkeep.antt =====
-- The upkeep of acme/store.rs: validations to take up again, what expires, snapshots and restores.
pub mod Taking
use op_ca.Prelude.{
  Text, ℕ, ◌+◌, String, Bool, false, not, ◌&&◌, Option, none, some, List, [], ◌∷◌, ◌++◌, map, any,
  filter, length, all, update_where, ◌==◌, leb, ltb, max, codes, ok, err, Result, if◌then◌else◌,
}
use op_ca.Store.Status.{OrderStatus, AuthorisationStatus}
use op_ca.Store.Moves.{is_open, is_live, is_processing}
use op_ca.Store.Tables.{
  ChallengeType, Account, OrderRow, AuthorisationRow, Challenge, Certificate, Db, Error,
  unrestorable, Tx, ◌>>=◌, ◌>>◌, pure, fail, read, write, greatest,
}
use op_ca.Store.Lifecycle.{accounts_table, orders_table, authorisations_table, row_of}
use op_ca.Store.Settle.{must_fail, fail_orders, set_status}
use op_ca.Store.Certificates.{changes, counts}

pub record Validation : Type 0 where
  pub challenge : ℕ
  pub kind : ChallengeType
  pub identifier : Text
  pub key_authorisation : List ℕ

pub record Expired : Type 0 where
  pub orders : ℕ
  pub authorisations : ℕ

abbrev pub the_account : Option Account → Option String
the_account none = none
the_account (some k) = some k.thumbprint

abbrev pub thumbprint_of : Option OrderRow → Db → Option String
thumbprint_of none d = none
thumbprint_of (some o) d = the_account (row_of accounts_table o.account d)

-- The row that the joins make of a challenge, if there is one. The key authorisation is
-- `{token}.{thumbprint}`.
unfoldable pub joined : Challenge → Option AuthorisationRow → Option String → List Validation
joined c none k = []
joined c (some a) none = []
joined c (some a) (some thumbprint) =
    record {
      challenge = c.id;
      kind = c.kind;
      identifier = a.identifier;
      key_authorisation = c.token ++ codes "." ++ codes thumbprint;
    }
    ∷ []

abbrev pub order_of : Option AuthorisationRow → Db → Option OrderRow
order_of none d = none
order_of (some a) d = row_of orders_table a.order d

unfoldable pub validation_of : Db → Challenge → List Validation
unfolding joined row_of
validation_of d c =
    let a = row_of authorisations_table c.authorisation d in
    joined c a (thumbprint_of (order_of a d) d)

unfoldable pub validations : Db → List Challenge → List Validation
validations d [] = []
validations d (c ∷ cs) = validation_of d c ++ validations d cs

-- The challenges being validated, as a restart left them.
unfoldable pub processing : Db → List Validation
unfolding validations validation_of
processing d = validations d (filter (λ c. is_processing c.status) d.challenges)

abbrev pub stale_authorisation : ℕ → AuthorisationRow → Bool
stale_authorisation now a = is_live a.status && leb a.expires now

abbrev pub stale_order : ℕ → OrderRow → Bool
stale_order now o = is_open o.status && leb o.expires now

unfoldable pub expire_authorisations : ℕ → Db → Db
expire_authorisations now d = record d {
  authorisations =
      update_where (stale_authorisation now)
        (λ a. record a { status = AuthorisationStatus.expired }) d.authorisations;
}

unfoldable pub expire_orders : ℕ → Db → Db
expire_orders now d = record d {
  orders = update_where (stale_order now) (set_status OrderStatus.invalid) d.orders;
}

-- The rows that each statement changes are counted before it changes them.
unfoldable pub expire_stale : ℕ → Tx Expired
expire_stale now = do
  authorisations ← read λ d. length (filter (stale_authorisation now) d.authorisations)
  write (expire_authorisations now)
  expired ← read λ d. length (filter (stale_order now) d.orders)
  write (expire_orders now)
  failed ← read λ d. length (filter (must_fail d.authorisations) d.orders)
  write fail_orders
  pure (record { orders = expired + failed; authorisations = authorisations })

-- The copy keeps no chain of a certificate expired at `now`.
unfoldable pub snapshot : ℕ → Db → Db
snapshot now d = record d {
  certificates =
      update_where (λ c. leb c.not_after now) (λ c. record c { chain_pem = "" }) d.certificates;
}

abbrev dangles : Option ℕ → List Certificate → Bool
dangles none cs = false
dangles (some i) cs = not (any (λ c. c.id == i) cs)

-- `PRAGMA foreign_key_check` finds nothing: every reference has its row.
unfoldable pub is_whole : Db → Bool
is_whole d =
    all (λ o. any (λ a. a.id == o.account) d.accounts && not (dangles o.certificate d.certificates))
      d.orders
    && (all (λ a. any (λ o. o.id == a.order) d.orders) d.authorisations
        && (all (λ c. any (λ a. a.id == c.authorisation) d.authorisations) d.challenges
            && all
                (λ c.
                  any (λ a. a.id == c.account) d.accounts && any (λ o. o.id == c.order) d.orders)
                d.certificates))

-- `restorable_beside`: whether SQLite finds the copy undamaged, and whether its schema is the live
-- database's, are SQLite's answers.
unfoldable pub restorable_beside : Bool → Bool → Db → Result Error ℕ
unfolding is_whole
restorable_beside integrity same_schema copy =
    if not integrity
    then err (unrestorable "it is damaged")
    else if not (is_whole copy)
    then err (unrestorable "a row in it refers to one that is not there")
    else if not same_schema
    then err (unrestorable "its tables are not this broker's")
    else ok (counts none copy).total

abbrev pub last_change : Db → ℕ
last_change d = greatest (changes d.certificates)

abbrev or_zero : Option ℕ → ℕ
or_zero none = 0
or_zero (some n) = n

-- The CRL number of the last CRL signed, 0 before the first.
abbrev pub crl_number_of : Db → ℕ
crl_number_of d = or_zero d.crl_number

-- The last change that either database made.
abbrev pub past_changes : Db → Db → ℕ
past_changes restored live = max (last_change live) (last_change restored)

abbrev pub highest_crl_number : Db → Db → ℕ
highest_crl_number restored live = max (crl_number_of live) (crl_number_of restored)

-- `UPDATE main.certificates SET changed = changed + ?`
abbrev pub advance : ℕ → Certificate → Certificate
advance past c = record c { changed = c.changed + past }

-- Every table replaced by the copy's, its certificates' changes moved past both databases'.
unfoldable pub replacement : Db → Db → Db
replacement restored live = record restored {
  certificates = map (advance (past_changes restored live)) restored.certificates;
  crl_number =
      if ltb 0 (highest_crl_number restored live)
      then some (highest_crl_number restored live)
      else restored.crl_number;
}

unfoldable pub replaced : Db → Tx (Unit {0})
unfolding is_whole replacement
replaced restored live =
    if is_whole (replacement restored live)
    then ok (tt, replacement restored live)
    else fail (unrestorable "a row in it refers to one that is not there") live

-- `before_commit` may still refuse: then nothing is committed.
unfoldable pub replace_from : Db → Result Error (Unit {0}) → Tx (Unit {0})
unfolding replaced
replace_from restored before_commit = do
  replaced restored
  λ d. elim before_commit [ ok u ↦ ok (tt, d) | err e ↦ err e ]
