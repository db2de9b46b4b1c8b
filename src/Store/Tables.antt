-- ===== src/Store/Tables.antt =====
-- acme.db: the tables of crates/opca-acme-broker/migrations, each a list of its rows in the order of
-- their rowids, the errors of acme/store.rs, and its transactions.
use op_ca.Prelude.{
  Text, ℕ, suc, max, String, Bool, Option, none, some, List, [], ◌∷◌, Result, ok, err,
}
use op_ca.Problem.{ProblemType}
use op_ca.Store.Status.{AccountStatus, OrderStatus, AuthorisationStatus, ChallengeStatus}

-- A token: the base64url text of 32 random bytes, as its characters' codes.
abbrev pub Token : Type 0
Token = List ℕ

pub data ChallengeType : Type 0 where
  http_01 dns_01 tls_alpn_01 : ChallengeType

pub record Account : Type 0 where
  pub id : ℕ
  pub jwk : String
  pub thumbprint : String
  pub status : AccountStatus
  pub contacts : List Text
  pub created : ℕ

pub record OrderRow : Type 0 where
  pub id : ℕ
  pub account : ℕ
  pub status : OrderStatus
  pub identifiers : List Text
  pub not_before : Option ℕ
  pub not_after : Option ℕ
  pub expires : ℕ
  pub error : Option ProblemType
  pub certificate : Option ℕ
  pub created : ℕ

pub record AuthorisationRow : Type 0 where
  pub id : ℕ
  pub order : ℕ
  pub identifier : Text
  pub wildcard : Bool
  pub status : AuthorisationStatus
  pub expires : ℕ

pub record Challenge : Type 0 where
  pub id : ℕ
  pub authorisation : ℕ
  pub kind : ChallengeType
  pub token : Token
  pub status : ChallengeStatus
  pub validated : Option ℕ
  pub error : Option ProblemType

pub record Certificate : Type 0 where
  pub id : ℕ
  pub serial : String
  pub account : ℕ
  pub order : ℕ
  pub common_name : Option Text
  pub sans : List Text
  pub not_before : ℕ
  pub not_after : ℕ
  pub chain_pem : String
  pub issuer_serial : String
  pub revoked_at : Option ℕ
  pub revocation_reason : Option ℕ
  pub created : ℕ
  pub changed : ℕ

-- `sequence` is the AUTOINCREMENT counter of `certificates`, `crl_number` the one row of its table.
pub record Db : Type 0 where
  pub accounts : List Account
  pub orders : List OrderRow
  pub authorisations : List AuthorisationRow
  pub challenges : List Challenge
  pub certificates : List Certificate
  pub sequence : ℕ
  pub crl_number : Option ℕ

abbrev pub empty : Db
empty = record {
  accounts = [];
  orders = [];
  authorisations = [];
  challenges = [];
  certificates = [];
  sequence = 0;
  crl_number = none;
}

-- What SQLite refuses a statement for, and a `fetch_one` that finds no row.
pub data DbError : Type 0 where
  foreign_key unique check row_not_found : DbError

-- The number or the serial that a row was looked for by.
pub data Key : Type 0 where
  by_id : ℕ → Key
  by_serial : String → Key

-- The enum `Error`, and the panic of an `expect` that finds nothing.
pub data Error : Type 0 where
  refused : DbError → Error
  random : Error
  not_found : String → Key → Error
  transition : String → String → String → Error
  already_revoked : String → Error
  key_in_use : ℕ → Error
  unrestorable : String → Error
  panicked : Error

-- A transaction: an error leaves no database, since what is not committed is rolled back.
abbrev pub Tx : Type 0 → Type 0
Tx A = Db → Result Error (A × Db)

abbrev pub continue : {A B : Type 0} → Result Error (A × Db) → (A → Tx B) → Result Error (B × Db)
continue (ok (a, db)) f = f a db
continue (err e) f = err e

infixl 5 ◌>>=◌ ◌>>◌
abbrev pub ◌>>=◌ : {A B : Type 0} → Tx A → (A → Tx B) → Tx B
◌>>=◌ m f db = continue (m db) f

abbrev pub ◌>>◌ : {A B : Type 0} → Tx A → Tx B → Tx B
m >> n = m >>= λ _. n

abbrev pub pure : {A : Type 0} → A → Tx A
pure a db = ok (a, db)

abbrev pub fail : {A : Type 0} → Error → Tx A
fail e db = err e

abbrev pub read : {A : Type 0} → (Db → A) → Tx A
read f db = ok (f db, db)

abbrev pub write : (Db → Db) → Tx (Unit {0})
write f db = ok (tt, f db)

-- The value of an `Option`, or the error.
abbrev pub found_or : {A : Type 0} → Option A → Error → Tx A
found_or none e db = err e
found_or (some a) e db = ok (a, db)

-- What a caller has after the transaction: the committed database, or the one it began with.
abbrev pub after : {A : Type 0} → Db → Result Error (A × Db) → Db
after db (ok (a, db')) = db'
after db (err e) = db

-- MAX over a column, and an INTEGER PRIMARY KEY's next value.
unfoldable pub greatest : List ℕ → ℕ
greatest [] = 0
greatest (n ∷ ns) = max n (greatest ns)

unfoldable pub next_id : List ℕ → ℕ
next_id ids = suc (greatest ids)
