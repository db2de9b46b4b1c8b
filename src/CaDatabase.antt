-- ===== src/CaDatabase.antt =====
-- opCA's own database, crates/opca-core/src/services/database/mod.rs: the counters of `increment_serial`
-- and the certificates that the CA issued. A statement finds its row or fails; the clock's text is an
-- argument.

pub mod Serials
pub mod Publishing
pub mod Standing
pub mod Processing
pub mod Scanning
pub mod Found
pub mod Sets
pub mod Spelled
pub mod Written
pub mod Settled
pub mod Listing
pub mod Again
use op_ca.Prelude.{
  Text, text_eq, ℕ, ◌+◌, ◌%◌, ◌^◌, String, Bool, true, false, not, ◌&&◌, ◌||◌, Option, none, some,
  List, [], ◌∷◌, ◌++◌, Result, ok, err, any, filter, find, update_where, ltb, str_eq, if◌then◌else◌,
}
use op_ca.Decimal.Signed.{parse_i64, print_i64, trim, zero_i64}

pub data SerialType : Type 0 where
  cert : SerialType
  crl : SerialType

-- The columns of the one row of `config` that `increment_serial` moves.
pub record Counters : Type 0 where
  pub next_serial : Option Text
  pub next_crl_serial : Option Text

pub record CertRecord : Type 0 where
  pub serial : Text
  pub cn : Option String
  pub title : Option String
  pub status : Option String
  pub expiry_date : Option String
  pub revocation_date : Option String
  pub subject : Option String
  pub cert_type : Option String
  pub not_before : Option String
  pub key_type : Option String
  pub key_size : Option ℕ
  pub issuer : Option String
  pub san : Option String
  pub ignored_at : Option String
  pub ignored_by : Option String
  pub ignored_reason : Option String
  pub ignored_note : Option String
  pub has_private_key : Option Bool
  pub has_chain : Option Bool
  pub deleted_at : Option String
  pub published_at : Option String

pub record ExternalCertRecord : Type 0 where
  pub serial : Text
  pub cn : Option String
  pub title : Option String
  pub status : Option String
  pub expiry_date : Option String
  pub subject : Option String
  pub issuer : Option String
  pub issuer_subject : Option String
  pub import_date : Option String
  pub cert_type : Option String
  pub not_before : Option String
  pub key_type : Option String
  pub key_size : Option ℕ
  pub san : Option String
  pub has_private_key : Option Bool
  pub has_chain : Option Bool

-- What the last scan found. A set is the list of its members, a map that of its pairs.
pub record Standings : Type 0 where
  pub certs_expired : List Text
  pub certs_expires_soon : List Text
  pub certs_expires_warning : List Text
  pub certs_revoked : List Text
  pub certs_valid : List Text
  pub certs_ignored : List Text
  pub certs_superseded : List Text
  pub replacements : List (Text × Text)
  pub valid_cn_to_serial : List (String × Text)
  pub ext_certs_expired : List Text
  pub ext_certs_expires_soon : List Text
  pub ext_certs_expires_warning : List Text
  pub ext_certs_valid : List Text

pub data DatabaseError : Type 0 where
  database : DatabaseError
  certificate_not_found : DatabaseError

pub record CaDb : Type 0 where
  pub counters : Counters
  pub certs : List CertRecord
  pub externals : List ExternalCertRecord
  pub standings : Standings
  pub dirty : Bool

abbrev pub counter : SerialType → Counters → Option Text
counter cert c = c.next_serial
counter crl c = c.next_crl_serial

abbrev pub with_counter : SerialType → Text → Counters → Counters
with_counter cert t c = record c { next_serial = some t }
with_counter crl t c = record c { next_crl_serial = some t }

abbrev or_one : Option ℕ → ℕ
or_one none = zero_i64 + 1
or_one (some n) = n

-- A counter that is blank or no number starts at 1.
abbrev pub current_value : Option Text → ℕ
current_value none = zero_i64 + 1
current_value (some raw) = or_one (parse_i64 (trim raw))

-- Forward to a serial that the caller asks for.
abbrev pub bumped : Option ℕ → ℕ → ℕ
bumped none current = current
bumped (some sn) current = if ltb current sn then sn else current

-- `current_value + 1` on an `i64`, as a release build has it.
unfoldable pub increment_serial : SerialType → Option ℕ → CaDb → ℕ × CaDb
increment_serial type asked d =
    let current = bumped asked (current_value (counter type d.counters)) in
    (
      current,
      record d {
        counters = with_counter type (print_i64 ((current + 1) % 2 ^ 64)) d.counters;
        dirty = true;
      },
    )

abbrev pub has_serial : Text → CertRecord → Bool
has_serial serial c = text_eq c.serial serial

-- UPDATE certificate_authority SET … WHERE …
abbrev pub updated :
    DatabaseError
    → (CertRecord → Bool)
    → (CertRecord → CertRecord)
    → CaDb
    → Result DatabaseError CaDb
updated e where_ set d =
    if any where_ d.certs
    then ok (record d { certs = update_where where_ set d.certs; dirty = true })
    else err e

-- `serial` is the primary key.
unfoldable pub add_cert : CertRecord → CaDb → Result DatabaseError CaDb
add_cert r d =
    if any (has_serial r.serial) d.certs
    then err database
    else ok (record d { certs = d.certs ++ r ∷ []; dirty = true })

unfoldable pub update_cert : CertRecord → CaDb → Result DatabaseError CaDb
update_cert r d = updated database (has_serial r.serial) (λ c. record r { serial = c.serial }) d

unfoldable pub update_external_cert : ExternalCertRecord → CaDb → Result DatabaseError CaDb
update_external_cert r d =
    if any (λ x. text_eq x.serial r.serial) d.externals
    then ok (record d {
      externals =
          update_where (λ x. text_eq x.serial r.serial) (λ x. record r { serial = x.serial })
            d.externals;
    })
    else err database

unfoldable pub ignore_cert :
    String → Text → String → String → Option String → CaDb → Result DatabaseError CaDb
ignore_cert now serial reason by note d =
    updated database (has_serial serial)
      (λ c. record c {
        ignored_at = some now;
        ignored_by = some by;
        ignored_reason = some reason;
        ignored_note = note;
      })
      d

unfoldable pub unignore_cert : Text → CaDb → Result DatabaseError CaDb
unignore_cert serial d =
    updated database (has_serial serial)
      (λ c. record c {
        ignored_at = none;
        ignored_by = none;
        ignored_reason = none;
        ignored_note = none;
      })
      d

abbrev pub is_null : Option String → Bool
is_null none = true
is_null (some t) = false

unfoldable pub mark_cert_deleted : String → Text → CaDb → Result DatabaseError CaDb
mark_cert_deleted now serial d =
    updated certificate_not_found (λ c. has_serial serial c && is_null c.deleted_at)
      (λ c. record c { deleted_at = some now }) d

-- `cn = …`, which NULL never passes.
abbrev pub has_text : String → Option String → Bool
has_text t none = false
has_text t (some u) = str_eq u t

-- CASE WHEN serial = … THEN … END
abbrev pub stamped : String → Text → CertRecord → CertRecord
stamped now serial c = record c { published_at = if has_serial serial c then some now else none }

unfoldable pub mark_cert_published : String → Text → String → CaDb → Result DatabaseError CaDb
mark_cert_published now serial cn d =
    updated certificate_not_found
      (λ c. has_serial serial c || (has_text cn c.cn && not (is_null c.published_at)))
      (stamped now serial) d

pub data CertLookup : Type 0 where
  by_serial : Text → CertLookup
  by_cn : String → CertLookup
  by_title : String → CertLookup

abbrev pub looked_up : CertLookup → CertRecord → Bool
looked_up (by_serial s) c = has_serial s c
looked_up (by_cn s) c = has_text s c.cn
looked_up (by_title s) c = has_text s c.title

unfoldable pub query_cert : CertLookup → Bool → CaDb → Option CertRecord
query_cert lookup valid_only d =
    find (λ c. looked_up lookup c && (not valid_only || has_text "Valid" c.status)) d.certs
