-- ===== src/Tests/CaDatabase.antt =====
-- A small CA's database, scanned, published and counted.
use op_ca.Prelude.{
  Text, codes, ◌+◌, ◌-◌, ◌≡◌, ◌≤◌, refl, String, true, false, Option, none, some, [], ◌∷◌, ok,
  arith, All, find, if◌then◌else◌, str_eq, length, text_eq,
}
use op_ca.Decimal.Signed.{parse_i64, print_i64, trim, zero_i64, skip_white, skip_white_end}
use op_ca.Decimal.{print, digits, parse_unsigned, read_digits}
use op_ca.CaDatabase.{
  SerialType, CertRecord, CaDb, has_serial, has_text, mark_cert_published, current_value,
  query_cert, update_cert,
}
use op_ca.CaDatabase.Standing.{
  Outside, days, query_all_certs_including_deleted, current_valid, standing_at,
}
use op_ca.CaDatabase.Processing.{
  process_ca_database, process_certs, process_externals, cleared, crl_entries, entries_of,
}
use op_ca.CaDatabase.Scanning.{written, changes}
use op_ca.CaDatabase.Again.{written-stays}
use op_ca.CaDatabase.Serials.{take_serials, of_type, Rising, take_serials-Rising}
use op_ca.CaDatabase.Publishing.{is_published, mark_cert_published-One}

numbers :
    (parse_i64 (codes "-5") ≡ some (zero_i64 - 5))
    × (parse_i64 (codes "-+5") ≡ none)
    × (current_value (some (codes " 41 ")) ≡ zero_i64 + 41)
    × (current_value (some (codes "")) ≡ zero_i64 + 1)
    × (print_i64 (zero_i64 + 41) ≡ codes "41")
unfolding parse_i64 read_digits parse_unsigned trim skip_white skip_white_end print_i64 print digits
numbers = (refl, refl, refl, refl, refl)

abbrev cert : String → String → String → Option String → CertRecord
cert serial cn expiry published = record {
  serial = codes serial;
  cn = some cn;
  title = none;
  status = some "Valid";
  expiry_date = some expiry;
  revocation_date = none;
  subject = none;
  cert_type = none;
  not_before = none;
  key_type = none;
  key_size = none;
  issuer = none;
  san = none;
  ignored_at = none;
  ignored_by = none;
  ignored_reason = none;
  ignored_note = none;
  has_private_key = none;
  has_chain = none;
  deleted_at = none;
  published_at = published;
}

abbrev db : CaDb
db = record {
  counters = record { next_serial = none; next_crl_serial = none };
  certs = cert "1" "a" "past" (some "t0") ∷ cert "2" "a" "later" none ∷ [];
  externals = [];
  standings = cleared [];
  dirty = true;
}

take_serials-Rising_example :
    All
      (λ n. zero_i64 + 1 ≤ n)
      (of_type SerialType.cert (
        take_serials
          ((SerialType.cert, none)
            ∷ (SerialType.crl, none)
            ∷ (SerialType.cert, some (zero_i64 + 9))
            ∷ [])
          db))
    × Rising (
        of_type SerialType.cert (
          take_serials
            ((SerialType.cert, none)
              ∷ (SerialType.crl, none)
              ∷ (SerialType.cert, some (zero_i64 + 9))
              ∷ [])
            db))
take_serials-Rising_example =
    take_serials-Rising SerialType.cert
      ((SerialType.cert, none)
        ∷ (SerialType.crl, none)
        ∷ (SerialType.cert, some (zero_i64 + 9))
        ∷ [])
      db (omega arith) (omega arith) (tt, (tt, (omega arith, tt)))

-- `db` with the second certificate published for the name.
abbrev published : CaDb
published = record db { certs = cert "1" "a" "past" none ∷ cert "2" "a" "later" (some "t1") ∷ [] }

publishes : mark_cert_published "t1" (codes "2") "a" db ≡ ok published
unfolding mark_cert_published
publishes = refl

mark_cert_published-One_example :
    All (λ c. has_text "a" c.cn ≡ true → is_published c ≡ has_serial (codes "2") c) published.certs
    × ((other : Text) (c : CertRecord)
        → find (has_serial other) db.certs ≡ some c
        → text_eq (codes "2") other ≡ false
        → has_text "a" c.cn ≡ false
        → find (has_serial other) published.certs ≡ some c)
mark_cert_published-One_example =
    mark_cert_published-One "t1" (codes "2") "a" db published publishes

abbrev outside : Outside
outside = record {
  now = days 100;
  now_text = "now";
  read_time = λ t. if str_eq t "past" then some (days 99) else some (days 400);
  cast_integer = λ s. length s;
}

-- The first expires, the second is revoked and listed.
scan :
    crl_entries (process_ca_database outside (some (codes "2")) false db).1
    ≡ (record { serial = codes "2"; revocation_date = "now" }) ∷ []
unfolding crl_entries process_ca_database entries_of process_certs query_all_certs_including_deleted
    standing_at update_cert process_externals current_valid query_cert
scan = refl

written-stays_example :
    (changes outside none (written outside (some (codes "2")) (cert "2" "a" "later" none)) ≡ false)
    × (written outside none (written outside (some (codes "2")) (cert "2" "a" "later" none))
        ≡ written outside (some (codes "2")) (cert "2" "a" "later" none))
written-stays_example = written-stays outside (some (codes "2")) (cert "2" "a" "later" none)
