-- ===== src/Tests/Sync.antt =====
-- The theorems of the sync, of revoking and of restoring at the databases of the tests.
use op_ca.Prelude.{
  eq_iff, length, filter, ◌≤◌, ℕ, ◌-◌, ◌==◌, if◌then◌else◌, ◌≡◌, refl, none, some, List, [], ◌∷◌,
  arith, ok,
}
use op_ca.Store.Tables.{Certificate, Db, Account, Error, empty, after}
use op_ca.Store.Status.{AccountStatus, OrderStatus}
use op_ca.Store.Certificates.{
  revoke, order_by_change, insert_by_change, next_change, mark_revoked, reason_allowed,
  certificate_by_serial, issued_by,
}
use op_ca.Store.Revoked.{UniqueSerials, revoked}
use op_ca.Store.Revoking.{Answers, revoke_lem, waiting-revoke}
use op_ca.Store.Restoring.{replace_from-waiting}
use op_ca.Store.Upkeep.{replaced, is_whole, replace_from, replacement, crl_number_of, last_change}
use op_ca.Sync.{issued, issued_since}
use op_ca.Sync.Complete.{waiting, issued_since-waiting}
use op_ca.Sync.Sorting.{Distinct}

abbrev pub row : ℕ → Certificate
row n = record {
  id = n;
  serial = if n == 1 then "10" else "11";
  account = 1;
  order = 1;
  common_name = none;
  sans = [];
  not_before = 0;
  not_after = 90;
  chain_pem = "pem";
  issuer_serial = "9";
  revoked_at = none;
  revocation_reason = none;
  created = n;
  changed = 3 - n;
}

-- Two certificates, the second changed first.
abbrev pub two : Db
two = record empty { certificates = row 1 ∷ row 2 ∷ []; crl_number = some 4 }

pub two-Distinct : Distinct two.certificates
two-Distinct = (((λ e. omega arith), tt), (tt, tt))

two-UniqueSerials : UniqueSerials two.certificates
two-UniqueSerials = (((λ e. ground (arith, eq_iff "10" "11")), tt), (tt, tt))

pub two_waiting : length (waiting none two 0) ≡ 2
unfolding order_by_change insert_by_change issued_by
two_waiting = refl

issued_since-waiting_example :
    issued_since (λ a. issued none 1 a two) 3 0 [] ≡ some (ok (waiting none two 0))
issued_since-waiting_example =
    issued_since-waiting none 1 two 3 0 two-Distinct (omega arith, (omega arith, tt)) (omega arith)
      (omega arith) (rw two_waiting (omega arith))

revoke_lem_example :
    Answers "10" (some 1) 7 two (certificate_by_serial "10" two) (revoke "10" (some 1) 7 two)
revoke_lem_example = revoke_lem "10" (some 1) 7 two two-UniqueSerials

abbrev pub marked : Certificate
marked = revoked (some 1) 7 3 (row 1)

-- `two` with its first certificate revoked.
abbrev pub two_revoked : Db
two_revoked = record two { certificates = marked ∷ row 2 ∷ [] }

revokes_first : revoke "10" (some 1) 7 two ≡ ok (marked, two_revoked)
unfolding revoke certificate_by_serial mark_revoked reason_allowed next_change
    op_ca.Store.Tables.greatest
revokes_first = refl

waiting-revoke_example :
    (waiting none two_revoked (last_change two) ≡ marked ∷ [])
    × (marked.serial ≡ "10")
    × (marked.revoked_at ≡ some 7)
    × (marked.revocation_reason ≡ some 1)
waiting-revoke_example =
    waiting-revoke "10" (some 1) 7 two two_revoked marked two-UniqueSerials revokes_first

-- A copy taken of `live` when only its first certificate was there.
abbrev rows_of : List Certificate → Db
rows_of certificates = record empty {
  accounts =
      record {
        id = 1;
        jwk = "jwk";
        thumbprint = "t";
        status = AccountStatus.valid;
        contacts = [];
        created = 0;
      }
      ∷ [];
  orders =
      record {
        id = 1;
        account = 1;
        status = OrderStatus.processing;
        identifiers = [];
        not_before = none;
        not_after = none;
        expires = 9;
        error = none;
        certificate = none;
        created = 0;
      }
      ∷ [];
  certificates = certificates;
  crl_number = some 4;
}

abbrev copy : Db
copy = rows_of (row 1 ∷ [])

abbrev live : Db
live = rows_of (row 1 ∷ row 2 ∷ [])

abbrev restored : Db
restored = rows_of (record (row 1) { changed = 4 } ∷ [])

restores : replace_from copy (ok tt) live ≡ ok (tt, restored)
unfolding replace_from replaced replacement is_whole op_ca.Store.Tables.greatest
restores = refl

replace_from-waiting_example :
    (waiting none restored 2 ≡ order_by_change (filter (issued_by none) restored.certificates))
    × Distinct restored.certificates
    × (crl_number_of live ≤ crl_number_of restored)
    × (crl_number_of copy ≤ crl_number_of restored)
replace_from-waiting_example =
    replace_from-waiting copy live restored (ok tt) none 2 (omega arith, tt) (tt, tt) restores
      (unfold op_ca.Store.Tables.greatest in omega arith)
