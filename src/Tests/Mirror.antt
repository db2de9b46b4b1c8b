-- ===== src/Tests/Mirror.antt =====
-- The theorems of the sync into opCA's database at the databases of the tests.
use op_ca.Prelude.{
  ℕ, ◌≡◌, ◌≤◌, ◌==◌, refl, String, none, some, List, [], ◌∷◌, arith, ok, All, eq_iff, true, false,
}
use op_ca.Store.Tables.{Db, Certificate}
use op_ca.Store.Certificates.{issued_by}
use op_ca.Sync.{issued}
use op_ca.Mirror.{BrokerCert, row, try_sync_issued, broker_cursor, record_revoked}
use op_ca.Mirror.Rows.{lookup}
use op_ca.Mirror.Synced.{Copies, InSync, Keyed, try_sync_issued-Copies, but_change}
use op_ca.Mirror.Revoked.{record_revoked-InSync}
use op_ca.Tests.Sync.{two, two-Distinct, two_waiting, marked, two_revoked}

-- Broker 2 issued one certificate; broker 1's two are not synced.
abbrev rows : List BrokerCert
rows = row 2 (op_ca.Tests.Sync.row 2) ∷ []

two-Keyed : Keyed two.certificates
two-Keyed = (
  ((λ e. refl), ((λ e. ground (arith, eq_iff "11" "10")), tt)),
  (((λ e. ground (arith, eq_iff "10" "11")), ((λ e. refl), tt)), tt),
)

starts : broker_cursor 1 rows ≡ 0
unfolding broker_cursor op_ca.Store.Tables.greatest
starts = refl

two-InSync : InSync 1 none two rows
two-InSync = (
  (λ by upto. absurd (omega (arith, upto, starts))),
  ((λ by upto. absurd (omega (arith, upto, starts))), tt),
)

try_sync_issued-Copies_example :
    (after : List BrokerCert) × (try_sync_issued (λ a. issued none 1 a two) 3 1 rows
      ≡ some (ok after))
    × All
        (λ c. issued_by none c ≡ true → Copies 1 after c × (c.changed ≤ broker_cursor 1 after))
        two.certificates
    × ((other : ℕ) (serial : String)
        → (1 == other) ≡ false
        → lookup other serial after ≡ lookup other serial rows)
try_sync_issued-Copies_example =
    try_sync_issued-Copies 1 none 1 3 two rows two-Distinct two-Keyed
      (omega arith, (omega arith, tt)) (omega arith) (rw starts (omega arith))
      (rw (starts, two_waiting) (omega arith)) two-InSync

-- Both are synced, before the first was revoked.
abbrev synced : List BrokerCert
synced = row 1 (op_ca.Tests.Sync.row 1) ∷ row 1 (op_ca.Tests.Sync.row 2) ∷ []

stands : broker_cursor 1 synced ≡ 2
unfolding broker_cursor op_ca.Store.Tables.greatest
stands = refl

finds : lookup 1 "11" synced ≡ some (row 1 (op_ca.Tests.Sync.row 2))
finds = refl

revoked-InSync : InSync 1 none two_revoked synced
revoked-InSync = (
  (λ by upto. absurd (omega (arith, upto, stands))),
  ((λ by upto. (row 1 (op_ca.Tests.Sync.row 2), finds, refl)), tt),
)

record_revoked-InSync_example :
    (broker_cursor 1 (record_revoked (row 1 marked) synced) ≡ broker_cursor 1 synced)
    × InSync 1 none two_revoked (record_revoked (row 1 marked) synced)
    × (r : BrokerCert) × (lookup 1 "10" (record_revoked (row 1 marked) synced) ≡ some r)
    × (but_change r ≡ but_change (row 1 marked))
record_revoked-InSync_example =
    record_revoked-InSync (row 1 marked) none two_revoked synced (rw stands (omega arith))
      ((λ e. refl), ((λ e. ground (arith, eq_iff "11" "10")), tt)) revoked-InSync
