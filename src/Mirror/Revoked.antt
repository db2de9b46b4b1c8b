-- ===== src/Mirror/Revoked.antt =====
-- A revocation through opCA does not move the cursor.
use op_ca.Prelude.{
  ◌≡◌, ◌≤◌, refl, ◌∙◌, String, true, Option, some, List, arith, All, All-both, min, eq_iff, eq_refl,
  Bool-cases, inl, inr, not, filter,
}
use op_ca.Store.Tables.{Certificate, Db}
use op_ca.Mirror.{BrokerCert, row, has_key, insert_or_replace, broker_cursor, record_revoked}
use op_ca.Mirror.Rows.{lookup, has_serial, lookup-insert, cursor-append, cursor-filter-le}
use op_ca.Mirror.Synced.{Copies, InSync, but_change}

cursor-insert :
    (r : BrokerCert) (rows : List BrokerCert)
    → r.changed ≡ broker_cursor r.broker_id rows
    → broker_cursor r.broker_id (insert_or_replace r rows) ≡ broker_cursor r.broker_id rows
unfolding insert_or_replace
cursor-insert r rows e = ground (
  arith,
  cursor-append r.broker_id r (filter (λ x. not (has_key r.broker_id r.serial x)) rows),
  cursor-filter-le r.broker_id (λ x. not (has_key r.broker_id r.serial x)) rows,
)

insert-Copies :
    (low : BrokerCert) (rows : List BrokerCert) (c : Certificate)
    → (has_serial low.serial c ≡ true → but_change low ≡ but_change (row low.broker_id c))
    → Copies low.broker_id rows c
    → Copies low.broker_id (insert_or_replace low rows) c
insert-Copies low rows c h (r, found, same) = elim (Bool-cases (has_serial low.serial c)) [
  | inl e ↦ (
    low,
    lookup-insert low.broker_id c.serial low rows
        ∙ ground (arith, eq_iff low.serial c.serial, eq_iff c.serial low.serial),
    h e,
  )
  | inr e ↦ (
    r,
    lookup-insert low.broker_id c.serial low rows
        ∙ ground (arith, eq_iff low.serial c.serial, eq_iff c.serial low.serial),
    same,
  )
]

-- Where the broker numbered the revocation at or past the cursor and the row is what it has for that
-- serial, recording the row leaves the cursor where it was and the table in step with the broker, and
-- the row is there with the revocation.
pub record_revoked-InSync :
    (revoked : BrokerCert) (issuers : Option (List String)) (d : Db) (rows : List BrokerCert)
    → broker_cursor revoked.broker_id rows ≤ revoked.changed
    → All
        (λ c.
          has_serial revoked.serial c ≡ true
          → but_change revoked ≡ but_change (row revoked.broker_id c))
        d.certificates
    → InSync revoked.broker_id issuers d rows
    → (broker_cursor revoked.broker_id (record_revoked revoked rows)
        ≡ broker_cursor revoked.broker_id rows)
      × InSync revoked.broker_id issuers d (record_revoked revoked rows)
      × (r : BrokerCert) × (lookup revoked.broker_id revoked.serial (record_revoked revoked rows)
          ≡ some r)
      × (but_change r ≡ but_change revoked)
unfolding record_revoked
record_revoked-InSync revoked issuers d rows past is in_sync =
    let id = revoked.broker_id in
    let low : BrokerCert = record revoked {
      changed = min revoked.changed (broker_cursor id rows);
    } in
    let same : broker_cursor id (insert_or_replace low rows) ≡ broker_cursor id rows =
      cursor-insert low rows (omega arith) in
    (
      same,
      All-both _ _ _ (λ c h f by upto. insert-Copies low rows c h (f by (rw (← same) upto)))
          d.certificates is in_sync,
      low,
      lookup-insert id revoked.serial low rows ∙ ground (arith, eq_refl revoked.serial),
      refl,
    )
