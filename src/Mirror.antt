-- ===== src/Mirror.antt =====
-- What opCA keeps of the certificates that its brokers issued: the table broker_certs of
-- crates/opca-core/src/services/database/mod.rs, and the sync into it of
-- crates/opca-core/src/services/acme_broker/mod.rs. A time is the same number in either format.
pub mod Rows
pub mod Synced
pub mod Revoked
use op_ca.Prelude.{
  Text, ℕ, ◌^◌, min, String, Bool, not, ◌&&◌, Option, none, some, List, [], ◌∷◌, ◌++◌, Result, ok,
  err, bind, map, filter, find, ltb, ◌==◌, str_eq, if◌then◌else◌,
}
use op_ca.Store.Tables.{Certificate, Db, greatest}
use op_ca.Sync.{IssuedPage, ErrorKind, issued_since}

pub record BrokerCert : Type 0 where
  pub broker_id : ℕ
  pub serial : String
  pub common_name : Option Text
  pub sans : List Text
  pub not_before : ℕ
  pub not_after : ℕ
  pub issuer_serial : String
  pub revoked_at : Option ℕ
  pub revocation_reason : Option ℕ
  pub changed : ℕ

abbrev pub row : ℕ → Certificate → BrokerCert
row id c = record {
  broker_id = id;
  serial = c.serial;
  common_name = c.common_name;
  sans = c.sans;
  not_before = c.not_before;
  not_after = c.not_after;
  issuer_serial = c.issuer_serial;
  revoked_at = c.revoked_at;
  revocation_reason = c.revocation_reason;
  changed = c.changed;
}

-- What a sync ends with.
pub data SyncError : Type 0 where
  refused_page : ErrorKind → SyncError
  out_of_range : SyncError

-- A change must fit an `i64`.
unfoldable pub broker_cert : ℕ → Certificate → Result SyncError BrokerCert
broker_cert id c = if ltb c.changed (2 ^ 63) then ok (row id c) else err out_of_range

unfoldable pub broker_certs : ℕ → List Certificate → Result SyncError (List BrokerCert)
broker_certs id [] = ok []
broker_certs id (c ∷ cs) =
    bind (broker_cert id c) (λ r. bind (broker_certs id cs) (λ rs. ok (r ∷ rs)))

-- PRIMARY KEY (broker_id, serial)
abbrev pub has_key : ℕ → String → BrokerCert → Bool
has_key id serial r = (r.broker_id == id) && str_eq r.serial serial

-- INSERT OR REPLACE
unfoldable pub insert_or_replace : BrokerCert → List BrokerCert → List BrokerCert
insert_or_replace r rows = filter (λ x. not (has_key r.broker_id r.serial x)) rows ++ r ∷ []

unfoldable pub record_broker_certs : List BrokerCert → List BrokerCert → List BrokerCert
record_broker_certs [] rows = rows
record_broker_certs (r ∷ rs) rows = record_broker_certs rs (insert_or_replace r rows)

-- Where broker `id`'s next sync starts: the last change recorded from it, or 0.
unfoldable pub broker_cursor : ℕ → List BrokerCert → ℕ
broker_cursor id rows = greatest (map (λ r. r.changed) (filter (λ r. r.broker_id == id) rows))

unfoldable pub record_issued :
    ℕ → List Certificate → List BrokerCert → Result SyncError (List BrokerCert)
record_issued id issued rows =
    bind (broker_certs id issued) (λ certs. ok (record_broker_certs certs rows))

abbrev pub recorded :
    ℕ
    → List BrokerCert
    → Option (Result ErrorKind (List Certificate))
    → Option (Result SyncError (List BrokerCert))
recorded id rows none = none
recorded id rows (some (err e)) = some (err (refused_page e))
recorded id rows (some (ok certs)) = some (record_issued id certs rows)

-- On the fuel of `issued_since`.
unfoldable pub try_sync_issued :
    (ℕ → Result ErrorKind IssuedPage)
    → ℕ
    → ℕ
    → List BrokerCert
    → Option (Result SyncError (List BrokerCert))
try_sync_issued issued fuel id rows =
    recorded id rows (issued_since issued fuel (broker_cursor id rows) [])

-- The row that `revoke_broker_cert` records: not past the cursor, so that the next sync still fetches
-- what changed before the revocation.
unfoldable pub record_revoked : BrokerCert → List BrokerCert → List BrokerCert
record_revoked revoked rows =
    insert_or_replace
      (record revoked { changed = min revoked.changed (broker_cursor revoked.broker_id rows) }) rows
