-- ===== src/Tests.antt =====
-- Tests: databases that calls of acme/store.rs build, and the theorems at concrete inputs.
pub mod Store
pub mod Requests
pub mod Http01
pub mod CaDatabase
pub mod Mirror
pub mod Issue
pub mod Lock
pub mod Queue
pub mod Server
pub mod Sync
pub mod Text
use op_ca.Prelude.{codes, false, ℕ, String, Option, none, some, List, [], ◌∷◌}
use op_ca.Store.Status.{OrderStatus, ChallengeStatus}
use op_ca.Store.Tables.{ChallengeType, Db, empty}
use op_ca.Store.Orders.{Draws, NewAuthorisation, NewOrder}
use op_ca.Store.Certificates.{NewCertificate}
use op_ca.Store.Calls.{Call, run}

abbrev pub draws : Draws
draws n = some (n ∷ 1 ∷ 2 ∷ [])

abbrev web : NewAuthorisation
web = record {
  identifier = codes "a.example.com";
  wildcard = false;
  expires = 100;
  challenges = ChallengeType.http_01 ∷ ChallengeType.dns_01 ∷ [];
}

abbrev pub web_order : NewOrder
web_order = record {
  account = 1;
  identifiers = codes "a.example.com" ∷ [];
  not_before = none;
  not_after = none;
  expires = 100;
  authorisations = web ∷ [];
}

abbrev pub leaf : String → NewCertificate
leaf serial = record {
  serial = serial;
  common_name = some (codes "a.example.com");
  sans = codes "a.example.com" ∷ [];
  not_before = 0;
  not_after = 90;
  chain_pem = "pem";
  issuer_serial = "9";
}

-- An order from its making to its certificate, beside another whose challenge fails.
abbrev pub issuing : List Call
issuing =
    Call.creates_account "jwk" "thumb" [] 1
    ∷ Call.creates_order draws 2 web_order
    ∷ Call.sets_challenge 1 ChallengeStatus.processing none 3
    ∷ Call.sets_challenge 1 ChallengeStatus.valid none 4
    ∷ Call.records 1 (leaf "10") 5
    ∷ Call.creates_order (λ n. some (n ∷ 8 ∷ [])) 6 web_order
    ∷ Call.sets_challenge 3 ChallengeStatus.processing none 7
    ∷ Call.sets_challenge 3 ChallengeStatus.invalid none 8
    ∷ []

abbrev pub issued_db : Db
issued_db = run empty issuing
