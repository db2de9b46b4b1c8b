-- ===== src/Store/Calls.antt =====
-- The calls that change acme.db, but a restore (`replace_from`), as one type, and what a sequence of
-- them leaves.
use op_ca.Prelude.{Text, ℕ, String, Option, List, [], ◌∷◌}
use op_ca.Problem.{ProblemType}
use op_ca.Store.Status.{AccountStatus, OrderStatus, AuthorisationStatus, ChallengeStatus}
use op_ca.Store.Tables.{Db, after}
use op_ca.Store.Accounts.{create_account, set_contacts, change_key, set_account_status}
use op_ca.Store.Orders.{
  Draws, NewOrder, create_order, set_order_status, set_authorisation_status, set_challenge_status,
}
use op_ca.Store.Certificates.{NewCertificate, record_certificate, revoke, next_crl_number}
use op_ca.Store.Upkeep.{expire_stale}

pub data Call : Type 0 where
  creates_account : String → String → List Text → ℕ → Call
  sets_contacts : ℕ → List Text → Call
  changes_key : ℕ → String → String → Call
  sets_account : ℕ → AccountStatus → Call
  creates_order : Draws → ℕ → NewOrder → Call
  sets_order : ℕ → OrderStatus → Option ProblemType → Call
  sets_authorisation : ℕ → AuthorisationStatus → Call
  sets_challenge : ℕ → ChallengeStatus → Option ProblemType → ℕ → Call
  records : ℕ → NewCertificate → ℕ → Call
  revokes : String → Option ℕ → ℕ → Call
  takes_crl_number : Call
  expires : ℕ → Call

-- A call that fails leaves the database as it was.
unfoldable pub step : Db → Call → Db
step d (creates_account jwk thumbprint contacts now) =
    after d (create_account jwk thumbprint contacts now d)
step d (sets_contacts id contacts) = after d (set_contacts id contacts d)
step d (changes_key id jwk thumbprint) = after d (change_key id jwk thumbprint d)
step d (sets_account id to) = after d (set_account_status id to d)
step d (creates_order draws now new) = after d (create_order draws now new d)
step d (sets_order id to error) = after d (set_order_status id to error d)
step d (sets_authorisation id to) = after d (set_authorisation_status id to d)
step d (sets_challenge id to error now) = after d (set_challenge_status id to error now d)
step d (records order issued now) = after d (record_certificate order issued now d)
step d (revokes serial reason now) = after d (revoke serial reason now d)
step d takes_crl_number = after d (next_crl_number d)
step d (expires now) = after d (expire_stale now d)

unfoldable pub run : Db → List Call → Db
run d [] = d
run d (c ∷ cs) = run (step d c) cs
