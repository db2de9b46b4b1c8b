-- ===== src/Store/Progress/Run.antt =====
-- The calls together: no row goes, and every status moves as RFC 8555 §7.1.6 has it.
use op_ca.Prelude.{List, [], ◌∷◌}
use op_ca.Store.Tables.{Db}
use op_ca.Store.Within.{Within-after}
use op_ca.Store.Calls.{
  Call, creates_account, sets_contacts, changes_key, sets_account, creates_order, sets_order,
  sets_authorisation, sets_challenge, records, revokes, takes_crl_number, expires, step, run,
}
use op_ca.Store.Progress.{Advances, advancing}
use op_ca.Store.Progress.Orders.{
  create_order-Advances, set_order_status-Advances, set_authorisation_status-Advances,
  set_challenge_status-Advances,
}
use op_ca.Store.Progress.Rest.{
  create_account-Advances, set_contacts-Advances, change_key-Advances, set_account_status-Advances,
  record_certificate-Advances, revoke-Advances, next_crl_number-Advances, expire_stale-Advances,
}

step-Advances : (d : Db) (c : Call) → Advances d (step d c)
unfolding step
step-Advances d (creates_account jwk thumbprint contacts now) =
    Within-after advancing _ (create_account-Advances jwk thumbprint contacts now) d
step-Advances d (sets_contacts id contacts) =
    Within-after advancing _ (set_contacts-Advances id contacts) d
step-Advances d (changes_key id jwk thumbprint) =
    Within-after advancing _ (change_key-Advances id jwk thumbprint) d
step-Advances d (sets_account id to) =
    Within-after advancing _ (set_account_status-Advances id to) d
step-Advances d (creates_order draws now new) =
    Within-after advancing _ (create_order-Advances draws now new) d
step-Advances d (sets_order id to error) =
    Within-after advancing _ (set_order_status-Advances id to error) d
step-Advances d (sets_authorisation id to) =
    Within-after advancing _ (set_authorisation_status-Advances id to) d
step-Advances d (sets_challenge id to error now) =
    Within-after advancing _ (set_challenge_status-Advances id to error now) d
step-Advances d (records order issued now) =
    Within-after advancing _ (record_certificate-Advances order issued now) d
step-Advances d (revokes serial reason now) =
    Within-after advancing _ (revoke-Advances serial reason now) d
step-Advances d takes_crl_number = Within-after advancing _ next_crl_number-Advances d
step-Advances d (expires now) = Within-after advancing _ (expire_stale-Advances now) d

-- The calls one after another.
pub run-Advances : (d : Db) (calls : List Call) → Advances d (run d calls)
unfolding run
run-Advances d [] = advancing.here d
run-Advances d (c ∷ cs) =
    advancing.chain d (step d c) (run (step d c) cs) (step-Advances d c)
      (run-Advances (step d c) cs)
