-- ===== src/Store/Healthy/Run.antt =====
-- The invariant of the orders, whatever the calls.
use op_ca.Prelude.{◌≢◌, List, [], ◌∷◌, All}
use op_ca.Store.Status.{OrderStatus}
use op_ca.Store.Tables.{Db}
use op_ca.Store.Within.{Within-after}
use op_ca.Store.Calls.{
  Call, creates_account, sets_contacts, changes_key, sets_account, creates_order, sets_order,
  sets_authorisation, sets_challenge, records, revokes, takes_crl_number, expires, step, run,
}
use op_ca.Store.Healthy.{Healthy, keeping}
use op_ca.Store.Healthy.Settles.{set_authorisation_status-Healthy}
use op_ca.Store.Healthy.Filling.{create_order-Healthy}
use op_ca.Store.Healthy.Orders.{set_order_status-Healthy, set_challenge_status-Healthy}
use op_ca.Store.Healthy.Rest.{
  create_account-Healthy, set_contacts-Healthy, change_key-Healthy, set_account_status-Healthy,
  record_certificate-Healthy, revoke-Healthy, next_crl_number-Healthy, expire_stale-Healthy,
}

-- Only `set_order_status` could make an order ready by itself, and the server never asks it to.
abbrev pub IsProper : Call → Type 0
IsProper (sets_order id to error) = to ≢ OrderStatus.ready
IsProper _ = Unit

pub step-Healthy : (d : Db) (c : Call) → IsProper c → Healthy d → Healthy (step d c)
unfolding step
step-Healthy d (creates_account jwk thumbprint contacts now) p =
    Within-after (keeping Healthy) _ (create_account-Healthy jwk thumbprint contacts now) d
step-Healthy d (sets_contacts id contacts) p =
    Within-after (keeping Healthy) _ (set_contacts-Healthy id contacts) d
step-Healthy d (changes_key id jwk thumbprint) p =
    Within-after (keeping Healthy) _ (change_key-Healthy id jwk thumbprint) d
step-Healthy d (sets_account id to) p =
    Within-after (keeping Healthy) _ (set_account_status-Healthy id to) d
step-Healthy d (creates_order draws now new) p =
    Within-after (keeping Healthy) _ (create_order-Healthy draws now new) d
step-Healthy d (sets_order id to error) p =
    Within-after (keeping Healthy) _ (set_order_status-Healthy id to error p) d
step-Healthy d (sets_authorisation id to) p =
    Within-after (keeping Healthy) _ (set_authorisation_status-Healthy id to) d
step-Healthy d (sets_challenge id to error now) p =
    Within-after (keeping Healthy) _ (set_challenge_status-Healthy id to error now) d
step-Healthy d (records order issued now) p =
    Within-after (keeping Healthy) _ (record_certificate-Healthy order issued now) d
step-Healthy d (revokes serial reason now) p =
    Within-after (keeping Healthy) _ (revoke-Healthy serial reason now) d
step-Healthy d takes_crl_number p = Within-after (keeping Healthy) _ next_crl_number-Healthy d
step-Healthy d (expires now) p = Within-after (keeping Healthy) _ (expire_stale-Healthy now) d

-- From a database whose authorisations have rising ids and orders of numbers that were already given,
-- and whose orders are in step with them, any calls (a restore is no such call), failing ones included, lead to one of which the same holds, if no
-- call asks `set_order_status` for `ready`: an order that is pending or ready has no authorisation
-- that failed, and a ready one has only valid ones.
pub run-Healthy :
    (d : Db) (calls : List Call) → All IsProper calls → Healthy d → Healthy (run d calls)
unfolding run
run-Healthy d [] p h = h
run-Healthy d (c ∷ cs) p h = run-Healthy (step d c) cs p.1 (step-Healthy d c p.0 h)
