-- ===== src/Server/Routes.antt =====
-- The router of crates/opca-acme-broker/src/acme/server.rs. A route's id is the number in its path.
use op_ca.Prelude.{ℕ, Option, Result, err, List}
use op_ca.Nonces
use op_ca.Store.Tables.{Token}
use op_ca.Server.{Act, ◌>>=◌, tell, not_found, Refusal, Crates, World, Server, Post, Reply}
use op_ca.Server.Extract.{HttpRequest, from_request}
use op_ca.Server.Accounts
use op_ca.Server.Ordering
use op_ca.Server.Challenges
use op_ca.Server.Certificates

-- The routes that are posted to, and the fallback.
pub data Route : Type 0 where
  new_account key_change new_order revoke_cert nowhere : Route
  account orders order finalise authz challenge cert : ℕ → Route

module _ (c : Crates) (w : World) where
  unfoldable pub handle : Route → Post → Act Reply
  handle Route.new_account post = Accounts.new_account c w post
  handle Route.key_change post = Accounts.key_change c w post
  handle Route.new_order post = Ordering.new_order c w post
  handle Route.revoke_cert post = Certificates.revoke c w post
  handle Route.nowhere post = tell (err not_found)
  handle (Route.account id) post = Accounts.account c w id post
  handle (Route.orders id) post = Accounts.orders c w id post
  handle (Route.order id) post = Ordering.order c w id post
  handle (Route.finalise id) post = Ordering.finalise c w id post
  handle (Route.authz id) post = Challenges.authorisation c w id post
  handle (Route.challenge id) post = Challenges.challenge c w id post
  handle (Route.cert id) post = Certificates.certificate c w id post

  unfoldable pub route : Route → HttpRequest → Act Reply
  route to request = do post ← tell (from_request request); handle to post

-- `stamp`: whatever the answer, a fresh nonce is on it, if its bytes could be drawn.
unfoldable pub stamp :
    {A : Type 0}
    → Option (List ℕ)
    → Result Refusal A × Server
    → Result Refusal A × Option Token × Server
stamp bytes (answer, s) =
    let issued = Nonces.issue bytes s.nonces in (answer, issued.0, record s { nonces = issued.1 })
