-- ===== src/Server/Allowed/Handling.antt =====
-- Every route: what a request has done is what its signer may have done, and what it shows is the
-- signer's.
use op_ca.Store.Kept.{Sorted}
use op_ca.Server.{Crates, World, Server, Post}
use op_ca.Server.Routes.{
  Route, new_account, key_change, new_order, revoke_cert, nowhere, account, orders, order, finalise,
  authz, challenge, cert, handle,
}
use op_ca.Server.Trace.{Does, Does-tell, Later}
use op_ca.Server.Allowed.{Allowed, Shown}
use op_ca.Server.Allowed.Holders.{new_account-Does, account-Does, orders-Does, key_change-Does}
use op_ca.Server.Allowed.Orders.{new_order-Does, order-Does, finalise-Does}
use op_ca.Server.Allowed.Challenges.{authorisation-Does, challenge-Does}
use op_ca.Server.Allowed.Certificates.{certificate-Does, revoke-Does}

handle-Does :
    (c : Crates) (w : World) (to : Route) (post : Post) (s : Server)
    → Sorted s.store
    → Does w (Allowed c w post s) (Shown c w post s) (handle c w to post) s
unfolding handle
handle-Does c w new_account post s sorted = new_account-Does c w post s
handle-Does c w key_change post s sorted = key_change-Does c w post s
handle-Does c w new_order post s sorted = new_order-Does c w post s
handle-Does c w revoke_cert post s sorted = revoke-Does c w post s
handle-Does c w nowhere post s sorted = Does-tell _ s λ a e. absurd (cc e)
handle-Does c w (account id) post s sorted = account-Does c w post s id
handle-Does c w (orders id) post s sorted = orders-Does c w post s id
handle-Does c w (order id) post s sorted = order-Does c w post s id
handle-Does c w (finalise id) post s sorted = finalise-Does c w post s id sorted
handle-Does c w (authz id) post s sorted = authorisation-Does c w post s id sorted
handle-Does c w (challenge id) post s sorted = challenge-Does c w post s id sorted
handle-Does c w (cert id) post s sorted = certificate-Does c w post s id

-- Whatever the route and the request, and whatever calls but a restore other tasks make between its
-- moments, from tables whose ids rise: the database changes only by those calls and by calls that the
-- request's verified signer is entitled to at the moment and on the database that each is made on. An
-- account touches only itself, its own orders, authorisations, challenges and certificates, but that it
-- lets what is past its time lapse, by what the clock said at an earlier moment of the request; it orders
-- only names that are issued for, while issuance is not paused; it records only a leaf that was issued
-- for its own order, whose row stood in the table as ready at an earlier moment of the request. A bare
-- key makes an account of its own or revokes its certificate. A request that no signer was verified for
-- makes no call.
pub handle-Allowed :
    (c : Crates) (w : World) (to : Route) (post : Post) (s : Server)
    → Sorted s.store
    → Later w (Allowed c w post s) s (handle c w to post s).1
handle-Allowed c w to post s sorted = (handle-Does c w to post s sorted).later
