-- ===== src/Tests/Store.antt =====
-- The theorems of the store at the databases of the tests.
use op_ca.Prelude.{◌≡◌, refl, [], ◌∷◌, map, arith}
use op_ca.Store.Status.{OrderStatus}
use op_ca.Store.Tables.{Db, empty}
use op_ca.Store.Calls.{run}
use op_ca.Store.Calls.{Call}
use op_ca.Store.Progress.Diagram.{Progresses, run-Progresses}
use op_ca.Store.Healthy.{Healthy}
use op_ca.Store.Healthy.Run.{run-Healthy}
use op_ca.Tests.{issuing, issued_db}

issued_statuses :
    map (λ o. o.status) issued_db.orders ≡ OrderStatus.valid ∷ OrderStatus.invalid ∷ []
unfolding op_ca.Store.Calls.step op_ca.Store.Calls.run op_ca.Store.Orders.insert_order
    op_ca.Store.Orders.insert_authorisation op_ca.Store.Orders.insert_challenge
    op_ca.Store.Orders.insert_challenges op_ca.Store.Orders.insert_authorisations
    op_ca.Store.Orders.create_order op_ca.Store.Orders.order op_ca.Store.Orders.set_order_error
    op_ca.Store.Orders.set_challenge_error op_ca.Store.Orders.set_order_status
    op_ca.Store.Orders.set_authorisation_status op_ca.Store.Orders.stamp_validated
    op_ca.Store.Orders.decide_authorisation op_ca.Store.Orders.decided_by op_ca.Store.Orders.decide
    op_ca.Store.Orders.set_challenge_status op_ca.Store.Accounts.account_by_thumbprint
    op_ca.Store.Accounts.account op_ca.Store.Accounts.insert_account
    op_ca.Store.Accounts.create_account op_ca.Store.Accounts.set_contacts
    op_ca.Store.Accounts.holder_filter op_ca.Store.Accounts.refuse_holder
    op_ca.Store.Accounts.give_key op_ca.Store.Accounts.change_key op_ca.Store.Accounts.orders_of
    op_ca.Store.Accounts.set_account_status op_ca.Store.Certificates.next_change
    op_ca.Store.Certificates.next_certificate op_ca.Store.Certificates.append_certificate
    op_ca.Store.Certificates.insert_certificate op_ca.Store.Certificates.name_certificate
    op_ca.Store.Certificates.certificate op_ca.Store.Certificates.certificate_by_serial
    op_ca.Store.Certificates.begin_processing op_ca.Store.Certificates.record_certificate
    op_ca.Store.Certificates.reason_allowed op_ca.Store.Certificates.mark_revoked
    op_ca.Store.Certificates.revoke op_ca.Store.Certificates.issued_by
    op_ca.Store.Certificates.revoked_unexpired op_ca.Store.Certificates.take_crl_number
    op_ca.Store.Certificates.next_crl_number op_ca.Store.Certificates.insert_by_change
    op_ca.Store.Certificates.order_by_change op_ca.Store.Certificates.page
    op_ca.Store.Certificates.changed_after op_ca.Store.Certificates.newest
    op_ca.Store.Certificates.counts op_ca.Store.Upkeep.joined op_ca.Store.Upkeep.validation_of
    op_ca.Store.Upkeep.processing op_ca.Store.Upkeep.expire_authorisations
    op_ca.Store.Upkeep.expire_orders op_ca.Store.Upkeep.expire_stale op_ca.Store.Upkeep.snapshot
    op_ca.Store.Upkeep.is_whole op_ca.Store.Upkeep.restorable_beside op_ca.Store.Upkeep.replacement
    op_ca.Store.Upkeep.replaced op_ca.Store.Upkeep.replace_from op_ca.Store.Settle.has_failed
    op_ca.Store.Settle.has_unproved op_ca.Store.Settle.must_fail op_ca.Store.Settle.fail_orders
    op_ca.Store.Settle.fail_order op_ca.Store.Settle.ready_order op_ca.Store.Settle.settle_order
    op_ca.Store.Settle.settle_order_of op_ca.Store.Lifecycle.row_of
    op_ca.Store.Lifecycle.read_status op_ca.Store.Lifecycle.put_status
    op_ca.Store.Lifecycle.transition op_ca.Store.Tables.greatest op_ca.Store.Tables.next_id
    op_ca.Base64url.symbol op_ca.Base64url.triple op_ca.Base64url.sextet
    op_ca.Base64url.chunk_symbols op_ca.Base64url.base64url op_ca.Base64url.value
    op_ca.Base64url.push_byte op_ca.Base64url.finish op_ca.Base64url.decode
    op_ca.Base64url.from_base64url op_ca.Store.Status.account_text op_ca.Store.Status.account_parse
    op_ca.Store.Status.order_text op_ca.Store.Status.order_parse
    op_ca.Store.Status.authorisation_text op_ca.Store.Status.authorisation_parse
    op_ca.Store.Status.challenge_text op_ca.Store.Status.challenge_parse
    op_ca.Store.Moves.account_may_become op_ca.Store.Moves.order_may_become
    op_ca.Store.Moves.authorisation_may_become op_ca.Store.Moves.challenge_may_become
issued_statuses = refl

empty-Healthy : Healthy empty
empty-Healthy = record { ids = tt; refs = tt; in_step = tt }

run-Healthy_example : Healthy (run empty issuing)
run-Healthy_example = run-Healthy empty issuing (ground arith) empty-Healthy

run-Progresses_example : Progresses issued_db (run issued_db (Call.expires 50 ∷ []))
run-Progresses_example = run-Progresses issued_db (Call.expires 50 ∷ [])
