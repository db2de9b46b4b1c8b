-- ===== src/Store/Moves.antt =====
-- The moves between statuses that each `Lifecycle` of crates/opca-acme-broker/src/acme/store.rs allows,
-- and the tests on statuses that its queries make.
use op_ca.Prelude.{Bool, true, false}
use op_ca.Store.Status.{AccountStatus, OrderStatus, AuthorisationStatus, ChallengeStatus}

-- RFC 8555 §7.1.6, as each `may_become` writes it.
unfoldable pub account_may_become : AccountStatus → AccountStatus → Bool
account_may_become AccountStatus.valid AccountStatus.valid = false
account_may_become AccountStatus.valid _ = true
account_may_become _ _ = false

unfoldable pub order_may_become : OrderStatus → OrderStatus → Bool
order_may_become OrderStatus.pending OrderStatus.ready = true
order_may_become OrderStatus.pending OrderStatus.invalid = true
order_may_become OrderStatus.ready OrderStatus.processing = true
order_may_become OrderStatus.ready OrderStatus.invalid = true
order_may_become OrderStatus.processing OrderStatus.valid = true
order_may_become OrderStatus.processing OrderStatus.invalid = true
order_may_become _ _ = false

unfoldable pub authorisation_may_become : AuthorisationStatus → AuthorisationStatus → Bool
authorisation_may_become AuthorisationStatus.pending AuthorisationStatus.valid = true
authorisation_may_become AuthorisationStatus.pending AuthorisationStatus.invalid = true
authorisation_may_become AuthorisationStatus.pending AuthorisationStatus.deactivated = true
authorisation_may_become AuthorisationStatus.pending AuthorisationStatus.expired = true
authorisation_may_become AuthorisationStatus.valid AuthorisationStatus.deactivated = true
authorisation_may_become AuthorisationStatus.valid AuthorisationStatus.expired = true
authorisation_may_become AuthorisationStatus.valid AuthorisationStatus.revoked = true
authorisation_may_become _ _ = false

unfoldable pub challenge_may_become : ChallengeStatus → ChallengeStatus → Bool
challenge_may_become ChallengeStatus.pending ChallengeStatus.processing = true
challenge_may_become ChallengeStatus.processing ChallengeStatus.pending = true
challenge_may_become ChallengeStatus.processing ChallengeStatus.valid = true
challenge_may_become ChallengeStatus.processing ChallengeStatus.invalid = true
challenge_may_become _ _ = false

-- Equality of statuses, as the queries and the derived `PartialEq` test it.
abbrev pub same_order : OrderStatus → OrderStatus → Bool
same_order OrderStatus.pending OrderStatus.pending = true
same_order OrderStatus.ready OrderStatus.ready = true
same_order OrderStatus.processing OrderStatus.processing = true
same_order OrderStatus.valid OrderStatus.valid = true
same_order OrderStatus.invalid OrderStatus.invalid = true
same_order _ _ = false

-- `status IN ('pending', 'ready')`, of an order.
abbrev pub is_open : OrderStatus → Bool
is_open OrderStatus.pending = true
is_open OrderStatus.ready = true
is_open _ = false

-- `status IN ('pending', 'valid')`, of an authorisation.
abbrev pub is_live : AuthorisationStatus → Bool
is_live AuthorisationStatus.pending = true
is_live AuthorisationStatus.valid = true
is_live _ = false

abbrev pub is_pending : AuthorisationStatus → Bool
is_pending AuthorisationStatus.pending = true
is_pending _ = false

abbrev pub is_valid : AuthorisationStatus → Bool
is_valid AuthorisationStatus.valid = true
is_valid _ = false

abbrev pub challenge_is_valid : ChallengeStatus → Bool
challenge_is_valid ChallengeStatus.valid = true
challenge_is_valid _ = false

abbrev pub is_processing : ChallengeStatus → Bool
is_processing ChallengeStatus.processing = true
is_processing _ = false
