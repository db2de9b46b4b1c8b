-- ===== src/Problem.antt =====
-- crates/opca-acme-broker/src/acme/problem.rs: the error types of RFC 8555 §6.7. The detail of a
-- problem is text for a person, and is not modelled.

pub data ProblemType : Type 0 where
  account_does_not_exist already_revoked bad_csr bad_nonce bad_public_key : ProblemType
  bad_revocation_reason bad_signature_algorithm caa compound connection dns : ProblemType
  external_account_required incorrect_response invalid_contact malformed : ProblemType
  order_not_ready rate_limited rejected_identifier server_internal tls : ProblemType
  unauthorized unsupported_contact unsupported_identifier user_action_required : ProblemType
