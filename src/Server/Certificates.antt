-- ===== src/Server/Certificates.antt =====
-- The handlers on certificates of crates/opca-acme-broker/src/acme/server.rs: `certificate` and
-- `revoke`.
use op_ca.Prelude.{
  ℕ, Bool, true, false, Option, none, some, List, [], ◌∷◌, Result, ok, err, any, text_eq, ◌==◌,
  if◌then◌else◌,
}
use op_ca.Problem.{ProblemType}
use op_ca.Base64url.{from_base64url}
use op_ca.Requests.{KeyRule, Signer, account_signer, key_signer}
use op_ca.Store.Tables.{Certificate}
use op_ca.Store.Certificates
use op_ca.Server.{
  Act, ◌>>=◌, ◌>>◌, pure, tell, look, transact, modify, or_stored, or_refuse, found, Refusal,
  refusal, Crates, World, Post, Reply, certificate_reply, revoked_reply, Leaf, owned_by, as_get,
  verify, by_account,
}

-- REVOCATION_REASONS of crates/opca-acme-api/src/lib.rs
abbrev pub revocation_reasons : List ℕ
revocation_reasons = 0 ∷ 1 ∷ 2 ∷ 3 ∷ 4 ∷ 5 ∷ 6 ∷ 9 ∷ 10 ∷ []

-- No reason and reason 0 are kept as none.
unfoldable pub reason_of : Option ℕ → Result Refusal (Option ℕ)
reason_of none = ok none
reason_of (some reason) =
    if reason == 0
    then ok none
    else if any (λ r. r == reason) revocation_reasons
    then ok (some reason)
    else err (refusal ProblemType.bad_revocation_reason)

abbrev pub is_first : Option (List ℕ) → List ℕ → Bool
is_first none der = false
is_first (some first) der = text_eq first der

module _ (c : Crates) where
  open c use {Jwk}

  -- The certificate that was issued, if it is the very one of the request.
  unfoldable pub same_certificate : List ℕ → Option Certificate → Option Certificate
  same_certificate der none = none
  same_certificate der (some issued) =
      if is_first (c.first_certificate issued.chain_pem) der then some issued else none

  unfoldable pub is_permitted : Leaf → Certificate → Signer Jwk → Bool
  is_permitted leaf issued (account_signer account key) = account.id == issued.account
  is_permitted leaf issued (key_signer key) = text_eq (c.subject_public_key_info key) leaf.spki

  unfoldable pub check_permitted : Leaf → Certificate → Signer Jwk → Result Refusal (Unit {0})
  check_permitted leaf issued signer =
      if is_permitted leaf issued signer then ok tt else err (refusal ProblemType.unauthorized)

module _ (c : Crates) (w : World) where
  unfoldable pub certificate : ℕ → Post → Act Reply
  certificate id post = do
    signed ← by_account c w post
    empty ← tell (as_get signed.2)
    row ← look w (Certificates.certificate id)
    certificate ← tell (found row)
    owner ← tell (owned_by signed.0 certificate.account)
    pure (certificate_reply certificate.chain_pem)

  -- By the account that ordered the certificate, or by the certificate's own key (RFC 8555 §7.6).
  unfoldable pub revoke : Post → Act Reply
  revoke post = do
    verified ← verify c w post KeyRule.either
    request ← tell (or_refuse (c.parse_revocation verified.payload) ProblemType.malformed)
    der ← tell (or_refuse (from_base64url request.certificate) ProblemType.malformed)
    leaf ← tell (or_refuse (c.inspect der) ProblemType.malformed)
    row ← look w (Certificates.certificate_by_serial leaf.serial)
    issued ← tell (found (same_certificate c der row))
    permitted ← tell (check_permitted c leaf issued verified.signer)
    reason ← tell (reason_of request.reason)
    done ← transact w (Certificates.revoke leaf.serial reason)
    revoked ← tell (or_stored done)
    modify (λ s. record s { resign = true })
    pure revoked_reply
