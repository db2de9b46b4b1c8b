-- ===== src/Server/Challenges.antt =====
-- The handlers on authorisations and challenges of crates/opca-acme-broker/src/acme/server.rs, and the
-- validations that they start. What the validator answers is an argument.
use op_ca.Prelude.{
  ℕ, Bool, true, false, ◌&&◌, Option, none, some, List, [], ◌∷◌, ◌++◌, Result, ok, err, any,
  text_eq, codes, if◌then◌else◌,
}
use op_ca.Problem.{ProblemType}
use op_ca.Store.Status.{AuthorisationStatus, ChallengeStatus}
use op_ca.Store.Moves.{is_pending, is_processing}
use op_ca.Store.Tables.{Account, Challenge}
use op_ca.Store.Orders
use op_ca.Store.Orders.{Authorisation}
use op_ca.Store.Upkeep
use op_ca.Store.Upkeep.{Validation}
use op_ca.Server.{
  Act, ◌>>=◌, ◌>>◌, pure, tell, look, transact, modify, or_stored, or_refuse, found, Refusal,
  refusal, Crates, World, Post, Reply, authorisation_reply, challenge_reply, url_of, by_account,
  authorisation_of,
}

-- `validate_in_background`, as far as the task is started.
unfoldable pub validate_in_background : Validation → Act (Unit {0})
validate_in_background validation =
    modify (λ s. record s { background = s.background ++ validation ∷ [] })

-- What the task makes of the validator's answer; an error of the store is only logged.
unfoldable pub validation_status :
    Result ProblemType (Unit {0}) → ChallengeStatus × Option ProblemType
validation_status (ok u) = (ChallengeStatus.valid, none)
validation_status (err problem) = (ChallengeStatus.invalid, some problem)

abbrev pub is_pending_challenge : ChallengeStatus → Bool
is_pending_challenge ChallengeStatus.pending = true
is_pending_challenge _ = false

abbrev pub is_there : List ℕ → Bool
is_there [] = false
is_there (byte ∷ payload) = true

module _ (w : World) where
  unfoldable pub record_validation : Validation → Result ProblemType (Unit {0}) → Act (Unit {0})
  record_validation validation outcome = do
    let decided = validation_status outcome
    done ← transact w (Orders.set_challenge_status validation.challenge decided.0 decided.1)
    pure tt

  unfoldable pub start_all : List Validation → Act (Unit {0})
  start_all [] = pure tt
  start_all (validation ∷ rest) = do validate_in_background validation; start_all rest

  -- `resume`: once a process, the validations that a restart left are started again.
  unfoldable pub resume_once : Bool → Act (Unit {0})
  resume_once true = pure tt
  resume_once false = do
    modify (λ s. record s { resumed = true })
    left ← look w Upkeep.processing
    start_all left

  unfoldable pub resume : Act (Unit {0})
  resume s = resume_once s.resumed s

module _ (c : Crates) (w : World) where
  open c use {Jwk}

  unfoldable pub check_deactivation : List ℕ → Result Refusal (Unit {0})
  check_deactivation payload = elim (c.parse_deactivation payload) [
    | none ↦ err (refusal ProblemType.malformed)
    | some status ↦
        if text_eq status (codes "deactivated") then ok tt else err (refusal ProblemType.malformed)
  ]

  -- The authorisation after the request, and as it was if there is no payload.
  unfoldable pub update_authorisation : ℕ → Account → Authorisation → List ℕ → Act Authorisation
  update_authorisation id account read [] = pure read
  update_authorisation id account read (byte ∷ payload) = do
    asked ← tell (check_deactivation (byte ∷ payload))
    done ← transact w (λ at. Orders.set_authorisation_status id AuthorisationStatus.deactivated)
    deactivated ← tell (or_stored done)
    authorisation_of c w id account

  unfoldable pub authorisation : ℕ → Post → Act Reply
  authorisation id post = do
    signed ← by_account c w post
    read ← authorisation_of c w id signed.0
    authorisation ← update_authorisation id signed.0 read signed.2
    pure (
        authorisation_reply (any (λ k. is_processing k.status) authorisation.challenges)
          authorisation)

  -- Processing, and a validation started; the challenge is read again.
  unfoldable pub begin_validation : ℕ → Account → Challenge → Authorisation → List ℕ → Act Challenge
  begin_validation id account challenge authorisation payload = do
    object ← tell (or_refuse (c.parse_object payload) ProblemType.malformed)
    done ← transact w (Orders.set_challenge_status id ChallengeStatus.processing none)
    started ← tell (or_stored done)
    validate_in_background (record {
      challenge = id;
      kind = challenge.kind;
      identifier = authorisation.row.identifier;
      key_authorisation = challenge.token ++ codes "." ++ codes account.thumbprint;
    })
    row ← look w (Orders.challenge id)
    tell (found row)

  unfoldable pub challenge : ℕ → Post → Act Reply
  challenge id post = do
    signed ← by_account c w post
    row ← look w (Orders.challenge id)
    read ← tell (found row)
    authorisation ← authorisation_of c w read.authorisation signed.0
    challenge ←
        if is_there signed.2
          && (is_pending_challenge read.status && is_pending authorisation.row.status)
        then begin_validation id signed.0 read authorisation signed.2
        else pure read
    pure (
        challenge_reply (url_of post "authz" authorisation.row.id) (is_processing challenge.status)
          challenge)
