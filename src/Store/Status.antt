-- ===== src/Store/Status.antt =====
-- The statuses of crates/opca-acme-broker/src/acme/store.rs with the texts that the `named!` macro
-- of acme/mod.rs gives them.
use op_ca.Prelude.{String, ◌≡◌, refl, Option, none, some, arith, str_eq, eq_iff, if◌then◌else◌}

pub data AccountStatus : Type 0 where
  valid deactivated revoked : AccountStatus

pub data OrderStatus : Type 0 where
  pending ready processing valid invalid : OrderStatus

pub data AuthorisationStatus : Type 0 where
  pending valid invalid deactivated expired revoked : AuthorisationStatus

pub data ChallengeStatus : Type 0 where
  pending processing valid invalid : ChallengeStatus

-- The trait `Named`, with what the macro promises of the two texts.
pub record Named (S : Type 0) : Type 0 where
  pub as_str : S → String
  pub parse : String → Option S
  pub parse-as_str : (s : S) → parse (as_str s) ≡ some s
  pub as_str-parse : (text : String) (s : S) → parse text ≡ some s → as_str s ≡ text

unfoldable pub account_text : AccountStatus → String
account_text AccountStatus.valid = "valid"
account_text AccountStatus.deactivated = "deactivated"
account_text AccountStatus.revoked = "revoked"

unfoldable pub account_parse : String → Option AccountStatus
account_parse text =
    if str_eq text "valid"
    then some AccountStatus.valid
    else if str_eq text "deactivated"
    then some AccountStatus.deactivated
    else if str_eq text "revoked"
    then some AccountStatus.revoked
    else none

unfoldable pub order_text : OrderStatus → String
order_text OrderStatus.pending = "pending"
order_text OrderStatus.ready = "ready"
order_text OrderStatus.processing = "processing"
order_text OrderStatus.valid = "valid"
order_text OrderStatus.invalid = "invalid"

unfoldable pub order_parse : String → Option OrderStatus
order_parse text =
    if str_eq text "pending"
    then some OrderStatus.pending
    else if str_eq text "ready"
    then some OrderStatus.ready
    else if str_eq text "processing"
    then some OrderStatus.processing
    else if str_eq text "valid"
    then some OrderStatus.valid
    else if str_eq text "invalid"
    then some OrderStatus.invalid
    else none

unfoldable pub authorisation_text : AuthorisationStatus → String
authorisation_text AuthorisationStatus.pending = "pending"
authorisation_text AuthorisationStatus.valid = "valid"
authorisation_text AuthorisationStatus.invalid = "invalid"
authorisation_text AuthorisationStatus.deactivated = "deactivated"
authorisation_text AuthorisationStatus.expired = "expired"
authorisation_text AuthorisationStatus.revoked = "revoked"

unfoldable pub authorisation_parse : String → Option AuthorisationStatus
authorisation_parse text =
    if str_eq text "pending"
    then some AuthorisationStatus.pending
    else if str_eq text "valid"
    then some AuthorisationStatus.valid
    else if str_eq text "invalid"
    then some AuthorisationStatus.invalid
    else if str_eq text "deactivated"
    then some AuthorisationStatus.deactivated
    else if str_eq text "expired"
    then some AuthorisationStatus.expired
    else if str_eq text "revoked"
    then some AuthorisationStatus.revoked
    else none

unfoldable pub challenge_text : ChallengeStatus → String
challenge_text ChallengeStatus.pending = "pending"
challenge_text ChallengeStatus.processing = "processing"
challenge_text ChallengeStatus.valid = "valid"
challenge_text ChallengeStatus.invalid = "invalid"

unfoldable pub challenge_parse : String → Option ChallengeStatus
challenge_parse text =
    if str_eq text "pending"
    then some ChallengeStatus.pending
    else if str_eq text "processing"
    then some ChallengeStatus.processing
    else if str_eq text "valid"
    then some ChallengeStatus.valid
    else if str_eq text "invalid"
    then some ChallengeStatus.invalid
    else none

pub account_parse-text : (s : AccountStatus) → account_parse (account_text s) ≡ some s
unfolding account_parse account_text
account_parse-text AccountStatus.valid = refl
account_parse-text _ = refl

pub order_parse-text : (s : OrderStatus) → order_parse (order_text s) ≡ some s
unfolding order_parse order_text
order_parse-text OrderStatus.pending = refl
order_parse-text _ = refl

pub authorisation_parse-text :
    (s : AuthorisationStatus) → authorisation_parse (authorisation_text s) ≡ some s
unfolding authorisation_parse authorisation_text
authorisation_parse-text AuthorisationStatus.pending = refl
authorisation_parse-text _ = refl

pub challenge_parse-text : (s : ChallengeStatus) → challenge_parse (challenge_text s) ≡ some s
unfolding challenge_parse challenge_text
challenge_parse-text ChallengeStatus.pending = refl
challenge_parse-text _ = refl

pub account_text-parse :
    (text : String) (s : AccountStatus) → account_parse text ≡ some s → account_text s ≡ text
unfolding account_parse account_text
account_text-parse text s h =
    ground (arith, eq_iff text "valid", eq_iff text "deactivated", eq_iff text "revoked")

pub order_text-parse :
    (text : String) (s : OrderStatus) → order_parse text ≡ some s → order_text s ≡ text
unfolding order_parse order_text
order_text-parse text s h = ground (
  arith,
  eq_iff text "pending",
  eq_iff text "ready",
  eq_iff text "processing",
  eq_iff text "valid",
  eq_iff text "invalid",
)

pub authorisation_text-parse :
    (text : String) (s : AuthorisationStatus)
    → authorisation_parse text ≡ some s
    → authorisation_text s ≡ text
unfolding authorisation_parse authorisation_text
authorisation_text-parse text s h = ground (
  arith,
  eq_iff text "pending",
  eq_iff text "valid",
  eq_iff text "invalid",
  eq_iff text "deactivated",
  eq_iff text "expired",
  eq_iff text "revoked",
)

pub challenge_text-parse :
    (text : String) (s : ChallengeStatus) → challenge_parse text ≡ some s → challenge_text s ≡ text
unfolding challenge_parse challenge_text
challenge_text-parse text s h = ground (
  arith,
  eq_iff text "pending",
  eq_iff text "processing",
  eq_iff text "valid",
  eq_iff text "invalid",
)

abbrev pub account_named : Named AccountStatus
account_named = record {
  as_str = account_text;
  parse = account_parse;
  parse-as_str = account_parse-text;
  as_str-parse = account_text-parse;
}

abbrev pub order_named : Named OrderStatus
order_named = record {
  as_str = order_text;
  parse = order_parse;
  parse-as_str = order_parse-text;
  as_str-parse = order_text-parse;
}

abbrev pub authorisation_named : Named AuthorisationStatus
authorisation_named = record {
  as_str = authorisation_text;
  parse = authorisation_parse;
  parse-as_str = authorisation_parse-text;
  as_str-parse = authorisation_text-parse;
}

abbrev pub challenge_named : Named ChallengeStatus
challenge_named = record {
  as_str = challenge_text;
  parse = challenge_parse;
  parse-as_str = challenge_parse-text;
  as_str-parse = challenge_text-parse;
}
