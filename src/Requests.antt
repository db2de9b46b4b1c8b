-- ===== src/Requests.antt =====
-- crates/opca-acme-broker/src/acme/request.rs: a request's JWS checked, its nonce redeemed, and the
-- account found that a `kid` names. The crate that parses and verifies a JWS is a parameter.
pub mod Kids
pub mod Signers
pub mod Replay
pub mod Rollover
use op_ca.Prelude.{
  ℕ, ◌^◌, String, Bool, true, false, Option, none, some, List, [], ◌∷◌, ◌++◌, Result, ok, err, bind,
  ok_or, ltb, ◌==◌, text_eq, if◌then◌else◌,
}
use op_ca.Problem.{ProblemType}
use op_ca.Decimal.{print, parse_unsigned}
use op_ca.Store.Status.{AccountStatus}
use op_ca.Store.Tables.{Token, Account, Db}
use op_ca.Store.Accounts.{account}
use op_ca.Nonces.{Nonces, redeem}

pub data KeyRule : Type 0 where
  jwk kid either : KeyRule

-- `ErrorKind` of wslib_crypto_jose, as far as the code tells its kinds apart.
pub data JoseError : Type 0 where
  bad_signature_algorithm bad_public_key server_configuration other : JoseError

-- `KeyRef` and `ProtectedHeader` of the crate.
pub data KeyRef (Jwk : Type 0) : Type 0 where
  by_jwk : Jwk → KeyRef Jwk
  by_kid : List ℕ → KeyRef Jwk

pub record ProtectedHeader (Jwk : Type 0) : Type 0 where
  pub url : List ℕ
  pub nonce : Option Token
  pub key : KeyRef Jwk

pub record ChangedKey (Jwk : Type 0) : Type 0 where
  pub account : List ℕ
  pub new_key : Jwk

-- The crate: what of it the code calls.
pub record Jose : Type 1 where
  pub Jws : Type 0
  pub Jwk : Type 0
  pub parse : List ℕ → Result JoseError Jws
  pub header : Jws → ProtectedHeader Jwk
  pub payload : Jws → List ℕ
  pub verify_signature : Jws → Jwk → Result JoseError (Unit {0})
  pub key_change : Jws → Jwk → Result JoseError (ChangedKey Jwk)
  pub from_json : String → Option Jwk

pub data Signer (Jwk : Type 0) : Type 0 where
  account_signer : Account → Jwk → Signer Jwk
  key_signer : Jwk → Signer Jwk

abbrev pub signer_key : {Jwk : Type 0} → Signer Jwk → Jwk
signer_key (account_signer account key) = key
signer_key (key_signer key) = key

pub record Verified (Jwk : Type 0) : Type 0 where
  pub signer : Signer Jwk
  pub header : ProtectedHeader Jwk
  pub payload : List ℕ

pub record KeyChange (Jwk : Type 0) : Type 0 where
  pub account : Account
  pub new_key : Jwk

-- `refused`, of a problem's type only.
unfoldable pub refused_as : JoseError → ProblemType
refused_as bad_signature_algorithm = ProblemType.bad_signature_algorithm
refused_as bad_public_key = ProblemType.bad_public_key
refused_as server_configuration = ProblemType.server_internal
refused_as other = ProblemType.malformed

-- `map_err(refused)`
abbrev pub or_refused : {A : Type 0} → Result JoseError A → Result ProblemType A
or_refused (ok a) = ok a
or_refused (err e) = err (refused_as e)

unfoldable pub strip_prefix : List ℕ → List ℕ → Option (List ℕ)
strip_prefix [] text = some text
strip_prefix (c ∷ cs) [] = none
strip_prefix (c ∷ cs) (d ∷ text) = let rest = strip_prefix cs text in if c == d then rest else none

-- `parse::<i64>`, without the negative numbers, which no account has.
unfoldable pub parse_id : List ℕ → Option ℕ
parse_id text = elim (parse_unsigned text) [
  | none ↦ none
  | some id ↦ if ltb id (2 ^ 63) then some id else none
]

-- `accounts_url` is what an account's URL puts before its id.
unfoldable pub account_url : List ℕ → ℕ → List ℕ
account_url accounts_url id = accounts_url ++ print id

-- The id in a `kid`, if it is written as `account_url` writes it.
unfoldable pub id_of_kid : List ℕ → List ℕ → Option ℕ
id_of_kid accounts_url name = elim (strip_prefix accounts_url name) [
  | none ↦ none
  | some text ↦ elim (parse_id text) [
    | none ↦ none
    | some id ↦ if text_eq (account_url accounts_url id) name then some id else none
  ]
]

abbrev pub is_valid_account : AccountStatus → Bool
is_valid_account AccountStatus.valid = true
is_valid_account _ = false

-- The signer that an account makes.
unfoldable pub account_as_signer : (j : Jose) → Account → Result ProblemType (Signer j.Jwk)
account_as_signer j a =
    if is_valid_account a.status
    then bind (ok_or (j.from_json a.jwk) ProblemType.server_internal)
        (λ key. ok (account_signer a key))
    else err ProblemType.unauthorized

-- `Requests::account`
unfoldable pub kid_signer : (j : Jose) → List ℕ → List ℕ → Db → Result ProblemType (Signer j.Jwk)
kid_signer j accounts_url name d =
    bind (ok_or (id_of_kid accounts_url name) ProblemType.account_does_not_exist)
      (λ id. bind (ok_or (account id d) ProblemType.account_does_not_exist) (account_as_signer j))

-- The key that the header names, as the rule has it.
unfoldable pub signer_of :
    (j : Jose) → List ℕ → KeyRef j.Jwk → KeyRule → Db → Result ProblemType (Signer j.Jwk)
signer_of j accounts_url (by_jwk key) KeyRule.kid d = err ProblemType.malformed
signer_of j accounts_url (by_jwk key) _ d = ok (key_signer key)
signer_of j accounts_url (by_kid name) KeyRule.jwk d = err ProblemType.malformed
signer_of j accounts_url (by_kid name) _ d = kid_signer j accounts_url name d

-- `verified` from its last step back: the signature, the signer, the nonce and the URL, and the JWS.
-- The nonce comes back to be redeemed.
unfoldable pub check_signature :
    (j : Jose) → j.Jws → Token → Signer j.Jwk → Result ProblemType (Token × j.Jws × Signer j.Jwk)
check_signature j jws nonce signer =
    bind (or_refused (j.verify_signature jws (signer_key signer))) (λ v. ok (nonce, jws, signer))

unfoldable pub check_signer :
    (j : Jose)
    → List ℕ
    → j.Jws
    → KeyRule
    → Db
    → Token
    → Result ProblemType (Token × j.Jws × Signer j.Jwk)
check_signer j accounts_url jws rule d nonce =
    bind (signer_of j accounts_url (j.header jws).key rule d) (check_signature j jws nonce)

unfoldable pub check_header :
    (j : Jose)
    → List ℕ
    → List ℕ
    → KeyRule
    → Db
    → j.Jws
    → Result ProblemType (Token × j.Jws × Signer j.Jwk)
check_header j accounts_url url rule d jws =
    let signed =
      bind (ok_or (j.header jws).nonce ProblemType.bad_nonce)
        (check_signer j accounts_url jws rule d) in
    if text_eq (j.header jws).url url then signed else err ProblemType.unauthorized

unfoldable pub checked :
    (j : Jose)
    → List ℕ
    → List ℕ
    → List ℕ
    → KeyRule
    → Db
    → Result ProblemType (Token × j.Jws × Signer j.Jwk)
checked j accounts_url body url rule d =
    bind (or_refused (j.parse body)) (check_header j accounts_url url rule d)

-- The nonce redeemed last, once all else was right.
unfoldable pub redeemed :
    {A B : Type 0}
    → Result ProblemType (Token × A × B)
    → Nonces
    → Result ProblemType (A × B) × Nonces
redeemed (err e) s = (err e, s)
redeemed (ok (nonce, a, b)) s =
    let after = redeem nonce s in
    (if after.0 then ok (a, b) else err ProblemType.bad_nonce, after.1)

unfoldable pub verified :
    (j : Jose)
    → List ℕ
    → List ℕ
    → List ℕ
    → KeyRule
    → Db
    → Nonces
    → Result ProblemType (j.Jws × Signer j.Jwk) × Nonces
verified j accounts_url body url rule d s = redeemed (checked j accounts_url body url rule d) s

unfoldable pub verify :
    (j : Jose)
    → List ℕ
    → List ℕ
    → List ℕ
    → KeyRule
    → Db
    → Nonces
    → Result ProblemType (Verified j.Jwk) × Nonces
verify j accounts_url body url rule d s =
    let (answer, s') = verified j accounts_url body url rule d s in
    (
      bind answer
          (λ v. ok (record { signer = v.1; header = j.header v.0; payload = j.payload v.0 })),
      s',
    )

-- The account's new key, from the outer JWS and its signer; the code has no branch for another signer.
unfoldable pub changed_key :
    (j : Jose) → List ℕ → j.Jws → Signer j.Jwk → Result ProblemType (KeyChange j.Jwk)
changed_key j accounts_url outer (key_signer key) = err ProblemType.server_internal
changed_key j accounts_url outer (account_signer account key) =
    bind (or_refused (j.key_change outer key)) (λ change.
      if text_eq change.account (account_url accounts_url account.id)
      then ok (record { account = account; new_key = change.new_key })
      else err ProblemType.malformed)

unfoldable pub verify_key_change :
    (j : Jose)
    → List ℕ
    → List ℕ
    → List ℕ
    → Db
    → Nonces
    → Result ProblemType (KeyChange j.Jwk) × Nonces
verify_key_change j accounts_url body url d s =
    let (answer, s') = verified j accounts_url body url KeyRule.kid d s in
    (bind answer (λ v. changed_key j accounts_url v.0 v.1), s')
