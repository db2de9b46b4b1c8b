-- ===== src/Requests/Signers.antt =====
-- Who signs as the rule asks.
use op_ca.Prelude.{
  ℕ, ◌≡◌, ◌≢◌, refl, some, List, ok, bind, bind-ok, ok_or, ok_or-ok, arith, Bool-cases, inl, inr,
}
use op_ca.Problem.{ProblemType}
use op_ca.Store.Status.{AccountStatus}
use op_ca.Store.Tables.{Account, Db}
use op_ca.Store.Accounts.{account}
use op_ca.Requests.{
  Jose, KeyRule, KeyRef, by_jwk, by_kid, Signer, account_signer, key_signer, account_url, id_of_kid,
  is_valid_account, account_as_signer, kid_signer, signer_of,
}
use op_ca.Requests.Kids.{is_valid_iff, id_of_kid-some}

-- A key stands in the header itself, where the rule lets it; an account is named there by its URL, where
-- the rule lets it, is in the database and valid, and signs by its stored key.
abbrev pub AskedFor : (j : Jose) → List ℕ → KeyRef j.Jwk → KeyRule → Db → Signer j.Jwk → Type 0
AskedFor j accounts_url key rule d (key_signer k) = (rule ≢ KeyRule.kid) × (key ≡ by_jwk k)
AskedFor j accounts_url key rule d (account_signer a k) =
    (rule ≢ KeyRule.jwk)
    × (id : ℕ) × (key ≡ by_kid (account_url accounts_url id))
    × (account id d ≡ some a)
    × (a.status ≡ AccountStatus.valid)
    × (j.from_json a.jwk ≡ some k)

-- What `account_as_signer` says of an account.
abbrev AsAccount : (j : Jose) → Account → Signer j.Jwk → Type 0
AsAccount j a (key_signer k) = ⊥
AsAccount j a (account_signer b k) =
    (a ≡ b) × (a.status ≡ AccountStatus.valid) × (j.from_json a.jwk ≡ some k)

account_as_signer-AsAccount :
    (j : Jose) (a : Account) (signer : Signer j.Jwk)
    → account_as_signer j a ≡ ok signer
    → AsAccount j a signer
unfolding account_as_signer
account_as_signer-AsAccount j a signer h = elim (Bool-cases (is_valid_account a.status)) [
  | inl valid ↦
      let reads : bind (ok_or (j.from_json a.jwk) ProblemType.server_internal)
            (λ key. ok (account_signer a key))
          ≡ ok signer =
        ground arith in
      let (key, found, made) =
        bind-ok (ok_or (j.from_json a.jwk) ProblemType.server_internal) _ signer reads in
      let same : account_signer a key ≡ signer = ground arith in
      rw (← same) (
        refl,
        (is_valid_iff a.status).0 valid,
        ok_or-ok (j.from_json a.jwk) ProblemType.server_internal key found,
      )
  | inr other ↦ absurd (ground arith)
]

kid-AskedFor :
    (j : Jose) (accounts_url name : List ℕ) (rule : KeyRule) (d : Db) (signer : Signer j.Jwk)
    → rule ≢ KeyRule.jwk
    → kid_signer j accounts_url name d ≡ ok signer
    → AskedFor j accounts_url (by_kid name) rule d signer
unfolding kid_signer
kid-AskedFor j accounts_url name rule d signer lets h =
    let (id, named, h1) =
      bind-ok (ok_or (id_of_kid accounts_url name) ProblemType.account_does_not_exist) _ signer h in
    let (a, found, h2) =
      bind-ok (ok_or (account id d) ProblemType.account_does_not_exist) (account_as_signer j) signer
        h1 in
    let url =
      id_of_kid-some accounts_url name id
        (ok_or-ok (id_of_kid accounts_url name) ProblemType.account_does_not_exist id named) in
    by signer id a url (ok_or-ok (account id d) ProblemType.account_does_not_exist a found)
      (account_as_signer-AsAccount j a signer h2)
  where
    by :
        (signer : Signer j.Jwk) (id : ℕ) (a : Account)
        → account_url accounts_url id ≡ name
        → account id d ≡ some a
        → AsAccount j a signer
        → AskedFor j accounts_url (by_kid name) rule d signer
    by (key_signer k) id a url found made = absurd made
    by (account_signer b k) id a url found (same, valid, key) =
        rw (← same) (lets, id, rw url refl, found, valid, key)

-- The signer that `signer_of` finds is the one that the rule asks for.
pub signer_of-AskedFor :
    (j : Jose) (accounts_url : List ℕ) (key : KeyRef j.Jwk) (rule : KeyRule) (d : Db)
    (signer : Signer j.Jwk)
    → signer_of j accounts_url key rule d ≡ ok signer
    → AskedFor j accounts_url key rule d signer
unfolding signer_of
signer_of-AskedFor j accounts_url (by_jwk key) KeyRule.kid d signer h = absurd (cc h)
signer_of-AskedFor j accounts_url (by_jwk key) KeyRule.jwk d signer h =
    let same : key_signer key ≡ signer = ground arith in rw (← same) ((λ e. cc e), refl)
signer_of-AskedFor j accounts_url (by_jwk key) KeyRule.either d signer h =
    let same : key_signer key ≡ signer = ground arith in rw (← same) ((λ e. cc e), refl)
signer_of-AskedFor j accounts_url (by_kid name) KeyRule.jwk d signer h = absurd (cc h)
signer_of-AskedFor j accounts_url (by_kid name) KeyRule.kid d signer h =
    kid-AskedFor j accounts_url name KeyRule.kid d signer (λ e. cc e) h
signer_of-AskedFor j accounts_url (by_kid name) KeyRule.either d signer h =
    kid-AskedFor j accounts_url name KeyRule.either d signer (λ e. cc e) h
