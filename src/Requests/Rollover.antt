-- ===== src/Requests/Rollover.antt =====
-- A change of an account's key is the account's own.
use op_ca.Prelude.{
  ℕ, ◌≢◌, ok_or, Option-cases, ◌≡◌, refl, ap, true, List, Result, ok, err, bind, bind-ok, text_eq,
  text_eq_iff, arith, Bool-cases, inl, inr,
}
use op_ca.Problem.{ProblemType}
use op_ca.Store.Tables.{Token, Account, Db}
use op_ca.Store.Accounts.{account}
use op_ca.Nonces.{Nonces, contains, redeem}
use op_ca.Requests.{
  Jose, KeyRule, KeyRef, by_jwk, by_kid, Signer, account_signer, key_signer, ChangedKey, KeyChange,
  or_refused, account_url, signer_of, verified, changed_key, verify_key_change, kid_signer,
  account_as_signer, id_of_kid,
}
use op_ca.Requests.Replay.{Signed, verified-ok, or_refused-ok}

-- What is known of a key change that is accepted: the account's key signed the outer JWS, and the inner
-- one, checked by the crate, names the account's URL and carries the new key.
pub record Rollover (j : Jose) (accounts_url body url : List ℕ) (d : Db) (s s' : Nonces)
    (change : KeyChange j.Jwk) : Type 0 where
  pub outer : j.Jws
  pub key : j.Jwk
  pub nonce : Token
  pub signed :
      Signed j accounts_url body url KeyRule.kid d nonce outer (account_signer change.account key)
  pub live : contains nonce s.live ≡ true
  pub spent : (redeem nonce s).1 ≡ s'
  pub inner : ChangedKey j.Jwk
  pub inner_checked : j.key_change outer key ≡ ok inner
  pub own : inner.account ≡ account_url accounts_url change.account.id
  pub new_key : inner.new_key ≡ change.new_key

changed_key-ok :
    (j : Jose) (accounts_url : List ℕ) (outer : j.Jws) (signer : Signer j.Jwk)
    (change : KeyChange j.Jwk)
    → changed_key j accounts_url outer signer ≡ ok change
    → (key : j.Jwk) × (signer ≡ account_signer change.account key)
      × (inner : ChangedKey j.Jwk) × (j.key_change outer key ≡ ok inner)
      × (inner.account ≡ account_url accounts_url change.account.id)
      × (inner.new_key ≡ change.new_key)
unfolding changed_key
changed_key-ok j accounts_url outer (key_signer key) change e = absurd (cc e)
changed_key-ok j accounts_url outer (account_signer account key) change e =
    let (inner, checks, e1) = bind-ok (or_refused (j.key_change outer key)) _ change e in
    elim (Bool-cases (text_eq inner.account (account_url accounts_url account.id))) [
      | inl own ↦
          let same : record { account = account; new_key = inner.new_key } ≡ change =
            ground arith in
          rw (← same) (
            key,
            refl,
            inner,
            or_refused-ok (j.key_change outer key) inner checks,
            (text_eq_iff inner.account (account_url accounts_url account.id)).0 own,
            refl,
          )
      | inr other ↦ absurd (ground arith)
    ]

change-Rollover :
    (j : Jose) (accounts_url body url : List ℕ) (d : Db) (s s' : Nonces) (change : KeyChange j.Jwk)
    (v : Result ProblemType (j.Jws × Signer j.Jwk) × Nonces)
    → verified j accounts_url body url KeyRule.kid d s ≡ v
    → bind v.0 (λ w. changed_key j accounts_url w.0 w.1) ≡ ok change
    → v.1 ≡ s'
    → Rollover j accounts_url body url d s s' change
change-Rollover j accounts_url body url d s s' change (err p, left) e h l = absurd (cc h)
change-Rollover j accounts_url body url d s s' change (ok (outer, signer), left) e h l =
    let (key, same, inner, checks, own, new_key) =
      changed_key-ok j accounts_url outer signer change h in
    let passed : verified j accounts_url body url KeyRule.kid d s
        ≡ (ok (outer, account_signer change.account key), s') =
      ground (arith, e, same, l) in
    let (nonce, signed, live, spent) =
      verified-ok j accounts_url body url KeyRule.kid d s s' outer
        (account_signer change.account key) passed in
    record {
      outer = outer;
      key = key;
      nonce = nonce;
      signed = signed;
      live = live;
      spent = spent;
      inner = inner;
      inner_checked = checks;
      own = own;
      new_key = new_key;
    }

-- A change of key is accepted only from a request that the account's key signed for the URL with a live
-- nonce, which is redeemed, and whose inner JWS, which the crate checked, names that account's URL and
-- carries the new key.
pub verify_key_change-Rollover :
    (j : Jose) (accounts_url body url : List ℕ) (d : Db) (s s' : Nonces) (change : KeyChange j.Jwk)
    → verify_key_change j accounts_url body url d s ≡ (ok change, s')
    → Rollover j accounts_url body url d s s' change
unfolding verify_key_change
verify_key_change-Rollover j accounts_url body url d s s' change e =
    change-Rollover j accounts_url body url d s s' change
      (verified j accounts_url body url KeyRule.kid d s) refl (ap (λ p. p.0) e) (ap (λ p. p.1) e)

account_as_signer-account :
    (j : Jose) (a : Account) (k : j.Jwk) → account_as_signer j a ≢ ok (key_signer k)
unfolding account_as_signer
account_as_signer-account j a k e = elim (Option-cases (j.from_json a.jwk)) [
  | inl n ↦ ground arith
  | inr (key, n) ↦ ground arith
]

-- The rule `Kid` yields an account, so that the case of another signer does not arise.
signer_of-account :
    (j : Jose) (accounts_url : List ℕ) (key : KeyRef j.Jwk) (d : Db) (k : j.Jwk)
    → signer_of j accounts_url key KeyRule.kid d ≢ ok (key_signer k)
unfolding signer_of kid_signer
signer_of-account j accounts_url (by_jwk key) d k e = cc e
signer_of-account j accounts_url (by_kid name) d k e =
    let (id, names, e1) =
      bind-ok (ok_or (id_of_kid accounts_url name) ProblemType.account_does_not_exist)
        (λ id. bind (ok_or (account id d) ProblemType.account_does_not_exist) (account_as_signer j))
        (key_signer k) e in
    let (a, finds, e2) =
      bind-ok (ok_or (account id d) ProblemType.account_does_not_exist) (account_as_signer j)
        (key_signer k) e1 in
    account_as_signer-account j a k e2
