-- ===== src/Server/Allowed/Signing.antt =====
-- Who signed a request, as the handlers find it.
use op_ca.Prelude.{
  ℕ, ◌≡◌, ◌≢◌, ap₂, refl, sym, ap, List, Result, ok, err, bind, bind-ok, arith, text_eq, Bool-cases,
  inl, inr,
}
use op_ca.Problem.{ProblemType}
use op_ca.Requests
use op_ca.Requests.{
  Jose, KeyRef, KeyRule, Signer, account_signer, key_signer, signer_of, kid_signer,
  account_as_signer, account_url, KeyChange, ChangedKey, changed_key, or_refused, Verified,
  verified, by_jwk, by_kid,
}
use op_ca.Requests.Replay.{verified-ok, or_refused-ok}
use op_ca.Store.Tables.{Account, Db}
use op_ca.Store.Calls.{Call}
use op_ca.Server.{
  Crates, World, Server, Post, or_problem, arrive, verify, account_of, by_account, tell,
}
use op_ca.Server.Accounts.{verify_change}
use op_ca.Server.Trace.{Does, Does-bind, Does-tell, Later-arrive, Gives}
use op_ca.Server.Allowed.{Authentic, AuthenticAs}

module _ (c : Crates) (w : World) (P : ℕ → Db → Call → Type 0) (post : Post) (s : Server) where
  open c use {jose, Jwk}

  abbrev pub SignedBy : KeyRule → Verified Jwk → Server → Type 0
  SignedBy rule v t = (jws : jose.Jws) × AuthenticAs c w post s rule jws v.signer

  signed_at :
      (rule : KeyRule) (answer : Result ProblemType (jose.Jws × Signer Jwk)) (t : Server)
      → (verified jose post.accounts post.body post.url rule (arrive w s).store s.nonces).0 ≡ answer
      → Gives (SignedBy rule) (
        or_problem (
            bind answer (λ v.
              ok (record { signer = v.1; header = jose.header v.0; payload = jose.payload v.0 }))),
        t,
      )
  signed_at rule (ok v) t e = (v.0, e)
  signed_at rule (err problem) t e = tt

  pub verify-Does : (rule : KeyRule) → Does w P (SignedBy rule) (verify c w post rule) s
  unfolding verify Requests.verify arrive
  verify-Does rule = record {
    later = record { made = (Later-arrive w P s).made; same_issuer = refl; same_pause = refl };
    answer = signed_at rule _ _ refl;
  }

  abbrev pub SignedByAccount : Account × Jwk × List ℕ → Server → Type 0
  SignedByAccount a t = (jws : jose.Jws) × Authentic c w post s jws (account_signer a.0 a.1)

  -- Under `KeyRule::Jwk` a key signs by itself.
  signer_of-jwk :
      (key : KeyRef Jwk) (d : Db) (account : Account) (own : Jwk)
      → signer_of jose post.accounts key KeyRule.jwk d ≢ ok (account_signer account own)
  unfolding signer_of
  signer_of-jwk (by_jwk key) d account own h = absurd (cc h)
  signer_of-jwk (by_kid name) d account own h = absurd (cc h)

  pub jwk_signer :
      (jws : jose.Jws) (account : Account) (own : Jwk)
      → ¬ AuthenticAs c w post s KeyRule.jwk jws (account_signer account own)
  jwk_signer jws account own h =
      let (nonce, checked, live, left) =
        verified-ok jose post.accounts post.body post.url KeyRule.jwk (arrive w s).store s.nonces _
          jws (account_signer account own) (ap₂ (λ a b. (a, b)) h refl) in
      signer_of-jwk (jose.header jws).key (arrive w s).store account own checked.by_signer

  account_at :
      (signer : Signer Jwk) (payload : List ℕ) (a : Account × Jwk × List ℕ) (jws : jose.Jws)
      → Authentic c w post s jws signer
      → account_of c w signer payload ≡ ok a
      → Authentic c w post s jws (account_signer a.0 a.1)
  unfolding account_of
  account_at (account_signer account key) payload a jws signed h =
      let same : (account, key, payload) ≡ a = ground arith in rw (← same) signed
  account_at (key_signer key) payload a jws signed h = absurd (cc h)

  pub by_account-Does : Does w P SignedByAccount (by_account c w post) s
  unfolding by_account
  by_account-Does =
      Does-bind (verify c w post KeyRule.kid) (λ v. tell (account_of c w v.signer v.payload)) s
        (verify-Does KeyRule.kid)
        λ v t later signed.
          Does-tell (account_of c w v.signer v.payload) t
            λ a h. (signed.0, account_at v.signer v.payload a signed.0 (KeyRule.kid, signed.1) h)

  -- The account signed, and the new key is the one that the inner JWS of its request has.
  abbrev pub IsChange : KeyChange Jwk → Server → Type 0
  IsChange change t =
      (jws : jose.Jws) × (key : Jwk) × Authentic c w post s jws (account_signer change.account key)
      × (inner : ChangedKey Jwk) × (jose.key_change jws key ≡ ok inner)
      × (change.new_key ≡ inner.new_key)

  changed_key-IsChange :
      (jws : jose.Jws) (signer : Signer Jwk) (change : KeyChange Jwk) (t : Server)
      → Authentic c w post s jws signer
      → changed_key jose post.accounts jws signer ≡ ok change
      → IsChange change t
  unfolding changed_key
  changed_key-IsChange jws (key_signer key) change t signed h = absurd (cc h)
  changed_key-IsChange jws (account_signer account key) change t signed h =
      let (inner, reads, made) = bind-ok (or_refused (jose.key_change jws key)) _ change h in
      let url = account_url post.accounts account.id in
      elim (Bool-cases (text_eq inner.account url)) [
        | inl e ↦
            let same : record { account = account; new_key = inner.new_key } ≡ change =
              ground arith in
            let whose : account ≡ change.account = ap (λ k. k.account) same in
            (
              jws,
              key,
              rw (← whose) signed,
              inner,
              or_refused-ok (jose.key_change jws key) inner reads,
              sym (ap (λ k. k.new_key) same),
            )
        | inr e ↦ absurd (ground arith)
      ]

  verified-IsChange :
      (answer : Result ProblemType (jose.Jws × Signer Jwk)) (t : Server)
      → (verified jose post.accounts post.body post.url KeyRule.kid (arrive w s).store s.nonces).0
        ≡ answer
      → Gives IsChange (or_problem (bind answer (λ v. changed_key jose post.accounts v.0 v.1)), t)
  verified-IsChange (err problem) t e = tt
  verified-IsChange (ok v) t e =
      made (changed_key jose post.accounts v.0 v.1)
        (λ change h. changed_key-IsChange v.0 v.1 change t (KeyRule.kid, e) h)
    where
      made :
          (r : Result ProblemType (KeyChange Jwk))
          → ((change : KeyChange Jwk) → r ≡ ok change → IsChange change t)
          → Gives IsChange (or_problem r, t)
      made (ok change) f = f change refl
      made (err problem) f = tt

  pub verify_change-Does : Does w P IsChange (verify_change c w post) s
  unfolding verify_change Requests.verify_key_change arrive
  verify_change-Does = record {
    later = record { made = (Later-arrive w P s).made; same_issuer = refl; same_pause = refl };
    answer = verified-IsChange _ _ refl;
  }
