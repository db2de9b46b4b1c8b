-- ===== src/Requests/Replay.antt =====
-- A request that was answered is refused when it is sent again.
use op_ca.Prelude.{
  ℕ, ◌≡◌, refl, ap, true, false, some, List, Result, ok, err, bind, ok_or, bind-ok, ok_or-ok, is_ok,
  text_eq, text_eq_iff, if◌then◌else◌, arith, Bool-cases, inl, inr,
}
use op_ca.Problem.{ProblemType}
use op_ca.Store.Tables.{Token, Db}
use op_ca.Nonces.{NonceCall, nonce_run, Nonces, redeem, contains}
use op_ca.Nonces.Redeeming.{drawn, stays_dead}
use op_ca.Nonces.Bounded.{contains-remove}
use op_ca.Requests.Signers.{AskedFor, signer_of-AskedFor}
use op_ca.Requests.{
  JoseError, or_refused, Jose, KeyRule, Signer, signer_key, signer_of, check_signature,
  check_signer, check_header, checked, redeemed, verified,
}

-- What is known of a request that `checked` lets through.
pub record Signed (j : Jose) (accounts_url body url : List ℕ) (rule : KeyRule) (d : Db)
    (nonce : Token) (jws : j.Jws) (signer : Signer j.Jwk) : Type 0 where
  pub parsed : j.parse body ≡ ok jws
  pub for_url : (j.header jws).url ≡ url
  pub with_nonce : (j.header jws).nonce ≡ some nonce
  pub by_signer : signer_of j accounts_url (j.header jws).key rule d ≡ ok signer
  pub entitled : AskedFor j accounts_url (j.header jws).key rule d signer
  pub signature : j.verify_signature jws (signer_key signer) ≡ ok tt

pub or_refused-ok : {A : Type 0} (r : Result JoseError A) (a : A) → or_refused r ≡ ok a → r ≡ ok a
or_refused-ok (ok x) a h = ground arith
or_refused-ok (err e) a h = absurd (cc h)

abbrev Checked : Jose → Type 0
Checked j = Token × j.Jws × Signer j.Jwk

signature-ok :
    (j : Jose) (jws : j.Jws) (nonce : Token) (signer : Signer j.Jwk) (r : Checked j)
    → check_signature j jws nonce signer ≡ ok r
    → (j.verify_signature jws (signer_key signer) ≡ ok tt) × ((nonce, jws, signer) ≡ r)
unfolding check_signature
signature-ok j jws nonce signer r h =
    let (v, verifies, h) =
      bind-ok (or_refused (j.verify_signature jws (signer_key signer)))
        (λ v. ok (nonce, jws, signer)) r h in
    (or_refused-ok (j.verify_signature jws (signer_key signer)) v verifies, ground arith)

signer-ok :
    (j : Jose) (accounts_url : List ℕ) (jws : j.Jws) (rule : KeyRule) (d : Db) (nonce : Token)
    (r : Checked j)
    → check_signer j accounts_url jws rule d nonce ≡ ok r
    → (signer : Signer j.Jwk) × (signer_of j accounts_url (j.header jws).key rule d ≡ ok signer)
      × (check_signature j jws nonce signer ≡ ok r)
unfolding check_signer
signer-ok j accounts_url jws rule d nonce r h =
    bind-ok (signer_of j accounts_url (j.header jws).key rule d) (check_signature j jws nonce) r h

header-ok :
    (j : Jose) (accounts_url url : List ℕ) (rule : KeyRule) (d : Db) (jws : j.Jws) (r : Checked j)
    → check_header j accounts_url url rule d jws ≡ ok r
    → ((j.header jws).url ≡ url)
      × (nonce : Token) × ((j.header jws).nonce ≡ some nonce)
      × (check_signer j accounts_url jws rule d nonce ≡ ok r)
unfolding check_header
header-ok j accounts_url url rule d jws r h = elim (Bool-cases (text_eq (j.header jws).url url)) [
  | inl e ↦
      let passed : bind (ok_or (j.header jws).nonce ProblemType.bad_nonce)
            (check_signer j accounts_url jws rule d)
          ≡ ok r =
        ground arith in
      let (nonce, named, h1) =
        bind-ok (ok_or (j.header jws).nonce ProblemType.bad_nonce)
          (check_signer j accounts_url jws rule d) r passed in
      (
        (text_eq_iff (j.header jws).url url).0 e,
        nonce,
        ok_or-ok (j.header jws).nonce ProblemType.bad_nonce nonce named,
        h1,
      )
  | inr e ↦ absurd (ground arith)
]

-- An answer of `checked` came through each of its checks.
checked-Signed :
    (j : Jose) (accounts_url body url : List ℕ) (rule : KeyRule) (d : Db) (r : Checked j)
    → checked j accounts_url body url rule d ≡ ok r
    → Signed j accounts_url body url rule d r.0 r.1 r.2
unfolding checked
checked-Signed j accounts_url body url rule d r h =
    let (jws, parses, h1) =
      bind-ok (or_refused (j.parse body)) (check_header j accounts_url url rule d) r h in
    let (for_url, nonce, with_nonce, h2) = header-ok j accounts_url url rule d jws r h1 in
    let (signer, by_signer, h3) = signer-ok j accounts_url jws rule d nonce r h2 in
    let (signature, same) = signature-ok j jws nonce signer r h3 in
    rw (← same) (record {
      parsed = or_refused-ok (j.parse body) jws parses;
      for_url = for_url;
      with_nonce = with_nonce;
      by_signer = by_signer;
      entitled = signer_of-AskedFor j accounts_url (j.header jws).key rule d signer by_signer;
      signature = signature;
    })

redeemed-ok :
    {A B : Type 0} (r : Result ProblemType (Token × A × B)) (s s' : Nonces) (v : A × B)
    → redeemed r s ≡ (ok v, s')
    → (nonce : Token) × (r ≡ ok (nonce, v.0, v.1))
      × (contains nonce s.live ≡ true)
      × ((redeem nonce s).1 ≡ s')
unfolding redeemed redeem
redeemed-ok (err e) s s' v h = absurd (cc (ap (λ p. p.0) h))
redeemed-ok (ok (nonce, a, b)) s s' v h =
    let answered : (if contains nonce s.live then ok (a, b) else err ProblemType.bad_nonce) ≡ ok v =
      ap (λ p. p.0) h in
    let live : contains nonce s.live ≡ true = ground arith in
    let same : (a, b) ≡ v = ground arith in
    (nonce, ap (λ w. ok (nonce, w.0, w.1)) same, live, ap (λ p. p.1) h)

-- A request is verified only if its JWS parses, was signed for the URL, and carries a nonce that was
-- live; and the nonce is then redeemed. The key that signed it stands in the header, where the rule lets
-- it; or it is the stored key of a valid account that the header names by its URL, where the rule lets
-- that.
pub verified-ok :
    (j : Jose) (accounts_url body url : List ℕ) (rule : KeyRule) (d : Db) (s s' : Nonces)
    (jws : j.Jws) (signer : Signer j.Jwk)
    → verified j accounts_url body url rule d s ≡ (ok (jws, signer), s')
    → (nonce : Token) × Signed j accounts_url body url rule d nonce jws signer
      × (contains nonce s.live ≡ true)
      × ((redeem nonce s).1 ≡ s')
unfolding verified
verified-ok j accounts_url body url rule d s s' jws signer h =
    let (nonce, passed, live, left) =
      redeemed-ok (checked j accounts_url body url rule d) s s' (jws, signer) h in
    (nonce, checked-Signed j accounts_url body url rule d (nonce, jws, signer) passed, live, left)

not_live-redeemed :
    {A B : Type 0} (r : Result ProblemType (Token × A × B)) (s : Nonces) (nonce : Token)
    → ((n : Token) (a : A) (b : B) → r ≡ ok (n, a, b) → n ≡ nonce)
    → contains nonce s.live ≡ false
    → is_ok (redeemed r s).0 ≡ false
unfolding redeemed redeem
not_live-redeemed (err e) s nonce f h = refl
not_live-redeemed (ok (n, a, b)) s nonce f h = let same = f n a b refl in ground (arith, same, h)

redeem-contains : (nonce : Token) (s : Nonces) → contains nonce (redeem nonce s).1.live ≡ false
unfolding redeem
redeem-contains nonce s =
    ground (arith, contains-remove nonce nonce s.live, text_eq_iff nonce nonce)

-- No replay: a body that was verified is not verified again, for any URL, under any rule and in any
-- later database, after any calls to the nonces that do not draw the same nonce anew.
pub verified-again :
    (j : Jose) (accounts_url body url url' : List ℕ) (rule rule' : KeyRule) (d d' : Db)
    (s s' : Nonces) (jws : j.Jws) (signer : Signer j.Jwk) (nonce : Token) (calls : List NonceCall)
    → verified j accounts_url body url rule d s ≡ (ok (jws, signer), s')
    → (j.header jws).nonce ≡ some nonce
    → drawn nonce calls ≡ 0
    → is_ok (verified j accounts_url body url' rule' d' (nonce_run s' calls)).0 ≡ false
verified-again j accounts_url body url url' rule rule' d d' s s' jws signer nonce calls h named
      fresh =
    let (n, was, live, left) = verified-ok j accounts_url body url rule d s s' jws signer h in
    let same : n ≡ nonce = ground (arith, was.with_nonce, named) in
    let dead : contains nonce s'.live ≡ false = rw (← left, ← same) (redeem-contains n s) in
    unfold verified in
    not_live-redeemed (checked j accounts_url body url' rule' d') (nonce_run s' calls) nonce
      (λ m jws' signer' passed.
        let again = checked-Signed j accounts_url body url' rule' d' (m, jws', signer') passed in
        let one_jws : jws' ≡ jws = ground (arith, again.parsed, was.parsed) in
        ground (arith, one_jws, again.with_nonce, named))
      (stays_dead nonce s' calls fresh dead)
