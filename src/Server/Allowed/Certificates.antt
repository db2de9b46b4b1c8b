-- ===== src/Server/Allowed/Certificates.antt =====
-- The handlers on certificates do only what the signer may have done, and show only the signer's.
use op_ca.Prelude.{
  ℕ, ◌≡◌, refl, sym, ap, ◌∙◌, true, Option, none, some, String, List, ok, arith, text_eq,
  text_eq_iff, Bool-cases, inl, inr, subst, if◌then◌else◌,
}
use op_ca.Problem.{ProblemType}
use op_ca.Requests.{KeyRule, Signer, account_signer, key_signer}
use op_ca.Store.Tables.{Certificate, Db}
use op_ca.Store.Certificates
use op_ca.Store.Kept.{certificate_by_serial-run}
use op_ca.Store.Calls.{revokes, step}
use op_ca.Server.{
  Crates, World, Server, Post, revoked_reply, Leaf, arrive, or_refuse, modify, pure, ◌>>=◌,
}
use op_ca.Server.Certificates.{
  is_first, same_certificate, is_permitted, check_permitted, certificate, revoke,
}
use op_ca.Server.Trace.{Does, Does-bind, Does-pure, Later-refl, tell-then, look-then, transact-then}
use op_ca.Server.Allowed.{Authentic, Allowed, Shown, Sends, Grants}
use op_ca.Server.Allowed.Signing.{verify-Does, by_account-Does}
use op_ca.Server.Allowed.Reading.{found-ok, owned_by-ok}

or_refuse-ok :
    {A : Type 0} (o : Option A) (problem : ProblemType) (a : A)
    → or_refuse o problem ≡ ok a
    → o ≡ some a
or_refuse-ok none problem a h = absurd (cc h)
or_refuse-ok (some x) problem a h = ground arith

module _ (c : Crates) where
  open c use {Jwk}

  same_certificate-ok :
      (der : List ℕ) (row : Option Certificate) (issued : Certificate)
      → same_certificate c der row ≡ some issued
      → (row ≡ some issued) × (c.first_certificate issued.chain_pem ≡ some der)
  unfolding same_certificate
  same_certificate-ok der none issued h = absurd (cc h)
  same_certificate-ok der (some x) issued h = same (c.first_certificate x.chain_pem) refl h
    where
      same :
          (first : Option (List ℕ))
          → c.first_certificate x.chain_pem ≡ first
          → (if is_first first der then some x else none) ≡ some issued
          → (some x ≡ some issued) × (c.first_certificate issued.chain_pem ≡ some der)
      same none e h = absurd (cc h)
      same (some text) e h = elim (Bool-cases (text_eq text der)) [
        | inl t ↦
            let is : x ≡ issued = ground arith in
            let der_is : text ≡ der = (text_eq_iff text der).0 t in
            (
              ap some is,
              subst (λ k. c.first_certificate k.chain_pem ≡ some der) is (e ∙ ap some der_is),
            )
        | inr f ↦ absurd (ground arith)
      ]

  permitted_account :
      (leaf : Leaf) (issued : Certificate) (signer : Signer Jwk) (u : Unit {0})
      → check_permitted c leaf issued signer ≡ ok u
      → is_permitted c leaf issued signer ≡ true
  unfolding check_permitted
  permitted_account leaf issued signer u h = elim (Bool-cases (is_permitted c leaf issued signer)) [
    | inl e ↦ e
    | inr e ↦ absurd (ground arith)
  ]

  -- A revocation that the code permits is one that the signer may have.
  granted :
      (w : World) (s : Server) (jws : c.jose.Jws) (serial : String) (reason : Option ℕ) (now n : ℕ)
      (d : Db) (issued : Certificate) (leaf : Leaf) (signer : Signer Jwk)
      → Sends c serial issued leaf d
      → is_permitted c leaf issued signer ≡ true
      → Grants c w s jws signer n d (revokes serial reason now)
  unfolding is_permitted
  granted w s jws serial reason now n d issued leaf (account_signer account key) sends h =
      (issued, leaf, sends, ground arith)
  granted w s jws serial reason now n d issued leaf (key_signer key) sends h =
      (issued, leaf, sends, (text_eq_iff (c.subject_public_key_info key) leaf.spki).0 h)

module _ (c : Crates) (w : World) (post : Post) (s : Server) where
  open c use {jose, Jwk}

  pub certificate-Does :
      (id : ℕ) → Does w (Allowed c w post s) (Shown c w post s) (certificate c w id post) s
  unfolding certificate Certificates.certificate
  certificate-Does id =
      Does-bind _ _ s (by_account-Does c w (Allowed c w post s) post s) λ signed t l (jws, auth).
        tell-then _ _ t λ e empty. look-then _ _ t λ l'. tell-then _ _ _ λ row found.
          tell-then _ _ _ λ u owner. Does-pure _ _ (
            jws,
            account_signer signed.0 signed.1,
            auth,
            (id, row, found-ok _ row found, sym (owned_by-ok signed.0 row.account u owner), refl),
          )

  -- The certificate is still there when it is revoked, its columns as they were issued.
  arrive-Sends :
      (serial : String) (der : List ℕ) (issued : Certificate) (leaf : Leaf) (t : Server)
      → Certificates.certificate_by_serial serial t.store ≡ some issued
      → c.first_certificate issued.chain_pem ≡ some der
      → c.inspect der ≡ some leaf
      → leaf.serial ≡ serial
      → (later : Certificate) × (issued.account ≡ later.account)
        × Sends c serial later leaf (arrive w t).store
  unfolding arrive
  arrive-Sends serial der issued leaf t found first read named =
      let (later, found', (same, stays)) =
        certificate_by_serial-run t.store (w.others t.moment) serial issued found in
      (
        later,
        ap (λ k. k.account) same,
        record {
          found = found';
          der = der;
          first = subst (λ p. c.first_certificate p ≡ some der) (ap (λ k. k.chain_pem) same) first;
          read = read;
          named = named;
        },
      )

  moved :
      (leaf : Leaf) (issued later : Certificate) (signer : Signer Jwk)
      → issued.account ≡ later.account
      → is_permitted c leaf issued signer ≡ true
      → is_permitted c leaf later signer ≡ true
  unfolding is_permitted
  moved leaf issued later (account_signer account key) same h = ground arith
  moved leaf issued later (key_signer key) same h = h

  resigned :
      (t : Server) (signer : Signer Jwk) (jws : jose.Jws)
      → Authentic c w post s jws signer
      → Does w
          (Allowed c w post s)
          (Shown c w post s)
          (modify (λ s. record s { resign = true }) >>= λ u. pure revoked_reply)
          t
  unfolding modify
  resigned t signer jws auth =
      Does-bind {Q = λ u v. Unit {0}} _ _ t
        (record {
          later = record {
            made = (Later-refl w (Allowed c w post s) t).made;
            same_issuer = refl;
            same_pause = refl;
          };
          answer = tt;
        })
        λ u v l q. Does-pure revoked_reply v (shows signer v auth)
    where
      shows :
          (signer : Signer Jwk) (v : Server)
          → Authentic c w post s jws signer
          → Shown c w post s revoked_reply v
      shows (account_signer account key) v auth = (jws, account_signer account key, auth, tt)
      shows (key_signer key) v auth = (jws, key_signer key, auth, tt)

  pub revoke-Does : Does w (Allowed c w post s) (Shown c w post s) (revoke c w post) s
  unfolding revoke step
  revoke-Does =
      Does-bind _ _ s (verify-Does c w (Allowed c w post s) post s KeyRule.either)
        λ v t l (jws, auth). tell-then _ _ t λ request parsed. tell-then _ _ t λ der decoded.
          tell-then _ _ t λ leaf read. look-then _ _ t λ l'. tell-then _ _ _ λ issued found.
            tell-then _ _ _ λ u permitted. tell-then _ _ _ λ reason allowed.
              let (there, first) = same_certificate-ok c der _ issued (found-ok _ issued found) in
              let (later, owner, sends) =
                arrive-Sends leaf.serial der issued leaf (arrive w t) there first
                  (or_refuse-ok _ _ leaf read) refl in
              transact-then _ (revokes leaf.serial reason) _ (arrive w t) (λ at d. refl)
                (
                  jws,
                  v.signer,
                  (KeyRule.either, auth),
                  granted c w s jws leaf.serial reason _ _ _ later leaf v.signer sends (
                      moved leaf issued later v.signer owner
                        (permitted_account c leaf issued v.signer u permitted)),
                )
                λ l''.
                  tell-then _ _ _ λ revoked done. resigned _ v.signer jws (KeyRule.either, auth)
