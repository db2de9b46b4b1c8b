-- ===== src/CaDatabase/Written.antt =====
-- The scan writes and sorts a certificate as CaDatabase/Spelled says.
use op_ca.Prelude.{
  Text, ℕ, ◌+◌, ◌≡◌, ◌<◌, refl, ap, ◌∙◌, Bool, true, false, not, ◌&&◌, ◌||◌, inl, inr, Option, some,
  ltb, if◌then◌else◌, arith, Bool-cases, lt→ltb, ltb→lt,
}
use op_ca.CaDatabase.{CertRecord, Standings}
use op_ca.CaDatabase.Standing.{
  Outside, Standing, days, was_revoked, names, revokes, standing_at, standing_of, status_of,
  status_differs, settled,
}
use op_ca.CaDatabase.Scanning.{written, written_at}
use op_ca.CaDatabase.Sets.{held, belongs, puts, puts_at}
use op_ca.CaDatabase.Spelled.{
  Expires, InSets, Settles, expiry-ok, expiry-none, was_revoked-true, was_revoked-false, names-true,
  names-false, status_written,
}

module _ (w : Outside) (revoke : Option Text) (r : CertRecord) (e : ℕ) where
  settled_as :
      (st : Standing) (b : Bool)
      → standing_of w revoke e r ≡ st
      → revokes w revoke e r ≡ b
      → settled w revoke e r ≡ record r {
        revocation_date = if b then some w.now_text else r.revocation_date;
        status = if status_differs (status_of st) r then status_of st else r.status;
      }
  settled_as st b p q =
      ap
        (λ x. record r {
          revocation_date = if revokes w revoke e r then some w.now_text else r.revocation_date;
          status = if status_differs (status_of x) r then status_of x else r.status;
        })
        p
      ∙ ap
          (λ x. record r {
            revocation_date = if x then some w.now_text else r.revocation_date;
            status = if status_differs (status_of st) r then status_of st else r.status;
          })
          q

  -- The row and the sets, once the expiry is read and the standing known.
  stands_as :
      (after : CertRecord) (s : Standings) (st : Standing) (b : Bool)
      → after ≡ written w revoke r
      → ((k : Standing) → held k r.serial s ≡ belongs w revoke k r)
      → Expires w r e
      → standing_of w revoke e r ≡ st
      → revokes w revoke e r ≡ b
      → (after ≡ record r {
        revocation_date = if b then some w.now_text else r.revocation_date;
        status = if status_differs (status_of st) r then status_of st else r.status;
      })
        × InSets r.serial s
            (puts st Standing.expired)
            (puts st Standing.revoked)
            (puts st Standing.expires_soon)
            (puts st Standing.expires_warning)
            (puts st Standing.valid)
  stands_as after s st b made sets has p q =
      let reads = expiry-ok w r e has in
      let each : (k : Standing) → held k r.serial s ≡ puts st k =
        λ k. sets k ∙ (ap (λ o. puts_at w revoke o k r) reads ∙ ap (λ x. puts x k) p) in
      (
        made ∙ (ap (λ o. written_at w revoke o r) reads ∙ settled_as st b p q),
        (
          each Standing.expired,
          each Standing.revoked,
          each Standing.expires_soon,
          each Standing.expires_warning,
          each Standing.valid,
        ),
      )

  -- The standing by what decides it.
  standing_expired : e < w.now → standing_of w revoke e r ≡ Standing.expired
  unfolding standing_at
  standing_expired l = rw (lt→ltb e w.now l) refl

  standing_revoked :
      ltb e w.now ≡ false
      → (was_revoked r || revokes w revoke e r) ≡ true
      → standing_of w revoke e r ≡ Standing.revoked
  unfolding standing_at
  standing_revoked l v = rw (v, l) refl

  standing_in_force :
      (a b : Bool)
      → ltb e w.now ≡ false
      → (was_revoked r || revokes w revoke e r) ≡ false
      → ltb e (w.now + days 30) ≡ a
      → ltb e (w.now + days 183) ≡ b
      → standing_of w revoke e r ≡ (
          if a
          then Standing.expires_soon
          else if b
          then Standing.expires_warning
          else Standing.valid)
  unfolding standing_at
  standing_in_force a b l v p q = rw (v, l, p, q) refl

  revokes_lem :
      (a b c : Bool)
      → names revoke r.serial ≡ a
      → ltb e w.now ≡ b
      → was_revoked r ≡ c
      → revokes w revoke e r ≡ (a && (not b && not c))
  revokes_lem a b c p q x = rw (p, q, x) refl

or-right : (b : Bool) → (b || true) ≡ true
or-right true = refl
or-right false = refl

and-none : (b : Bool) → (b && false) ≡ false
and-none true = refl
and-none false = refl

-- What the scan writes and sorts is what is spelled out.
pub written-Settles :
    (w : Outside) (revoke : Option Text) (r after : CertRecord) (s : Standings)
    → after ≡ written w revoke r
    → ((k : Standing) → held k r.serial s ≡ belongs w revoke k r)
    → Settles w revoke r after s
written-Settles w revoke r after s made sets = record {
  unread = λ never.
      let o = expiry-none w r never in
      let each : (k : Standing) → held k r.serial s ≡ false =
        λ k. sets k ∙ ap (λ o. puts_at w revoke o k r) o in
      (
        made ∙ ap (λ o. written_at w revoke o r) o,
        (
          each Standing.expired,
          each Standing.revoked,
          each Standing.expires_soon,
          each Standing.expires_warning,
          each Standing.valid,
        ),
      );
  expired = λ e has l.
      let past = lt→ltb e w.now l in
      let (row, there) =
        stands_as w revoke r e after s Standing.expired false made sets has
          (standing_expired w revoke r e l)
          (revokes_lem w revoke r e _ true _ refl past refl ∙ and-none (names revoke r.serial)) in
      (row ∙ ap (λ t. record r { status = t }) (status_written "Expired" r), there);
  revoked = λ e has l was.
      let ahead : ltb e w.now ≡ false = ground (arith, l) in
      let was' = was_revoked-true r was in
      let (row, there) =
        stands_as w revoke r e after s Standing.revoked false made sets has
          (standing_revoked w revoke r e ahead (ap (λ b. b || revokes w revoke e r) was'))
          (revokes_lem w revoke r e _ false true refl ahead was'
            ∙ and-none (names revoke r.serial)) in
      (row ∙ ap (λ t. record r { status = t }) (status_written "Revoked" r), there);
  revoked_now = λ e has l never asked.
      let ahead : ltb e w.now ≡ false = ground (arith, l) in
      let now =
        revokes_lem w revoke r e true false false (names-true revoke r.serial asked) ahead
          (was_revoked-false r never) in
      let (row, there) =
        stands_as w revoke r e after s Standing.revoked true made sets has
          (standing_revoked w revoke r e ahead
            (ap (λ b. was_revoked r || b) now ∙ or-right (was_revoked r)))
          now in
      (
        row
            ∙ ap (λ t. record r { revocation_date = some w.now_text; status = t })
                (status_written "Revoked" r),
        there,
      );
  in_force = λ e has l never other.
      let ahead : ltb e w.now ≡ false = ground (arith, l) in
      let not_was = was_revoked-false r never in
      let not_now =
        revokes_lem w revoke r e false false false (names-false revoke r.serial other) ahead
          not_was in
      let neither : (was_revoked r || revokes w revoke e r) ≡ false =
        ap (λ b. b || revokes w revoke e r) not_was ∙ not_now in
      let standing =
        λ (a b : Bool) (p : ltb e (w.now + days 30) ≡ a) (q : ltb e (w.now + days 183) ≡ b).
          standing_in_force w revoke r e a b ahead neither p q in
      elim (Bool-cases (ltb e (w.now + days 30))) [
        | inl p ↦
            let q : ltb e (w.now + days 183) ≡ true =
              lt→ltb e (w.now + days 183) (omega (arith, ltb→lt e (w.now + days 30) p)) in
            rw (p, q)
              (stands_as w revoke r e after s Standing.expires_soon false made sets has
                (standing true true p q) not_now)
        | inr p ↦ elim (Bool-cases (ltb e (w.now + days 183))) [
          | inl q ↦
              rw (p, q)
                (stands_as w revoke r e after s Standing.expires_warning false made sets has
                  (standing false true p q) not_now)
          | inr q ↦
              rw (p, q)
                (stands_as w revoke r e after s Standing.valid false made sets has
                  (standing false false p q) not_now)
        ]
      ];
}
