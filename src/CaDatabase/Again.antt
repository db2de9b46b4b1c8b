-- ===== src/CaDatabase/Again.antt =====
-- A second scan at the same time finds nothing to change.
use op_ca.Prelude.{
  Text, ℕ, ◌+◌, ◌≡◌, refl, sym, ap, ◌∙◌, Bool, true, false, not, ◌||◌, Option, none, some, ltb,
  if◌then◌else◌, Bool-cases, inl, inr, String, eq_refl, subst,
}
use op_ca.CaDatabase.{CertRecord, has_text}
use op_ca.CaDatabase.Standing.{
  Outside, expiry_of, standing_at, standing_of, status_of, status_differs, settled, revokes,
  was_revoked, is_filled, days,
}
use op_ca.CaDatabase.Found.{unchanged}
use op_ca.CaDatabase.Scanning.{written, written_at, changes, change_at}

has_itself :
    (t : String) (s : Option String) (b : Bool)
    → has_text t (if b then some t else s) ≡ (b || has_text t s)
has_itself t s true = eq_refl t
has_itself t s false = refl

tautology : (b : Bool) → not (not b || b) ≡ false
tautology true = refl
tautology false = refl

certain : (x b : Bool) → (x || (not b || b)) ≡ true
certain true b = refl
certain false true = refl
certain false false = refl

neither : (a b : Bool) → (a || b) ≡ false → (a ≡ false) × (b ≡ false)
neither true b h = absurd (cc h)
neither false b h = (refl, h)

-- What a scan that revokes nothing asks of an unexpired row.
module _ (w : Outside) (expiry : ℕ) (r : CertRecord) (e : ltb expiry w.now ≡ false) where
  revoked_row :
      was_revoked r ≡ true
      → has_text "Revoked" r.status ≡ true
      → status_differs (status_of (standing_of w none expiry r)) r ≡ false
  unfolding standing_at
  revoked_row was text = rw (e, was, text) refl

  valid_row :
      was_revoked r ≡ false → status_differs (status_of (standing_of w none expiry r)) r ≡ false
  unfolding standing_at
  valid_row was = either (ltb expiry (w.now + days 30)) (ltb expiry (w.now + days 183)) refl refl
    where
      either :
          (a b : Bool)
          → ltb expiry (w.now + days 30) ≡ a
          → ltb expiry (w.now + days 183) ≡ b
          → status_differs (status_of (standing_of w none expiry r)) r ≡ false
      either true b p q = rw (was, e, p) refl
      either false true p q = rw (was, e, p, q) refl
      either false false p q = rw (was, e, p, q) refl

module _ (w : Outside) (revoke : Option Text) (expiry : ℕ) (c : CertRecord) where
  abbrev again : CertRecord
  again = settled w revoke expiry c

  when_revoked :
      ltb expiry w.now ≡ false
      → (was_revoked c || revokes w revoke expiry c) ≡ true
      → (was_revoked again ≡ true) × (has_text "Revoked" again.status ≡ true)
  unfolding standing_at
  when_revoked e v =
      let text : has_text "Revoked" again.status ≡ true =
        rw (v, e)
          (has_itself "Revoked" c.status (not (has_text "Revoked" c.status))
            ∙ certain false (has_text "Revoked" c.status)) in
      (rw text (last (is_filled again.revocation_date)), text)
    where
      last : (b : Bool) → (b || true) ≡ true
      last true = refl
      last false = refl

  -- Neither revoked before nor now: the row is as it was.
  when_valid :
      ltb expiry w.now ≡ false → (was_revoked c || revokes w revoke expiry c) ≡ false → again ≡ c
  unfolding standing_at
  when_valid e v =
      let (was, now) = neither (was_revoked c) (revokes w revoke expiry c) v in
      same (ltb expiry (w.now + days 30)) (ltb expiry (w.now + days 183)) refl refl was now
    where
      same :
          (a b : Bool)
          → ltb expiry (w.now + days 30) ≡ a
          → ltb expiry (w.now + days 183) ≡ b
          → was_revoked c ≡ false
          → revokes w revoke expiry c ≡ false
          → again ≡ c
      same true b p q was now = rw (now, was, e, p) refl
      same false true p q was now = rw (now, was, e, p, q) refl
      same false false p q was now = rw (now, was, e, p, q) refl

  status_again : status_differs (status_of (standing_of w none expiry again)) again ≡ false
  unfolding standing_at
  status_again = elim (Bool-cases (ltb expiry w.now)) [
    | inl e ↦ rw e (
        rw (has_itself "Expired" c.status (not (has_text "Expired" c.status)))
          (tautology (has_text "Expired" c.status)))
    | inr e ↦ elim (Bool-cases (was_revoked c || revokes w revoke expiry c)) [
      | inl v ↦ let (was, text) = when_revoked e v in revoked_row w expiry again e was text
      | inr v ↦
          subst (λ r. status_differs (status_of (standing_of w none expiry r)) r ≡ false)
            (sym (when_valid e v))
            (valid_row w expiry c e (neither (was_revoked c) (revokes w revoke expiry c) v).0)
    ]
  ]

again_at :
    (w : Outside) (revoke : Option Text) (c : CertRecord) (o : Option ℕ)
    → change_at w none o (written_at w revoke o c) ≡ false
again_at w revoke c none = refl
again_at w revoke c (some expiry) = status_again w revoke expiry c

same_expiry :
    (w : Outside) (revoke : Option Text) (c : CertRecord) (o : Option ℕ)
    → (written_at w revoke o c).expiry_date ≡ c.expiry_date
same_expiry w revoke c none = refl
same_expiry w revoke c (some expiry) = refl

-- Scanning is idempotent. At the time of a scan, a second one that revokes nothing finds no change to
-- make in a row as the first left it, whatever its status and dates were and whether or not the first
-- revoked it.
pub written-stays :
    (w : Outside) (revoke : Option Text) (c : CertRecord)
    → (changes w none (written w revoke c) ≡ false)
      × (written w none (written w revoke c) ≡ written w revoke c)
written-stays w revoke c =
    let o = expiry_of w c.expiry_date in
    let quiet : changes w none (written w revoke c) ≡ false =
      ap (λ t. change_at w none (expiry_of w t) (written w revoke c)) (same_expiry w revoke c o)
      ∙ again_at w revoke c o in
    (
      quiet,
      unchanged w none (expiry_of w (written w revoke c).expiry_date) (written w revoke c) quiet,
    )
