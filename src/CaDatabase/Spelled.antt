-- ===== src/CaDatabase/Spelled.antt =====
-- How the scan is to leave a certificate, by its own columns, the time and the serial to revoke.
use op_ca.Prelude.{
  Text, text_eq, text_eq_iff, ℕ, ◌+◌, ◌≡◌, ◌≢◌, ◌≤◌, ◌<◌, refl, sym, ap, ◌∙◌, String, Bool, true,
  false, not, ◌||◌, ◌⊎◌, inl, inr, Option, none, some, ltb, str_eq, eq_iff, eq_refl, if◌then◌else◌,
  arith, Bool-cases, Option-cases,
}
use op_ca.CaDatabase.{CertRecord, Standings, has_text}
use op_ca.CaDatabase.Standing.{
  Outside, days, is_filled, expiry_of, was_revoked, names, status_differs, contains,
}

-- The row has an expiry, and it can be read.
abbrev pub Expires : Outside → CertRecord → ℕ → Type 0
Expires w r e = (t : String) × (r.expiry_date ≡ some t) × (t ≢ "") × (w.read_time t ≡ some e)

-- The row has a revocation date or the status.
abbrev pub WasRevoked : CertRecord → Type 0
WasRevoked r =
    ((t : String) × (r.revocation_date ≡ some t) × (t ≢ "")) ⊎ (r.status ≡ some "Revoked")

-- In which sets a serial is: the expired ones, replaced or not; the revoked; those that expire soon;
-- those with a warning; and the valid.
abbrev pub InSets : Text → Standings → Bool → Bool → Bool → Bool → Bool → Type 0
InSets serial s expired revoked soon warning valid =
    ((contains serial s.certs_expired || contains serial s.certs_superseded) ≡ expired)
    × (contains serial s.certs_revoked ≡ revoked)
    × (contains serial s.certs_expires_soon ≡ soon)
    × (contains serial s.certs_expires_warning ≡ warning)
    × (contains serial s.certs_valid ≡ valid)

-- `r` before the scan, `after` after it, and the sets.
pub record Settles (w : Outside) (revoke : Option Text) (r after : CertRecord) (s : Standings)
    : Type 0 where
  pub unread :
      ((e : ℕ) → ¬ Expires w r e) → (after ≡ r) × InSets r.serial s false false false false false
  pub expired :
      (e : ℕ)
      → Expires w r e
      → e < w.now
      → (after ≡ record r { status = some "Expired" })
        × InSets r.serial s true false false false false
  pub revoked :
      (e : ℕ)
      → Expires w r e
      → w.now ≤ e
      → WasRevoked r
      → (after ≡ record r { status = some "Revoked" })
        × InSets r.serial s false true false false false
  pub revoked_now :
      (e : ℕ)
      → Expires w r e
      → w.now ≤ e
      → ¬ WasRevoked r
      → revoke ≡ some r.serial
      → (after ≡ record r { revocation_date = some w.now_text; status = some "Revoked" })
        × InSets r.serial s false true false false false
  pub in_force :
      (e : ℕ)
      → Expires w r e
      → w.now ≤ e
      → ¬ WasRevoked r
      → revoke ≢ some r.serial
      → (after ≡ r)
        × InSets r.serial s false false
            (ltb e (w.now + days 30))
            (ltb e (w.now + days 183))
            (not (ltb e (w.now + days 183)))

not_empty : (t : String) → str_eq t "" ≡ false → t ≢ ""
not_empty t h q =
    let same : false ≡ true = sym h ∙ (ap (λ x. str_eq x "") q ∙ eq_refl "") in absurd (cc same)

filled_iff : (o : Option String) (t : String) → o ≡ some t → t ≢ "" → is_filled o ≡ true
filled_iff none t e n = absurd (cc e)
filled_iff (some u) t e n = elim (Bool-cases (str_eq u "")) [
  | inl h ↦ absurd (n (sym (same e) ∙ (eq_iff u "").0 h))
  | inr h ↦ rw h refl
]
  where
    same : some u ≡ some t → u ≡ t
    same e = ground (arith, e)

pub expiry-ok :
    (w : Outside) (r : CertRecord) (e : ℕ) → Expires w r e → expiry_of w r.expiry_date ≡ some e
expiry-ok w r e (t, has, filled, reads) = ap (expiry_of w) has ∙ elim (Bool-cases (str_eq t "")) [
  | inl h ↦ absurd (filled ((eq_iff t "").0 h))
  | inr h ↦ rw h reads
]

pub expiry-none :
    (w : Outside) (r : CertRecord) → ((e : ℕ) → ¬ Expires w r e) → expiry_of w r.expiry_date ≡ none
expiry-none w r never = by r.expiry_date refl
  where
    by : (o : Option String) → r.expiry_date ≡ o → expiry_of w o ≡ none
    by none e = refl
    by (some t) e = elim (Bool-cases (str_eq t "")) [
      | inl h ↦ rw h refl
      | inr h ↦ elim (Option-cases (w.read_time t)) [
        | inl p ↦ rw (h, p) refl
        | inr (at, p) ↦ absurd (never at (t, e, not_empty t h, p))
      ]
    ]

has_text-ok : (t : String) (o : Option String) → has_text t o ≡ true → o ≡ some t
has_text-ok t none h = absurd (cc h)
has_text-ok t (some u) h = ap some ((eq_iff u t).0 h)

-- The code's test is that one.
pub was_revoked-true : (r : CertRecord) → WasRevoked r → was_revoked r ≡ true
was_revoked-true r (inl (t, e, n)) =
    let filled = filled_iff r.revocation_date t e n in ground (arith, filled)
was_revoked-true r (inr e) =
    let text : has_text "Revoked" r.status ≡ true = ap (has_text "Revoked") e ∙ eq_refl "Revoked" in
    last (is_filled r.revocation_date) text
  where
    last :
        (b : Bool) → has_text "Revoked" r.status ≡ true → (b || has_text "Revoked" r.status) ≡ true
    last true h = refl
    last false h = h

pub was_revoked-false : (r : CertRecord) → ¬ WasRevoked r → was_revoked r ≡ false
was_revoked-false r never = elim (Bool-cases (was_revoked r)) [
  | inl h ↦ absurd (never (by r.revocation_date refl h))
  | inr h ↦ h
]
  where
    by :
        (o : Option String)
        → r.revocation_date ≡ o
        → (is_filled o || has_text "Revoked" r.status) ≡ true
        → WasRevoked r
    by none e h = inr (has_text-ok "Revoked" r.status h)
    by (some t) e h = elim (Bool-cases (str_eq t "")) [
      | inl p ↦ inr (has_text-ok "Revoked" r.status (ground (arith, p, h)))
      | inr p ↦ inl (t, e, not_empty t p)
    ]

pub names-true :
    (revoke : Option Text) (serial : Text) → revoke ≡ some serial → names revoke serial ≡ true
names-true revoke serial e = ap (λ o. names o serial) e ∙ (text_eq_iff serial serial).1 refl

pub names-false :
    (revoke : Option Text) (serial : Text) → revoke ≢ some serial → names revoke serial ≡ false
names-false none serial n = refl
names-false (some s) serial n = elim (Bool-cases (text_eq s serial)) [
  | inl h ↦ absurd (n (ap some ((text_eq_iff s serial).0 h)))
  | inr h ↦ h
]

pub status_written :
    (t : String) (r : CertRecord)
    → (if status_differs (some t) r then some t else r.status) ≡ some t
status_written t r = elim (Bool-cases (has_text t r.status)) [
  | inl h ↦ rw h (has_text-ok t r.status h)
  | inr h ↦ rw h refl
]
