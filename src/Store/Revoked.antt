-- ===== src/Store/Revoked.antt =====
-- What `revoke` of acme/store.rs answers, as the certificate with the serial decides, and the changes
-- that the table has.
use op_ca.Prelude.{
  ℕ, ◌≡◌, ◌≢◌, ◌≤◌, refl, String, Bool, true, false, not, Option, none, some, List, [], ◌∷◌, arith,
  All, All-map, ◌<◌, find, any, update_where, find-update_where, Result, ok, err, Option-cases, inl,
  inr, str_eq, eq_iff, if◌then◌else◌,
}
use op_ca.Store.Tables.{
  Certificate, Db, Error, check, refused, not_found, already_revoked, by_serial,
}
use op_ca.Store.Lifecycles.{le-greatest}
use op_ca.Store.Certificates.{
  changes, is_some, is_revocable, reason_allowed, next_change, certificate_by_serial, mark_revoked,
  revoke,
}
use op_ca.Store.Upkeep.{last_change}

-- The column `serial` is UNIQUE.
abbrev pub UniqueSerials : List Certificate → Type 0
UniqueSerials [] = Unit
UniqueSerials (c ∷ cs) = All (λ x. c.serial ≢ x.serial) cs × UniqueSerials cs

-- A certificate as `revoke` leaves it.
abbrev pub revoked : Option ℕ → ℕ → ℕ → Certificate → Certificate
revoked reason now change c = record c {
  revoked_at = some now;
  revocation_reason = reason;
  changed = change;
}

abbrev unrevoked : Option Certificate → Bool
unrevoked none = false
unrevoked (some c) = not (is_some c.revoked_at)

none_revocable :
    (serial s : String) (cs : List Certificate)
    → s ≡ serial
    → All (λ x. s ≢ x.serial) cs
    → any (is_revocable serial) cs ≡ false
none_revocable serial s [] e h = refl
none_revocable serial s (c ∷ cs) e h =
    ground (arith, eq_iff c.serial serial, h.0, none_revocable serial s cs e h.1)

any_revocable :
    (serial : String) (cs : List Certificate)
    → UniqueSerials cs
    → any (is_revocable serial) cs ≡ unrevoked (find (λ c. str_eq c.serial serial) cs)
any_revocable serial [] u = refl
any_revocable serial (c ∷ cs) u =
    ground (
      arith,
      eq_iff c.serial serial,
      none_revocable serial c.serial cs,
      any_revocable serial cs u.1,
    )

-- What `revoke` answers, by the certificate that has the serial.
abbrev pub revoke_answer :
    String → Option ℕ → ℕ → Db → Option Certificate → Result Error (Certificate × Db)
revoke_answer serial reason now d none = err (not_found "certificates" (by_serial serial))
revoke_answer serial reason now d (some c) =
    if is_some c.revoked_at
    then err (already_revoked serial)
    else if reason_allowed reason
    then ok (revoked reason now (next_change d) c, mark_revoked serial reason now d)
    else err (refused check)

pub found_serial :
    (serial : String) (cs : List Certificate) (c : Certificate)
    → find (λ c. str_eq c.serial serial) cs ≡ some c
    → str_eq c.serial serial ≡ true
found_serial serial [] c e = cc
found_serial serial (x ∷ cs) c e = ground (arith, found_serial serial cs c)

missing_serial :
    (serial : String) (p : Certificate → Bool) (f : Certificate → Certificate)
    → ((c : Certificate) → (f c).serial ≡ c.serial)
    → (cs : List Certificate) → find (λ c. str_eq c.serial serial) cs ≡ none
    → find (λ c. str_eq c.serial serial) (update_where p f cs) ≡ none
missing_serial serial p f same [] e = refl
missing_serial serial p f same (c ∷ cs) e =
    ground (arith, same c, missing_serial serial p f same cs)

-- As the certificate with the serial decides.
pub revoke_answered :
    (serial : String) (reason : Option ℕ) (now : ℕ) (d : Db)
    → UniqueSerials d.certificates
    → revoke serial reason now d
      ≡ revoke_answer serial reason now d (certificate_by_serial serial d)
unfolding revoke certificate_by_serial mark_revoked
revoke_answered serial reason now d u =
    let mark = revoked reason now (next_change d) in
    elim (Option-cases (find (λ c. str_eq c.serial serial) d.certificates)) [
      | inl e ↦ ground (
        arith,
        any_revocable serial d.certificates u,
        missing_serial serial (is_revocable serial) mark (λ c. refl) d.certificates e,
      )
      | inr (c, e) ↦ ground (
        arith,
        any_revocable serial d.certificates u,
        found_serial serial d.certificates c e,
        find-update_where (λ c. str_eq c.serial serial) (is_revocable serial) mark (λ c. refl)
            d.certificates c e,
      )
    ]

All-of-map :
    (P : ℕ → Type 0) (cs : List Certificate) → All P (changes cs) → All (λ c. P c.changed) cs
All-of-map P [] h = tt
All-of-map P (c ∷ cs) h = (h.0, All-of-map P cs h.1)

pub changed-le : (d : Db) → All (λ c. c.changed ≤ last_change d) d.certificates
changed-le d = All-of-map _ d.certificates (le-greatest (changes d.certificates))

pub next_change-past : (d : Db) → All (λ c. c.changed < next_change d) d.certificates
unfolding next_change
next_change-past d =
    All-map {A = Certificate} (λ c. c.changed ≤ last_change d) (λ c. c.changed < next_change d)
      (λ x l. omega arith) d.certificates (changed-le d)
