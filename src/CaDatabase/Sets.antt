-- ===== src/CaDatabase/Sets.antt =====
-- Which sets take a serial over the whole scan.
use op_ca.Prelude.{
  Text, text_eq, text_eq_iff, ℕ, ◌≡◌, refl, sym, ap, ◌∙◌, Bool, true, false, ◌&&◌, ◌||◌, ◌⊎◌,
  Option, none, some, List, [], ◌∷◌, any, arith, Bool-cases, inl, inr,
}
use op_ca.CaDatabase.{CertRecord, Standings, has_serial, is_null}
use op_ca.CaDatabase.Standing.{
  Outside, Standing, expiry_of, standing_of, filed, insert, contains, replacement_of, expire,
  sorted_in,
}
use op_ca.CaDatabase.Scanning.{sorted, sort_all, sorted_at}
use op_ca.CaDatabase.Found.{Only}

-- The sets that a standing puts a serial into; one that expires soon counts as a warning too.
abbrev pub puts : Standing → Standing → Bool
puts Standing.expired Standing.expired = true
puts Standing.revoked Standing.revoked = true
puts Standing.expires_soon Standing.expires_soon = true
puts Standing.expires_soon Standing.expires_warning = true
puts Standing.expires_warning Standing.expires_warning = true
puts Standing.valid Standing.valid = true
puts _ _ = false

-- Whether a serial is in a set; an expired one is in either of two.
abbrev pub held : Standing → Text → Standings → Bool
held Standing.expired serial s =
    contains serial s.certs_expired || contains serial s.certs_superseded
held Standing.revoked serial s = contains serial s.certs_revoked
held Standing.expires_soon serial s = contains serial s.certs_expires_soon
held Standing.expires_warning serial s = contains serial s.certs_expires_warning
held Standing.valid serial s = contains serial s.certs_valid

contains-insert :
    (a b : Text) (set : List Text) → contains a (insert b set) ≡ (text_eq a b || contains a set)
contains-insert a b set = elim (Bool-cases (contains b set)) [
  | inl e ↦ rw e (sym (covered e (Bool-cases (text_eq a b))))
  | inr e ↦ rw e refl
]
  where
    covered :
        contains b set ≡ true
        → (text_eq a b ≡ true) ⊎ (text_eq a b ≡ false)
        → (text_eq a b || contains a set) ≡ contains a set
    covered e (inl h) = rw h (sym (ap (λ x. contains x set) ((text_eq_iff a b).0 h) ∙ e))
    covered e (inr h) = rw h refl

held-expire :
    (k : Standing) (a b : Text) (by : Option Text) (s : Standings)
    → held k a (expire b by s) ≡ ((puts Standing.expired k && text_eq a b) || held k a s)
held-expire Standing.expired a b none s = ground (arith, contains-insert a b s.certs_expired)
held-expire Standing.expired a b (some by) s =
    ground (arith, contains-insert a b s.certs_superseded)
held-expire Standing.revoked a b none s = refl
held-expire Standing.revoked a b (some by) s = refl
held-expire Standing.expires_soon a b none s = refl
held-expire Standing.expires_soon a b (some by) s = refl
held-expire Standing.expires_warning a b none s = refl
held-expire Standing.expires_warning a b (some by) s = refl
held-expire Standing.valid a b none s = refl
held-expire Standing.valid a b (some by) s = refl

held-sorted_in :
    (st k : Standing) (a : Text) (c : CertRecord) (s : Standings)
    → held k a (sorted_in st c s) ≡ ((puts st k && text_eq a c.serial) || held k a s)
held-sorted_in Standing.expired k a c s =
    held-expire k a c.serial (replacement_of c.cn s.valid_cn_to_serial) s
held-sorted_in Standing.revoked Standing.expired a c s = refl
held-sorted_in Standing.revoked Standing.revoked a c s = contains-insert a c.serial s.certs_revoked
held-sorted_in Standing.revoked Standing.expires_soon a c s = refl
held-sorted_in Standing.revoked Standing.expires_warning a c s = refl
held-sorted_in Standing.revoked Standing.valid a c s = refl
held-sorted_in Standing.expires_soon Standing.expired a c s = refl
held-sorted_in Standing.expires_soon Standing.revoked a c s = refl
held-sorted_in Standing.expires_soon Standing.expires_soon a c s =
    contains-insert a c.serial s.certs_expires_soon
held-sorted_in Standing.expires_soon Standing.expires_warning a c s =
    contains-insert a c.serial s.certs_expires_warning
held-sorted_in Standing.expires_soon Standing.valid a c s = refl
held-sorted_in Standing.expires_warning Standing.expired a c s = refl
held-sorted_in Standing.expires_warning Standing.revoked a c s = refl
held-sorted_in Standing.expires_warning Standing.expires_soon a c s = refl
held-sorted_in Standing.expires_warning Standing.expires_warning a c s =
    contains-insert a c.serial s.certs_expires_warning
held-sorted_in Standing.expires_warning Standing.valid a c s = refl
held-sorted_in Standing.valid Standing.expired a c s = refl
held-sorted_in Standing.valid Standing.revoked a c s = refl
held-sorted_in Standing.valid Standing.expires_soon a c s = refl
held-sorted_in Standing.valid Standing.expires_warning a c s = refl
held-sorted_in Standing.valid Standing.valid a c s = contains-insert a c.serial s.certs_valid

held-filed :
    (st k : Standing) (a : Text) (c : CertRecord) (s : Standings)
    → held k a (filed st c s) ≡ ((puts st k && text_eq a c.serial) || held k a s)
held-filed st k a c s = elim (Bool-cases (is_null c.ignored_at)) [
  | inl e ↦ rw e (held-sorted_in st k a c s)
  | inr e ↦ rw e (
      held-sorted_in st k a c (record s { certs_ignored = insert c.serial s.certs_ignored })
      ∙ ap (λ b. (puts st k && text_eq a c.serial) || b) (held-ignored k))
]
  where
    held-ignored :
        (k : Standing)
        → held k a (record s { certs_ignored = insert c.serial s.certs_ignored }) ≡ held k a s
    held-ignored Standing.expired = refl
    held-ignored Standing.revoked = refl
    held-ignored Standing.expires_soon = refl
    held-ignored Standing.expires_warning = refl
    held-ignored Standing.valid = refl

module _ (w : Outside) (revoke : Option Text) where
  -- Whether a row's own standing puts it in a set; one that cannot be read is in none.
  abbrev pub puts_at : Option ℕ → Standing → CertRecord → Bool
  puts_at none k c = false
  puts_at (some expiry) k c = puts (standing_of w revoke expiry c) k

  abbrev pub belongs : Standing → CertRecord → Bool
  belongs k c = puts_at (expiry_of w c.expiry_date) k c

  held-sorted :
      (o : Option ℕ) (k : Standing) (a : Text) (c : CertRecord) (s : Standings)
      → held k a (sorted_at w revoke o c s) ≡ ((puts_at o k c && text_eq a c.serial) || held k a s)
  held-sorted none k a c s = refl
  held-sorted (some expiry) k a c s = held-filed (standing_of w revoke expiry c) k a c s

  -- After the scan a serial that is one row's is in the sets of that row, and in those that it was in.
  pub held-sort_all :
      (k : Standing) (r : CertRecord) (cs : List CertRecord) (s : Standings)
      → Only r cs
      → held k r.serial (sort_all w revoke cs s)
        ≡ ((any (has_serial r.serial) cs && belongs k r) || held k r.serial s)
  held-sort_all k r [] s only = refl
  held-sort_all k r (c ∷ cs) s only =
      held-sort_all k r cs (sorted w revoke c s) only.1
      ∙ (ap (λ b. (any (has_serial r.serial) cs && belongs k r) || b)
            (held-sorted (expiry_of w c.expiry_date) k r.serial c s)
          ∙ one (Bool-cases (has_serial r.serial c)))
    where
      one :
          (has_serial r.serial c ≡ true) ⊎ (has_serial r.serial c ≡ false)
          → ((any (has_serial r.serial) cs && belongs k r)
              || ((belongs k c && text_eq r.serial c.serial) || held k r.serial s))
            ≡ (((has_serial r.serial c || any (has_serial r.serial) cs) && belongs k r)
                || held k r.serial s)
      one (inl h) =
          let same : text_eq r.serial c.serial ≡ true =
            ground (arith, text_eq_iff c.serial r.serial, text_eq_iff r.serial c.serial) in
          let its : belongs k c ≡ belongs k r = ap (λ x. belongs k x) (only.0 h) in ground arith
      one (inr h) =
          let other : text_eq r.serial c.serial ≡ false =
            ground (arith, text_eq_iff c.serial r.serial, text_eq_iff r.serial c.serial) in
          ground arith
