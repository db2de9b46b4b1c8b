-- ===== src/CaDatabase/Scanning.antt =====
-- What the scan writes to the certificates and where it sorts them, over the whole loop.
use op_ca.Prelude.{
  Text, ℕ, ◌≡◌, refl, ap, ap₂, ◌∙◌, Bool, true, false, ◌||◌, Option, none, some, List, [], ◌∷◌, ok,
  any, All, All-map, update_where, if◌then◌else◌, arith, Bool-cases, inl, inr,
}
use op_ca.CaDatabase.{CertRecord, Standings, CaDb, has_serial, update_cert}
use op_ca.CaDatabase.Standing.{Outside, expiry_of, standing_of, settled, cert_changed, filed}
use op_ca.CaDatabase.Processing.{process_cert, process_certs, continued}

module _ (w : Outside) (revoke : Option Text) where
  abbrev pub change_at : Option ℕ → CertRecord → Bool
  change_at none c = false
  change_at (some expiry) c = cert_changed w revoke expiry c

  abbrev pub written_at : Option ℕ → CertRecord → CertRecord
  written_at none c = c
  written_at (some expiry) c = settled w revoke expiry c

  abbrev pub sorted_at : Option ℕ → CertRecord → Standings → Standings
  sorted_at none c s = s
  sorted_at (some expiry) c s = filed (standing_of w revoke expiry c) c s

  -- Whether the scan changes a row, the row as it leaves it, and the sets with it.
  abbrev pub changes : CertRecord → Bool
  changes c = change_at (expiry_of w c.expiry_date) c

  abbrev pub written : CertRecord → CertRecord
  written c = written_at (expiry_of w c.expiry_date) c

  abbrev pub sorted : CertRecord → Standings → Standings
  sorted c s = sorted_at (expiry_of w c.expiry_date) c s

  abbrev pub rewritten : CertRecord → List CertRecord → List CertRecord
  rewritten c t =
      if changes c
      then update_where (has_serial (written c).serial)
          (λ x. record (written c) { serial = x.serial }) t
      else t

  abbrev pub rewrite_all : List CertRecord → List CertRecord → List CertRecord
  rewrite_all [] t = t
  rewrite_all (c ∷ cs) t = rewrite_all cs (rewritten c t)

  abbrev pub sort_all : List CertRecord → Standings → Standings
  sort_all [] s = s
  sort_all (c ∷ cs) s = sort_all cs (sorted c s)

  abbrev pub scanned : List CertRecord → CaDb → CaDb
  scanned cs d = record d {
    certs = rewrite_all cs d.certs;
    standings = sort_all cs d.standings;
    dirty = any changes cs || d.dirty;
  }

  process_cert-lem :
      (c : CertRecord) (o : Option ℕ) (d : CaDb)
      → any (has_serial c.serial) d.certs ≡ true
      → process_cert w revoke c o d ≡ (
        ok (change_at o c),
        record d {
          certs =
              if change_at o c
              then update_where
                  (has_serial (written_at o c).serial)
                  (λ x. record (written_at o c) { serial = x.serial })
                  d.certs
              else d.certs;
          standings = sorted_at o c d.standings;
          dirty = change_at o c || d.dirty;
        },
      )
  unfolding update_cert
  process_cert-lem c none d h = refl
  process_cert-lem c (some expiry) d h = elim (Bool-cases (cert_changed w revoke expiry c)) [
    | inl e ↦ rw (e, h) refl
    | inr e ↦ rw e refl
  ]

  any-update_where :
      (s : Text) (p : CertRecord → Bool) (r : CertRecord) (t : List CertRecord)
      → any (has_serial s) (update_where p (λ x. record r { serial = x.serial }) t)
        ≡ any (has_serial s) t
  any-update_where s p r [] = refl
  any-update_where s p r (x ∷ t) = elim (Bool-cases (p x)) [
    | inl e ↦ rw e (ap (λ b. has_serial s x || b) (any-update_where s p r t))
    | inr e ↦ rw e (ap (λ b. has_serial s x || b) (any-update_where s p r t))
  ]

  any-rewritten :
      (s : Text) (c : CertRecord) (t : List CertRecord)
      → any (has_serial s) (rewritten c t) ≡ any (has_serial s) t
  any-rewritten s c t = elim (Bool-cases (changes c)) [
    | inl e ↦ rw e (any-update_where s (has_serial (written c).serial) (written c) t)
    | inr e ↦ rw e refl
  ]

  assoc : (p a b : Bool) → ((p || a) || b) ≡ (p || (a || b))
  assoc p a b = ground arith

  swapped : (a b e : Bool) → (b || (a || e)) ≡ ((a || b) || e)
  swapped a b e = ground arith

  -- Where every row that it reads is in the table, the loop ends well.
  pub process_certs-lem :
      (cs : List CertRecord) (changed : Bool) (d : CaDb)
      → All (λ c. any (has_serial c.serial) d.certs ≡ true) cs
      → process_certs w revoke cs changed d ≡ (ok (changed || any changes cs), scanned cs d)
  unfolding process_certs
  process_certs-lem [] changed d h = ground arith
  process_certs-lem (c ∷ cs) changed d h =
      ap (continued (λ b next. process_certs w revoke cs (changed || b) next))
        (process_cert-lem c (expiry_of w c.expiry_date) d h.0)
      ∙ (process_certs-lem cs (changed || changes c)
            (record d {
              certs = rewritten c d.certs;
              standings = sorted c d.standings;
              dirty = changes c || d.dirty;
            })
            (All-map _ _ (λ k e. any-rewritten k.serial c d.certs ∙ e) cs h.1)
          ∙ ap₂
              (λ b e. (
                ok b,
                record d {
                  certs = rewrite_all cs (rewritten c d.certs);
                  standings = sort_all cs (sorted c d.standings);
                  dirty = e;
                },
              ))
              (assoc changed (changes c) (any changes cs))
              (swapped (changes c) (any changes cs) d.dirty))
