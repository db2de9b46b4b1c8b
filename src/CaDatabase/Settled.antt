-- ===== src/CaDatabase/Settled.antt =====
-- The whole scan: it ends well, and how it leaves each certificate.
use op_ca.Prelude.{
  Text, text_eq, text_eq_iff, ℕ, String, ◌≡◌, refl, sym, ap, ◌∙◌, Bool, true, false, not, ◌&&◌,
  ◌||◌, Option, none, some, List, [], ◌∷◌, ok, any, All, All-map, find, update_where, ltb, arith,
  Bool-cases, inl, inr,
}
use op_ca.CaDatabase.{
  CertRecord, ExternalCertRecord, Standings, CaDb, has_serial, has_text, update_external_cert,
}
use op_ca.CaDatabase.Standing.{
  Outside, Standing, expiry_of, standing_at, current_valid, query_all_certs_including_deleted,
}
use op_ca.CaDatabase.Processing.{
  process_external, process_externals, process_ca_database, continued, finished, then_externals,
  filed_external, cleared, is_none, Scanned,
}
use op_ca.CaDatabase.Scanning.{process_certs-lem, written, scanned, changes}
use op_ca.CaDatabase.Found.{
  Only, Keyed, becomes, query-All, any-query, find-any, All-find, itself_there,
}
use op_ca.CaDatabase.Sets.{held, belongs, held-sort_all}

abbrev same_external : Text → ExternalCertRecord → Bool
same_external serial x = text_eq x.serial serial

-- A step that leaves the CA's own certificates and their sets alone, and ends well.
abbrev Quiet : CaDb → Scanned → Type 0
Quiet d r =
    (changed : Bool) × (after : CaDb) × (r ≡ (ok changed, after))
    × (after.certs ≡ d.certs)
    × ((k : Standing) (a : Text) → held k a after.standings ≡ held k a d.standings)
    × ((s : Text) → any (same_external s) after.externals ≡ any (same_external s) d.externals)

abbrev ca_sets : Standings → Standings
ca_sets s = record s {
  ext_certs_expired = [];
  ext_certs_expires_soon = [];
  ext_certs_expires_warning = [];
  ext_certs_valid = [];
}

filed_external-ca_sets :
    (st : Standing) (serial : Text) (s : Standings)
    → ca_sets (filed_external st serial s) ≡ ca_sets s
filed_external-ca_sets Standing.expired serial s = refl
filed_external-ca_sets Standing.revoked serial s = refl
filed_external-ca_sets Standing.expires_soon serial s = refl
filed_external-ca_sets Standing.expires_warning serial s = refl
filed_external-ca_sets Standing.valid serial s = refl

held-ca_sets : (k : Standing) (a : Text) (s : Standings) → held k a s ≡ held k a (ca_sets s)
held-ca_sets Standing.expired a s = refl
held-ca_sets Standing.revoked a s = refl
held-ca_sets Standing.expires_soon a s = refl
held-ca_sets Standing.expires_warning a s = refl
held-ca_sets Standing.valid a s = refl

held-filed_external :
    (st : Standing) (serial : Text) (s : Standings) (k : Standing) (a : Text)
    → held k a (filed_external st serial s) ≡ held k a s
held-filed_external st serial s k a =
    held-ca_sets k a (filed_external st serial s)
    ∙ (ap (held k a) (filed_external-ca_sets st serial s) ∙ sym (held-ca_sets k a s))

any-renewed :
    (s serial : Text) (r : ExternalCertRecord) (xs : List ExternalCertRecord)
    → any
        (same_external s)
        (update_where (same_external serial) (λ x. record r { serial = x.serial }) xs)
      ≡ any (same_external s) xs
any-renewed s serial r [] = refl
any-renewed s serial r (x ∷ xs) = elim (Bool-cases (same_external serial x)) [
  | inl e ↦ rw e (ap (λ b. same_external s x || b) (any-renewed s serial r xs))
  | inr e ↦ rw e (ap (λ b. same_external s x || b) (any-renewed s serial r xs))
]

module _ (w : Outside) where
  process_external-Quiet :
      (x : ExternalCertRecord) (o : Option ℕ) (d : CaDb)
      → any (same_external x.serial) d.externals ≡ true
      → Quiet d (process_external w x o d)
  unfolding update_external_cert
  process_external-Quiet x none d h = (false, d, refl, refl, (λ k a. refl), λ s. refl)
  process_external-Quiet x (some expiry) d h =
      elim (Bool-cases (ltb expiry w.now && not (has_text "Expired" x.status))) [
        | inl e ↦
            rw (e, h)
              (
                true,
                _,
                refl,
                refl,
                held-filed_external (standing_at w.now expiry false) x.serial d.standings,
                λ s. any-renewed s x.serial (record x { status = some "Expired" }) d.externals,
              )
        | inr e ↦ rw e (
          false,
          _,
          refl,
          refl,
          held-filed_external (standing_at w.now expiry false) x.serial d.standings,
          λ s. refl,
        )
      ]

  process_externals-Quiet :
      (xs : List ExternalCertRecord) (changed : Bool) (d : CaDb)
      → All (λ x. any (same_external x.serial) d.externals ≡ true) xs
      → Quiet d (process_externals w xs changed d)
  unfolding process_externals
  process_externals-Quiet [] changed d h = (changed, d, refl, refl, (λ k a. refl), λ s. refl)
  process_externals-Quiet (x ∷ xs) changed d h =
      let (b, next, ran, certs, sets, there) =
        process_external-Quiet x (expiry_of w x.expiry_date) d h.0 in
      let (b2, after, ran2, certs2, sets2, there2) =
        process_externals-Quiet xs (changed || b) next
          (All-map _ _ (λ y e. there y.serial ∙ e) xs h.1) in
      (
        b2,
        after,
        ap (continued (λ b next. process_externals w xs (changed || b) next)) ran ∙ ran2,
        certs2 ∙ certs,
        (λ k a. sets2 k a ∙ sets k a),
        λ s. there2 s ∙ there s,
      )

externals_there :
    (xs : List ExternalCertRecord) → All (λ x. any (same_external x.serial) xs ≡ true) xs
externals_there [] = tt
externals_there (x ∷ xs) = (
  ground (arith, text_eq_iff x.serial x.serial),
  All-map _ _ (λ y e. ground arith) xs (externals_there xs),
)

held-cleared : (k : Standing) (a : Text) (m : List (String × Text)) → held k a (cleared m) ≡ false
held-cleared Standing.expired a m = refl
held-cleared Standing.revoked a m = refl
held-cleared Standing.expires_soon a m = refl
held-cleared Standing.expires_warning a m = refl
held-cleared Standing.valid a m = refl

or_false : (b : Bool) → (b || false) ≡ b
or_false true = refl
or_false false = refl

-- Whether the call scans at all.
abbrev pub scans : Option Text → Bool → CaDb → Bool
scans revoke force d = d.dirty || (not (is_none revoke) || force)

-- Every certificate as `written` has it, and its serial in the sets that it belongs to.
pub process_ca_database-written :
    (w : Outside) (revoke : Option Text) (force : Bool) (d : CaDb)
    → scans revoke force d ≡ true
    → Keyed d.certs
    → (changed : Bool) × (after : CaDb) × (process_ca_database w revoke force d
        ≡ (ok changed, after))
      × (after.dirty ≡ false)
      × ((r : CertRecord)
          → find (has_serial r.serial) d.certs ≡ some r
          → (find (has_serial r.serial) after.certs ≡ some (written w revoke r))
            × ((k : Standing) → held k r.serial after.standings ≡ belongs w revoke k r))
unfolding process_ca_database
process_ca_database-written w revoke force d runs keyed =
    let certs = query_all_certs_including_deleted w d.certs in
    let m = current_valid w revoke certs [] in
    let started : CaDb = record d { standings = cleared m } in
    let between = scanned w revoke certs started in
    let (changed, after, ran, same, sets, there) =
      process_externals-Quiet w d.externals (any (changes w revoke) certs) between
        (externals_there d.externals) in
    let goes : (not d.dirty && (is_none revoke && not force)) ≡ false = ground arith in
    let read =
      process_certs-lem w revoke certs false started
        (query-All w _ d.certs (itself_there d.certs)) in
    (
      changed,
      record after { dirty = false },
      rw goes (ap (continued (then_externals w)) read ∙ ap (continued finished) ran),
      refl,
      λ r found.
          let only : Only r certs =
            query-All w _ d.certs
              (All-find (λ x. Only x d.certs) (has_serial r.serial) d.certs r keyed found) in
          let met : any (has_serial r.serial) certs ≡ true =
            any-query w (has_serial r.serial) d.certs
            ∙ find-any (has_serial r.serial) d.certs r found in
          (
            ap (find (has_serial r.serial)) same
                ∙ becomes w revoke r.serial r certs d.certs only met found,
            λ k.
                sets k r.serial
                ∙ (held-sort_all w revoke k r certs (cleared m) only
                    ∙ rw (met, held-cleared k r.serial m) (or_false (belongs w revoke k r))),
          ),
    )
