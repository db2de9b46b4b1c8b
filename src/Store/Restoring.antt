-- ===== src/Store/Restoring.antt =====
-- What a restore, `replace_from` of acme/store.rs, promises a client that synced before it.
use op_ca.Prelude.{
  ℕ, ◌+◌, ◌≡◌, ◌≢◌, ◌≤◌, ◌<◌, refl, sym, ap, ◌∙◌, String, true, ◌&&◌, Option, List, [], ◌∷◌, map,
  arith, All, filter, Result, ok, err, Bool-cases, inl, inr, ltb,
}
use op_ca.Store.Tables.{Certificate, Db, Error, continue}
use op_ca.Store.Certificates.{issued_by, order_by_change}
use op_ca.Store.Upkeep.{
  last_change, crl_number_of, past_changes, advance, is_whole, replacement, replaced, replace_from,
}
use op_ca.Sync.Complete.{waiting}
use op_ca.Sync.Sorting.{Distinct}

-- A commit of the restore holds the replacement, which refers to no row that is not there.
pub replaced-ok :
    (restored live d' : Db)
    → replaced restored live ≡ ok (tt, d')
    → (d' ≡ replacement restored live) × (is_whole d' ≡ true)
unfolding replaced
replaced-ok restored live d' h = elim (Bool-cases (is_whole (replacement restored live))) [
  | inl e ↦ let same : replacement restored live ≡ d' = ground arith in (sym same, rw (← same) e)
  | inr e ↦ absurd (ground arith)
]

filter_past :
    (cursor past : ℕ) (issuers : Option (List String)) (cs : List Certificate)
    → cursor ≤ past
    → All (λ c. 0 < c.changed) cs
    → filter (λ c. ltb cursor c.changed && issued_by issuers c) (map (advance past) cs)
      ≡ filter (issued_by issuers) (map (advance past) cs)
filter_past cursor past issuers [] h p = refl
filter_past cursor past issuers (c ∷ cs) h p =
    ground (arith, filter_past cursor past issuers cs h p.1)

advance-Distinct :
    (past : ℕ) (cs : List Certificate) → Distinct cs → Distinct (map (advance past) cs)
advance-Distinct past [] d = tt
advance-Distinct past (c ∷ cs) d = (each cs d.0, advance-Distinct past cs d.1)
  where
    each :
        (xs : List Certificate)
        → All (λ x. c.changed ≢ x.changed) xs
        → All (λ x. c.changed + past ≢ x.changed) (map (advance past) xs)
    each [] h = tt
    each (x ∷ xs) h = ((λ e. h.0 (omega arith)), each xs h.1)

replacement-crl :
    (restored live : Db)
    → (crl_number_of live ≤ crl_number_of (replacement restored live))
      × (crl_number_of restored ≤ crl_number_of (replacement restored live))
unfolding replacement
replacement-crl restored live = (ground arith, ground arith)

-- After a restore that commits, of a copy whose changes are numbered from 1 without a repeat: a
-- client at any cursor that the live database could have given it is served every certificate of the
-- asked issuers there is, the changes are still numbered without a repeat, and the CRL number is
-- below neither database's.
pub replace_from-waiting :
    (restored live d' : Db) (before_commit : Result Error (Unit {0}))
    (issuers : Option (List String)) (cursor : ℕ)
    → All (λ c. 0 < c.changed) restored.certificates
    → Distinct restored.certificates
    → replace_from restored before_commit live ≡ ok (tt, d')
    → cursor ≤ last_change live
    → (waiting issuers d' cursor ≡ order_by_change (filter (issued_by issuers) d'.certificates))
      × Distinct d'.certificates
      × (crl_number_of live ≤ crl_number_of d')
      × (crl_number_of restored ≤ crl_number_of d')
unfolding replace_from
replace_from-waiting restored live d' before_commit issuers cursor positive distinct h le =
    let committed : d' ≡ replacement restored live =
      from before_commit (replaced restored live) refl h in
    rw committed (
      unfold replacement in
          ap order_by_change (
            filter_past cursor (past_changes restored live) issuers restored.certificates
              (omega arith) positive),
      unfold replacement in
          advance-Distinct (past_changes restored live) restored.certificates distinct,
      (replacement-crl restored live).0,
      (replacement-crl restored live).1,
    )
  where
    from :
        (b : Result Error (Unit {0})) (r : Result Error (Unit × Db))
        → replaced restored live ≡ r
        → continue r (λ u d. elim b [ ok v ↦ ok (tt, d) | err e ↦ err e ]) ≡ ok (tt, d')
        → d' ≡ replacement restored live
    from b (err e) s a = absurd (cc a)
    from (err e) (ok (u, d)) s a = absurd (cc a)
    from (ok v) (ok (u, d)) s a =
        let same : d ≡ d' = ground arith in sym same ∙ (replaced-ok restored live d s).0
