-- ===== src/Issue/Period.antt =====
-- For how long a leaf is issued.
use op_ca.Prelude.{
  ℕ, sym, ap, if◌then◌else◌, ◌+◌, ◌*◌, ◌≤◌, ◌<◌, ◌≡◌, Option, none, some, ok, err, leb, arith,
  Bool-cases, inl, inr,
}
use op_ca.Problem.{ProblemType}
use op_ca.Store.Tables.{OrderRow}
use op_ca.Issue.{Issuer, Validity, validity, day, backdate}

-- Neither bound of the order is passed.
abbrev pub NotBefore : Option ℕ → ℕ → Type 0
NotBefore none from = Unit
NotBefore (some at) from = at ≤ from

abbrev pub NotAfter : Option ℕ → ℕ → Type 0
NotAfter none until = Unit
NotAfter (some at) until = until ≤ at

-- What `validity` answers is what it computed, and not empty.
module _ (issuer : Issuer) (order : OrderRow) (now : ℕ) (v : Validity) where
  abbrev Bounds : Option ℕ → Option ℕ → Type 0
  Bounds from until =
      (v.not_before < v.not_after)
      × (now ≤ v.not_before + backdate)
      × NotBefore from v.not_before
      × NotAfter until v.not_after
      × (v.not_after ≤ v.not_before + day * issuer.config.leaf_max_days)
      × (v.not_after ≤ issuer.subordinate_not_after)

  computed :
      (from until : ℕ)
      → (if leb until from
          then err ProblemType.malformed
          else ok (record { not_before = from; not_after = until }))
        ≡ ok v
      → (from < until) × (v.not_before ≡ from) × (v.not_after ≡ until)
  computed from until h = elim (Bool-cases (leb until from)) [
    | inl e ↦ absurd (ground arith)
    | inr e ↦
        let same : record { not_before = from; not_after = until } ≡ v = ground arith in
        (ground arith, sym (ap (λ w. w.not_before) same), sym (ap (λ w. w.not_after) same))
  ]

  bounds :
      (from until : Option ℕ)
      → validity issuer (record order { not_before = from; not_after = until }) now ≡ ok v
      → Bounds from until
  unfolding validity
  bounds none none h =
      let (l, f, u) = computed _ _ h in (omega arith, omega arith, tt, tt, omega arith, omega arith)
  bounds none (some until) h =
      let (l, f, u) = computed _ _ h in
      (omega arith, omega arith, tt, omega arith, omega arith, omega arith)
  bounds (some from) none h =
      let (l, f, u) = computed _ _ h in
      (omega arith, omega arith, omega arith, tt, omega arith, omega arith)
  bounds (some from) (some until) h =
      let (l, f, u) = computed _ _ h in
      (omega arith, omega arith, omega arith, omega arith, omega arith, omega arith)

-- A leaf's validity is not empty, begins at most a minute before now and not before the order's
-- notBefore, and ends by the order's notAfter, within the longest lifetime and by the subordinate's
-- own end.
pub validity_lem :
    (issuer : Issuer) (order : OrderRow) (now : ℕ) (v : Validity)
    → validity issuer order now ≡ ok v
    → (v.not_before < v.not_after)
      × (now ≤ v.not_before + backdate)
      × NotBefore order.not_before v.not_before
      × NotAfter order.not_after v.not_after
      × (v.not_after ≤ v.not_before + day * issuer.config.leaf_max_days)
      × (v.not_after ≤ issuer.subordinate_not_after)
unfolding validity
validity_lem issuer order now v h = bounds issuer order now v order.not_before order.not_after h
