-- ===== src/Sync/Sorting.antt =====
-- `ORDER BY changed`: sorted, the same rows, and by the tests that a query makes before it.
use op_ca.Prelude.{
  ◌≡◌, ◌≢◌, ◌≤◌, ◌<◌, refl, Bool, List, [], ◌∷◌, arith, All, All-map, filter, leb, Bool-cases, inl,
  inr, if◌then◌else◌,
}
use op_ca.Store.Tables.{Certificate}
use op_ca.Store.Certificates.{insert_by_change, order_by_change}

-- Changes rise strictly along the list.
abbrev pub Ascending : List Certificate → Type 0
Ascending [] = Unit
Ascending (c ∷ cs) = All (λ x. c.changed < x.changed) cs × Ascending cs

-- No change twice.
abbrev pub Distinct : List Certificate → Type 0
Distinct [] = Unit
Distinct (c ∷ cs) = All (λ x. c.changed ≢ x.changed) cs × Distinct cs

module _ {ℓ} (P : Certificate → Type ℓ) where
  pub All-insert :
      (c : Certificate) (xs : List Certificate) → P c → All P xs → All P (insert_by_change c xs)
  unfolding insert_by_change
  All-insert c [] h hs = (h, tt)
  All-insert c (x ∷ xs) h hs = elim (Bool-cases (leb c.changed x.changed)) [
    | inl e ↦ rw e (h, hs)
    | inr e ↦ rw e (hs.0, All-insert c xs h hs.1)
  ]

  pub All-order : (xs : List Certificate) → All P xs → All P (order_by_change xs)
  unfolding order_by_change
  All-order [] h = tt
  All-order (x ∷ xs) h = All-insert x (order_by_change xs) h.0 (All-order xs h.1)

  pub All-filter : (p : Certificate → Bool) (xs : List Certificate) → All P xs → All P (filter p xs)
  All-filter p [] h = tt
  All-filter p (x ∷ xs) h = elim (Bool-cases (p x)) [
    | inl e ↦ rw e (h.0, All-filter p xs h.1)
    | inr e ↦ rw e (All-filter p xs h.1)
  ]

insert-Ascending :
    (c : Certificate) (xs : List Certificate)
    → All (λ x. c.changed ≢ x.changed) xs
    → Ascending xs
    → Ascending (insert_by_change c xs)
unfolding insert_by_change
insert-Ascending c [] n h = (tt, tt)
insert-Ascending c (x ∷ xs) n h = elim (Bool-cases (leb c.changed x.changed)) [
  | inl e ↦ rw e (
      let below : c.changed < x.changed = ground (arith, n.0) in
      ((below, All-map _ _ (λ y l. omega arith) xs h.0), h))
  | inr e ↦ rw e (
    All-insert (λ y. x.changed < y.changed) c xs (ground arith) h.0,
    insert-Ascending c xs n.1 h.1,
  )
]

pub order-Ascending : (xs : List Certificate) → Distinct xs → Ascending (order_by_change xs)
unfolding order_by_change
order-Ascending [] d = tt
order-Ascending (x ∷ xs) d =
    insert-Ascending x (order_by_change xs) (All-order _ xs d.0) (order-Ascending xs d.1)

pub filter-Distinct :
    (p : Certificate → Bool) (xs : List Certificate) → Distinct xs → Distinct (filter p xs)
filter-Distinct p [] d = tt
filter-Distinct p (x ∷ xs) d = elim (Bool-cases (p x)) [
  | inl e ↦ rw e (All-filter _ p xs d.0, filter-Distinct p xs d.1)
  | inr e ↦ rw e (filter-Distinct p xs d.1)
]

insert_least :
    (c : Certificate) (xs : List Certificate)
    → All (λ x. c.changed ≤ x.changed) xs
    → insert_by_change c xs ≡ c ∷ xs
unfolding insert_by_change
insert_least c [] h = refl
insert_least c (x ∷ xs) h = ground arith

filter-insert :
    (p : Certificate → Bool) (c : Certificate) (xs : List Certificate)
    → Ascending xs
    → filter p (insert_by_change c xs)
      ≡ (if p c then insert_by_change c (filter p xs) else filter p xs)
unfolding insert_by_change
filter-insert p c [] h = refl
filter-insert p c (x ∷ xs) h = elim (Bool-cases (leb c.changed x.changed)) [
  | inl e ↦
      let least = insert_least c (filter p (x ∷ xs)) (
        All-filter (λ y. c.changed ≤ y.changed) p (x ∷ xs)
          (ground arith, All-map _ _ (λ y l. ground arith) xs h.0)) in
      ground (arith, least)
  | inr e ↦ ground (arith, filter-insert p c xs h.1)
]

-- Selecting before sorting is selecting after it.
pub order-filter :
    (p : Certificate → Bool) (xs : List Certificate)
    → Distinct xs
    → order_by_change (filter p xs) ≡ filter p (order_by_change xs)
unfolding order_by_change
order-filter p [] d = refl
order-filter p (x ∷ xs) d =
    ground (
      arith,
      order-filter p xs d.1,
      filter-insert p x (order_by_change xs) (order-Ascending xs d.1),
    )
