-- ===== src/Store/Lifecycles.antt =====
-- Tables whose rows only come and move along the arrows of a lifecycle.
use op_ca.Prelude.{
  ℕ, ◌≡◌, ◌<◌, ◌≤◌, refl, sym, ap, ◌∙◌, subst, Bool, true, false, some, List, [], ◌∷◌, ◌++◌, arith,
  All, All-append, All-map, Bool-cases, inl, inr, find, map, update_where, ◌==◌, if◌then◌else◌,
}
use mathlib.Core.Path.{ap₂}
use op_ca.Store.Tables.{greatest, next_id}
use op_ca.Store.Lifecycle.{Lifecycle}

-- From one status to another by moves that are allowed.
pub data Reaches {S : Type 0} (may_become : S → S → Bool) : S → S → Type 0 where
  here : {s : S} → Reaches may_become s s
  next : {s t u : S} → Reaches may_become s t → may_become t u ≡ true → Reaches may_become s u

Reaches-trans :
    {S : Type 0} (may_become : S → S → Bool) {s t u : S}
    → Reaches may_become s t
    → Reaches may_become t u
    → Reaches may_become s u
Reaches-trans m p here = p
Reaches-trans m p (next q e) = next (Reaches-trans m p q) e

-- The rows of `xs`, in place and each related to the row that it became, and then any others.
abbrev pub Extends : {Row : Type 0} → (Row → Row → Type 0) → List Row → List Row → Type 0
Extends R [] ys = Unit
Extends R (x ∷ xs) [] = ⊥
Extends R (x ∷ xs) (y ∷ ys) = R x y × Extends R xs ys

-- Keys that rise along the table.
abbrev pub Rising : List ℕ → Type 0
Rising [] = Unit
Rising (n ∷ ns) = All (λ m. n < m) ns × Rising ns

module _ {Row : Type 0} (R : Row → Row → Type 0) where
  pub Extends-refl : ((x : Row) → R x x) → (xs : List Row) → Extends R xs xs
  Extends-refl r [] = tt
  Extends-refl r (x ∷ xs) = (r x, Extends-refl r xs)

  pub Extends-trans :
      ((x y z : Row) → R x y → R y z → R x z)
      → (xs ys zs : List Row) → Extends R xs ys
      → Extends R ys zs
      → Extends R xs zs
  Extends-trans t [] ys zs p q = tt
  Extends-trans t (x ∷ xs) [] zs p q = absurd p
  Extends-trans t (x ∷ xs) (y ∷ ys) [] p q = absurd q
  Extends-trans t (x ∷ xs) (y ∷ ys) (z ∷ zs) p q =
      (t x y z p.0 q.0, Extends-trans t xs ys zs p.1 q.1)

  pub Extends-append : ((x : Row) → R x x) → (xs ys : List Row) → Extends R xs (xs ++ ys)
  Extends-append r [] ys = tt
  Extends-append r (x ∷ xs) ys = (r x, Extends-append r xs ys)

  -- What holds of the rows' fixed values and of the rows that pass the test relates the update.
  pub Extends-update :
      (Q : Row → Type 0) (p : Row → Bool) (f : Row → Row)
      → ((x : Row) → R x x)
      → ((x : Row) → Q x → p x ≡ true → R x (f x))
      → (xs : List Row) → All Q xs
      → Extends R xs (update_where p f xs)
  Extends-update Q p f r g [] q = tt
  Extends-update Q p f r g (x ∷ xs) q = (one (p x) (g x q.0), Extends-update Q p f r g xs q.1)
    where
      one : (b : Bool) → (b ≡ true → R x (f x)) → R x (if b then f x else x)
      one true h = h refl
      one false h = r x

pub everywhere : {Row : Type 0} (xs : List Row) → All (λ (x : Row). Unit {0}) xs
everywhere [] = tt
everywhere (x ∷ xs) = (tt, everywhere xs)

pub le-greatest : (ns : List ℕ) → All (λ n. n ≤ greatest ns) ns
unfolding greatest
le-greatest [] = tt
le-greatest (n ∷ ns) =
    (omega arith, All-map (λ k. k ≤ greatest ns) _ (λ k h. omega arith) ns (le-greatest ns))

Rising-append : (ns : List ℕ) (k : ℕ) → All (λ n. n < k) ns → Rising ns → Rising (ns ++ k ∷ [])
Rising-append [] k h r = (tt, tt)
Rising-append (n ∷ ns) k h r =
    (All-append (λ m. n < m) ns (k ∷ []) r.0 (h.0, tt), Rising-append ns k h.1 r.1)

Rising-next_id : (ns : List ℕ) → Rising ns → Rising (ns ++ next_id ns ∷ [])
unfolding next_id
Rising-next_id ns r =
    Rising-append ns _ (All-map (λ n. n ≤ greatest ns) _ (λ n h. omega arith) ns (le-greatest ns)) r

module _ {S Row : Type 0} (l : Lifecycle S Row) where
  abbrev pub keys : List Row → List ℕ
  keys = map l.key

  -- The same values in the columns that nothing updates, and a status that the moves reach.
  abbrev pub Move : Row → Row → Type 0
  Move x y = (l.fixed x ≡ l.fixed y) × Reaches l.may_become (l.status x) (l.status y)

  -- From a table with rising keys to one: no row goes, and statuses only move.
  pub record Advance (xs ys : List Row) : Type 0 where
    pub advance : Rising (keys xs) → Rising (keys ys) × Extends Move xs ys

  Move-refl : (x : Row) → Move x x
  Move-refl x = (refl, here)

  Move-trans : (x y z : Row) → Move x y → Move y z → Move x z
  Move-trans x y z p q = (p.0 ∙ q.0, Reaches-trans l.may_become p.1 q.1)

  pub Advance-refl : (xs : List Row) → Advance xs xs
  Advance-refl xs = record { advance = λ r. (r, Extends-refl Move Move-refl xs) }

  pub Advance-trans : (xs ys zs : List Row) → Advance xs ys → Advance ys zs → Advance xs zs
  Advance-trans xs ys zs p q = record {
    advance = λ r.
        let (r', e) = p.advance r in
        let (r'', e') = q.advance r' in (r'', Extends-trans Move Move-trans xs ys zs e e');
  }

  pub same_key : (x y : Row) → l.fixed x ≡ l.fixed y → l.key x ≡ l.key y
  same_key x y e = sym (l.key-fixed x) ∙ ap l.key e ∙ l.key-fixed y

  pub keys-update :
      (p : Row → Bool) (f : Row → Row)
      → ((x : Row) → l.key (f x) ≡ l.key x)
      → (xs : List Row) → keys (update_where p f xs) ≡ keys xs
  keys-update p f k [] = refl
  keys-update p f k (x ∷ xs) = ap₂ ◌∷◌ (one (p x)) (keys-update p f k xs)
    where
      one : (b : Bool) → l.key (if b then f x else x) ≡ l.key x
      one true = k x
      one false = refl

  keys-append : (xs : List Row) (y : Row) → keys (xs ++ y ∷ []) ≡ keys xs ++ l.key y ∷ []
  keys-append [] y = refl
  keys-append (x ∷ xs) y = ap (◌∷◌ (l.key x)) (keys-append xs y)

  pub Advance-update :
      (p : Row → Bool) (f : Row → Row)
      → ((x : Row) → l.fixed (f x) ≡ l.fixed x)
      → ((x : Row) → p x ≡ true → Reaches l.may_become (l.status x) (l.status (f x)))
      → (xs : List Row) → Advance xs (update_where p f xs)
  Advance-update p f k m xs = record {
    advance = λ r. (
      subst Rising (sym (keys-update p f (λ x. same_key (f x) x (k x)) xs)) r,
      Extends-update Move (λ x. Unit) p f Move-refl (λ x u e. (sym (k x), m x e)) xs
          (everywhere xs),
    );
  }

  pub Advance-append :
      (xs : List Row) (y : Row) → l.key y ≡ next_id (keys xs) → Advance xs (xs ++ y ∷ [])
  Advance-append xs y e = record {
    advance = λ r. (
      rw (keys-append xs y, e) (Rising-next_id (keys xs) r),
      Extends-append Move Move-refl xs (y ∷ []),
    );
  }

  only_above :
      (i n : ℕ) (r : Row) (xs : List Row)
      → i ≤ n
      → All (λ m. n < m) (keys xs)
      → All (λ x. l.key x ≡ i → x ≡ r) xs
  only_above i n r [] h a = tt
  only_above i n r (x ∷ xs) h a = ((λ e. absurd (omega arith)), only_above i n r xs h a.1)

  -- The row that is found under a key is the only one.
  pub only_one :
      (i : ℕ) (r : Row) (xs : List Row)
      → Rising (keys xs)
      → find (λ x. l.key x == i) xs ≡ some r
      → All (λ x. l.key x ≡ i → x ≡ r) xs
  only_one i r [] s e = tt
  only_one i r (x ∷ xs) s e = elim (Bool-cases (l.key x == i)) [
    | inl hit ↦ ((λ k. ground arith), only_above i (l.key x) r xs (ground arith) s.0)
    | inr miss ↦ ((λ k. absurd (ground arith)), only_one i r xs s.1 (ground arith))
  ]

  -- `UPDATE … SET status = ? WHERE id = ?`, of a row whose status may become the new one.
  pub Advance-put_status :
      (i : ℕ) (to : S) (r : Row) (xs : List Row)
      → find (λ x. l.key x == i) xs ≡ some r
      → l.may_become (l.status r) to ≡ true
      → Advance xs (update_where (λ x. l.key x == i) (l.with_status to) xs)
  Advance-put_status i to r xs e m = record {
    advance = λ s. (
      subst Rising (sym (keys-update _ _ (λ x. same_key _ x (l.fixed-with_status to x)) xs)) s,
      Extends-update Move (λ x. l.key x ≡ i → x ≡ r) _ _ Move-refl
          (λ x q t. (sym (l.fixed-with_status to x), moved x (ap l.status (q (ground arith))))) xs
          (only_one i r xs s e),
    );
  }
    where
      moved :
          (x : Row)
          → l.status x ≡ l.status r
          → Reaches l.may_become (l.status x) (l.status (l.with_status to x))
      moved x e = rw (l.status-with_status, e) (next here m)
