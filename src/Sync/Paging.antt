-- ===== src/Sync/Paging.antt =====
-- Pages of a rising list: what a page holds, and what is left past its last change.
use native.Mathlib.Numerals.{add-one}
use op_ca.Prelude.{
  ℕ, zero, suc, ◌≡◌, ◌≤◌, ◌<◌, refl, ap, List, [], ◌∷◌, arith, All, filter, take, drop, length, ltb,
}
use op_ca.Store.Tables.{Certificate}
use op_ca.Store.Certificates.{page}
use op_ca.Sync.Sorting.{Ascending}
use op_ca.Sync.{last_change_or}

module _ {ℓ} {A : Type ℓ} where
  take-take : (n : ℕ) (xs : List A) → take n (take (suc n) xs) ≡ take n xs
  take-take zero [] = refl
  take-take zero (x ∷ xs) = refl
  take-take (suc n) [] = refl
  take-take (suc n) (x ∷ xs) = ap (◌∷◌ x) (take-take n xs)

  more-take : (n : ℕ) (xs : List A) → ltb n (length (take (suc n) xs)) ≡ ltb n (length xs)
  more-take zero [] = refl
  more-take zero (x ∷ xs) = ground arith
  more-take (suc n) [] = refl
  more-take (suc n) (x ∷ xs) = ground (arith, more-take n xs)

  pub take_all : (n : ℕ) (xs : List A) → length xs ≤ n → take n xs ≡ xs
  take_all zero [] h = refl
  take_all zero (x ∷ xs) h = absurd (omega arith)
  take_all (suc n) [] h = refl
  take_all (suc n) (x ∷ xs) h = ap (◌∷◌ x) (take_all n xs (omega arith))

  pub length-drop-lt :
      (n : ℕ) (xs : List A) → 0 < n → n < length xs → length (drop n xs) < length xs
  length-drop-lt zero xs h l = absurd (omega arith)
  length-drop-lt (suc n) [] h l = absurd (omega arith)
  length-drop-lt (suc zero) (x ∷ xs) h l = omega arith
  length-drop-lt (suc (suc n)) (x ∷ xs) h l =
      omega (arith, length-drop-lt (suc n) xs (omega arith) (omega arith))

-- A page is the first `limit` rows, with more exactly if there are.
pub page_lem :
    (rows : List Certificate) (limit : ℕ)
    → page rows limit ≡ record { certificates = take limit rows; more = ltb limit (length rows) }
unfolding page
page_lem rows limit = rw (add-one limit) (cc (take-take limit rows, more-take limit rows))

-- The last change of a page's rows lies past the cursor, and the rows past it are those not taken.
pub last_change-lt :
    (after n : ℕ) (cs : List Certificate)
    → 0 < n
    → n < length cs
    → All (λ c. after < c.changed) cs
    → Ascending cs
    → after < last_change_or after (take n cs)
last_change-lt after zero cs p h l a = absurd (omega arith)
last_change-lt after (suc n) [] p h l a = absurd (omega arith)
last_change-lt after (suc zero) (c ∷ cs) p h l a = l.0
last_change-lt after (suc (suc n)) (c ∷ cs) p h l a =
    omega (arith, l.0, last_change-lt c.changed (suc n) cs (omega arith) (omega arith) a.0 a.1)

filter_all :
    (k : ℕ) (cs : List Certificate)
    → All (λ c. k < c.changed) cs
    → filter (λ c. ltb k c.changed) cs ≡ cs
filter_all k [] h = refl
filter_all k (c ∷ cs) h = ground (arith, filter_all k cs h.1)

pub filter-last_change :
    (after n : ℕ) (cs : List Certificate)
    → 0 < n
    → n < length cs
    → All (λ c. after < c.changed) cs
    → Ascending cs
    → filter (λ c. ltb (last_change_or after (take n cs)) c.changed) cs ≡ drop n cs
filter-last_change after zero cs p h l a = absurd (omega arith)
filter-last_change after (suc n) [] p h l a = absurd (omega arith)
filter-last_change after (suc zero) (c ∷ cs) p h l a = ground (arith, filter_all c.changed cs a.0)
filter-last_change after (suc (suc n)) (c ∷ cs) p h l a = ground (
  arith,
  last_change-lt c.changed (suc n) cs (omega arith) (omega arith) a.0 a.1,
  filter-last_change c.changed (suc n) cs (omega arith) (omega arith) a.0 a.1,
)
