-- ===== src/VaultLock/Exclusion.antt =====
-- Of two acquirers that see each other's locks at most one wins.
use op_ca.Prelude.{
  ℕ, suc, ◌≡◌, ◌≢◌, refl, sym, Bool, true, false, List, [], ◌∷◌, Result, ok, err, is_ok, All,
  All-map, arith, Bool-cases, inl, inr, ◌⊎◌,
}
use op_ca.VaultLock.{Chrono, LockVault, Lock, OpcaError, rank, rank_less, is_stale, delete_lock}
use op_ca.VaultLock.Contest.{
  insert_by_rank, sort_by_rank, broken, break_ahead, ranks_by_server, contest_rivals,
}
use op_ca.VaultLock.Ranks.{rank_less-asym, rank_less-total, rank_less-split}

-- A lock among others.
abbrev pub In : Lock → List Lock → Type 0
In b [] = ⊥
In b (r ∷ rs) = (b ≡ r) ⊎ In b rs

module _ (chrono : Chrono) (by_server : Bool) where
  abbrev before : Lock → Lock → Bool
  before a b = rank_less (rank chrono by_server a) (rank chrono by_server b)

  abbrev Sorted : List Lock → Type 0
  Sorted [] = Unit
  Sorted (x ∷ xs) = All (λ y. before y x ≡ false) xs × Sorted xs

  insert-All :
      (P : Lock → Type 0) (x : Lock) (ys : List Lock)
      → P x
      → All P ys
      → All P (insert_by_rank chrono by_server x ys)
  unfolding insert_by_rank
  insert-All P x [] p h = (p, tt)
  insert-All P x (y ∷ ys) p h = elim (Bool-cases (before y x)) [
    | inl e ↦ rw e (h.0, insert-All P x ys p h.1)
    | inr e ↦ rw e (p, h)
  ]

  insert-Sorted :
      (x : Lock) (ys : List Lock) → Sorted ys → Sorted (insert_by_rank chrono by_server x ys)
  unfolding insert_by_rank
  insert-Sorted x [] h = (tt, tt)
  insert-Sorted x (y ∷ ys) h = elim (Bool-cases (before y x)) [
    | inl e ↦ rw e (
      insert-All (λ z. before z y ≡ false) x ys
          (rank_less-asym (rank chrono by_server y) (rank chrono by_server x) e) h.0,
      insert-Sorted x ys h.1,
    )
    | inr e ↦ rw e ((e, All-map _ _ (λ z n. not_before z n e) ys h.0), h)
  ]
    where
      not_before : (z : Lock) → before z y ≡ false → before y x ≡ false → before z x ≡ false
      not_before z n e = ground (
        arith,
        rank_less-split (rank chrono by_server z) (rank chrono by_server y)
            (rank chrono by_server x),
      )

  sort-Sorted : (xs : List Lock) → Sorted (sort_by_rank chrono by_server xs)
  unfolding sort_by_rank
  sort-Sorted [] = tt
  sort-Sorted (x ∷ xs) = insert-Sorted x (sort_by_rank chrono by_server xs) (sort-Sorted xs)

  insert-In :
      (b x : Lock) (ys : List Lock)
      → (b ≡ x) ⊎ In b ys
      → In b (insert_by_rank chrono by_server x ys)
  unfolding insert_by_rank
  insert-In b x [] h = h
  insert-In b x (y ∷ ys) (inl s) = elim (Bool-cases (before y x)) [
    | inl e ↦ rw e (inr (insert-In b x ys (inl s)))
    | inr e ↦ rw e (inl s)
  ]
  insert-In b x (y ∷ ys) (inr (inl s)) = elim (Bool-cases (before y x)) [
    | inl e ↦ rw e (inl s)
    | inr e ↦ rw e (inr (inl s))
  ]
  insert-In b x (y ∷ ys) (inr (inr i)) = elim (Bool-cases (before y x)) [
    | inl e ↦ rw e (inr (insert-In b x ys (inr i)))
    | inr e ↦ rw e (inr (inr i))
  ]

  sort-In : (b : Lock) (xs : List Lock) → In b xs → In b (sort_by_rank chrono by_server xs)
  unfolding sort_by_rank
  sort-In b [] h = h
  sort-In b (x ∷ xs) (inl s) = insert-In b x (sort_by_rank chrono by_server xs) (inl s)
  sort-In b (x ∷ xs) (inr i) =
      insert-In b x (sort_by_rank chrono by_server xs) (inr (sort-In b xs i))

  All-In : (P : Lock → Type 0) (b : Lock) (xs : List Lock) → All P xs → In b xs → P b
  All-In P b [] h i = absurd i
  All-In P b (x ∷ xs) h (inl s) = rw s h.0
  All-In P b (x ∷ xs) h (inr i) = All-In P b xs h.1 i

  module _ (v : LockVault) (clock : ℕ → ℕ) (mine b : Lock) where
    broken-fails :
        (d : Result OpcaError (Unit {0}) × v.World)
        (rest : v.World → Result OpcaError (Unit {0}) × v.World)
        → ((w : v.World) → is_ok (rest w).0 ≡ false)
        → is_ok (broken d rest).0 ≡ false
    broken-fails (ok u, w) rest h = h w
    broken-fails (err e, w) rest h = refl

    -- A live lock that ranks ahead stops the loop, wherever it stands.
    break_ahead-fails :
        (i : ℕ) (rs : List Lock) (w : v.World)
        → ((t : ℕ) → is_stale chrono b.fields (clock t) ≡ false)
        → before b mine ≡ true
        → Sorted rs
        → In b rs
        → is_ok (break_ahead chrono v clock by_server mine i rs w).0 ≡ false
    unfolding break_ahead
    break_ahead-fails i [] w l a s m = absurd m
    break_ahead-fails i (r ∷ rs) w l a s (inl e) =
        let ahead : before r mine ≡ true = rw (← e) a in
        let live : is_stale chrono r.fields (clock i) ≡ false = rw (← e) (l i) in
        rw (ahead, live) refl
    break_ahead-fails i (r ∷ rs) w l a s (inr m) =
        let ahead : before r mine ≡ true =
          rank_less-split (rank chrono by_server b) (rank chrono by_server r)
            (rank chrono by_server mine) a (All-In (λ y. before y r ≡ false) b rs s.0 m) in
        let rest =
          broken-fails (delete_lock v r.id w) (break_ahead chrono v clock by_server mine (suc i) rs)
            (λ w'. break_ahead-fails (suc i) rs w' l a s.1 m) in
        elim (Bool-cases (is_stale chrono r.fields (clock i))) [
          | inl e ↦ rw (ahead, e) rest
          | inr e ↦ rw (ahead, e) refl
        ]

contest-fails :
    (chrono : Chrono) (v : LockVault) (clock : ℕ → ℕ) (mine b : Lock) (rivals : List Lock)
    (w : v.World)
    → ((t : ℕ) → is_stale chrono b.fields (clock t) ≡ false)
    → rank_less
        (rank chrono (ranks_by_server mine rivals) b)
        (rank chrono (ranks_by_server mine rivals) mine)
      ≡ true
    → In b rivals
    → is_ok (contest_rivals chrono v clock mine rivals w).0 ≡ false
unfolding contest_rivals
contest-fails chrono v clock mine b rivals w live ahead m =
    let by_server = ranks_by_server mine rivals in
    break_ahead-fails chrono by_server v clock mine b 0 (sort_by_rank chrono by_server rivals) w
      live ahead (sort-Sorted chrono by_server rivals) (sort-In chrono by_server b rivals m)

-- Mutual exclusion: two acquirers with items of different ids, each of which finds the other's lock
-- among its rivals, neither lock stale at any reading of the other's clock, and both ranking by the
-- server's times or neither, do not both win, whatever other rivals either finds and however the
-- deletions of stale ones go.
pub contest_rivals-exclusive :
    (chrono : Chrono) (v : LockVault) (clock_a clock_b : ℕ → ℕ) (a b : Lock)
    (rivals_a rivals_b : List Lock) (w w' : v.World)
    → a.id ≢ b.id
    → In b rivals_a
    → In a rivals_b
    → ranks_by_server a rivals_a ≡ ranks_by_server b rivals_b
    → ((t : ℕ) → is_stale chrono b.fields (clock_a t) ≡ false)
    → ((t : ℕ) → is_stale chrono a.fields (clock_b t) ≡ false)
    → (is_ok (contest_rivals chrono v clock_a a rivals_a w).0 ≡ false)
      ⊎ (is_ok (contest_rivals chrono v clock_b b rivals_b w').0 ≡ false)
unfolding rank
contest_rivals-exclusive chrono v clock_a clock_b a b rivals_a rivals_b w w' n mb ma same live_b
      live_a =
    elim (Bool-cases (rank_less (rank chrono by_server b) (rank chrono by_server a))) [
      | inl e ↦ inl (contest-fails chrono v clock_a a b rivals_a w live_b e mb)
      | inr e ↦ inr (contest-fails chrono v clock_b b a rivals_b w' live_a (other e) ma)
    ]
  where
    by_server : Bool
    by_server = ranks_by_server a rivals_a

    other :
        rank_less (rank chrono by_server b) (rank chrono by_server a) ≡ false
        → rank_less
            (rank chrono (ranks_by_server b rivals_b) a)
            (rank chrono (ranks_by_server b rivals_b) b)
          ≡ true
    other e =
        rw (← same)
          (rank_less-total (rank chrono by_server b) (rank chrono by_server a) (λ s. n (sym s)) e)
