-- ===== src/Nonces/Keeping.antt =====
-- A nonce that is young enough is redeemed.
use op_ca.Prelude.{
  ℕ, suc, ◌+◌, ◌≤◌, ◌<◌, ◌≡◌, ◌≢◌, refl, Bool, true, false, none, some, List, [], ◌∷◌, ◌++◌, length,
  leb, text_eq, text_eq_iff, arith, All, if◌then◌else◌, Bool-cases, inl, inr, length-append,
}
use op_ca.Base64url.{base64url}
use op_ca.Store.Tables.{Token}
use op_ca.Nonces.{
  issues, redeems, Nonces, NonceCall, contains, remove, forget, issue, redeem, nonce_step,
  nonce_run,
}
use op_ca.Nonces.Bounded.{contains-remove, contains-insert}

-- The first of the remembered nonces that is `n` has at most `k` after it.
abbrev Young : Token → ℕ → List Token → Type 0
Young n k [] = ⊥
Young n k (t ∷ ts) = if text_eq t n then length ts ≤ k else Young n k ts

-- Not forgotten before `k` more are issued than have been.
abbrev Fresh : Token → ℕ → Nonces → Type 0
Fresh n k s = Young n k s.issued × (contains n s.live ≡ true)

Young-append :
    (n : Token) (k : ℕ) (t : Token) (ts : List Token)
    → Young n k ts
    → Young n (suc k) (ts ++ t ∷ [])
Young-append n k t [] h = absurd h
Young-append n k t (x ∷ ts) h = one (text_eq x n) (Young-append n k t ts) h
  where
    one :
        (b : Bool)
        → (Young n k ts → Young n (suc k) (ts ++ t ∷ []))
        → (if b then length ts ≤ k else Young n k ts)
        → if b then length (ts ++ t ∷ []) ≤ suc k else Young n (suc k) (ts ++ t ∷ [])
    one true rest e = omega (arith, length-append ts (t ∷ []))
    one false rest e = rest e

Young-new : (n : Token) (ts : List Token) → contains n ts ≡ false → Young n 0 (ts ++ n ∷ [])
unfolding contains
Young-new n [] h = rw ((text_eq_iff n n).1 refl) (omega arith)
Young-new n (x ∷ ts) h = elim (Bool-cases (text_eq x n)) [
  | inl e ↦ absurd (ground arith)
  | inr e ↦ rw e (Young-new n ts (ground arith))
]

contains-forget :
    (capacity : ℕ) (n : Token) (issued live : List Token)
    → contains n issued ≡ false
    → contains n (forget capacity issued live).0 ≡ false
unfolding forget contains
contains-forget capacity n [] live h = refl
contains-forget capacity n (t ∷ issued) live h =
    ground (arith, contains-forget capacity n issued (remove t live))

forget-Fresh :
    (capacity k : ℕ) (n : Token) (issued live : List Token)
    → suc k < capacity
    → Young n k issued
    → contains n live ≡ true
    → Young n k (forget capacity issued live).0
      × (contains n (forget capacity issued live).1 ≡ true)
unfolding forget
forget-Fresh capacity k n [] live c y l = absurd y
forget-Fresh capacity k n (t ∷ issued) live c y l =
    elim (Bool-cases (leb capacity (suc (length issued)))) [
      | inl full ↦
          rw full
            (popped full (text_eq t n) refl (forget-Fresh capacity k n issued (remove t live) c) y)
      | inr room ↦ rw room (y, l)
    ]
  where
    popped :
        leb capacity (suc (length issued)) ≡ true
        → (b : Bool) → text_eq t n ≡ b
        → (Young n k issued
            → contains n (remove t live) ≡ true
            → Young n k (forget capacity issued (remove t live)).0
              × (contains n (forget capacity issued (remove t live)).1 ≡ true))
        → (if b then length issued ≤ k else Young n k issued)
        → Young n k (forget capacity issued (remove t live)).0
          × (contains n (forget capacity issued (remove t live)).1 ≡ true)
    popped full true e rest y = absurd (ground arith)
    popped full false e rest y = rest y (ground (arith, contains-remove n t live))

issue-Fresh :
    (n : Token) (k : ℕ) (bytes : List ℕ) (s : Nonces)
    → suc k < s.capacity
    → Fresh n k s
    → Fresh n (suc k) (issue (some bytes) s).1
unfolding issue
issue-Fresh n k bytes s c h =
    let kept = forget s.capacity s.issued s.live in
    let f = forget-Fresh s.capacity k n s.issued s.live c h.0 h.1 in
    (
      Young-append n k (base64url bytes) kept.0 f.0,
      ground (arith, contains-insert n (base64url bytes) kept.1, f.1),
    )

redeem-Fresh :
    (n nonce : Token) (k : ℕ) (s : Nonces) → nonce ≢ n → Fresh n k s → Fresh n k (redeem nonce s).1
unfolding redeem
redeem-Fresh n nonce k s d h =
    (h.0, ground (arith, contains-remove n nonce s.live, text_eq_iff nonce n, d, h.1))

issue_new-Fresh :
    (bytes : List ℕ) (s : Nonces)
    → contains (base64url bytes) s.issued ≡ false
    → Fresh (base64url bytes) 0 (issue (some bytes) s).1
unfolding issue
issue_new-Fresh bytes s h =
    let n = base64url bytes in
    let kept = forget s.capacity s.issued s.live in
    (
      Young-new n kept.0 (contains-forget s.capacity n s.issued s.live h),
      ground (arith, contains-insert n n kept.1, text_eq_iff n n),
    )

-- How many nonces a sequence of calls issues.
unfoldable pub issued_by_calls : List NonceCall → ℕ
issued_by_calls [] = 0
issued_by_calls (issues none ∷ cs) = issued_by_calls cs
issued_by_calls (issues (some bytes) ∷ cs) = suc (issued_by_calls cs)
issued_by_calls (redeems nonce ∷ cs) = issued_by_calls cs

-- A call that does not redeem the nonce.
abbrev pub Spares : Token → NonceCall → Type 0
Spares n (issues bytes) = Unit
Spares n (redeems nonce) = nonce ≢ n

redeem-Fresh_now : (n : Token) (k : ℕ) (s : Nonces) → Fresh n k s → (redeem n s).0 ≡ true
unfolding redeem
redeem-Fresh_now n k s h = h.1

same_capacity : (c : NonceCall) (s : Nonces) → (nonce_step s c).capacity ≡ s.capacity
unfolding nonce_step issue redeem
same_capacity (issues none) s = refl
same_capacity (issues (some bytes)) s = refl
same_capacity (redeems nonce) s = refl

issue-capacity : (bytes : List ℕ) (s : Nonces) → (issue (some bytes) s).1.capacity ≡ s.capacity
unfolding issue
issue-capacity bytes s = refl

issue_nothing : (s : Nonces) → (issue none s).1 ≡ s
unfolding issue
issue_nothing s = refl

run-Fresh :
    (n : Token) (k : ℕ) (s : Nonces) (calls : List NonceCall)
    → k + issued_by_calls calls < s.capacity
    → All (Spares n) calls
    → Fresh n k s
    → (redeem n (nonce_run s calls)).0 ≡ true
unfolding nonce_run nonce_step issued_by_calls
run-Fresh n k s [] c a h = redeem-Fresh_now n k s h
run-Fresh n k s (issues none ∷ cs) c a h =
    run-Fresh n k (issue none s).1 cs (rw (issue_nothing s) c) a.1 (rw (issue_nothing s) h)
run-Fresh n k s (issues (some bytes) ∷ cs) c a h =
    run-Fresh n (suc k) (issue (some bytes) s).1 cs
      (omega (arith, same_capacity (issues (some bytes)) s)) a.1
      (issue-Fresh n k bytes s (omega arith) h)
run-Fresh n k s (redeems nonce ∷ cs) c a h =
    run-Fresh n k (redeem nonce s).1 cs (omega (arith, same_capacity (redeems nonce) s)) a.1
      (redeem-Fresh n nonce k s a.0 h)

-- A nonce that is not remembered when it is issued is redeemed by the first call that tries, whatever
-- calls come between, as long as they issue fewer nonces than the capacity.
pub redeem-issue :
    (bytes : List ℕ) (s : Nonces) (calls : List NonceCall)
    → contains (base64url bytes) s.issued ≡ false
    → issued_by_calls calls < s.capacity
    → All (Spares (base64url bytes)) calls
    → (redeem (base64url bytes) (nonce_run (issue (some bytes) s).1 calls)).0 ≡ true
redeem-issue bytes s calls h c a =
    run-Fresh (base64url bytes) 0 (issue (some bytes) s).1 calls
      (omega (arith, issue-capacity bytes s)) a (issue_new-Fresh bytes s h)
