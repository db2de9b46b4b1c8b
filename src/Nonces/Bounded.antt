-- ===== src/Nonces/Bounded.antt =====
-- The nonces stay within their capacity.
use op_ca.Prelude.{
  ℕ, ◌-◌, max, ◌≤◌, ◌≡◌, true, false, Option, none, some, List, [], ◌∷◌, ◌++◌, length,
  length-append, leb, text_eq, text_eq_iff, arith, if◌then◌else◌, Bool-cases, inl, inr,
}
use op_ca.Base64url.{base64url}
use op_ca.Store.Tables.{Token}
use op_ca.Nonces.{
  issues, redeems, Nonces, NonceCall, contains, remove, insert, forget, issue, redeem, nonce_step,
  nonce_run,
}

-- No text twice.
abbrev pub NoRepeat : List Token → Type 0
NoRepeat [] = Unit
NoRepeat (t ∷ ts) = (contains t ts ≡ false) × NoRepeat ts

-- Every live nonce is among the issued.
abbrev pub Among : List Token → List Token → Type 0
Among live issued = (t : Token) → contains t live ≡ true → contains t issued ≡ true

-- At most as many nonces are remembered as the capacity, or one; the live ones are among them, each
-- once.
pub record Bounded (s : Nonces) : Type 0 where
  pub few : length s.issued ≤ max 1 s.capacity
  pub among : Among s.live s.issued
  pub once : NoRepeat s.live

pub contains-remove :
    (t n : Token) (ts : List Token)
    → contains t (remove n ts) ≡ (if text_eq n t then false else contains t ts)
unfolding contains remove
contains-remove t n [] = ground arith
contains-remove t n (x ∷ ts) =
    ground (arith, text_eq_iff x n, text_eq_iff x t, text_eq_iff n t, contains-remove t n ts)

pub contains-insert :
    (t n : Token) (ts : List Token)
    → contains t (insert n ts) ≡ (if text_eq n t then true else contains t ts)
unfolding contains insert
contains-insert t n ts = ground (arith, text_eq_iff n t)

pub contains-append :
    (t n : Token) (ts : List Token)
    → contains t (ts ++ n ∷ []) ≡ (if text_eq n t then true else contains t ts)
unfolding contains
contains-append t n [] = ground arith
contains-append t n (x ∷ ts) = ground (arith, contains-append t n ts)

NoRepeat-remove : (n : Token) (ts : List Token) → NoRepeat ts → NoRepeat (remove n ts)
unfolding remove
NoRepeat-remove n [] h = tt
NoRepeat-remove n (t ∷ ts) h = elim (Bool-cases (text_eq t n)) [
  | inl e ↦ rw e (NoRepeat-remove n ts h.1)
  | inr e ↦ rw e (lemma, NoRepeat-remove n ts h.1)
]
  where
    lemma : contains t (remove n ts) ≡ false
    lemma = ground (arith, contains-remove t n ts, h.0)

NoRepeat-insert : (n : Token) (ts : List Token) → NoRepeat ts → NoRepeat (insert n ts)
unfolding insert
NoRepeat-insert n ts h = elim (Bool-cases (contains n ts)) [ inl e ↦ rw e h | inr e ↦ rw e (e, h) ]

-- What is issued and live as `forget` leaves it.
record Forgotten (capacity : ℕ) (kept : List Token × List Token) : Type 0 where
  pub room : length kept.0 ≤ max 1 capacity - 1
  pub among : Among kept.1 kept.0
  pub once : NoRepeat kept.1

Among-remove :
    (n : Token) (issued live : List Token) → Among live (n ∷ issued) → Among (remove n live) issued
unfolding contains
Among-remove n issued live h t e = ground (arith, contains-remove t n live, text_eq_iff n t, h t)

forget-Forgotten :
    (capacity : ℕ) (issued live : List Token)
    → Among live issued
    → NoRepeat live
    → Forgotten capacity (forget capacity issued live)
unfolding forget
forget-Forgotten capacity [] live a o = record { room = omega arith; among = a; once = o }
forget-Forgotten capacity (n ∷ issued) live a o =
    elim (Bool-cases (leb capacity (length (n ∷ issued)))) [
      | inl e ↦ rw e (
          forget-Forgotten capacity issued (remove n live) (Among-remove n issued live a)
            (NoRepeat-remove n live o))
      | inr e ↦ rw e (record { room = ground arith; among = a; once = o })
    ]

issue-Bounded : (bytes : Option (List ℕ)) (s : Nonces) → Bounded s → Bounded (issue bytes s).1
unfolding issue
issue-Bounded none s h = h
issue-Bounded (some bytes) s h =
    let nonce = base64url bytes in
    let kept = forget s.capacity s.issued s.live in
    let f = forget-Forgotten s.capacity s.issued s.live h.among h.once in
    record {
      few = omega (arith, length-append kept.0 (nonce ∷ []), f.room);
      among = λ t e.
          ground (arith, contains-insert t nonce kept.1, contains-append t nonce kept.0, f.among t);
      once = NoRepeat-insert nonce kept.1 f.once;
    }

redeem-Bounded : (nonce : Token) (s : Nonces) → Bounded s → Bounded (redeem nonce s).1
unfolding redeem
redeem-Bounded nonce s h = record {
  few = h.few;
  among = λ t e. ground (arith, contains-remove t nonce s.live, h.among t);
  once = NoRepeat-remove nonce s.live h.once;
}

-- However many nonces are issued and redeemed, in whatever order and whatever bytes are drawn: as
-- many as the capacity, or one if that is 0, are remembered at most, and the live ones are among
-- them, each once.
pub nonce_run-Bounded :
    (s : Nonces) (calls : List NonceCall) → Bounded s → Bounded (nonce_run s calls)
unfolding nonce_run nonce_step
nonce_run-Bounded s [] h = h
nonce_run-Bounded s (issues bytes ∷ cs) h =
    nonce_run-Bounded (issue bytes s).1 cs (issue-Bounded bytes s h)
nonce_run-Bounded s (redeems nonce ∷ cs) h =
    nonce_run-Bounded (redeem nonce s).1 cs (redeem-Bounded nonce s h)
