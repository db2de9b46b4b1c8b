-- ===== src/Nonces/Redeeming.antt =====
-- A nonce is redeemed at most as often as it was drawn.
use op_ca.Prelude.{
  ℕ, ◌+◌, ◌≤◌, ◌≡◌, refl, true, false, none, some, List, [], ◌∷◌, text_eq, text_eq_iff, arith,
  if◌then◌else◌,
}
use op_ca.Base64url.{base64url}
use op_ca.Store.Tables.{Token}
use op_ca.Nonces.{
  issues, redeems, Nonces, NonceCall, contains, remove, forget, issue, redeem, nonce_step,
  nonce_run,
}
use op_ca.Nonces.Bounded.{contains-remove, contains-insert}

-- How often a nonce is drawn, and how often redeeming it succeeds, in a sequence of calls.
unfoldable pub drawn : Token → List NonceCall → ℕ
drawn n [] = 0
drawn n (issues none ∷ cs) = drawn n cs
drawn n (issues (some bytes) ∷ cs) = (if text_eq (base64url bytes) n then 1 else 0) + drawn n cs
drawn n (redeems nonce ∷ cs) = drawn n cs

unfoldable pub redemptions : Token → Nonces → List NonceCall → ℕ
redemptions n s [] = 0
redemptions n s (issues bytes ∷ cs) = redemptions n (issue bytes s).1 cs
redemptions n s (redeems nonce ∷ cs) =
    (if text_eq nonce n then (if (redeem nonce s).0 then 1 else 0) else 0)
    + redemptions n (redeem nonce s).1 cs

abbrev pub live_count : Token → Nonces → ℕ
live_count n s = if contains n s.live then 1 else 0

forget-live :
    (capacity : ℕ) (n : Token) (issued live : List Token)
    → contains n (forget capacity issued live).1 ≡ true
    → contains n live ≡ true
unfolding forget
forget-live capacity n [] live e = e
forget-live capacity n (t ∷ issued) live e =
    ground (arith, forget-live capacity n issued (remove t live), contains-remove n t live)

issue-live :
    (n : Token) (bytes : List ℕ) (s : Nonces)
    → live_count n (issue (some bytes) s).1
      ≤ (if text_eq (base64url bytes) n then 1 else 0) + live_count n s
unfolding issue
issue-live n bytes s =
    let kept = forget s.capacity s.issued s.live in
    ground
      (arith, contains-insert n (base64url bytes) kept.1, forget-live s.capacity n s.issued s.live)

issue_nothing-live : (n : Token) (s : Nonces) → live_count n (issue none s).1 ≡ live_count n s
unfolding issue
issue_nothing-live n s = refl

redeem-live :
    (n nonce : Token) (s : Nonces)
    → (if text_eq nonce n then (if (redeem nonce s).0 then 1 else 0) else 0)
        + live_count n (redeem nonce s).1
      ≤ live_count n s
unfolding redeem
redeem-live n nonce s = ground (arith, contains-remove n nonce s.live, text_eq_iff nonce n)

-- In any sequence of calls: how often redeeming a nonce succeeds, and once more if the nonce is live at
-- the end, is at most how often it was drawn, and once more if it was live at the start. So it never
-- succeeds twice for one drawing.
pub redemptions-drawn :
    (n : Token) (s : Nonces) (calls : List NonceCall)
    → redemptions n s calls + live_count n (nonce_run s calls) ≤ drawn n calls + live_count n s
unfolding redemptions drawn nonce_run nonce_step
redemptions-drawn n s [] = omega arith
redemptions-drawn n s (issues none ∷ cs) =
    omega (arith, issue_nothing-live n s, redemptions-drawn n (issue none s).1 cs)
redemptions-drawn n s (issues (some bytes) ∷ cs) =
    omega (arith, issue-live n bytes s, redemptions-drawn n (issue (some bytes) s).1 cs)
redemptions-drawn n s (redeems nonce ∷ cs) =
    omega (arith, redeem-live n nonce s, redemptions-drawn n (redeem nonce s).1 cs)

-- A nonce that is not live is not live later, if it is not drawn again.
pub stays_dead :
    (n : Token) (s : Nonces) (calls : List NonceCall)
    → drawn n calls ≡ 0
    → contains n s.live ≡ false
    → contains n (nonce_run s calls).live ≡ false
stays_dead n s calls e h = ground (arith, redemptions-drawn n s calls)
