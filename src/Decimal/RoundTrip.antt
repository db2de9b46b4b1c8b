-- ===== src/Decimal/RoundTrip.antt =====
-- A number that fits 64 bits is read back from its decimal text.
use op_ca.Prelude.{
  ℕ, zero, suc, ◌+◌, ◌-◌, ◌*◌, ◌/◌, ◌%◌, ◌^◌, ◌<◌, ◌≡◌, refl, ap, ◌∙◌, some, List, [], ◌∷◌, arith,
  ltb, Bool-cases, inl, inr,
}
use op_ca.Decimal.{digits, print, read_digits, parse_unsigned}

read_digit :
    (n c : ℕ) (text : List ℕ)
    → c < 10
    → n * 10 + c < 2 ^ 64
    → read_digits n ((b'0' + c) ∷ text) ≡ read_digits (n * 10 + c) text
unfolding read_digits
read_digit n c text h l = let e : b'0' + c - b'0' ≡ c = omega arith in ground arith

-- The digits of `n` put `n` in front of what the rest of the text says.
read-digits :
    (fuel n : ℕ) (text : List ℕ)
    → n < fuel
    → n < 2 ^ 64
    → read_digits 0 (digits fuel n text) ≡ read_digits n text
unfolding digits
read-digits zero n text h l = absurd (omega arith)
read-digits (suc fuel) n text h l =
    let first : 0 * 10 + n ≡ n = omega arith in
    elim (Bool-cases (ltb n 10)) [
      | inl e ↦
          rw e
            (read_digit 0 n text (ground arith) (omega arith) ∙ ap (λ k. read_digits k text) first)
      | inr e ↦
          let m : n / 10 * 10 + n % 10 ≡ n = omega arith in
          rw e (
            read-digits fuel (n / 10) ((b'0' + n % 10) ∷ text) (ground arith) (omega arith)
            ∙ (read_digit (n / 10) (n % 10) text (omega arith) (omega arith)
                ∙ ap (λ k. read_digits k text) m))
    ]

-- What `print` writes begins with a digit.
abbrev pub Digital : List ℕ → Type 0
Digital [] = ⊥
Digital (c ∷ text) = b'+' < c

pub digits-Digital : (fuel n : ℕ) (text : List ℕ) → n < fuel → Digital (digits fuel n text)
unfolding digits
digits-Digital zero n text h = absurd (omega arith)
digits-Digital (suc fuel) n text h = elim (Bool-cases (ltb n 10)) [
  | inl e ↦ rw e (omega arith)
  | inr e ↦ rw e (digits-Digital fuel (n / 10) ((b'0' + n % 10) ∷ text) (ground arith))
]

pub parse-Digital : (text : List ℕ) → Digital text → parse_unsigned text ≡ read_digits 0 text
unfolding parse_unsigned
parse-Digital [] h = absurd h
parse-Digital (c ∷ []) h = ground arith
parse-Digital (c ∷ d ∷ text) h = ground arith

-- Every number of 64 bits is parsed back from its decimal text.
pub parse-print : (n : ℕ) → n < 2 ^ 64 → parse_unsigned (print n) ≡ some n
unfolding print
parse-print n h =
    parse-Digital (digits (suc n) n []) (digits-Digital (suc n) n [] (omega arith))
    ∙ (read-digits (suc n) n [] (omega arith) h ∙ unfold read_digits in refl)
