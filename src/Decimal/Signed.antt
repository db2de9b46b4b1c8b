-- ===== src/Decimal/Signed.antt =====
-- `i64::to_string`, `str::parse::<i64>` and `str::trim` of the standard library. An `i64` is the number
-- 2 ^ 63 above it, which keeps the order.
use op_ca.Prelude.{
  ℕ, ◌+◌, ◌-◌, ◌%◌, ◌/◌, ◌^◌, ◌≡◌, sym, ◌<◌, refl, ap, ◌∙◌, zero, suc, Bool, false, ◌&&◌, ◌||◌,
  Option, none, some, [], ◌∷◌, arith, All, Text, text_eq, leb, ltb, ◌==◌, if◌then◌else◌, Bool-cases,
  inl, inr,
}
use op_ca.Decimal.{print, parse_unsigned, read_digits, digits}
use op_ca.Decimal.RoundTrip.{parse-print, parse-Digital, digits-Digital, Digital}

-- 0 as an `i64`.
abbrev pub zero_i64 : ℕ
zero_i64 = 2 ^ 63

abbrev within_i64 : Option ℕ → Option ℕ
within_i64 none = none
within_i64 (some n) = if ltb n (2 ^ 63) then some (n + 2 ^ 63) else none

abbrev below_zero : Option ℕ → Option ℕ
below_zero none = none
below_zero (some n) = if leb n (2 ^ 63) then some (2 ^ 63 - n) else none

-- The digits of a negative number: at least one, and no second sign.
abbrev negative_digits : Text → Option ℕ
negative_digits [] = none
negative_digits (c ∷ text) = read_digits 0 (c ∷ text)

unfoldable pub parse_i64 : Text → Option ℕ
parse_i64 [] = none
parse_i64 (c ∷ text) =
    if c == b'-' then below_zero (negative_digits text) else within_i64 (parse_unsigned (c ∷ text))

unfoldable pub print_i64 : ℕ → Text
print_i64 n = if ltb n (2 ^ 63) then b'-' ∷ print (2 ^ 63 - n) else print (n - 2 ^ 63)

-- Unicode's White_Space.
abbrev pub is_white : ℕ → Bool
is_white c =
    (leb 9 c && leb c 13)
    || (c == 32)
    || (c == 133)
    || (c == 160)
    || (c == 5760)
    || (leb 8192 c && leb c 8202)
    || (c == 8232)
    || (c == 8233)
    || (c == 8239)
    || (c == 8287)
    || (c == 12288)

unfoldable pub skip_white : Text → Text
skip_white [] = []
skip_white (c ∷ text) = let rest = skip_white text in if is_white c then rest else c ∷ text

unfoldable pub skip_white_end : Text → Text
skip_white_end [] = []
skip_white_end (c ∷ text) =
    let rest = skip_white_end text in if is_white c && text_eq rest [] then [] else c ∷ rest

unfoldable pub trim : Text → Text
trim text = skip_white (skip_white_end text)

-- Digits and signs.
abbrev Plain : Text → Type 0
Plain text = All (λ c. (b'+' < c) × (c < 58)) text

digits-Plain : (fuel n : ℕ) (text : Text) → Plain text → Plain (digits fuel n text)
unfolding digits
digits-Plain zero n text h = h
digits-Plain (suc fuel) n text h = elim (Bool-cases (ltb n 10)) [
  | inl e ↦ rw e ((omega arith, ground arith), h)
  | inr e ↦
      rw e (digits-Plain fuel (n / 10) ((b'0' + n % 10) ∷ text) ((omega arith, omega arith), h))
]

print_i64-Plain : (n : ℕ) → Plain (print_i64 n)
unfolding print_i64 print
print_i64-Plain n = elim (Bool-cases (ltb n (2 ^ 63))) [
  | inl e ↦ rw e ((omega arith, omega arith), digits-Plain (suc (2 ^ 63 - n)) (2 ^ 63 - n) [] tt)
  | inr e ↦ rw e (digits-Plain (suc (n - 2 ^ 63)) (n - 2 ^ 63) [] tt)
]

skip_white_end-Plain : (text : Text) → Plain text → skip_white_end text ≡ text
unfolding skip_white_end
skip_white_end-Plain [] h = refl
skip_white_end-Plain (c ∷ text) h =
    let (low, high) = h.0 in
    let plain : is_white c ≡ false = ground arith in
    rw plain (ap (◌∷◌ c) (skip_white_end-Plain text h.1))

skip_white-Plain : (text : Text) → Plain text → skip_white text ≡ text
unfolding skip_white
skip_white-Plain [] h = refl
skip_white-Plain (c ∷ text) h =
    let (low, high) = h.0 in let plain : is_white c ≡ false = ground arith in rw plain refl

trim-print_i64 : (n : ℕ) → trim (print_i64 n) ≡ print_i64 n
unfolding trim
trim-print_i64 n =
    ap skip_white (skip_white_end-Plain (print_i64 n) (print_i64-Plain n))
    ∙ skip_white-Plain (print_i64 n) (print_i64-Plain n)

-- Digits start with a digit.
abbrev Digit : Text → Type 0
Digit [] = ⊥
Digit (c ∷ text) = b'-' < c

Digit-digits : (fuel n : ℕ) (text : Text) → n < fuel → Digit (digits fuel n text)
unfolding digits
Digit-digits zero n text h = absurd (omega arith)
Digit-digits (suc fuel) n text h = elim (Bool-cases (ltb n 10)) [
  | inl e ↦ rw e (omega arith)
  | inr e ↦ rw e (Digit-digits fuel (n / 10) ((b'0' + n % 10) ∷ text) (ground arith))
]

negative_digits-Digital : (text : Text) → Digital text → negative_digits text ≡ parse_unsigned text
negative_digits-Digital [] h = absurd h
negative_digits-Digital (c ∷ text) h = sym (parse-Digital (c ∷ text) h)

-- Where a digit stands first there is no sign.
parse_i64-print : (n : ℕ) → n < 2 ^ 64 → parse_i64 (print n) ≡ within_i64 (some n)
unfolding print
parse_i64-print n h =
    by (digits (suc n) n []) (Digit-digits (suc n) n [] (omega arith)) (parse-print n h)
  where
    by :
        (text : Text)
        → Digit text
        → parse_unsigned text ≡ some n
        → parse_i64 text ≡ within_i64 (some n)
    by [] d e = absurd d
    by (c ∷ text) d e =
        let sign : (c == b'-') ≡ false = ground arith in unfold parse_i64 in rw (sign, e) refl

-- Every `i64` is read back from its decimal text.
pub parse-trim-print : (n : ℕ) → n < 2 ^ 64 → parse_i64 (trim (print_i64 n)) ≡ some n
parse-trim-print n h = ap parse_i64 (trim-print_i64 n) ∙ elim (Bool-cases (ltb n (2 ^ 63))) [
  | inl e ↦
      unfold print_i64 in
      rw e (
        unfold parse_i64 in
        ap below_zero (
          negative_digits-Digital (print (2 ^ 63 - n))
            (unfold print in digits-Digital (suc (2 ^ 63 - n)) (2 ^ 63 - n) [] (omega arith))
          ∙ parse-print (2 ^ 63 - n) (omega arith))
        ∙ ground arith)
  | inr e ↦ unfold print_i64 in rw e (parse_i64-print (n - 2 ^ 63) (omega arith) ∙ ground arith)
]
