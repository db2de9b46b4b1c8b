-- ===== src/Decimal.antt =====
-- `u64::to_string` and `str::parse::<u64>` of the standard library, on texts as lists of codes.
pub mod RoundTrip
pub mod Signed
use op_ca.Prelude.{
  ℕ, zero, suc, ◌+◌, ◌-◌, ◌*◌, ◌/◌, ◌%◌, ◌^◌, Bool, ◌&&◌, Option, none, some, List, [], ◌∷◌, ◌++◌,
  leb, ltb, ◌==◌, if◌then◌else◌, codes, ◌≡◌, refl,
}

-- The digits of a number, in front of a text; the fuel need only exceed the number.
unfoldable pub digits : ℕ → ℕ → List ℕ → List ℕ
digits zero n text = text
digits (suc fuel) n text =
    let more = digits fuel (n / 10) ((b'0' + n % 10) ∷ text) in
    if ltb n 10 then (b'0' + n) ∷ text else more

unfoldable pub print : ℕ → List ℕ
print n = digits (suc n) n []

-- Multiply and add over the digits, as far as the number fits 64 bits.
unfoldable pub read_digits : ℕ → List ℕ → Option ℕ
read_digits n [] = some n
read_digits n (c ∷ text) =
    let m = n * 10 + (c - b'0') in
    let rest = read_digits m text in
    if leb b'0' c && (leb c b'9' && ltb m (2 ^ 64)) then rest else none

-- One `+` may stand in front; a text without digits is refused.
unfoldable pub parse_unsigned : List ℕ → Option ℕ
parse_unsigned [] = none
parse_unsigned (c ∷ []) = if c == b'+' then none else read_digits 0 (c ∷ [])
parse_unsigned (c ∷ d ∷ text) =
    if c == b'+' then read_digits 0 (d ∷ text) else read_digits 0 (c ∷ d ∷ text)

numbers :
    (print 300 ≡ codes "300")
    × (parse_unsigned (codes "+07") ≡ some 7)
    × (parse_unsigned (codes "18446744073709551616") ≡ none)
    × (parse_unsigned (codes "3x") ≡ none)
unfolding print digits parse_unsigned read_digits
numbers = (refl, refl, refl, refl)
