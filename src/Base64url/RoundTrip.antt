-- ===== src/Base64url/RoundTrip.antt =====
-- Decoding what `base64url` wrote.
use op_ca.Prelude.{
  ℕ, ◌+◌, ◌*◌, ◌/◌, ◌%◌, ◌^◌, ◌<◌, ◌≡◌, refl, ap, ◌∙◌, Bool, true, false, Option, none, some, List,
  [], ◌∷◌, ◌++◌, arith, All, lt→ltb, ◌==◌, passes_below, passes_below_lem,
}
use mathlib.Core.Path.{ap₂}
use mathlib.Core.List.{append-nil, append_assoc}
use op_ca.Base64url.{
  symbol, triple, sextet, chunk_symbols, base64url, value, push_byte, finish, decode,
  from_base64url,
}

is_value : ℕ → Option ℕ → Bool
is_value v none = false
is_value v (some w) = v == w

is_value_sound : (v : ℕ) (o : Option ℕ) → is_value v o ≡ true → o ≡ some v
unfolding is_value
is_value_sound v none h = cc
is_value_sound v (some w) h = ground arith

value_table : passes_below (λ v. is_value v (value (symbol v))) 64 ≡ true
unfolding passes_below is_value value symbol
value_table = refl

pub value-symbol : (v : ℕ) → v < 64 → value (symbol v) ≡ some v
value-symbol v h =
    is_value_sound v _ (passes_below_lem (λ v. is_value v (value (symbol v))) 64 v h value_table)

-- One symbol read.
decode_step :
    (c v : ℕ) (text : List ℕ) (buffer bits : ℕ) (out : List ℕ)
    → value c ≡ some v
    → decode (c ∷ text) buffer bits out
      ≡ (let (b, n, o) = push_byte ((buffer * 64 + v) % 2 ^ 16) (bits + 6) out in decode text b n o)
unfolding decode
decode_step c v text buffer bits out e = rw (e, decode)

-- The buffer after one more symbol.
abbrev next : ℕ → ℕ → ℕ
next buffer v = (buffer * 64 + v) % 2 ^ 16

module _ (p q : ℕ) (hp : p < 64) (hq : q < 64) (text : List ℕ) (buffer : ℕ) (out : List ℕ) where
  decode_two :
      decode (symbol p ∷ symbol q ∷ text) buffer 0 out
      ≡ decode text (next (next buffer p) q) 4 (out ++ (next (next buffer p) q / 16 % 256) ∷ [])
  unfolding push_byte
  decode_two =
      decode_step _ p _ buffer 0 out (value-symbol p hp)
      ∙ decode_step _ q text (next buffer p) 6 out (value-symbol q hq)

  decode_three :
      (r : ℕ)
      → r < 64
      → decode (symbol p ∷ symbol q ∷ symbol r ∷ text) buffer 0 out
        ≡ decode text (next (next (next buffer p) q) r) 2 (
            (out ++ (next (next buffer p) q / 16 % 256) ∷ [])
            ++ (next (next (next buffer p) q) r / 4 % 256) ∷ [])
  unfolding push_byte
  decode_three r hr =
      decode_step _ p _ buffer 0 out (value-symbol p hp)
      ∙ (decode_step _ q _ (next buffer p) 6 out (value-symbol q hq)
          ∙ decode_step _ r text (next (next buffer p) q) 4 _ (value-symbol r hr))

sextet-lt : (t i : ℕ) → sextet t i < 64
unfolding sextet
sextet-lt t i = omega arith

module _ (p q r s : ℕ) (hp : p < 64) (hq : q < 64) (hr : r < 64) (hs : s < 64) (text : List ℕ)
    (buffer : ℕ) (out : List ℕ) where
  decode_four :
      decode (symbol p ∷ symbol q ∷ symbol r ∷ symbol s ∷ text) buffer 0 out
      ≡ decode text (next (next (next (next buffer p) q) r) s) 0 (
          ((out ++ (next (next buffer p) q / 16 % 256) ∷ [])
            ++ (next (next (next buffer p) q) r / 4 % 256) ∷ [])
          ++ (next (next (next (next buffer p) q) r) s / 1 % 256) ∷ [])
  unfolding push_byte
  decode_four =
      decode_three p q hp hq (symbol s ∷ text) buffer out r hr
      ∙ decode_step _ s text (next (next (next buffer p) q) r) 2 _ (value-symbol s hs)

append_three {ℓ} :
    {A : Type ℓ} (out : List A) (a b c : A) (rest : List A)
    → (((out ++ a ∷ []) ++ b ∷ []) ++ c ∷ []) ++ rest ≡ out ++ a ∷ b ∷ c ∷ rest
append_three out a b c rest = simp append_assoc

append_cong {ℓ} :
    {A : Type ℓ} (out rest : List A) {a b c a' b' c' : A}
    → a ≡ a'
    → b ≡ b'
    → c ≡ c'
    → out ++ a ∷ b ∷ c ∷ rest ≡ out ++ a' ∷ b' ∷ c' ∷ rest
append_cong out rest p q r = cc

module _ (buffer t : ℕ) (h : t < 2 ^ 24) where
  first_byte : next (next buffer (sextet t 0)) (sextet t 1) / 16 % 256 ≡ t / 65536
  unfolding sextet
  first_byte = omega arith

  second_byte :
      next (next (next buffer (sextet t 0)) (sextet t 1)) (sextet t 2) / 4 % 256 ≡ t / 256 % 256
  unfolding sextet
  second_byte = omega arith

  third_byte :
      next (next (next (next buffer (sextet t 0)) (sextet t 1)) (sextet t 2)) (sextet t 3) / 1 % 256
      ≡ t % 256
  unfolding sextet
  third_byte = omega arith

finish_lem :
    (buffer bits : ℕ) (out : List ℕ)
    → bits < 6
    → buffer % 2 ^ bits ≡ 0
    → decode [] buffer bits out ≡ some out
unfolding decode finish
finish_lem buffer bits out h e = rw (lt→ltb bits 6 h, e) refl

leftover_four :
    (buffer a : ℕ)
    → next (next buffer (sextet (a * 65536 + 0) 0)) (sextet (a * 65536 + 0) 1) % 16 ≡ 0
unfolding sextet
leftover_four buffer a = omega arith

leftover_two : (buffer a b : ℕ) → next buffer (sextet (a * 65536 + (b * 256 + 0)) 2) % 4 ≡ 0
unfolding sextet
leftover_two buffer a b = omega arith

-- From a byte boundary the bytes come back behind what was put out before.
decode-base64url :
    (bytes : List ℕ) (buffer : ℕ) (out : List ℕ)
    → All (λ b. b < 256) bytes
    → decode (base64url bytes) buffer 0 out ≡ some (out ++ bytes)
unfolding base64url chunk_symbols triple
decode-base64url [] buffer out h =
    rw append-nil (finish_lem buffer 0 out (omega arith) (omega arith))
decode-base64url (a ∷ []) buffer out h =
    let t = a * 65536 + 0 in
    decode_two (sextet t 0) (sextet t 1) (sextet-lt t 0) (sextet-lt t 1) [] buffer out
    ∙ (finish_lem _ 4 _ (omega arith) (leftover_four buffer a)
        ∙ ap (λ x. some (out ++ x ∷ [])) (first_byte buffer t (omega arith) ∙ omega arith))
decode-base64url (a ∷ b ∷ []) buffer out h =
    let t = a * 65536 + (b * 256 + 0) in
    decode_three (sextet t 0) (sextet t 1) (sextet-lt t 0) (sextet-lt t 1) [] buffer out
      (sextet t 2) (sextet-lt t 2)
    ∙ (finish_lem _ 2 _ (omega arith) (leftover_two _ a b)
        ∙ ap some (
            simp append_assoc (
              ap₂ (λ x y. out ++ x ∷ y ∷ []) (first_byte buffer t (omega arith) ∙ omega arith)
                (second_byte buffer t (omega arith) ∙ omega arith))))
decode-base64url (a ∷ b ∷ c ∷ rest) buffer out h =
    let t = a * 65536 + (b * 256 + (c * 1 + 0)) in
    decode_four (sextet t 0) (sextet t 1) (sextet t 2) (sextet t 3) (sextet-lt t 0) (sextet-lt t 1)
      (sextet-lt t 2) (sextet-lt t 3) (base64url rest) buffer out
    ∙ (decode-base64url rest _ _ (h.1.1.1)
        ∙ ap some (
            append_three out _ _ _ rest
            ∙ append_cong out rest (first_byte buffer t (omega arith) ∙ omega arith)
                (second_byte buffer t (omega arith) ∙ omega arith)
                (third_byte buffer t (omega arith) ∙ omega arith)))

-- Every byte string is read back from the text written for it.
pub from_base64url-base64url :
    (bytes : List ℕ) → All (λ b. b < 256) bytes → from_base64url (base64url bytes) ≡ some bytes
unfolding from_base64url
from_base64url-base64url bytes h = decode-base64url bytes 0 [] h
