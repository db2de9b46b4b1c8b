-- ===== src/Base64url.antt =====
-- `base64url` and `from_base64url` of crates/opca-acme-broker/src/acme/mod.rs. Texts and byte strings
-- are lists of numbers; where the shifted parts of a word share no bit, `|` is written `+`.
pub mod RoundTrip
use op_ca.Prelude.{
  ℕ, suc, zero, ◌+◌, ◌-◌, ◌*◌, ◌/◌, ◌%◌, ◌^◌, Bool, ◌&&◌, Option, none, some, List, [], ◌∷◌, ◌++◌,
  codes, get_or, leb, ltb, ◌≡◌, refl, ◌==◌, if◌then◌else◌,
}

abbrev alphabet : List ℕ
alphabet = codes "ABCDEFGHIJKLMNOPQRSTUVWXYZabcdefghijklmnopqrstuvwxyz0123456789-_"

-- `ALPHABET[…]`
unfoldable pub symbol : ℕ → ℕ
symbol v = get_or alphabet v 0

-- The bytes of a chunk in 24 bits, from the top.
unfoldable pub triple : ℕ → List ℕ → ℕ
triple shift [] = 0
triple shift (b ∷ bs) = b * 2 ^ shift + triple (shift - 8) bs

-- `triple >> (18 - 6 * i) & 0x3f`
unfoldable pub sextet : ℕ → ℕ → ℕ
sextet t i = t / 2 ^ (18 - 6 * i) % 64

-- The symbols for `i` in `0..=chunk.len()`.
unfoldable pub chunk_symbols : List ℕ → List ℕ
unfolding symbol triple sextet
chunk_symbols (a ∷ []) =
    let t = triple 16 (a ∷ []) in symbol (sextet t 0) ∷ symbol (sextet t 1) ∷ []
chunk_symbols (a ∷ b ∷ []) =
    let t = triple 16 (a ∷ b ∷ []) in
    symbol (sextet t 0) ∷ symbol (sextet t 1) ∷ symbol (sextet t 2) ∷ []
chunk_symbols (a ∷ b ∷ c ∷ []) =
    let t = triple 16 (a ∷ b ∷ c ∷ []) in
    symbol (sextet t 0) ∷ symbol (sextet t 1) ∷ symbol (sextet t 2) ∷ symbol (sextet t 3) ∷ []
chunk_symbols _ = []

unfoldable pub base64url : List ℕ → List ℕ
unfolding chunk_symbols
base64url [] = []
base64url (a ∷ []) = chunk_symbols (a ∷ [])
base64url (a ∷ b ∷ []) = chunk_symbols (a ∷ b ∷ [])
base64url (a ∷ b ∷ c ∷ rest) = chunk_symbols (a ∷ b ∷ c ∷ []) ++ base64url rest

-- The value of a symbol.
unfoldable pub value : ℕ → Option ℕ
value c =
    if leb b'A' c && leb c b'Z'
    then some (c - b'A')
    else if leb b'a' c && leb c b'z'
    then some (c - b'a' + 26)
    else if leb b'0' c && leb c b'9'
    then some (c - b'0' + 52)
    else if c == b'-'
    then some 62
    else if c == b'_'
    then some 63
    else none

-- Once `value` is in the buffer: a whole byte is put out.
unfoldable pub push_byte : ℕ → ℕ → List ℕ → ℕ × ℕ × List ℕ
push_byte buffer bits out =
    if leb 8 bits
    then (buffer, bits - 8, out ++ (buffer / 2 ^ (bits - 8) % 256) ∷ [])
    else (buffer, bits, out)

-- The leftover bits are fewer than a symbol's, and zero.
unfoldable pub finish : ℕ → ℕ → List ℕ → Option (List ℕ)
finish buffer bits out = if ltb bits 6 && (buffer % 2 ^ bits == 0) then some out else none

unfoldable pub decode : List ℕ → ℕ → ℕ → List ℕ → Option (List ℕ)
decode [] buffer bits out = finish buffer bits out
decode (c ∷ text) buffer bits out = elim (value c) [
  | none ↦ none
  | some v ↦
      let (buffer', bits', out') = push_byte ((buffer * 64 + v) % 2 ^ 16) (bits + 6) out in
      decode text buffer' bits' out'
]

unfoldable pub from_base64url : List ℕ → Option (List ℕ)
unfolding decode
from_base64url text = decode text 0 0 []

vectors :
    (base64url (codes "foob") ≡ codes "Zm9vYg")
    × (base64url (codes "fooba") ≡ codes "Zm9vYmE")
    × (from_base64url (codes "Zm9vYg") ≡ some (codes "foob"))
    × (from_base64url (codes "Zh") ≡ none)
unfolding base64url from_base64url value push_byte finish
vectors = (refl, refl, refl, refl)
