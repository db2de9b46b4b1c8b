-- ===== src/Nonces.antt =====
-- The replay nonces of crates/opca-acme-broker/src/acme/request.rs: `Nonces::issue` and
-- `Nonces::redeem`. The lock around the state is held through either, so that each is one step.
pub mod Bounded
pub mod Redeeming
pub mod Keeping
use op_ca.Prelude.{
  ℕ, suc, not, Bool, true, false, Option, none, some, List, [], ◌∷◌, ◌++◌, length, filter, any, leb,
  text_eq, if◌then◌else◌,
}
use op_ca.Base64url.{base64url}
use op_ca.Store.Tables.{Token}

-- `NonceState`, with the capacity beside it; `live` is a set.
pub record Nonces : Type 0 where
  pub capacity : ℕ
  pub live : List Token
  pub issued : List Token

abbrev pub new_nonces : ℕ → Nonces
new_nonces capacity = record { capacity = capacity; live = []; issued = [] }

-- `HashSet::contains`, `remove` and `insert`
unfoldable pub contains : Token → List Token → Bool
contains nonce live = any (λ t. text_eq t nonce) live

unfoldable pub remove : Token → List Token → List Token
remove nonce live = filter (λ t. not (text_eq t nonce)) live

unfoldable pub insert : Token → List Token → List Token
insert nonce live = if contains nonce live then live else nonce ∷ live

-- The `while` loop: the oldest go while as many as the capacity are there.
unfoldable pub forget : ℕ → List Token → List Token → List Token × List Token
forget capacity [] live = ([], live)
forget capacity (oldest ∷ issued) live =
    let rest = forget capacity issued (remove oldest live) in
    if leb capacity (length (oldest ∷ issued)) then rest else (oldest ∷ issued, live)

-- A new nonce of the given random bytes, which the provider may fail to draw.
unfoldable pub issue : Option (List ℕ) → Nonces → Option Token × Nonces
issue none s = (none, s)
issue (some bytes) s =
    let nonce = base64url bytes in
    let kept = forget s.capacity s.issued s.live in
    (some nonce, record s { issued = kept.0 ++ nonce ∷ []; live = insert nonce kept.1 })

unfoldable pub redeem : Token → Nonces → Bool × Nonces
redeem nonce s = (contains nonce s.live, record s { live = remove nonce s.live })

-- The calls, and what a sequence of them leaves.
pub data NonceCall : Type 0 where
  issues : Option (List ℕ) → NonceCall
  redeems : Token → NonceCall

unfoldable pub nonce_step : Nonces → NonceCall → Nonces
nonce_step s (issues bytes) = (issue bytes s).1
nonce_step s (redeems nonce) = (redeem nonce s).1

unfoldable pub nonce_run : Nonces → List NonceCall → Nonces
nonce_run s [] = s
nonce_run s (c ∷ cs) = nonce_run (nonce_step s c) cs
