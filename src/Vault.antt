-- ===== src/Vault.antt =====
-- The vault that opCA writes to: what crates/opca-core calls of wslib_1password, which is a parameter,
-- and the writes of op.rs on top of it.
use op_ca.Prelude.{ℕ, String, Bool, List, Result, ok, err}

-- The errors of wslib_1password, as far as the code tells them apart.
pub data OpError : Type 0 where
  item_not_found : String → OpError
  other_error : String → OpError

-- A call to the vault: its answer, and the vault that it leaves.
abbrev pub Call : Type 0 → Type 0 → Type 0
Call W A = W → Result OpError A × W

abbrev pub continue :
    {W A B : Type 0} → Result OpError A → W → (A → Call W B) → Result OpError B × W
continue (ok a) w f = f a w
continue (err e) w f = (err e, w)

infixl 5 ◌>>=◌ ◌>>◌
abbrev pub ◌>>=◌ : {W A B : Type 0} → Call W A → (A → Call W B) → Call W B
◌>>=◌ m f w = continue (m w).0 (m w).1 f

abbrev pub ◌>>◌ : {W A B : Type 0} → Call W A → Call W B → Call W B
m >> n = m >>= λ _. n

abbrev pub pure : {W A : Type 0} → A → Call W A
pure a w = (ok a, w)

-- What a new item is told by: its id and the time that the server made it, as text.
pub record Created : Type 0 where
  pub id : List ℕ
  pub created_at : List ℕ

-- The calls that name an item do so by its title. A document's content is its text.
pub record Vault : Type 1 where
  pub World : Type 0
  pub Assignment : Type 0
  pub parse_assignment : String → Result OpError Assignment
  pub item_exists : String → Call World Bool
  pub create_item : String → String → List Assignment → Call World Created
  pub edit_item : String → List Assignment → Call World (Unit {0})
  pub create_document : String → String → String → Call World (Unit {0})
  pub edit_document : String → String → String → Call World (Unit {0})
  pub rename_item : String → String → Call World (Unit {0})
  pub delete_item : String → Call World (Unit {0})
  pub delete_item_permanently : String → Call World (Unit {0})

-- What an edit that found no item leads to.
abbrev or_create :
    {W : Type 0} → Call W (Unit {0}) → Result OpError (Unit {0}) × W → Result OpError (Unit {0}) × W
or_create create (ok u, w) = (ok u, w)
or_create create (err (item_not_found title), w) = create w
or_create create (err (other_error text), w) = (err (other_error text), w)

unfoldable pub put_document : (v : Vault) → String → String → String → Call v.World (Unit {0})
put_document v title file_name content w =
    or_create (v.create_document title file_name content)
      (v.edit_document title file_name content w)

unfoldable pub put_item :
    (v : Vault) → String → String → List v.Assignment → Call v.World (Unit {0})
put_item v title category fields w =
    or_create (do made ← v.create_item title category fields; pure tt) (v.edit_item title fields w)
