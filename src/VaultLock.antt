-- ===== src/VaultLock.antt =====
-- crates/opca-core/src/vault_lock.rs: the advisory lock. Every acquirer makes an item of its own, and
-- the lock that ranks first wins. 1Password, and chrono's readers and writers of times, are parameters.
pub mod Contest
pub mod Ranks
pub mod Exclusion
pub mod Stale
pub mod Acquire
use op_ca.Prelude.{
  Text, ℕ, suc, ◌+◌, ◌-◌, ◌*◌, ◌/◌, ◌^◌, ◌==◌, ltb, leb, String, Bool, true, false, not, ◌&&◌, ◌||◌,
  Option, none, some, List, [], ◌∷◌, Result, ok, err, all, text_eq, codes, str_eq, if◌then◌else◌,
}
use op_ca.Decimal.{print, parse_unsigned}
use op_ca.Vault.{OpError, item_not_found, Created}

abbrev pub Fields : Type 0
Fields = List (String × Text)

-- What `vault.item` reads of an item; a field may have no value.
pub record Item : Type 0 where
  pub id : Text
  pub created_at : Text
  pub fields : List (String × Option Text)

-- The calls to 1Password; the items are named by their ids.
pub record LockVault : Type 1 where
  pub World : Type 0
  pub current_user : World → Result OpError (Text × Text)
  pub create_item : String → String → Fields → World → Result OpError Created × World
  pub items_titled : String → World → Result OpError (List Text)
  pub item : Text → World → Result OpError Item
  pub delete_item_permanently : Text → World → Result OpError (Unit {0}) × World

-- chrono: times are nanoseconds since a time before all that are used.
pub record Chrono : Type 0 where
  pub parse_from_rfc3339 : Text → Option ℕ
  pub parse_naive : Text → Option ℕ
  pub format_iso : ℕ → Text

pub data OpcaError : Type 0 where
  vault_locked : Text → Text → Text → Text → Text → OpcaError
  op : OpError → OpcaError

pub record Held : Type 0 where
  pub id : Text
  pub acquired : ℕ
  pub ttl : ℕ

pub record VaultLock : Type 0 where
  pub lock_title : String
  pub held : Option Held

pub record Lock : Type 0 where
  pub id : Text
  pub created : Option ℕ
  pub fields : Fields

abbrev pub default_ttl : ℕ
default_ttl = 300

-- `collect` into a map: of two fields with one label the later counts.
unfoldable pub get_field : String → Fields → Option Text
get_field label [] = none
get_field label ((l, value) ∷ fields) = elim (get_field label fields) [
  | some later ↦ some later
  | none ↦ if str_eq l label then some value else none
]

abbrev text_or : Text → Option Text → Text
text_or default none = default
text_or default (some text) = text

unfoldable pub field : Lock → String → Text
field lock label = text_or [] (get_field label lock.fields)

unfoldable pub held_against_us : Lock → OpcaError
held_against_us lock =
    vault_locked (field lock "holder_email") (field lock "holder_name") (field lock "acquired_at")
      (field lock "operation") (field lock "hostname")

-- `trim_end_matches('Z')`
unfoldable pub trim_end_z : Text → Text
trim_end_z [] = []
trim_end_z (c ∷ text) =
    let rest = trim_end_z text in if (c == b'Z') && text_eq rest [] then [] else c ∷ rest

unfoldable pub parse_iso : Chrono → Text → Option ℕ
parse_iso chrono text = chrono.parse_naive (trim_end_z text)

abbrev pub Rank : Type 0
Rank = Option ℕ × Text

abbrev and_then : {A B : Type 0} → Option A → (A → Option B) → Option B
and_then none f = none
and_then (some a) f = f a

unfoldable pub rank : Chrono → Bool → Lock → Rank
rank chrono by_server lock = (
  if by_server
      then lock.created
      else and_then (get_field "acquired_at" lock.fields) (parse_iso chrono),
  lock.id,
)

-- The order of texts, of optional times, and of ranks: the one part after the other.
unfoldable pub text_less : Text → Text → Bool
text_less x [] = false
text_less [] (d ∷ y) = true
text_less (c ∷ x) (d ∷ y) = ltb c d || ((c == d) && text_less x y)

unfoldable pub time_less : Option ℕ → Option ℕ → Bool
time_less t none = false
time_less none (some b) = true
time_less (some a) (some b) = ltb a b

unfoldable pub time_same : Option ℕ → Option ℕ → Bool
time_same none none = true
time_same (some a) (some b) = a == b
time_same _ _ = false

unfoldable pub rank_less : Rank → Rank → Bool
rank_less (t, x) (u, y) = time_less t u || (time_same t u && text_less x y)

-- Whether more than the time to live has passed, in whole seconds, the time to live read as an `i64`:
-- 2^63 and more are negative then.
unfoldable pub exceeds : ℕ → ℕ → ℕ → Bool
exceeds now acquired ttl =
    if ltb ttl (2 ^ 63)
    then ltb ttl ((now - acquired) / 1000000000)
    else leb acquired now || ltb ((acquired - now) / 1000000000) (2 ^ 64 - ttl)

abbrev stale_since : Option ℕ → Option ℕ → ℕ → Bool
stale_since none ttl now = true
stale_since (some acquired) none now = true
stale_since (some acquired) (some ttl) now = exceeds now acquired ttl

unfoldable pub stale_by : Chrono → Option Text → Text → ℕ → Bool
stale_by chrono none ttl now = true
stale_by chrono (some []) ttl now = true
stale_by chrono (some (c ∷ text)) ttl now =
    stale_since (parse_iso chrono (c ∷ text)) (parse_unsigned ttl) now

unfoldable pub is_stale : Chrono → Fields → ℕ → Bool
is_stale chrono fields now =
    stale_by chrono (get_field "acquired_at" fields)
      (text_or (print default_ttl) (get_field "ttl_seconds" fields)) now

abbrev labelled : List (String × Option Text) → Fields
labelled [] = []
labelled ((label, value) ∷ fields) =
    if str_eq label "" then labelled fields else (label, text_or [] value) ∷ labelled fields

abbrev lock_of : Chrono → Item → Lock
lock_of chrono item = record {
  id = item.id;
  created = chrono.parse_from_rfc3339 item.created_at;
  fields = labelled item.fields;
}

abbrev found_lock : Chrono → Result OpError Item → Result OpcaError (List Lock)
found_lock chrono (ok item) = ok (lock_of chrono item ∷ [])
found_lock chrono (err (item_not_found title)) = ok []
found_lock chrono (err e) = err (op e)

-- The lock, or none once another holder has deleted it.
unfoldable pub read_lock : Chrono → (v : LockVault) → Text → v.World → Result OpcaError (List Lock)
read_lock chrono v id w = found_lock chrono (v.item id w)

abbrev deleted : {W : Type 0} → Result OpError (Unit {0}) × W → Result OpcaError (Unit {0}) × W
deleted (ok u, w) = (ok tt, w)
deleted (err (item_not_found title), w) = (ok tt, w)
deleted (err e, w) = (err (op e), w)

unfoldable pub delete_lock :
    (v : LockVault) → Text → v.World → Result OpcaError (Unit {0}) × v.World
delete_lock v id w = deleted (v.delete_item_permanently id w)
