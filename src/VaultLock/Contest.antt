-- ===== src/VaultLock/Contest.antt =====
-- `acquire`, `contest`, `release` and `held_within_ttl` of crates/opca-core/src/vault_lock.rs.
use op_ca.Prelude.{
  Text, ℕ, suc, ◌-◌, ◌*◌, ltb, String, Bool, true, false, ◌&&◌, Option, none, some, List, [], ◌∷◌,
  ◌++◌, Result, ok, err, all, text_eq, codes, if◌then◌else◌,
}
use op_ca.Decimal.{print}
use op_ca.Vault.{OpError, Created}
use op_ca.VaultLock.{
  Fields, LockVault, Chrono, OpcaError, op, Held, VaultLock, Lock, held_against_us, rank, rank_less,
  is_stale, read_lock, delete_lock,
}

-- Stops at the first error.
abbrev and_then :
    {A B : Type 0} → Result OpcaError A → (A → Result OpcaError B) → Result OpcaError B
and_then (ok a) f = f a
and_then (err e) f = err e

-- The locks of the other items, those apart that are gone.
unfoldable pub read_rivals :
    Chrono → (v : LockVault) → Text → List Text → v.World → Result OpcaError (List Lock)
read_rivals chrono v mine [] w = ok []
read_rivals chrono v mine (id ∷ ids) w =
    let rest = read_rivals chrono v mine ids w in
    if text_eq id mine
    then rest
    else and_then (read_lock chrono v id w) (λ found. and_then rest (λ more. ok (found ++ more)))

abbrev is_created : Option ℕ → Bool
is_created none = false
is_created (some t) = true

unfoldable pub ranks_by_server : Lock → List Lock → Bool
ranks_by_server mine rivals = is_created mine.created && all (λ r. is_created r.created) rivals

-- `sort_by` keeps equals in their order.
unfoldable pub insert_by_rank : Chrono → Bool → Lock → List Lock → List Lock
insert_by_rank chrono by_server x [] = x ∷ []
insert_by_rank chrono by_server x (y ∷ ys) =
    let rest = insert_by_rank chrono by_server x ys in
    if rank_less (rank chrono by_server y) (rank chrono by_server x) then y ∷ rest else x ∷ y ∷ ys

unfoldable pub sort_by_rank : Chrono → Bool → List Lock → List Lock
sort_by_rank chrono by_server [] = []
sort_by_rank chrono by_server (x ∷ xs) =
    insert_by_rank chrono by_server x (sort_by_rank chrono by_server xs)

-- A rival's deletion, and the loop's rest if it succeeded.
abbrev pub broken :
    {W : Type 0}
    → Result OpcaError (Unit {0}) × W
    → (W → Result OpcaError (Unit {0}) × W)
    → Result OpcaError (Unit {0}) × W
broken (ok u, w) rest = rest w
broken (err e, w) rest = (err e, w)

-- The loop over the rivals that rank ahead; the clock's `i`th reading is for the `i`th of them.
unfoldable pub break_ahead :
    Chrono
    → (v : LockVault) → (ℕ → ℕ)
    → Bool
    → Lock
    → ℕ
    → List Lock
    → v.World
    → Result OpcaError (Unit {0}) × v.World
break_ahead chrono v clock by_server mine i [] w = (ok tt, w)
break_ahead chrono v clock by_server mine i (rival ∷ rivals) w =
    let broke =
      broken (delete_lock v rival.id w)
        (break_ahead chrono v clock by_server mine (suc i) rivals) in
    if rank_less (rank chrono by_server rival) (rank chrono by_server mine)
    then (if is_stale chrono rival.fields (clock i)
        then broke
        else (err (held_against_us rival), w))
    else (ok tt, w)

-- `contest` once the rivals are read.
unfoldable pub contest_rivals :
    Chrono
    → (v : LockVault) → (ℕ → ℕ)
    → Lock
    → List Lock
    → v.World
    → Result OpcaError (Unit {0}) × v.World
contest_rivals chrono v clock mine rivals =
    break_ahead chrono v clock (ranks_by_server mine rivals) mine 0
      (sort_by_rank chrono (ranks_by_server mine rivals) rivals)

abbrev contest_found :
    Chrono
    → (v : LockVault) → (ℕ → ℕ)
    → Lock
    → v.World
    → Result OpcaError (List Lock)
    → Result OpcaError (Unit {0}) × v.World
contest_found chrono v clock mine w (err e) = (err e, w)
contest_found chrono v clock mine w (ok rivals) = contest_rivals chrono v clock mine rivals w

abbrev listed :
    Chrono
    → (v : LockVault) → Lock
    → v.World
    → Result OpError (List Text)
    → Result OpcaError (List Lock)
listed chrono v mine w (err e) = err (op e)
listed chrono v mine w (ok ids) = read_rivals chrono v mine.id ids w

unfoldable pub contest :
    Chrono
    → (v : LockVault) → (ℕ → ℕ)
    → String
    → Lock
    → v.World
    → Result OpcaError (Unit {0}) × v.World
contest chrono v clock lock_title mine w =
    contest_found chrono v clock mine w (listed chrono v mine w (v.items_titled lock_title w))

abbrev known : Text → Text
known [] = codes "unknown"
known (c ∷ text) = c ∷ text

abbrev known_user : Result OpError (Text × Text) → Text × Text
known_user (ok (email, name)) = (known email, known name)
known_user (err e) = (codes "unknown", codes "unknown")

unfoldable pub current_user : (v : LockVault) → v.World → Text × Text
current_user v w = known_user (v.current_user w)

-- What an acquirer brings: its host, the times of the stamp and of the grant, and its clock.
pub record Acquirer : Type 0 where
  pub hostname : Text
  pub stamped : ℕ
  pub clock : ℕ → ℕ
  pub instant : ℕ

unfoldable pub lock_fields : Chrono → Acquirer → Text × Text → Text → ℕ → Fields
lock_fields chrono a user operation ttl =
    ("holder_email", user.0)
    ∷ ("holder_name", user.1)
    ∷ ("acquired_at", chrono.format_iso a.stamped)
    ∷ ("operation", operation)
    ∷ ("hostname", a.hostname)
    ∷ ("ttl_seconds", print ttl)
    ∷ []

-- The contest's outcome: the lock held, or the acquirer's own copy deleted, whatever becomes of that.
abbrev pub settled :
    (v : LockVault)
    → VaultLock
    → Held
    → Result OpcaError (Unit {0}) × v.World
    → Result OpcaError (Unit {0}) × VaultLock × v.World
settled v lock won (ok u, w) = (ok tt, record lock { held = some won }, w)
settled v lock won (err e, w) = (err e, lock, (delete_lock v won.id w).1)

abbrev pub contested :
    Chrono
    → (v : LockVault) → Acquirer
    → VaultLock
    → Fields
    → ℕ
    → Result OpError Created × v.World
    → Result OpcaError (Unit {0}) × VaultLock × v.World
contested chrono v a lock fields ttl (err e, w) = (err (op e), lock, w)
contested chrono v a lock fields ttl (ok created, w) =
    settled v lock (record { id = created.id; acquired = a.instant; ttl = ttl })
      (contest chrono v a.clock lock.lock_title
        (record {
          id = created.id;
          created = chrono.parse_from_rfc3339 created.created_at;
          fields = fields;
        })
        w)

unfoldable pub acquire :
    Chrono
    → (v : LockVault) → Acquirer
    → Text
    → ℕ
    → VaultLock
    → v.World
    → Result OpcaError (Unit {0}) × VaultLock × v.World
acquire chrono v a operation ttl lock w =
    let fields = lock_fields chrono a (current_user v w) operation ttl in
    contested chrono v a lock fields ttl (v.create_item lock.lock_title "Secure Note" fields w)

abbrev released :
    (v : LockVault)
    → VaultLock
    → Result OpcaError (Unit {0}) × v.World
    → Result OpcaError (Unit {0}) × VaultLock × v.World
released v lock (ok u, w) = (ok tt, record lock { held = none }, w)
released v lock (err e, w) = (err e, lock, w)

abbrev release_held :
    (v : LockVault)
    → VaultLock
    → Option Held
    → v.World
    → Result OpcaError (Unit {0}) × VaultLock × v.World
release_held v lock none w = (ok tt, lock, w)
release_held v lock (some held) w = released v lock (delete_lock v held.id w)

unfoldable pub release :
    (v : LockVault) → VaultLock → v.World → Result OpcaError (Unit {0}) × VaultLock × v.World
release v lock w = release_held v lock lock.held w

abbrev within_ttl : ℕ → Option Held → Bool
within_ttl instant none = false
within_ttl instant (some held) = ltb (instant - held.acquired) (held.ttl * 1000000000)

unfoldable pub held_within_ttl : ℕ → VaultLock → Bool
held_within_ttl instant lock = within_ttl instant lock.held
