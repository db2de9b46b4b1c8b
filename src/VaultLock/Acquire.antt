-- ===== src/VaultLock/Acquire.antt =====
-- What an acquirer is left with.
use op_ca.Prelude.{
  Text, ℕ, ◌-◌, ◌*◌, ◌≡◌, refl, true, false, some, Result, ok, err, is_ok, ltb, ◌⊎◌, inl, inr,
}
use op_ca.Vault.{OpError, Created}
use op_ca.VaultLock.{Fields, LockVault, Chrono, OpcaError, VaultLock, Lock}
use op_ca.VaultLock.Contest.{
  Acquirer, lock_fields, current_user, contest, settled, contested, acquire, held_within_ttl,
}

-- The lock of an item that was made with the fields.
abbrev pub made_lock : Chrono → Created → Fields → Lock
made_lock chrono created fields = record {
  id = created.id;
  created = chrono.parse_from_rfc3339 created.created_at;
  fields = fields;
}

abbrev pub fields_of : Chrono → (v : LockVault) → Acquirer → Text → ℕ → v.World → Fields
fields_of chrono v a operation ttl w = lock_fields chrono a (current_user v w) operation ttl

-- An `acquire` that succeeds.
pub record Won (chrono : Chrono) (v : LockVault) (a : Acquirer) (operation : Text) (ttl : ℕ)
    (lock : VaultLock) (w : v.World) (lock' : VaultLock) (w' : v.World) : Type 0 where
  pub created : Created
  pub made : v.World
  pub creates :
      v.create_item lock.lock_title "Secure Note" (fields_of chrono v a operation ttl w) w
      ≡ (ok created, made)
  pub wins :
      contest chrono v a.clock lock.lock_title
        (made_lock chrono created (fields_of chrono v a operation ttl w))
        made
      ≡ (ok tt, w')
  pub holds :
      lock'
      ≡ record lock { held = some (record { id = created.id; acquired = a.instant; ttl = ttl }) }
  pub in_time :
      (instant : ℕ) → held_within_ttl instant lock' ≡ ltb (instant - a.instant) (ttl * 1000000000)

unfoldable pub Outcome :
    (chrono : Chrono) (v : LockVault) (a : Acquirer) (operation : Text) (ttl : ℕ)
    → VaultLock
    → v.World
    → Result OpcaError (Unit {0}) × VaultLock × v.World
    → Type 0
Outcome chrono v a operation ttl lock w (r, lock', w') =
    ((is_ok r ≡ true) × Won chrono v a operation ttl lock w lock' w')
    ⊎ ((is_ok r ≡ false) × (lock' ≡ lock))

settled-Outcome :
    (chrono : Chrono) (v : LockVault) (a : Acquirer) (operation : Text) (ttl : ℕ) (lock : VaultLock)
    (w made : v.World) (created : Created)
    → v.create_item lock.lock_title "Secure Note" (fields_of chrono v a operation ttl w) w
      ≡ (ok created, made)
    → (r : Result OpcaError (Unit {0}) × v.World)
    → contest chrono v a.clock lock.lock_title
        (made_lock chrono created (fields_of chrono v a operation ttl w))
        made
      ≡ r
    → Outcome chrono v a operation ttl lock w
        (settled v lock (record { id = created.id; acquired = a.instant; ttl = ttl }) r)
unfolding Outcome held_within_ttl
settled-Outcome chrono v a operation ttl lock w made created creates (ok u, w') wins = inl (
  refl,
  record {
    created = created;
    made = made;
    creates = creates;
    wins = wins;
    holds = refl;
    in_time = λ instant. refl;
  },
)
settled-Outcome chrono v a operation ttl lock w made created creates (err e, w') wins =
    inr (refl, refl)

-- An `acquire` succeeds only by making an item of its own and winning the contest for it, and holds
-- that item then, within its time to live for as long as that is; one that fails leaves the lock's
-- state as it was, an earlier hold included.
pub acquire-Outcome :
    (chrono : Chrono) (v : LockVault) (a : Acquirer) (operation : Text) (ttl : ℕ) (lock : VaultLock)
    (w : v.World)
    → Outcome chrono v a operation ttl lock w (acquire chrono v a operation ttl lock w)
unfolding acquire
acquire-Outcome chrono v a operation ttl lock w =
    outcome (v.create_item lock.lock_title "Secure Note" (fields_of chrono v a operation ttl w) w)
      refl
  where
    outcome :
        (c : Result OpError Created × v.World)
        → v.create_item lock.lock_title "Secure Note" (fields_of chrono v a operation ttl w) w ≡ c
        → Outcome chrono v a operation ttl lock w
            (contested chrono v a lock (fields_of chrono v a operation ttl w) ttl c)
    outcome (ok created, made) creates =
        settled-Outcome chrono v a operation ttl lock w made created creates _ refl
    outcome (err e, made) creates = unfold Outcome in inr (refl, refl)
