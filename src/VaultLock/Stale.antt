-- ===== src/VaultLock/Stale.antt =====
-- When the lock of an acquirer goes stale for the others.
use op_ca.Prelude.{
  Text, ℕ, ◌+◌, ◌*◌, ◌^◌, ◌≤◌, ◌<◌, ◌≡◌, ◌≢◌, ◌↔◌, refl, true, some, [], ◌∷◌, arith,
}
use op_ca.Decimal.{print}
use op_ca.Decimal.RoundTrip.{parse-print}
use op_ca.VaultLock.{Chrono, get_field, parse_iso, exceeds, stale_by, is_stale}
use op_ca.VaultLock.Contest.{Acquirer, lock_fields}

stale_by-exceeds :
    (chrono : Chrono) (stamp : Text) (at ttl now : ℕ)
    → stamp ≢ []
    → parse_iso chrono stamp ≡ some at
    → ttl < 2 ^ 64
    → stale_by chrono (some stamp) (print ttl) now ≡ exceeds now at ttl
unfolding stale_by
stale_by-exceeds chrono [] at ttl now n p l = absurd (n refl)
stale_by-exceeds chrono (c ∷ stamp) at ttl now n p l = ground (arith, p, parse-print ttl l)

is_stale-exceeds :
    (chrono : Chrono) (a : Acquirer) (user : Text × Text) (operation : Text) (at ttl now : ℕ)
    → chrono.format_iso a.stamped ≢ []
    → parse_iso chrono (chrono.format_iso a.stamped) ≡ some at
    → ttl < 2 ^ 64
    → is_stale chrono (lock_fields chrono a user operation ttl) now ≡ exceeds now at ttl
unfolding is_stale lock_fields get_field
is_stale-exceeds chrono a user operation at ttl now n p l =
    stale_by-exceeds chrono (chrono.format_iso a.stamped) at ttl now n p l

-- A lock that was acquired with a time to live below 2^63 seconds, and whose stamp is read back as
-- `at`, is stale exactly when more whole seconds than the time to live have passed since.
pub is_stale-acquired :
    (chrono : Chrono) (a : Acquirer) (user : Text × Text) (operation : Text) (at ttl now : ℕ)
    → chrono.format_iso a.stamped ≢ []
    → parse_iso chrono (chrono.format_iso a.stamped) ≡ some at
    → ttl < 2 ^ 63
    → (is_stale chrono (lock_fields chrono a user operation ttl) now ≡ true)
      ↔ (at + (ttl + 1) * 1000000000 ≤ now)
unfolding exceeds
is_stale-acquired chrono a user operation at ttl now n p l =
    let e = is_stale-exceeds chrono a user operation at ttl now n p (omega arith) in
    rw e (ground arith)

-- A lock that was acquired with a time to live of 2^63 seconds or more is stale from its stamp on.
pub is_stale-wraps :
    (chrono : Chrono) (a : Acquirer) (user : Text × Text) (operation : Text) (at ttl now : ℕ)
    → chrono.format_iso a.stamped ≢ []
    → parse_iso chrono (chrono.format_iso a.stamped) ≡ some at
    → 2 ^ 63 ≤ ttl
    → ttl < 2 ^ 64
    → at ≤ now
    → is_stale chrono (lock_fields chrono a user operation ttl) now ≡ true
unfolding exceeds
is_stale-wraps chrono a user operation at ttl now n p g l le =
    let e = is_stale-exceeds chrono a user operation at ttl now n p l in rw e (ground arith)
