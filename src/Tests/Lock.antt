-- ===== src/Tests/Lock.antt =====
-- The theorems of the lock at concrete locks, times and vaults.
use op_ca.Prelude.{
  Text, ℕ, ◌+◌, ◌*◌, ◌/◌, ◌^◌, ◌≤◌, ◌≡◌, ◌≢◌, ◌↔◌, ◌⊎◌, inl, refl, true, false, Option, none, some,
  List, [], ◌∷◌, ◌++◌, map, ok, err, is_ok, length, find, filter, not, text_eq, codes, arith,
}
use op_ca.Decimal.{print, digits, parse_unsigned, read_digits}
use op_ca.Vault.{item_not_found}
use op_ca.VaultLock.{
  Item, LockVault, Chrono, Lock, Fields, is_stale, stale_by, get_field, parse_iso, trim_end_z,
  exceeds,
}
use op_ca.VaultLock.Contest.{Acquirer, lock_fields, contest_rivals, ranks_by_server, acquire}
use op_ca.VaultLock.Exclusion.{contest_rivals-exclusive}
use op_ca.VaultLock.Stale.{is_stale-acquired, is_stale-wraps}
use op_ca.VaultLock.Acquire.{Outcome, acquire-Outcome}

abbrev seconds : Option ℕ → Option ℕ
seconds none = none
seconds (some n) = some (n * 1000000000)

-- Times are written as their seconds.
abbrev chrono : Chrono
chrono = record {
  parse_from_rfc3339 = λ text. seconds (parse_unsigned text);
  parse_naive = λ text. seconds (parse_unsigned text);
  format_iso = λ at. print (at / 1000000000) ++ codes "Z";
}

abbrev created : Text × Item → Text
created (id, item) = id

-- The items by their ids.
abbrev vault : LockVault
vault = record {
  World = List (Text × Item);
  current_user = λ w. ok (codes "a@b", codes "A");
  create_item = λ title category fields w. (
    ok (record { id = length w ∷ []; created_at = codes "5" }),
    (
      length w ∷ [],
      record {
        id = length w ∷ [];
        created_at = codes "5";
        fields = map (λ f. (f.0, some f.1)) fields;
      },
    )
        ∷ w,
  );
  items_titled = λ title w. ok (map created w);
  item = λ id w. elim (find (λ i. text_eq i.0 id) w) [
    | none ↦ err (item_not_found "lock")
    | some i ↦ ok i.1
  ];
  delete_item_permanently = λ id w. (ok tt, filter (λ i. not (text_eq i.0 id)) w);
}

abbrev acquirer : Acquirer
acquirer = record {
  hostname = codes "host";
  stamped = 5000000000;
  clock = λ i. 6000000000;
  instant = 7;
}

acquire-Outcome_example :
    Outcome chrono vault acquirer
      (codes "op")
      300
      (record { lock_title = "CA_Lock"; held = none })
      []
      (acquire chrono vault acquirer
        (codes "op")
        300
        (record { lock_title = "CA_Lock"; held = none })
        [])
acquire-Outcome_example =
    acquire-Outcome chrono vault acquirer (codes "op") 300
      (record { lock_title = "CA_Lock"; held = none }) []

abbrev fields : Fields
fields = ("acquired_at", codes "5Z") ∷ ("ttl_seconds", codes "300") ∷ []

abbrev lock : ℕ → Lock
lock id = record { id = id ∷ []; created = some id; fields = fields }

live : is_stale chrono fields 6000000000 ≡ false
unfolding is_stale stale_by get_field parse_iso trim_end_z parse_unsigned read_digits exceeds
live = refl

by_server : ranks_by_server (lock 1) (lock 2 ∷ []) ≡ ranks_by_server (lock 2) (lock 1 ∷ [])
unfolding ranks_by_server
by_server = refl

contest_rivals-exclusive_example :
    (is_ok (contest_rivals chrono vault (λ t. 6000000000) (lock 1) (lock 2 ∷ []) []).0 ≡ false)
    ⊎ (is_ok (contest_rivals chrono vault (λ t. 6000000000) (lock 2) (lock 1 ∷ []) []).0 ≡ false)
contest_rivals-exclusive_example =
    contest_rivals-exclusive chrono vault (λ t. 6000000000) (λ t. 6000000000) (lock 1) (lock 2)
      (lock 2 ∷ []) (lock 1 ∷ []) [] [] (λ e. absurd (ground arith)) (inl refl) (inl refl) by_server
      (λ t. live) (λ t. live)

stamp : chrono.format_iso acquirer.stamped ≢ []
unfolding print digits
stamp e = absurd (cc e)

read_back : parse_iso chrono (chrono.format_iso acquirer.stamped) ≡ some 5000000000
unfolding print digits parse_iso trim_end_z parse_unsigned read_digits
read_back = refl

is_stale-acquired_example :
    (is_stale chrono
        (lock_fields chrono acquirer (codes "a@b", codes "A") (codes "op") 300)
        305999999999
      ≡ true)
    ↔ (5000000000 + (300 + 1) * 1000000000 ≤ 305999999999)
is_stale-acquired_example =
    is_stale-acquired chrono acquirer (codes "a@b", codes "A") (codes "op") 5000000000 300
      305999999999 stamp read_back (omega arith)

is_stale-wraps_example :
    is_stale chrono
      (lock_fields chrono acquirer (codes "a@b", codes "A") (codes "op") (2 ^ 63))
      5000000000
    ≡ true
is_stale-wraps_example =
    is_stale-wraps chrono acquirer (codes "a@b", codes "A") (codes "op") 5000000000 (2 ^ 63)
      5000000000 stamp read_back (omega arith) (omega arith) (omega arith)
