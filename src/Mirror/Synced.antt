-- ===== src/Mirror/Synced.antt =====
-- After a sync the table holds the broker's certificates as they are at the broker.
use op_ca.Prelude.{
  ℕ, ◌^◌, ◌≡◌, ◌≤◌, ◌<◌, refl, ap, ◌∙◌, String, Bool, true, false, ◌&&◌, ◌||◌, Option, some, List,
  [], ◌∷◌, ok, bind, arith, All, All-map, All-both, All-three, any, filter, map, length, ltb, ◌==◌,
  eq_refl, Bool-cases, inl, inr, lt→ltb,
}
use op_ca.Store.Tables.{Certificate, Db}
use op_ca.Store.Certificates.{issued_by, insert_by_change, order_by_change}
use op_ca.Sync.{issued}
use op_ca.Sync.Sorting.{Distinct, All-filter, All-order}
use op_ca.Sync.Complete.{waiting, waiting-past, issued_since-waiting}
use op_ca.Mirror.{
  BrokerCert, row, broker_cert, broker_certs, record_broker_certs, broker_cursor, record_issued,
  try_sync_issued, recorded,
}
use op_ca.Mirror.Rows.{lookup, has_serial, lookup-unrecorded, lookup-recorded, lookup-le-cursor}

-- The row but for its change, which a revocation through opCA keeps low.
abbrev pub but_change : BrokerCert → BrokerCert
but_change r = record r { changed = 0 }

-- The certificate's row is there.
abbrev pub Copies : ℕ → List BrokerCert → Certificate → Type 0
Copies id rows c =
    (r : BrokerCert) × (lookup id c.serial rows ≡ some r) × (but_change r ≡ but_change (row id c))

-- What the broker changed up to the cursor is in the table.
abbrev pub InSync : ℕ → Option (List String) → Db → List BrokerCert → Type 0
InSync id issuers d rows =
    All (λ c. issued_by issuers c ≡ true → c.changed ≤ broker_cursor id rows → Copies id rows c)
      d.certificates

-- No serial stands for two certificates.
abbrev pub Keyed : List Certificate → Type 0
Keyed cs = All (λ c. All (λ k. has_serial c.serial k ≡ true → k ≡ c) cs) cs

broker_certs_lem :
    (id : ℕ) (cs : List Certificate)
    → All (λ c. c.changed < 2 ^ 63) cs
    → broker_certs id cs ≡ ok (map (row id) cs)
unfolding broker_certs broker_cert
broker_certs_lem id [] h = refl
broker_certs_lem id (c ∷ cs) h = rw (lt→ltb c.changed (2 ^ 63) h.0, broker_certs_lem id cs h.1) refl

any-insert :
    (p : Certificate → Bool) (c : Certificate) (xs : List Certificate)
    → any p (insert_by_change c xs) ≡ (p c || any p xs)
unfolding insert_by_change
any-insert p c [] = refl
any-insert p c (x ∷ xs) = ground (arith, any-insert p c xs)

any-order : (p : Certificate → Bool) (xs : List Certificate) → any p (order_by_change xs) ≡ any p xs
unfolding order_by_change
any-order p [] = refl
any-order p (x ∷ xs) = any-insert p x (order_by_change xs) ∙ ap (λ b. p x || b) (any-order p xs)

-- A row that passes the filter is found by its serial.
kept :
    (q : Certificate → Bool) (cs : List Certificate)
    → All (λ c. q c ≡ true → any (has_serial c.serial) (filter q cs) ≡ true) cs
kept q [] = tt
kept q (x ∷ xs) = (
  λ h. rw h (ground (arith, eq_refl x.serial)),
  All-map _ _ (λ c f h. more c (f h)) xs (kept q xs),
)
  where
    more :
        (c : Certificate)
        → any (has_serial c.serial) (filter q xs) ≡ true
        → any (has_serial c.serial) (filter q (x ∷ xs)) ≡ true
    more c e = elim (Bool-cases (q x)) [ inl t ↦ rw t (ground arith) | inr f ↦ rw f e ]

-- Every element is found by its own serial.
found_self : (cs : List Certificate) → All (λ c. any (has_serial c.serial) cs ≡ true) cs
found_self [] = tt
found_self (x ∷ xs) =
    (ground (arith, eq_refl x.serial), All-map _ _ (λ c e. ground arith) xs (found_self xs))

module _ (id : ℕ) (issuers : Option (List String)) (d : Db) (rows : List BrokerCert)
    (keyed : Keyed d.certificates) (in_sync : InSync id issuers d rows) where
  abbrev left : List Certificate
  left = waiting issuers d (broker_cursor id rows)

  abbrev after : List BrokerCert
  after = record_broker_certs (map (row id) left) rows

  -- A certificate that the page brings is found as its row.
  brought :
      (c : Certificate)
      → All (λ k. has_serial c.serial k ≡ true → k ≡ c) d.certificates
      → any (has_serial c.serial) left ≡ true
      → lookup id c.serial after ≡ some (row id c)
  brought c one h =
      lookup-recorded id c left rows (All-order _ _ (All-filter _ _ d.certificates one)) h

  copied :
      (c : Certificate)
      → All (λ k. has_serial c.serial k ≡ true → k ≡ c) d.certificates
      → (issued_by issuers c ≡ true → c.changed ≤ broker_cursor id rows → Copies id rows c)
      → ((ltb (broker_cursor id rows) c.changed && issued_by issuers c) ≡ true
          → any (has_serial c.serial) left ≡ true)
      → issued_by issuers c ≡ true
      → Copies id after c
  copied c one old new by = elim (Bool-cases (any (has_serial c.serial) left)) [
    | inl there ↦ (row id c, brought c one there, refl)
    | inr absent ↦
        let (r, found, same) = old by (ground (arith, new)) in
        (r, lookup-unrecorded id id c.serial left rows (ground arith) ∙ found, same)
  ]

  new_ones :
      All
        (λ c.
          (ltb (broker_cursor id rows) c.changed && issued_by issuers c) ≡ true
          → any (has_serial c.serial) left ≡ true)
        d.certificates
  new_ones =
      All-map _ _
        (λ c f h.
          any-order (has_serial c.serial) (
            filter (λ c. ltb (broker_cursor id rows) c.changed && issued_by issuers c)
              d.certificates)
          ∙ f h)
        d.certificates
        (kept (λ c. ltb (broker_cursor id rows) c.changed && issued_by issuers c) d.certificates)

  not_past :
      (c : Certificate)
      → All (λ k. has_serial c.serial k ≡ true → k ≡ c) d.certificates
      → any (has_serial c.serial) left ≡ true
      → c.changed ≤ broker_cursor id after
  not_past c one h = lookup-le-cursor id c.serial after (row id c) (brought c one h)

  -- The cursor does not go back.
  cursor_mono :
      All (λ c. broker_cursor id rows < c.changed) left
      → broker_cursor id rows ≤ broker_cursor id after
  cursor_mono past = by left refl past (
      All-both _ _ _ (λ c one h. not_past c one h) left
        (All-order _ _ (All-filter _ _ d.certificates keyed)) (found_self left))
    where
      by :
          (ws : List Certificate)
          → left ≡ ws
          → All (λ c. broker_cursor id rows < c.changed) ws
          → All (λ c. c.changed ≤ broker_cursor id after) ws
          → broker_cursor id rows ≤ broker_cursor id after
      by [] e p q = rw e (unfold record_broker_certs in omega arith)
      by (c ∷ cs) e p q = omega arith

  mirrored :
      All (λ c. broker_cursor id rows < c.changed) left
      → All
          (λ c.
            issued_by issuers c ≡ true → Copies id after c × (c.changed ≤ broker_cursor id after))
          d.certificates
  mirrored past =
      All-three _ _ _ _ (λ c one old new by. (copied c one old new by, low c one new by))
        d.certificates keyed in_sync new_ones
    where
      low :
          (c : Certificate)
          → All (λ k. has_serial c.serial k ≡ true → k ≡ c) d.certificates
          → ((ltb (broker_cursor id rows) c.changed && issued_by issuers c) ≡ true
              → any (has_serial c.serial) left ≡ true)
          → issued_by issuers c ≡ true
          → c.changed ≤ broker_cursor id after
      low c one new by = elim (Bool-cases (ltb (broker_cursor id rows) c.changed)) [
        | inl beyond ↦ not_past c one (new (ground arith))
        | inr below ↦ let far = cursor_mono past in ground arith
      ]

-- The table is the broker's: where no two of the broker's certificates share a change or a serial, and
-- all that it changed up to the cursor is in the table, a sync with fuel for the pages succeeds. After
-- it every certificate of the asked issuers is in the table as the broker has it, none waits past the
-- cursor, and what other brokers issued is as it was.
pub try_sync_issued-Copies :
    (id : ℕ) (issuers : Option (List String)) (limit fuel : ℕ) (d : Db) (rows : List BrokerCert)
    → Distinct d.certificates
    → Keyed d.certificates
    → All (λ c. c.changed < 2 ^ 63) d.certificates
    → 0 < limit
    → broker_cursor id rows < 2 ^ 63
    → length (waiting issuers d (broker_cursor id rows)) < fuel
    → InSync id issuers d rows
    → (after : List BrokerCert) × (try_sync_issued (λ a. issued issuers limit a d) fuel id rows
        ≡ some (ok after))
      × All
          (λ c.
            issued_by issuers c ≡ true → Copies id after c × (c.changed ≤ broker_cursor id after))
          d.certificates
      × ((other : ℕ) (serial : String)
          → (id == other) ≡ false
          → lookup other serial after ≡ lookup other serial rows)
unfolding try_sync_issued record_issued
try_sync_issued-Copies id issuers limit fuel d rows distinct keyed small p low enough in_sync =
    let left = waiting issuers d (broker_cursor id rows) in
    (
      record_broker_certs (map (row id) left) rows,
      ap (recorded id rows) (
            issued_since-waiting issuers limit d fuel (broker_cursor id rows) distinct small p low
              enough)
          ∙ ap (λ r. some (bind r (λ certs. ok (record_broker_certs certs rows))))
              (broker_certs_lem id left (All-order _ _ (All-filter _ _ d.certificates small))),
      mirrored id issuers d rows keyed in_sync
          (waiting-past issuers limit d distinct (broker_cursor id rows)),
      λ other serial e. lookup-unrecorded id other serial left rows (ground arith),
    )
