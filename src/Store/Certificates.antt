-- ===== src/Store/Certificates.antt =====
-- The certificates of acme/store.rs: recording, revoking, the CRL number, and the pages and counts
-- that are read of them.
use op_ca.Prelude.{
  Text, ℕ, suc, ◌+◌, String, Bool, true, false, not, ◌&&◌, ◌||◌, Option, none, some, List, [], ◌∷◌,
  ◌++◌, map, any, filter, find, length, take, update_where, ◌==◌, str_eq, leb, ltb, max, ◌^◌, ◌-◌,
  if◌then◌else◌,
}
use mathlib.Core.List.{reverse}
use op_ca.Store.Status.{OrderStatus}
use op_ca.Store.Moves.{same_order}
use op_ca.Store.Tables.{
  OrderRow, Certificate, Db, refused, unique, check, row_not_found, not_found, already_revoked,
  by_serial, panicked, Tx, ◌>>=◌, ◌>>◌, pure, fail, read, write, found_or, greatest,
}
use op_ca.Store.Lifecycle.{orders_table, row_of, read_status, transition}

pub record NewCertificate : Type 0 where
  pub serial : String
  pub common_name : Option Text
  pub sans : List Text
  pub not_before : ℕ
  pub not_after : ℕ
  pub chain_pem : String
  pub issuer_serial : String

pub record Changes : Type 0 where
  pub certificates : List Certificate
  pub more : Bool

pub record IssuedCounts : Type 0 where
  pub total : ℕ
  pub revoked : ℕ

abbrev pub changes : List Certificate → List ℕ
changes = map λ c. c.changed

-- NEXT_CHANGE
unfoldable pub next_change : Db → ℕ
next_change d = greatest (changes d.certificates) + 1

-- AUTOINCREMENT: above every id that the table ever had.
unfoldable pub next_certificate : Db → ℕ
next_certificate d = suc (max d.sequence (greatest (map (λ c. c.id) d.certificates)))

abbrev pub is_some {ℓ} : {A : Type ℓ} → Option A → Bool
is_some none = false
is_some (some a) = true

-- The row that is inserted for an order, and the AUTOINCREMENT counter after it.
unfoldable pub append_certificate : OrderRow → NewCertificate → ℕ → ℕ → Db → Db
append_certificate o issued now id d = record d {
  certificates = d.certificates ++ row ∷ [];
  sequence = id;
}
  where
    row : Certificate
    row = record {
      id = id;
      serial = issued.serial;
      account = o.account;
      order = o.id;
      common_name = issued.common_name;
      sans = issued.sans;
      not_before = issued.not_before;
      not_after = issued.not_after;
      chain_pem = issued.chain_pem;
      issuer_serial = issued.issuer_serial;
      revoked_at = none;
      revocation_reason = none;
      created = now;
      changed = next_change d;
    }

-- `serial` and `order_id` are UNIQUE.
abbrev pub is_taken : String → ℕ → Certificate → Bool
is_taken serial order c = str_eq c.serial serial || c.order == order

-- The INSERT … SELECT … FROM orders of `record_certificate`.
unfoldable pub insert_certificate : ℕ → NewCertificate → ℕ → Tx ℕ
insert_certificate order issued now = do
  row ← read (row_of orders_table order)
  o ← found_or row (refused row_not_found)
  taken ← read λ d. any (is_taken issued.serial order) d.certificates
  if taken then fail (refused unique) else pure tt
  id ← read next_certificate
  write (append_certificate o issued now id)
  pure id

unfoldable pub name_certificate : ℕ → ℕ → Tx (Unit {0})
name_certificate order id = write λ d. record d {
  orders = update_where (λ o. o.id == order) (λ o. record o { certificate = some id }) d.orders;
}

unfoldable pub certificate : ℕ → Db → Option Certificate
certificate id d = find (λ c. c.id == id) d.certificates

unfoldable pub certificate_by_serial : String → Db → Option Certificate
certificate_by_serial serial d = find (λ c. str_eq c.serial serial) d.certificates

-- A ready order passes through processing on its way to valid.
unfoldable pub begin_processing : ℕ → Tx (Unit {0})
begin_processing order = do
  from ← read_status orders_table order
  if same_order from OrderStatus.ready
      then transition orders_table order OrderStatus.processing
      else pure tt

unfoldable pub record_certificate : ℕ → NewCertificate → ℕ → Tx Certificate
record_certificate order issued now = do
  begin_processing order
  transition orders_table order OrderStatus.valid
  id ← insert_certificate order issued now
  name_certificate order id
  recorded ← read (certificate id)
  found_or recorded panicked

-- CHECK (revocation_reason BETWEEN 0 AND 10 AND revocation_reason <> 7); a NULL passes.
unfoldable pub reason_allowed : Option ℕ → Bool
reason_allowed none = true
reason_allowed (some r) = leb r 10 && not (r == 7)

-- `serial = ? AND revoked_at IS NULL`
abbrev pub is_revocable : String → Certificate → Bool
is_revocable serial c = str_eq c.serial serial && not (is_some c.revoked_at)

-- The UPDATE of `revoke`.
unfoldable pub mark_revoked : String → Option ℕ → ℕ → Db → Db
mark_revoked serial reason now d = record d {
  certificates =
      update_where (is_revocable serial)
        (λ c. record c {
          revoked_at = some now;
          revocation_reason = reason;
          changed = next_change d;
        })
        d.certificates;
}

unfoldable pub revoke : String → Option ℕ → ℕ → Tx Certificate
revoke serial reason now = do
  revoked ← read λ d. any (is_revocable serial) d.certificates
  if revoked && not (reason_allowed reason)
      then fail (refused check)
      else write (mark_revoked serial reason now)
  row ← read (certificate_by_serial serial)
  c ← found_or row (not_found "certificates" (by_serial serial))
  if revoked then pure c else fail (already_revoked serial)

-- ISSUED_BY
unfoldable pub issued_by : Option (List String) → Certificate → Bool
issued_by none c = true
issued_by (some issuers) c = any (λ i. str_eq i c.issuer_serial) issuers

unfoldable pub revoked_unexpired : Option (List String) → ℕ → Db → List Certificate
revoked_unexpired issuers now d =
    filter (λ c. is_some c.revoked_at && (ltb now c.not_after && issued_by issuers c))
      d.certificates

-- The number after the last one, or 1, is kept and comes back.
unfoldable pub take_crl_number : Option ℕ → Tx ℕ
take_crl_number none = do write (λ d. record d { crl_number = some 1 }); pure 1
take_crl_number (some n) = do write (λ d. record d { crl_number = some (n + 1) }); pure (n + 1)

unfoldable pub next_crl_number : Tx ℕ
unfolding take_crl_number
next_crl_number d = take_crl_number d.crl_number d

-- ORDER BY changed
unfoldable pub insert_by_change : Certificate → List Certificate → List Certificate
insert_by_change c [] = c ∷ []
insert_by_change c (x ∷ xs) =
    let rest = insert_by_change c xs in if leb c.changed x.changed then c ∷ x ∷ xs else x ∷ rest

unfoldable pub order_by_change : List Certificate → List Certificate
order_by_change [] = []
order_by_change (c ∷ cs) = insert_by_change c (order_by_change cs)

-- Up to `limit` rows, and whether more wait.
unfoldable pub page : List Certificate → ℕ → Changes
page rows limit =
    let found = take (limit + 1) rows in
    record { certificates = take limit found; more = ltb limit (length found) }

unfoldable pub changed_after : ℕ → Option (List String) → ℕ → Db → Changes
changed_after cursor issuers limit d =
    page
      (order_by_change (filter (λ c. ltb cursor c.changed && issued_by issuers c) d.certificates))
      limit

abbrev wanted : Option Bool → Certificate → Bool
wanted none c = true
wanted (some true) c = is_some c.revoked_at
wanted (some false) c = not (is_some c.revoked_at)

-- `before.unwrap_or(i64::MAX)`
abbrev before_or_last : Option ℕ → ℕ
before_or_last none = 2 ^ 63 - 1
before_or_last (some id) = id

-- ORDER BY id DESC: the rows from the last one back.
unfoldable pub newest : Option ℕ → Option Bool → ℕ → Db → Changes
newest before revoked limit d =
    page
      (filter (λ c. ltb c.id (before_or_last before) && wanted revoked c) (reverse d.certificates))
      limit

unfoldable pub counts : Option (List String) → Db → IssuedCounts
counts issuers d =
    let rows = filter (issued_by issuers) d.certificates in
    record { total = length rows; revoked = length (filter (λ c. is_some c.revoked_at) rows) }
