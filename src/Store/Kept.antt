-- ===== src/Store/Kept.antt =====
-- What is read of acme.db and stays true whatever calls but a restore are made after it.
use op_ca.Prelude.{
  ℕ, ◌≡◌, refl, ap, String, Bool, some, List, [], ◌∷◌, arith, Bool-cases, inl, inr, find, ◌==◌,
  str_eq,
}
use op_ca.Store.Tables.{OrderRow, AuthorisationRow, Challenge, Certificate, Db}
use op_ca.Store.Lifecycle.{
  Lifecycle, accounts_table, orders_table, authorisations_table, challenges_table, row_of,
}
use op_ca.Store.Lifecycles.{Extends, Rising, keys, Advance, same_key}
use op_ca.Store.Certificates.{certificate_by_serial}
use op_ca.Store.Calls.{Call, run}
use op_ca.Store.Progress.{Stands}
use op_ca.Store.Progress.Run.{run-Advances}

-- The rows stand in the order of their ids.
pub record Sorted (d : Db) : Type 0 where
  pub accounts : Rising (keys accounts_table d.accounts)
  pub orders : Rising (keys orders_table d.orders)
  pub authorisations : Rising (keys authorisations_table d.authorisations)
  pub challenges : Rising (keys challenges_table d.challenges)

pub run-Sorted : (d : Db) (calls : List Call) → Sorted d → Sorted (run d calls)
run-Sorted d calls s =
    let moved = run-Advances d calls in
    record {
      accounts = (moved.accounts.advance s.accounts).0;
      orders = (moved.orders.advance s.orders).0;
      authorisations = (moved.authorisations.advance s.authorisations).0;
      challenges = (moved.challenges.advance s.challenges).0;
    }

-- The first row that passes a test, where related rows pass it alike.
find-Extends :
    {Row : Type 0} (R : Row → Row → Type 0) (p : Row → Bool)
    → ((x y : Row) → R x y → p x ≡ p y)
    → (xs ys : List Row) (r : Row) → Extends R xs ys
    → find p xs ≡ some r
    → (s : Row) × (find p ys ≡ some s) × R r s
find-Extends R p same [] ys r h e = absurd (cc e)
find-Extends R p same (x ∷ xs) [] r h e = absurd h
find-Extends R p same (x ∷ xs) (y ∷ ys) r h e = elim (Bool-cases (p x)) [
  | inl hit ↦
      let found : x ≡ r = ground arith in (y, rw (← same x y h.0, hit) refl, rw (← found) h.0)
  | inr miss ↦
      let (s, f, q) = find-Extends R p same xs ys r h.1 (ground arith) in
      (s, rw (← same x y h.0, miss) f, q)
]

module _ {S Row : Type 0} (l : Lifecycle S Row) where
  pub row_of-Advance :
      (i : ℕ) (r : Row) (d d' : Db)
      → Advance l (l.rows d) (l.rows d')
      → Rising (keys l (l.rows d))
      → row_of l i d ≡ some r
      → (s : Row) × (row_of l i d' ≡ some s) × (l.fixed r ≡ l.fixed s)
  unfolding row_of
  row_of-Advance i r d d' a sorted e =
      let (s, f, m) =
        find-Extends _ (λ x. l.key x == i) (λ x y m. ap (λ k. k == i) (same_key l x y m.0)) _ _ r
          (a.advance sorted).1 e in
      (s, f, m.0)

module _ (d : Db) (calls : List Call) where
  pub order-run :
      (i : ℕ) (r : OrderRow)
      → Sorted d
      → row_of orders_table i d ≡ some r
      → (s : OrderRow) × (row_of orders_table i (run d calls) ≡ some s)
        × (orders_table.fixed r ≡ orders_table.fixed s)
  order-run i r s e =
      row_of-Advance orders_table i r d (run d calls) (run-Advances d calls).orders s.orders e

  pub authorisation-run :
      (i : ℕ) (r : AuthorisationRow)
      → Sorted d
      → row_of authorisations_table i d ≡ some r
      → (s : AuthorisationRow) × (row_of authorisations_table i (run d calls) ≡ some s)
        × (authorisations_table.fixed r ≡ authorisations_table.fixed s)
  authorisation-run i r s e =
      row_of-Advance authorisations_table i r d (run d calls) (run-Advances d calls).authorisations
        s.authorisations e

  pub challenge-run :
      (i : ℕ) (r : Challenge)
      → Sorted d
      → row_of challenges_table i d ≡ some r
      → (s : Challenge) × (row_of challenges_table i (run d calls) ≡ some s)
        × (challenges_table.fixed r ≡ challenges_table.fixed s)
  challenge-run i r s e =
      row_of-Advance challenges_table i r d (run d calls) (run-Advances d calls).challenges
        s.challenges e

  pub certificate_by_serial-run :
      (serial : String) (r : Certificate)
      → certificate_by_serial serial d ≡ some r
      → (s : Certificate) × (certificate_by_serial serial (run d calls) ≡ some s) × Stands r s
  unfolding certificate_by_serial
  certificate_by_serial-run serial r e =
      find-Extends Stands (λ c. str_eq c.serial serial)
        (λ x y m. ap (λ c. str_eq c.serial serial) m.0) _ _ r (run-Advances d calls).certificates e
