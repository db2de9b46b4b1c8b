-- ===== src/Server/Owned.antt =====
-- Whose the rows of acme.db are, which no later call changes.
use op_ca.Prelude.{filter, ◌==◌, ℕ, ◌≡◌, sym, ap, ◌∙◌, some, List, arith, Option-cases, inl, inr}
use op_ca.Store.Tables.{OrderRow, AuthorisationRow, Challenge, Db}
use op_ca.Store.Lifecycle.{orders_table, authorisations_table, challenges_table, row_of}
use op_ca.Store.Orders.{Authorisation, order, authorisation}
use op_ca.Store.Calls.{Call, run}
use op_ca.Store.Kept.{Sorted, run-Sorted, order-run, authorisation-run, challenge-run}

-- The order `id`, as it was once read: since then only its status, error and certificate changed.
pub record OrderIs (id : ℕ) (row : OrderRow) (d : Db) : Type 0 where
  pub sorted : Sorted d
  pub current : OrderRow
  pub found : row_of orders_table id d ≡ some current
  pub same : orders_table.fixed row ≡ orders_table.fixed current

pub OrderIs-run :
    (id : ℕ) (row : OrderRow) (d : Db) (calls : List Call)
    → OrderIs id row d
    → OrderIs id row (run d calls)
OrderIs-run id row d calls o =
    let (next, found, same) = order-run d calls id o.current o.sorted o.found in
    record {
      sorted = run-Sorted d calls o.sorted;
      current = next;
      found = found;
      same = o.same ∙ same;
    }

-- The account with that id placed the order.
abbrev pub OwnsOrder : ℕ → ℕ → Db → Type 0
OwnsOrder account id d =
    (o : OrderRow) × (row_of orders_table id d ≡ some o) × (o.account ≡ account)

abbrev pub OwnsAuthorisation : ℕ → ℕ → Db → Type 0
OwnsAuthorisation account id d =
    (a : AuthorisationRow) × (row_of authorisations_table id d ≡ some a)
    × OwnsOrder account a.order d

abbrev pub OwnsChallenge : ℕ → ℕ → Db → Type 0
OwnsChallenge account id d =
    (c : Challenge) × (row_of challenges_table id d ≡ some c)
    × OwnsAuthorisation account c.authorisation d

pub OwnsOrder-run :
    (account id : ℕ) (d : Db) (calls : List Call)
    → Sorted d
    → OwnsOrder account id d
    → OwnsOrder account id (run d calls)
OwnsOrder-run account id d calls s (o, found, owner) =
    let (next, found', same) = order-run d calls id o s found in
    (next, found', sym (ap (λ r. r.account) same) ∙ owner)

pub OwnsAuthorisation-run :
    (account id : ℕ) (d : Db) (calls : List Call)
    → Sorted d
    → OwnsAuthorisation account id d
    → OwnsAuthorisation account id (run d calls)
OwnsAuthorisation-run account id d calls s (a, found, order) =
    let (next, found', same) = authorisation-run d calls id a s found in
    let there = OwnsOrder-run account a.order d calls s order in
    let moved : a.order ≡ next.order = ap (λ r. r.order) same in (next, found', rw (← moved) there)

pub OwnsChallenge-run :
    (account id : ℕ) (d : Db) (calls : List Call)
    → Sorted d
    → OwnsChallenge account id d
    → OwnsChallenge account id (run d calls)
OwnsChallenge-run account id d calls s (c, found, authorisation) =
    let (next, found', same) = challenge-run d calls id c s found in
    let there = OwnsAuthorisation-run account c.authorisation d calls s authorisation in
    let moved : c.authorisation ≡ next.authorisation = ap (λ r. r.authorisation) same in
    (next, found', rw (← moved) there)

-- A fact together with the order of the tables, under which it stays.
abbrev pub AtRest : (Db → Type 0) → Db → Type 0
AtRest F d = Sorted d × F d

pub AtRest-run :
    (F : Db → Type 0)
    → ((d : Db) (cs : List Call) → Sorted d → F d → F (run d cs))
    → (d : Db) (calls : List Call) → AtRest F d
    → AtRest F (run d calls)
AtRest-run F keep d calls (s, f) = (run-Sorted d calls s, keep d calls s f)

-- What `authorisation` read is what the tables hold.
pub authorisation_row :
    (id : ℕ) (d : Db) (a : Authorisation)
    → authorisation id d ≡ some a
    → (row_of authorisations_table id d ≡ some a.row)
      × (a.challenges ≡ filter (λ k. k.authorisation == id) d.challenges)
unfolding authorisation
authorisation_row id d a e = elim (Option-cases (row_of authorisations_table id d)) [
  | inl missing ↦ absurd (ground (arith, missing, e))
  | inr (row, there) ↦
      let same : record { row = row; challenges = filter (λ k. k.authorisation == id) d.challenges }
          ≡ a =
        ground (arith, there, e) in
      (there ∙ ap some (ap (λ x. x.row) same), sym (ap (λ x. x.challenges) same))
]
