-- ===== src/Store/Progress.antt =====
-- No call of acme/store.rs takes a row away or moves a status against RFC 8555 §7.1.6.
pub mod Orders
pub mod Rest
pub mod Run
pub mod Diagram
use op_ca.Prelude.{
  ℕ, ◌≡◌, ◌∙◌, sym, subst, refl, Bool, true, false, none, some, List, Option, Option-cases, inl,
  inr, if◌then◌else◌,
}
use op_ca.Store.Tables.{
  Account, OrderRow, AuthorisationRow, Challenge, Certificate, Db, Error, write, fail, found_or,
}
use op_ca.Store.Lifecycle.{
  Lifecycle, accounts_table, orders_table, authorisations_table, challenges_table, transition,
  put_status, row_of,
}
use op_ca.Store.Lifecycles.{
  Extends, Extends-refl, Extends-trans, Advance, Advance-refl, Advance-trans, Advance-put_status,
}
use op_ca.Store.Certificates.{is_some}
use op_ca.Store.Within.{Within-transition, Within, Committed, IsOrder}

-- A certificate with the columns that `revoke` sets left out.
abbrev pub issued_part : Certificate → Certificate
issued_part c = record c { revoked_at = none; revocation_reason = none; changed = 0 }

-- The same certificate, and if it was revoked, the same revocation.
abbrev pub Stands : Certificate → Certificate → Type 0
Stands x y = (issued_part x ≡ issued_part y) × (is_some x.revoked_at ≡ true → y ≡ x)

pub Stands-refl : (x : Certificate) → Stands x x
Stands-refl x = (refl, λ h. refl)

Stands-trans : (x y z : Certificate) → Stands x y → Stands y z → Stands x z
Stands-trans x y z p q =
    (p.0 ∙ q.0, λ h. q.1 (subst (λ c. is_some c.revoked_at ≡ true) (sym (p.1 h)) h) ∙ p.1 h)

-- Each table advances.
pub record Advances (d d' : Db) : Type 0 where
  pub accounts : Advance accounts_table d.accounts d'.accounts
  pub orders : Advance orders_table d.orders d'.orders
  pub authorisations : Advance authorisations_table d.authorisations d'.authorisations
  pub challenges : Advance challenges_table d.challenges d'.challenges
  pub certificates : Extends Stands d.certificates d'.certificates

Advances-refl : (d : Db) → Advances d d
Advances-refl d = record {
  accounts = Advance-refl accounts_table d.accounts;
  orders = Advance-refl orders_table d.orders;
  authorisations = Advance-refl authorisations_table d.authorisations;
  challenges = Advance-refl challenges_table d.challenges;
  certificates = Extends-refl Stands Stands-refl d.certificates;
}

advancing : IsOrder Advances
advancing = record {
  here = Advances-refl;
  chain = λ a b c p q. record {
    accounts = Advance-trans accounts_table _ _ _ p.accounts q.accounts;
    orders = Advance-trans orders_table _ _ _ p.orders q.orders;
    authorisations = Advance-trans authorisations_table _ _ _ p.authorisations q.authorisations;
    challenges = Advance-trans challenges_table _ _ _ p.challenges q.challenges;
    certificates = Extends-trans Stands Stands-trans _ _ _ p.certificates q.certificates;
  };
}

-- A change of one table alone, or of none of the four.
module _ (d : Db) where
  with_accounts :
      (rs : List Account)
      → Advance accounts_table d.accounts rs
      → Advances d (record d { accounts = rs })
  with_accounts rs h =
      let same = Advances-refl d in
      record {
        accounts = h;
        orders = same.orders;
        authorisations = same.authorisations;
        challenges = same.challenges;
        certificates = same.certificates;
      }

  with_orders :
      (rs : List OrderRow)
      → Advance orders_table d.orders rs
      → Advances d (record d { orders = rs })
  with_orders rs h =
      let same = Advances-refl d in
      record {
        accounts = same.accounts;
        orders = h;
        authorisations = same.authorisations;
        challenges = same.challenges;
        certificates = same.certificates;
      }

  with_authorisations :
      (rs : List AuthorisationRow)
      → Advance authorisations_table d.authorisations rs
      → Advances d (record d { authorisations = rs })
  with_authorisations rs h =
      let same = Advances-refl d in
      record {
        accounts = same.accounts;
        orders = same.orders;
        authorisations = h;
        challenges = same.challenges;
        certificates = same.certificates;
      }

  with_challenges :
      (rs : List Challenge)
      → Advance challenges_table d.challenges rs
      → Advances d (record d { challenges = rs })
  with_challenges rs h =
      let same = Advances-refl d in
      record {
        accounts = same.accounts;
        orders = same.orders;
        authorisations = same.authorisations;
        challenges = h;
        certificates = same.certificates;
      }

  with_rest :
      (cs : List Certificate) (sequence : ℕ) (crl : Option ℕ)
      → Extends Stands d.certificates cs
      → Advances d (record d { certificates = cs; sequence = sequence; crl_number = crl })
  with_rest cs sequence crl h =
      let same = Advances-refl d in
      record {
        accounts = same.accounts;
        orders = same.orders;
        authorisations = same.authorisations;
        challenges = same.challenges;
        certificates = h;
      }

-- `transition`, in any of the tables.
module _ {S Row : Type 0} (l : Lifecycle S Row)
    (alone : (d : Db) (rs : List Row)
      → Advance l (l.rows d) rs
      → Advances d (l.with_rows rs d)) where
  transition-Advances : (i : ℕ) (to : S) → Within Advances (transition l i to)
  transition-Advances i to = Within-transition l i to λ d r e m.
      unfold put_status row_of in
      alone d _ (Advance-put_status l i to r (l.rows d) (unfold row_of in e) m)
