-- ===== src/Store/Healthy/Rest.antt =====
-- `expire_stale` and the calls on accounts and certificates keep the invariant of the orders.
use op_ca.Prelude.{
  Text, ℕ, ◌≤◌, refl, sym, subst, ◌∙◌, String, Option, none, some, List, All, update_where, ◌==◌,
  ◌+◌, any, Bool-cases, inl, inr, str_eq,
}
use op_ca.Store.Status.{AccountStatus, OrderStatus, AuthorisationStatus}
use op_ca.Store.Tables.{Account, OrderRow, AuthorisationRow, Certificate, Db, greatest}
use op_ca.Store.Lifecycle.{
  orders_table, accounts_table, authorisations_table, read_status, transition, put_status,
}
use op_ca.Store.Lifecycles.{Rising, keys-update}
use op_ca.Store.Within.{
  Committed, Within, Within-transition, Within-pure, Within-fail, within_rules,
}
use op_ca.Store.Settle.{fail_orders, set_status}
use op_ca.Store.Settled.{fail_orders-AllInStep}
use op_ca.Store.Accounts.{
  insert_account, create_account, set_contacts, refuse_holder, give_key, change_key,
  set_account_status,
}
use op_ca.Store.Certificates.{
  NewCertificate, append_certificate, insert_certificate, name_certificate, begin_processing,
  record_certificate, mark_revoked, revoke, take_crl_number, next_crl_number,
}
use op_ca.Store.Upkeep.{
  stale_authorisation, stale_order, expire_authorisations, expire_orders, expire_stale,
}
use op_ca.Store.Healthy.{
  Healthy, Keeps, keeping_tx, keeping, with_orders-Healthy, All-update, order_ids-update,
  fail_orders_ids,
}
use op_ca.Store.Healthy.Orders.{transition-Healthy}

expired-Healthy :
    (now : ℕ) (d : Db)
    → Healthy d
    → Healthy (fail_orders (expire_orders now (expire_authorisations now d)))
unfolding expire_orders expire_authorisations fail_orders
expired-Healthy now d h =
    let expire = λ (a : AuthorisationRow). record a { status = AuthorisationStatus.expired } in
    record {
      ids =
          unfold fail_orders in
          subst Rising
            (sym (
              keys-update authorisations_table (stale_authorisation now) expire (λ a. refl)
                d.authorisations))
            h.ids;
      refs =
          subst
            (λ ns.
              All (λ a. a.order ≤ greatest ns)
                (update_where (stale_authorisation now) expire d.authorisations))
            (sym (
              fail_orders_ids (expire_orders now (expire_authorisations now d))
              ∙ order_ids-update (stale_order now) (set_status OrderStatus.invalid) (λ o. refl)
                  d.orders))
            (All-update _ _ (stale_authorisation now) expire (λ a l t. l) (λ a l t. l)
              d.authorisations h.refs);
      in_step =
          fail_orders-AllInStep (stale_authorisation now) expire (stale_order now) d (λ a. refl)
            (λ a. refl) h.in_step;
    }

pub expire_stale-Healthy : (now : ℕ) → Within (Keeps Healthy) (expire_stale now)
unfolding expire_stale
expire_stale-Healthy now = keeping_tx Healthy _ (expired-Healthy now)

-- What is not in the orders and authorisations has no part in the invariant.
certificates-Healthy :
    (d : Db) (cs : List Certificate) (n : ℕ) (k : Option ℕ)
    → Healthy d
    → Healthy (record d { certificates = cs; sequence = n; crl_number = k })
certificates-Healthy d cs n k h = record { ids = h.ids; refs = h.refs; in_step = h.in_step }

accounts-Healthy : (d : Db) (rs : List Account) → Healthy d → Healthy (record d { accounts = rs })
accounts-Healthy d rs h = record { ids = h.ids; refs = h.refs; in_step = h.in_step }

append-Healthy :
    (o : OrderRow) (issued : NewCertificate) (now id : ℕ) (d : Db)
    → Keeps Healthy d (append_certificate o issued now id d)
unfolding append_certificate
append-Healthy o issued now id d h = certificates-Healthy d _ id d.crl_number h

insert_certificate-Healthy :
    (order : ℕ) (issued : NewCertificate) (now : ℕ)
    → Within (Keeps Healthy) (insert_certificate order issued now)
unfolding insert_certificate
insert_certificate-Healthy order issued now =
    search (within_rules, keeping Healthy, append-Healthy) depth 16

name_certificate-Healthy : (order id : ℕ) → Within (Keeps Healthy) (name_certificate order id)
unfolding name_certificate
name_certificate-Healthy order id = keeping_tx Healthy _ λ d h.
    with_orders-Healthy (λ o. o.id == order) (λ o. record o { certificate = some id }) d (λ o. refl)
      (λ o s t. s) h

processing-Healthy :
    (order : ℕ) → Within (Keeps Healthy) (transition orders_table order OrderStatus.processing)
processing-Healthy order = transition-Healthy order OrderStatus.processing (λ e. cc)

valid-Healthy :
    (order : ℕ) → Within (Keeps Healthy) (transition orders_table order OrderStatus.valid)
valid-Healthy order = transition-Healthy order OrderStatus.valid (λ e. cc)

read_status-Healthy : (order : ℕ) → Within (Keeps Healthy) (read_status orders_table order)
unfolding read_status
read_status-Healthy order = search (within_rules, keeping Healthy)

begin_processing-Healthy : (order : ℕ) → Within (Keeps Healthy) (begin_processing order)
unfolding begin_processing
begin_processing-Healthy order =
    search (within_rules, keeping Healthy, read_status-Healthy, processing-Healthy) depth 12

pub record_certificate-Healthy :
    (order : ℕ) (issued : NewCertificate) (now : ℕ)
    → Within (Keeps Healthy) (record_certificate order issued now)
unfolding record_certificate
record_certificate-Healthy order issued now =
    search
      (
        within_rules,
        keeping Healthy,
        valid-Healthy,
        begin_processing-Healthy,
        insert_certificate-Healthy,
        name_certificate-Healthy,
      )
      depth 16

mark_revoked-Healthy :
    (serial : String) (reason : Option ℕ) (now : ℕ) (d : Db)
    → Keeps Healthy d (mark_revoked serial reason now d)
unfolding mark_revoked
mark_revoked-Healthy serial reason now d h = certificates-Healthy d _ d.sequence d.crl_number h

pub revoke-Healthy :
    (serial : String) (reason : Option ℕ) (now : ℕ)
    → Within (Keeps Healthy) (revoke serial reason now)
unfolding revoke
revoke-Healthy serial reason now =
    search (within_rules, keeping Healthy, mark_revoked-Healthy) depth 16

taken-Healthy :
    (number : Option ℕ) (d : Db) → Healthy d → Committed Healthy (take_crl_number number d)
unfolding take_crl_number
taken-Healthy none d h = certificates-Healthy d d.certificates d.sequence (some 1) h
taken-Healthy (some n) d h = certificates-Healthy d d.certificates d.sequence (some (n + 1)) h

pub next_crl_number-Healthy : Within (Keeps Healthy) next_crl_number
unfolding next_crl_number
next_crl_number-Healthy = keeping_tx Healthy _ (λ d h. taken-Healthy d.crl_number d h)

insert_account-Healthy :
    (jwk thumbprint : String) (contacts : List Text) (now : ℕ)
    → Within (Keeps Healthy) (insert_account jwk thumbprint contacts now)
unfolding insert_account
insert_account-Healthy jwk thumbprint contacts now = keeping_tx Healthy _ λ d h.
    elim (Bool-cases (any (λ a. str_eq a.thumbprint thumbprint) d.accounts)) [
      | inl e ↦ rw e h
      | inr e ↦ rw e (accounts-Healthy d _ h)
    ]

pub create_account-Healthy :
    (jwk thumbprint : String) (contacts : List Text) (now : ℕ)
    → Within (Keeps Healthy) (create_account jwk thumbprint contacts now)
unfolding create_account
create_account-Healthy jwk thumbprint contacts now =
    search (within_rules, keeping Healthy, insert_account-Healthy) depth 12

pub set_contacts-Healthy :
    (id : ℕ) (contacts : List Text) → Within (Keeps Healthy) (set_contacts id contacts)
unfolding set_contacts
set_contacts-Healthy id contacts = keeping_tx Healthy _ (λ d h. accounts-Healthy d _ h)

refuse_holder-Healthy : (holder : Option ℕ) → Within (Keeps Healthy) (refuse_holder holder)
unfolding refuse_holder
refuse_holder-Healthy none = Within-pure (keeping Healthy) tt
refuse_holder-Healthy (some a) = Within-fail _

give_key-Healthy :
    (id : ℕ) (jwk thumbprint : String) (d : Db) → Keeps Healthy d (give_key id jwk thumbprint d)
unfolding give_key
give_key-Healthy id jwk thumbprint d h = accounts-Healthy d _ h

pub change_key-Healthy :
    (id : ℕ) (jwk thumbprint : String) → Within (Keeps Healthy) (change_key id jwk thumbprint)
unfolding change_key
change_key-Healthy id jwk thumbprint =
    search (within_rules, keeping Healthy, refuse_holder-Healthy, give_key-Healthy) depth 12

pub set_account_status-Healthy :
    (id : ℕ) (to : AccountStatus) → Within (Keeps Healthy) (set_account_status id to)
unfolding set_account_status
set_account_status-Healthy id to =
    Within-transition accounts_table id to λ d r e m h. unfold put_status in accounts-Healthy d _ h
