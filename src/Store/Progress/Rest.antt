-- ===== src/Store/Progress/Rest.antt =====
-- The calls on accounts and certificates, and `expire_stale`, advance.
use op_ca.Prelude.{
  Text, ℕ, ◌≡◌, refl, String, true, Option, none, some, List, arith, Bool-cases, inl, inr, any, ◌+◌,
  leb, str_eq,
}
use op_ca.Store.Status.{AccountStatus, AuthorisationStatus}
use op_ca.Store.Moves.{authorisation_may_become, is_live}
use op_ca.Store.Tables.{OrderRow, Db}
use op_ca.Store.Lifecycle.{accounts_table, orders_table, authorisations_table, read_status}
use op_ca.Store.Lifecycles.{
  Extends-append, Extends-update, Extends-refl, everywhere, Reaches, here, next, Advance-update,
  Advance-append,
}
use op_ca.Store.Within.{Within-pure, Within-fail, Within, Committed, within_rules}
use op_ca.Store.Accounts.{
  insert_account, create_account, refuse_holder, give_key, set_contacts, change_key,
  set_account_status,
}
use op_ca.Store.Certificates.{
  NewCertificate, insert_certificate, name_certificate, begin_processing, record_certificate,
  revoke, next_crl_number, append_certificate, mark_revoked, take_crl_number,
}
use op_ca.Store.Upkeep.{expire_stale, expire_orders, expire_authorisations}
use op_ca.Store.Progress.{
  Advances, advancing, Stands, Stands-refl, with_accounts, with_orders, with_authorisations,
  with_rest, transition-Advances,
}
use op_ca.Store.Progress.Orders.{failing, &&-left, fail_orders-Advances}

insert_account-Advances :
    (jwk thumbprint : String) (contacts : List Text) (now : ℕ)
    → Within Advances (insert_account jwk thumbprint contacts now)
unfolding insert_account
insert_account-Advances jwk thumbprint contacts now = record {
  at = λ d. elim (Bool-cases (any (λ a. str_eq a.thumbprint thumbprint) d.accounts)) [
    | inl e ↦ rw e (advancing.here d)
    | inr e ↦ rw e (with_accounts d _ (Advance-append accounts_table d.accounts _ refl))
  ];
}

pub create_account-Advances :
    (jwk thumbprint : String) (contacts : List Text) (now : ℕ)
    → Within Advances (create_account jwk thumbprint contacts now)
unfolding create_account
create_account-Advances jwk thumbprint contacts now =
    search (within_rules, advancing, insert_account-Advances)

pub set_contacts-Advances :
    (id : ℕ) (contacts : List Text) → Within Advances (set_contacts id contacts)
unfolding set_contacts
set_contacts-Advances id contacts = record {
  at = λ d.
      with_accounts d _ (Advance-update accounts_table _ _ (λ a. refl) (λ a h. here) d.accounts);
}

refuse_holder-Advances : (holder : Option ℕ) → Within Advances (refuse_holder holder)
unfolding refuse_holder
refuse_holder-Advances none = Within-pure advancing tt
refuse_holder-Advances (some a) = Within-fail _

give_key-Advances :
    (id : ℕ) (jwk thumbprint : String) (d : Db) → Advances d (give_key id jwk thumbprint d)
unfolding give_key
give_key-Advances id jwk thumbprint d =
    with_accounts d _ (Advance-update accounts_table _ _ (λ a. refl) (λ a h. here) d.accounts)

pub change_key-Advances :
    (id : ℕ) (jwk thumbprint : String) → Within Advances (change_key id jwk thumbprint)
unfolding change_key
change_key-Advances id jwk thumbprint =
    search (within_rules, advancing, refuse_holder-Advances, give_key-Advances)

pub set_account_status-Advances :
    (id : ℕ) (to : AccountStatus) → Within Advances (set_account_status id to)
unfolding set_account_status
set_account_status-Advances id to = transition-Advances accounts_table with_accounts id to

append_certificate-Advances :
    (o : OrderRow) (issued : NewCertificate) (now id : ℕ) (d : Db)
    → Advances d (append_certificate o issued now id d)
unfolding append_certificate
append_certificate-Advances o issued now id d =
    with_rest d _ id d.crl_number (Extends-append Stands Stands-refl d.certificates _)

insert_certificate-Advances :
    (order : ℕ) (issued : NewCertificate) (now : ℕ)
    → Within Advances (insert_certificate order issued now)
unfolding insert_certificate
insert_certificate-Advances order issued now =
    search (within_rules, advancing, append_certificate-Advances) depth 16

name_certificate-Advances : (order id : ℕ) → Within Advances (name_certificate order id)
unfolding name_certificate
name_certificate-Advances order id = record {
  at = λ d. with_orders d _ (Advance-update orders_table _ _ (λ o. refl) (λ o h. here) d.orders);
}

read_status-Advances : (id : ℕ) → Within Advances (read_status orders_table id)
unfolding read_status
read_status-Advances id = search (within_rules, advancing)

begin_processing-Advances : (order : ℕ) → Within Advances (begin_processing order)
unfolding begin_processing
begin_processing-Advances order =
    let moved = transition-Advances orders_table with_orders in
    search (within_rules, advancing, moved, read_status-Advances)

pub record_certificate-Advances :
    (order : ℕ) (issued : NewCertificate) (now : ℕ)
    → Within Advances (record_certificate order issued now)
unfolding record_certificate
record_certificate-Advances order issued now =
    let moved = transition-Advances orders_table with_orders in
    search
      (
        within_rules, advancing, moved, begin_processing-Advances, insert_certificate-Advances,
        name_certificate-Advances,
      )
      depth 16

mark_revoked-Advances :
    (serial : String) (reason : Option ℕ) (now : ℕ) (d : Db)
    → Advances d (mark_revoked serial reason now d)
unfolding mark_revoked
mark_revoked-Advances serial reason now d = with_rest d _ d.sequence d.crl_number (
    Extends-update Stands (λ c. Unit) _ _ Stands-refl (λ c u h. (refl, λ r. absurd (ground arith)))
      d.certificates (everywhere d.certificates))

pub revoke-Advances :
    (serial : String) (reason : Option ℕ) (now : ℕ) → Within Advances (revoke serial reason now)
unfolding revoke
revoke-Advances serial reason now = search (within_rules, advancing, mark_revoked-Advances) depth 16

take_crl_number-Advances :
    (number : Option ℕ) (d : Db) → Committed (Advances d) (take_crl_number number d)
unfolding take_crl_number
take_crl_number-Advances none d =
    with_rest d d.certificates d.sequence (some 1) (Extends-refl Stands Stands-refl d.certificates)
take_crl_number-Advances (some n) d =
    with_rest d d.certificates d.sequence (some (n + 1))
      (Extends-refl Stands Stands-refl d.certificates)

pub next_crl_number-Advances : Within Advances next_crl_number
unfolding next_crl_number
next_crl_number-Advances = record { at = λ d. take_crl_number-Advances d.crl_number d }

expiring :
    (s : AuthorisationStatus)
    → is_live s ≡ true
    → Reaches authorisation_may_become s AuthorisationStatus.expired
unfolding authorisation_may_become
expiring AuthorisationStatus.pending h = next here refl
expiring AuthorisationStatus.valid h = next here refl
expiring _ h = absurd (ground arith)

expire_authorisations-Advances : (now : ℕ) (d : Db) → Advances d (expire_authorisations now d)
unfolding expire_authorisations
expire_authorisations-Advances now d = with_authorisations d _ (
    Advance-update authorisations_table _ _ (λ a. refl)
      (λ a h. expiring a.status (&&-left _ (leb a.expires now) h)) d.authorisations)

expire_orders-Advances : (now : ℕ) (d : Db) → Advances d (expire_orders now d)
unfolding expire_orders
expire_orders-Advances now d = with_orders d _ (
    Advance-update orders_table _ _ (λ o. refl)
      (λ o h. failing o.status (&&-left _ (leb o.expires now) h)) d.orders)

pub expire_stale-Advances : (now : ℕ) → Within Advances (expire_stale now)
unfolding expire_stale
expire_stale-Advances now =
    search
      (
        within_rules, advancing, expire_authorisations-Advances, expire_orders-Advances,
        fail_orders-Advances,
      )
      depth 16
