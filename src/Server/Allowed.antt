-- ===== src/Server/Allowed.antt =====
-- What a request entitles its signer to: the calls that may be made for it, and the rows that its
-- answer may show.
pub mod Signing
pub mod Reading
pub mod Holders
pub mod Naming
pub mod Orders
pub mod Challenges
pub mod Certificates
pub mod Handling
use op_ca.Prelude.{
  Text, ℕ, ◌≡◌, ◌≢◌, ◌≤◌, ◌<◌, ◌==◌, str_eq, find, filter, Bool, true, false, ◌⊎◌, Option, none,
  some, String, List, [], ◌∷◌, map, Result, ok, All,
}
use op_ca.Requests.{KeyRule, Signer, account_signer, key_signer, ChangedKey, verified}
use op_ca.Hosts.{Hosts, base_of}
use op_ca.Hosts.Identifiers.{Issuable}
use op_ca.Issue.{Csr, Issuer}
use op_ca.Issue.Leaves.{Issued}
use op_ca.Store.Status.{AccountStatus, OrderStatus, AuthorisationStatus, ChallengeStatus}
use op_ca.Store.Tables.{ChallengeType, Account, OrderRow, Certificate, Db}
use op_ca.Store.Lifecycle.{
  accounts_table, orders_table, authorisations_table, challenges_table, row_of,
}
use op_ca.Store.Orders.{NewOrder, NewAuthorisation, Order, Authorisation}
use op_ca.Store.Accounts.{orders_of}
use op_ca.Store.Certificates.{NewCertificate, certificate_by_serial}
use op_ca.Store.Calls.{
  Call, creates_account, sets_contacts, changes_key, sets_account, creates_order, sets_order,
  sets_authorisation, sets_challenge, records, revokes, takes_crl_number, expires,
}
use op_ca.Server.{
  Crates, World, Server, Post, arrive, Leaf, url_of, Reply, account_reply, orders_reply,
  order_reply, authorisation_reply, challenge_reply, certificate_reply, revoked_reply,
}
use op_ca.Server.Trace.{Later, Met}
use op_ca.Server.Owned.{OrderIs, OwnsOrder, OwnsAuthorisation, OwnsChallenge}

-- The request was verified as the signer's under a rule, at its first moment.
abbrev pub AuthenticAs :
    (c : Crates) → World → Post → Server → KeyRule → c.jose.Jws → Signer c.jose.Jwk → Type 0
AuthenticAs c w post s rule jws signer =
    (verified c.jose post.accounts post.body post.url rule (arrive w s).store s.nonces).0
    ≡ ok (jws, signer)

abbrev pub Authentic :
    (c : Crates) → World → Post → Server → c.jose.Jws → Signer c.jose.Jwk → Type 0
Authentic c w post s jws signer = (rule : KeyRule) × AuthenticAs c w post s rule jws signer

-- Issuance was not paused, and this issuer was set.
abbrev pub Issues : Server → Issuer → Type 0
Issues s issuer = (s.paused ≡ false) × (s.issuer ≡ some issuer)

-- A wildcard's authorisation offers dns-01 alone.
abbrev pub OffersFor : NewAuthorisation → Type 0
OffersFor new = new.wildcard ≡ true → All (λ k. k ≡ ChallengeType.dns_01) new.challenges

-- Every name is issued for, and has an authorisation of its own.
pub record Orderable (h : Hosts) (issuer : Issuer) (new : NewOrder) : Type 0 where
  pub issuable : All (λ n. Issuable h n issuer.config.permitted_domains) new.identifiers
  pub covered : map (λ a. a.identifier) new.authorisations ≡ map base_of new.identifiers
  pub offers : All OffersFor new.authorisations

-- The call lets what is past its time lapse, by the clock of an earlier moment of the request.
abbrev pub IsExpiry : World → Server → ℕ → Db → Call → Type 0
IsExpiry w s n d call = (k : ℕ) × (s.moment ≤ k) × (k < n) × (call ≡ expires (w.clock k))

-- A leaf issued for an order of the account, which stood ready at an earlier moment of the request,
-- when the request had made no calls but expiries.
pub record Finalises (c : Crates) (w : World) (s : Server) (account : ℕ) (key : c.jose.Jwk) (id : ℕ)
    (leaf : NewCertificate) (d : Db) : Type 0 where
  pub row : OrderRow
  pub is_order : OrderIs id row d
  pub owner : row.account ≡ account
  pub read : Met w (IsExpiry w s) s (λ e. row_of orders_table id e ≡ some row)
  pub ready : row.status ≡ OrderStatus.ready
  pub issuer : Issuer
  pub issues : Issues s issuer
  pub csr : Csr
  pub at : ℕ
  pub issued : Issued c.hosts issuer row csr (c.subject_public_key_info key) at leaf

-- The issued certificate with the serial is the one that was sent.
pub record Sends (c : Crates) (serial : String) (issued : Certificate) (leaf : Leaf) (d : Db)
    : Type 0 where
  pub found : certificate_by_serial serial d ≡ some issued
  pub der : List ℕ
  pub first : c.first_certificate issued.chain_pem ≡ some der
  pub read : c.inspect der ≡ some leaf
  pub named : leaf.serial ≡ serial

module _ (c : Crates) (w : World) (s : Server) (jws : c.jose.Jws) where
  open c use {jose, Jwk}

  -- What an account may have done.
  abbrev pub GrantsAccount : Account → Jwk → ℕ → Db → Call → Type 0
  GrantsAccount a key n d (creates_account jwk thumbprint texts now) = ⊥
  GrantsAccount a key n d (sets_contacts id texts) = id ≡ a.id
  GrantsAccount a key n d (changes_key id jwk thumbprint) =
      (id ≡ a.id)
      × (change : ChangedKey Jwk) × (jose.key_change jws key ≡ ok change)
      × (jwk ≡ c.to_canonical_json change.new_key)
      × (thumbprint ≡ c.thumbprint change.new_key)
  GrantsAccount a key n d (sets_account id to) = (id ≡ a.id) × (to ≡ AccountStatus.deactivated)
  GrantsAccount a key n d (creates_order draws now new) =
      (new.account ≡ a.id) × (issuer : Issuer) × Issues s issuer × Orderable c.hosts issuer new
  GrantsAccount a key n d (sets_order id to error) = ⊥
  GrantsAccount a key n d (sets_authorisation id to) =
      OwnsAuthorisation a.id id d × (to ≡ AuthorisationStatus.deactivated)
  GrantsAccount a key n d (sets_challenge id to error now) =
      OwnsChallenge a.id id d × (to ≡ ChallengeStatus.processing)
  GrantsAccount a key n d (records id leaf now) = Finalises c w s a.id key id leaf d
  GrantsAccount a key n d (revokes serial reason now) =
      (issued : Certificate) × (leaf : Leaf) × Sends c serial issued leaf d
      × (issued.account ≡ a.id)
  GrantsAccount a key n d takes_crl_number = ⊥
  GrantsAccount a key n d (expires now) = (k : ℕ) × (s.moment ≤ k) × (k < n) × (now ≡ w.clock k)

  -- What a key by itself may have done: an account of its own, and its certificate revoked.
  abbrev pub GrantsKey : Jwk → Db → Call → Type 0
  GrantsKey key d (creates_account jwk thumbprint texts now) =
      (jwk ≡ c.to_canonical_json key) × (thumbprint ≡ c.thumbprint key)
  GrantsKey key d (revokes serial reason now) =
      (issued : Certificate) × (leaf : Leaf) × Sends c serial issued leaf d
      × (c.subject_public_key_info key ≡ leaf.spki)
  GrantsKey key d _ = ⊥

  abbrev pub Grants : Signer Jwk → ℕ → Db → Call → Type 0
  Grants (account_signer a key) n d call = GrantsAccount a key n d call
  Grants (key_signer key) n d call = GrantsKey key d call

-- The signer of the request may have the call made at the moment.
abbrev pub Allowed : Crates → World → Post → Server → ℕ → Db → Call → Type 0
Allowed c w post s n d call =
    (jws : c.jose.Jws) × (signer : Signer c.jose.Jwk) × Authentic c w post s jws signer
    × Grants c w s jws signer n d call

-- The order is the row of its number, with the numbers of that row's authorisations.
abbrev pub ReadsOrder : Order → Db → Type 0
ReadsOrder o d =
    (row_of orders_table o.row.id d ≡ some o.row)
    × (o.authorisations ≡ map (λ x. x.id) (filter (λ x. x.order == o.row.id) d.authorisations))

-- The authorisation is the row of its number, with that row's challenges.
abbrev pub ReadsAuthorisation : Authorisation → Db → Type 0
ReadsAuthorisation a d =
    (row_of authorisations_table a.row.id d ≡ some a.row)
    × (a.challenges ≡ filter (λ k. k.authorisation == a.row.id) d.challenges)

-- What an account is shown is its own, and stood in the tables during the request.
module _ (c : Crates) (w : World) (post : Post) (s : Server) where
  abbrev pub ShowsAccount : Account → Db → Reply → Type 0
  ShowsAccount a d (account_reply status location shown) =
      (shown.id ≡ a.id) × (row_of accounts_table shown.id d ≡ some shown)
  ShowsAccount a d (orders_reply urls) = urls ≡ map (url_of post "order") (orders_of a.id d)
  ShowsAccount a d (order_reply status location retry shown) =
      (shown.row.account ≡ a.id) × ReadsOrder shown d
  ShowsAccount a d (authorisation_reply retry shown) =
      OwnsOrder a.id shown.row.order d × Met w (Allowed c w post s) s (ReadsAuthorisation shown)
  ShowsAccount a d (challenge_reply up retry shown) =
      OwnsAuthorisation a.id shown.authorisation d
      × Met w (Allowed c w post s) s (λ e. row_of challenges_table shown.id e ≡ some shown)
  ShowsAccount a d (certificate_reply pem) =
      (id : ℕ) × (shown : Certificate) × (find (λ (k : Certificate). k.id == id) d.certificates
        ≡ some shown)
      × (shown.account ≡ a.id)
      × (shown.chain_pem ≡ pem)
  ShowsAccount a d revoked_reply = Unit

  -- A key by itself is shown the account that has it, which is valid.
  abbrev pub ShowsKey : c.jose.Jwk → Db → Reply → Type 0
  ShowsKey key d (account_reply status location shown) =
      (shown.thumbprint ≡ c.thumbprint key)
      × (find (λ (a : Account). str_eq a.thumbprint (c.thumbprint key)) d.accounts ≡ some shown)
      × (shown.status ≡ AccountStatus.valid)
  ShowsKey key d revoked_reply = Unit
  ShowsKey key d _ = ⊥

  abbrev pub Shows : Signer c.jose.Jwk → Db → Reply → Type 0
  Shows (account_signer a key) d reply = ShowsAccount a d reply
  Shows (key_signer key) d reply = ShowsKey key d reply

-- The signer of the request may be shown the answer.
abbrev pub Shown : Crates → World → Post → Server → Reply → Server → Type 0
Shown c w post s reply t =
    (jws : c.jose.Jws) × (signer : Signer c.jose.Jwk) × Authentic c w post s jws signer
    × Shows c w post s signer t.store reply
