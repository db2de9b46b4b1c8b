-- ===== src/Issue/Leaves.antt =====
-- What a leaf holds, and what was checked of its CSR.
use op_ca.Prelude.{
  Text, ℕ, ◌≤◌, ◌≡◌, ◌≢◌, refl, ap, ◌∙◌, true, String, Option, none, some, List, [], ◌∷◌, ok, bind,
  bind-ok, length, All, map, text_eq, text_eq_iff, arith, Bool-cases, inl, inr,
}
use op_ca.Hosts.{Hosts, same_names}
use op_ca.Store.Tables.{OrderRow}
use op_ca.Store.Certificates.{NewCertificate}
use op_ca.Issue.{
  dns, Csr, Issuer, Validity, check_key, collect_names, some_names, requested_names, ordered_names,
  validity, fitting, chosen, leaf_common_name, leaf_of, sign_leaf, issue_named, issue_checked,
  issue_csr, issue_leaf,
}
use op_ca.Hosts.Identifiers.{Issuable}
use op_ca.Issue.Names.{
  has, asks, collect_names-dns, has-ordered_names, has-none, same_names_iff, collect_names-All,
  collect-fitting, fitting-length, chosen-All,
}

-- A leaf's common name, if it has one, is one of its names, and fits the field.
abbrev pub Subject : Option Text → List Text → Type 0
Subject none names = Unit
Subject (some cn) names = (has cn names ≡ true) × (length cn ≤ 64)

-- What is known of a leaf and the CSR that it was issued for.
pub record Issued (h : Hosts) (issuer : Issuer) (order : OrderRow) (csr : Csr) (account_key : Text)
    (now : ℕ) (leaf : NewCertificate) : Type 0 where
  pub own_key : csr.spki ≢ account_key
  pub strong_key : check_key csr.key ≡ ok tt
  pub asked : List Text
  pub only_dns : csr.names ≡ map dns asked
  pub as_asked : (z : Text) → has z leaf.sans ≡ asks z asked
  pub as_ordered : (z : Text) → has z leaf.sans ≡ asks z order.identifiers
  pub issuable : All (λ n. Issuable h n issuer.config.permitted_domains) leaf.sans
  pub named : leaf.sans ≢ []
  pub subject : Subject leaf.common_name leaf.sans
  pub period :
      validity issuer order now
      ≡ ok (record { not_before = leaf.not_before; not_after = leaf.not_after })

module _ (h : Hosts) (issuer : Issuer) (order : OrderRow) (csr : Csr) (account_key : Text) (now : ℕ)
    (signed : Option (String × String)) (leaf : NewCertificate) where
  sign_leaf-ok :
      (made : Option (String × String)) (names : List Text) (v : Validity)
      → sign_leaf issuer csr made names v ≡ ok leaf
      → (s : String × String) × (leaf_of issuer csr names v s ≡ leaf)
  unfolding sign_leaf
  sign_leaf-ok none names v e = absurd (cc e)
  sign_leaf-ok (some s) names v e = (s, ground arith)

  named-ok :
      (names : List Text)
      → issue_named issuer order csr now signed names ≡ ok leaf
      → (names ≡ ordered_names order.identifiers)
        × (v : Validity) × (validity issuer order now ≡ ok v)
        × (s : String × String) × (leaf_of issuer csr names v s ≡ leaf)
  unfolding issue_named
  named-ok names e = elim (Bool-cases (same_names names (ordered_names order.identifiers))) [
    | inl s ↦
        let signs : bind (validity issuer order now) (sign_leaf issuer csr signed names) ≡ ok leaf =
          ground arith in
        let (v, valid, made) =
          bind-ok (validity issuer order now) (sign_leaf issuer csr signed names) leaf signs in
        let (pair, same) = sign_leaf-ok signed names v made in
        (same_names_iff names (ordered_names order.identifiers) s, v, valid, pair, same)
    | inr s ↦ absurd (ground arith)
  ]

  some_names-ok :
      (found names : List Text) → some_names found ≡ ok names → (found ≡ names) × (names ≢ [])
  some_names-ok [] names e = absurd (cc e)
  some_names-ok (x ∷ found) names e =
      let same : x ∷ found ≡ names = ground arith in (same, λ n. cc (same, n))

  csr-Issued :
      issue_csr h issuer order account_key now signed csr ≡ ok leaf
      → Issued h issuer order csr account_key now leaf
  unfolding issue_csr issue_checked requested_names leaf_common_name
  csr-Issued e = elim (Bool-cases (text_eq csr.spki account_key)) [
    | inl s ↦ absurd (ground arith)
    | inr s ↦
        let permitted = issuer.config.permitted_domains in
        let checked : bind (check_key csr.key) (issue_checked h issuer order csr now signed)
            ≡ ok leaf =
          ground arith in
        let (u, key, e1) =
          bind-ok (check_key csr.key) (issue_checked h issuer order csr now signed) leaf checked in
        let (names, requested, e2) =
          bind-ok (requested_names h issuer csr) (issue_named issuer order csr now signed) leaf
            e1 in
        let (found, collects, e3) =
          bind-ok (collect_names h permitted csr.names []) some_names names requested in
        let (same, filled) = some_names-ok found names e3 in
        let (ordered, v, valid, s', made) = named-ok names e2 in
        let collected : collect_names h permitted csr.names [] ≡ ok names = collects ∙ ap ok same in
        let (asked, all_dns, there) = collect_names-dns h permitted csr.names [] names collected in
        rw (← made) (record {
          own_key = λ k. ground (arith, text_eq_iff csr.spki account_key);
          strong_key = key;
          asked = asked;
          only_dns = all_dns;
          as_asked = λ z. there z ∙ has-none (asks z asked);
          as_ordered = λ z. ap (has z) ordered ∙ has-ordered_names z order.identifiers;
          issuable = collect_names-All h permitted csr.names [] names tt collected;
          named = filled;
          subject = subject (chosen csr.common_name (fitting csr.names)) names refl collected;
          period = valid;
        })
  ]
    where
      subject :
          (cn : Option Text) (names : List Text)
          → chosen csr.common_name (fitting csr.names) ≡ cn
          → collect_names h issuer.config.permitted_domains csr.names [] ≡ ok names
          → Subject cn names
      subject none names c e = tt
      subject (some cn) names c e = (
        chosen-All (λ z. has z names ≡ true) csr.common_name (fitting csr.names) cn
            (collect-fitting h issuer.config.permitted_domains csr.names [] names e) c,
        chosen-All (λ z. length z ≤ 64) csr.common_name (fitting csr.names) cn
            (fitting-length csr.names) c,
      )

-- A leaf is issued only for a readable CSR with a key that is allowed and is not the account's, which
-- asks for DNS names alone. In lower case these are the order's identifiers and the names recorded, not
-- none, each one that `check_identifier` lets through. The common name, if any, is one of them and at
-- most 64 long, and the validity is `validity`'s.
pub issue_leaf-Issued :
    (h : Hosts) (issuer : Issuer) (order : OrderRow) (read : Option Csr) (account_key : Text)
    (now : ℕ) (signed : Option (String × String)) (leaf : NewCertificate)
    → issue_leaf h issuer order read account_key now signed ≡ ok leaf
    → (csr : Csr) × (read ≡ some csr) × Issued h issuer order csr account_key now leaf
unfolding issue_leaf
issue_leaf-Issued h issuer order none account_key now signed leaf e = absurd (cc e)
issue_leaf-Issued h issuer order (some csr) account_key now signed leaf e =
    (csr, refl, csr-Issued h issuer order csr account_key now signed leaf e)
