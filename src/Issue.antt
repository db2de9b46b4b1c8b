-- ===== src/Issue.antt =====
-- crates/opca-acme-broker/src/acme/issue.rs: what is issued for an order's CSR. Reading and signing
-- X.509 are arguments.
pub mod Period
pub mod Names
pub mod Leaves
use op_ca.Prelude.{
  Text, ℕ, ◌+◌, ◌-◌, ◌*◌, ◌==◌, ltb, leb, min, max, String, Bool, true, false, not, ◌&&◌, ◌||◌,
  Option, none, some, List, [], ◌∷◌, ◌++◌, Result, ok, err, bind, any, map, filter, length, text_eq,
  codes, str_eq, if◌then◌else◌,
}
use op_ca.Store.Tables.{ChallengeType, OrderRow}
use op_ca.Store.Certificates.{NewCertificate}
use op_ca.Problem.{ProblemType}
use op_ca.Hosts.{
  comes_before, insert_name, same_names, lower_code, lower, trim_dots, ends_with, base_of, Hosts,
  within, host_within, is_text, is_issuable, check_identifier,
}

pub data SubjectAltName : Type 0 where
  dns : Text → SubjectAltName
  ip : Text → SubjectAltName
  other_name : SubjectAltName

pub data KeyDescription : Type 0 where
  rsa : Option ℕ → KeyDescription
  ecdsa : Option String → KeyDescription
  other_key : KeyDescription

-- A CSR that was read and whose signature was verified.
pub record Csr : Type 0 where
  pub spki : Text
  pub key : KeyDescription
  pub names : List SubjectAltName
  pub common_name : Option Text

pub record IssuanceConfig : Type 0 where
  pub permitted_domains : List Text
  pub leaf_days : ℕ
  pub leaf_max_days : ℕ
  pub challenges : List ChallengeType

pub record Issuer : Type 0 where
  pub subordinate_serial : String
  pub subordinate_not_after : ℕ
  pub config : IssuanceConfig

pub record Validity : Type 0 where
  pub not_before : ℕ
  pub not_after : ℕ

unfoldable pub check_key : KeyDescription → Result ProblemType (Unit {0})
check_key (rsa (some bits)) =
    if leb 2048 bits && leb bits 8192 then ok tt else err ProblemType.bad_csr
check_key (ecdsa (some curve)) =
    if str_eq curve "P-256" || str_eq curve "P-384" then ok tt else err ProblemType.bad_csr
check_key _ = err ProblemType.bad_csr

-- `requested_names`, of the names so far; each must be one that is issued for.
unfoldable pub collect_names :
    Hosts → List Text → List SubjectAltName → List Text → Result ProblemType (List Text)
collect_names h permitted [] names = ok names
collect_names h permitted (dns name ∷ rest) names =
    bind (check_identifier h (lower name) permitted)
      (λ u. collect_names h permitted rest (insert_name (lower name) names))
collect_names h permitted (ip address ∷ rest) names = err ProblemType.rejected_identifier
collect_names h permitted (other_name ∷ rest) names = err ProblemType.bad_csr

abbrev pub some_names : List Text → Result ProblemType (List Text)
some_names [] = err ProblemType.bad_csr
some_names (x ∷ names) = ok (x ∷ names)

unfoldable pub requested_names : Hosts → Issuer → Csr → Result ProblemType (List Text)
requested_names h issuer csr =
    bind (collect_names h issuer.config.permitted_domains csr.names []) some_names

unfoldable pub ordered_names : List Text → List Text
ordered_names [] = []
ordered_names (name ∷ names) = insert_name (lower name) (ordered_names names)

abbrev or_at : {A : Type 0} → Option A → A → A
or_at none a = a
or_at (some x) a = x

abbrev pub day : ℕ
day = 86400

abbrev pub backdate : ℕ
backdate = 60

abbrev begins : Option ℕ → ℕ → ℕ
begins none earliest = earliest
begins (some at) earliest = max at earliest

unfoldable pub validity : Issuer → OrderRow → ℕ → Result ProblemType Validity
validity issuer order now =
    let from = begins order.not_before (now - backdate) in
    let until =
      min
        (min (or_at order.not_after (from + day * issuer.config.leaf_days))
          (from + day * issuer.config.leaf_max_days))
        issuer.subordinate_not_after in
    if leb until from
    then err ProblemType.malformed
    else ok (record { not_before = from; not_after = until })

unfoldable pub fitting : List SubjectAltName → List Text
fitting [] = []
fitting (dns name ∷ rest) =
    let more = fitting rest in if leb (length name) 64 then lower name ∷ more else more
fitting (_ ∷ rest) = fitting rest

abbrev pub first_of : List Text → Option Text
first_of [] = none
first_of (x ∷ xs) = some x

abbrev pub chosen : Option Text → List Text → Option Text
chosen none names = first_of names
chosen (some cn) names =
    if any (λ x. text_eq x (lower cn)) names then some (lower cn) else first_of names

unfoldable pub leaf_common_name : Csr → Option Text
leaf_common_name csr = chosen csr.common_name (fitting csr.names)

-- `issue` once the names are known, and from the CSR that was read; `signed` is what signing makes, the
-- serial and the chain, or none when it fails.
abbrev pub leaf_of : Issuer → Csr → List Text → Validity → String × String → NewCertificate
leaf_of issuer csr names v signed = record {
  serial = signed.0;
  common_name = leaf_common_name csr;
  sans = names;
  not_before = v.not_before;
  not_after = v.not_after;
  chain_pem = signed.1;
  issuer_serial = issuer.subordinate_serial;
}

unfoldable pub sign_leaf :
    Issuer
    → Csr
    → Option (String × String)
    → List Text
    → Validity
    → Result ProblemType NewCertificate
sign_leaf issuer csr none names v = err ProblemType.server_internal
sign_leaf issuer csr (some signed) names v = ok (leaf_of issuer csr names v signed)

unfoldable pub issue_named :
    Issuer
    → OrderRow
    → Csr
    → ℕ
    → Option (String × String)
    → List Text
    → Result ProblemType NewCertificate
issue_named issuer order csr now signed names =
    let leaf = bind (validity issuer order now) (sign_leaf issuer csr signed names) in
    if same_names names (ordered_names order.identifiers) then leaf else err ProblemType.bad_csr

unfoldable pub issue_checked :
    Hosts
    → Issuer
    → OrderRow
    → Csr
    → ℕ
    → Option (String × String)
    → Unit {0}
    → Result ProblemType NewCertificate
issue_checked h issuer order csr now signed u =
    bind (requested_names h issuer csr) (issue_named issuer order csr now signed)

unfoldable pub issue_csr :
    Hosts
    → Issuer
    → OrderRow
    → Text
    → ℕ
    → Option (String × String)
    → Csr
    → Result ProblemType NewCertificate
issue_csr h issuer order account_key now signed csr =
    let checked = bind (check_key csr.key) (issue_checked h issuer order csr now signed) in
    if text_eq csr.spki account_key then err ProblemType.bad_csr else checked

-- `csr` is the CSR that was read, or none when it can't be or its signature fails.
unfoldable pub issue_leaf :
    Hosts
    → Issuer
    → OrderRow
    → Option Csr
    → Text
    → ℕ
    → Option (String × String)
    → Result ProblemType NewCertificate
issue_leaf h issuer order none account_key now signed = err ProblemType.bad_csr
issue_leaf h issuer order (some csr) account_key now signed =
    issue_csr h issuer order account_key now signed csr
