-- ===== src/Tests/Issue.antt =====
-- The theorems of issuing at a concrete CSR and order.
use op_ca.Prelude.{◌+◌, ◌*◌, ◌≤◌, ◌<◌, ◌≡◌, refl, true, false, none, some, [], ◌∷◌, ok, codes}
use op_ca.Hosts.{
  Hosts, lower_code, insert_name, same_names, comes_before, trim_dots, ends_with, base_of, within,
  host_within, is_issuable, check_identifier,
}
use op_ca.Hosts.Identifiers.{Issuable, check_identifier-Issuable}
use op_ca.Issue.{
  Csr, Issuer, Validity, dns, rsa, check_key, collect_names, requested_names, ordered_names,
  validity, day, backdate, fitting, leaf_common_name, sign_leaf, issue_named, issue_checked,
  issue_csr, issue_leaf,
}
use op_ca.Store.Status.{OrderStatus}
use op_ca.Store.Tables.{OrderRow}
use op_ca.Store.Certificates.{NewCertificate}
use op_ca.Issue.Period.{NotBefore, NotAfter, validity_lem}
use op_ca.Issue.Leaves.{Issued, issue_leaf-Issued}

abbrev hosts : Hosts
hosts = record { is_ip = λ text. false; is_hostname = λ text. true; to_ascii = λ text. some text }

abbrev issuer : Issuer
issuer = record {
  subordinate_serial = "9";
  subordinate_not_after = 10000000;
  config = record {
    permitted_domains = codes "Example.com" ∷ [];
    leaf_days = 90;
    leaf_max_days = 100;
    challenges = [];
  };
}

abbrev order : OrderRow
order = record {
  id = 0;
  account = 0;
  status = OrderStatus.ready;
  identifiers = codes "b.example.com" ∷ codes "*.A.example.com" ∷ [];
  not_before = some 5;
  not_after = some 9000000;
  expires = 2000;
  error = none;
  certificate = none;
  created = 0;
}

abbrev csr : Csr
csr = record {
  spki = 7 ∷ [];
  key = rsa (some 2048);
  names = dns (codes "*.a.example.com") ∷ dns (codes "B.example.com") ∷ [];
  common_name = some (codes "B.EXAMPLE.com");
}

abbrev leaf : NewCertificate
leaf = record {
  serial = "1";
  common_name = some (codes "b.example.com");
  sans = codes "*.a.example.com" ∷ codes "b.example.com" ∷ [];
  not_before = 940;
  not_after = 8640940;
  chain_pem = "pem";
  issuer_serial = "9";
}

issues : issue_leaf hosts issuer order (some csr) (8 ∷ []) 1000 (some ("1", "pem")) ≡ ok leaf
unfolding issue_leaf issue_csr check_key issue_checked requested_names collect_names
    check_identifier is_issuable host_within within base_of ends_with trim_dots lower_code
    insert_name comes_before issue_named same_names ordered_names validity sign_leaf
    leaf_common_name fitting
issues = refl

issue_leaf-Issued_example :
    (read : Csr) × (some csr ≡ some read) × Issued hosts issuer order read (8 ∷ []) 1000 leaf
issue_leaf-Issued_example =
    issue_leaf-Issued hosts issuer order (some csr) (8 ∷ []) 1000 (some ("1", "pem")) leaf issues

abbrev period : Validity
period = record { not_before = 940; not_after = 8640940 }

valid : validity issuer order 1000 ≡ ok period
unfolding validity
valid = refl

validity_lem_example :
    (940 < 8640940)
    × (1000 ≤ 940 + backdate)
    × NotBefore (some 5) 940
    × NotAfter (some 9000000) 8640940
    × (8640940 ≤ 940 + day * 100)
    × (8640940 ≤ 10000000)
validity_lem_example = validity_lem issuer order 1000 period valid

passes : check_identifier hosts (codes "*.a.example.com") (codes "Example.com" ∷ []) ≡ ok tt
unfolding check_identifier is_issuable host_within within base_of ends_with trim_dots lower_code
passes = refl

check_identifier-Issuable_example :
    Issuable hosts (codes "*.a.example.com") (codes "Example.com" ∷ [])
check_identifier-Issuable_example =
    check_identifier-Issuable hosts (codes "*.a.example.com") (codes "Example.com" ∷ []) passes
