-- ===== src/Server/Ordering.antt =====
-- The handlers on orders of crates/opca-acme-broker/src/acme/server.rs: `new_order`, `order` and
-- `finalise`, with `Issuer::finalise` of issue.rs.
use op_ca.Prelude.{
  Text, ℕ, ◌+◌, Bool, true, false, not, ◌&&◌, ◌||◌, Option, none, some, List, [], ◌∷◌, Result, ok,
  err, bind, filter, length, ltb, text_eq, codes, ◌==◌, if◌then◌else◌,
}
use op_ca.Problem.{ProblemType}
use op_ca.Base64url.{from_base64url}
use op_ca.Hosts.{Hosts, lower, insert_name, check_identifier, base_of}
use op_ca.Issue.{Issuer, issue_leaf}
use op_ca.Store.Status.{OrderStatus}
use op_ca.Store.Tables.{ChallengeType, Error}
use op_ca.Store.Orders
use op_ca.Store.Orders.{Order, NewOrder, NewAuthorisation}
use op_ca.Store.Certificates
use op_ca.Server.{
  Act, ◌>>=◌, ◌>>◌, pure, tell, now, transact, or_problem, or_stored, or_refuse, Refusal, refusal,
  Identifier, Crates, World, Post, Reply, order_reply, url_of, as_get, by_account, order_of,
  issuing,
}

-- One identifier's name, as far as it is issued for.
unfoldable pub name_of : Hosts → List Text → Identifier → Result ProblemType Text
name_of h permitted identifier =
    if text_eq identifier.kind (codes "dns")
    then bind (check_identifier h (lower identifier.value) permitted)
        (λ u. ok (lower identifier.value))
    else if text_eq identifier.kind (codes "ip")
    then err ProblemType.rejected_identifier
    else err ProblemType.unsupported_identifier

-- The set of names, of the names so far.
unfoldable pub collect_identifiers :
    Hosts → List Text → List Identifier → List Text → Result ProblemType (List Text)
collect_identifiers h permitted [] names = ok names
collect_identifiers h permitted (identifier ∷ rest) names =
    bind (name_of h permitted identifier)
      (λ name. collect_identifiers h permitted rest (insert_name name names))

abbrev pub max_identifiers : ℕ
max_identifiers = 100

-- The DNS names the identifiers ask for, lower-case, each one the broker issues for.
unfoldable pub names : Hosts → List Identifier → List Text → Result ProblemType (List Text)
names h identifiers permitted =
    if length identifiers == 0 || ltb max_identifiers (length identifiers)
    then err ProblemType.malformed
    else collect_identifiers h permitted identifiers []

unfoldable pub is_wildcard : Text → Bool
is_wildcard [] = false
is_wildcard (c ∷ []) = false
is_wildcard (c ∷ d ∷ text) = (c == b'*') && (d == b'.')

unfoldable pub is_dns_01 : ChallengeType → Bool
is_dns_01 ChallengeType.dns_01 = true
is_dns_01 _ = false

abbrev pub offer : Text → ℕ → List ChallengeType → Result ProblemType NewAuthorisation
offer name expires [] = err ProblemType.rejected_identifier
offer name expires (kind ∷ kinds) = ok (record {
  identifier = base_of name;
  wildcard = is_wildcard name;
  expires = expires;
  challenges = kind ∷ kinds;
})

-- A wildcard is validated only by dns-01, as RFC 8555 §7.1.3 has it.
unfoldable pub authorisation_for :
    Text → List ChallengeType → ℕ → Result ProblemType NewAuthorisation
authorisation_for name offered expires =
    offer name expires (filter (λ kind. not (is_wildcard name) || is_dns_01 kind) offered)

unfoldable pub authorisations_for :
    List Text → List ChallengeType → ℕ → Result ProblemType (List NewAuthorisation)
authorisations_for [] offered expires = ok []
authorisations_for (name ∷ rest) offered expires =
    bind (authorisation_for name offered expires)
      (λ new. bind (authorisations_for rest offered expires) (λ news. ok (new ∷ news)))

module _ (c : Crates) where
  unfoldable pub instant : Option Text → Result ProblemType (Option ℕ)
  instant none = ok none
  instant (some text) = elim (c.parse_stamp text) [
    | none ↦ err ProblemType.malformed
    | some at ↦ ok (some at)
  ]

abbrev pub lifetime_of : Act ℕ
lifetime_of s = (ok s.lifetime, s)

abbrev pub is_processing_order : OrderStatus → Bool
is_processing_order OrderStatus.processing = true
is_processing_order _ = false

unfoldable pub check_ready : OrderStatus → Result Refusal (Unit {0})
check_ready OrderStatus.ready = ok tt
check_ready _ = err (refusal ProblemType.order_not_ready)

abbrev pub or_internal : {A : Type 0} → Result Error A → Result Refusal A
or_internal (ok a) = ok a
or_internal (err e) = err (refusal ProblemType.server_internal)

module _ (c : Crates) (w : World) where
  unfoldable pub new_order : Post → Act Reply
  new_order post = do
    signed ← by_account c w post
    request ← tell (or_refuse (c.parse_order signed.2) ProblemType.malformed)
    issuer ← issuing
    names ← tell (or_problem (names c.hosts request.identifiers issuer.config.permitted_domains))
    at ← now w
    lifetime ← lifetime_of
    authorisations ←
        tell (or_problem (authorisations_for names issuer.config.challenges (at + lifetime)))
    not_before ← tell (or_problem (instant c request.not_before))
    not_after ← tell (or_problem (instant c request.not_after))
    made ← transact w (λ later. Orders.create_order w.draws later (record {
      account = signed.0.id;
      identifiers = names;
      not_before = not_before;
      not_after = not_after;
      expires = at + lifetime;
      authorisations = authorisations;
    }))
    order ← tell (or_stored made)
    pure (order_reply 201 (some (url_of post "order" order.row.id)) false order)

  unfoldable pub order : ℕ → Post → Act Reply
  order id post = do
    signed ← by_account c w post
    empty ← tell (as_get signed.2)
    order ← order_of c w id signed.0
    pure (order_reply 200 none (is_processing_order order.row.status) order)

  -- `Issuer::finalise`
  unfoldable pub finalise_order : Issuer → Order → List ℕ → Text → Act (Unit {0})
  finalise_order issuer order csr account_key = do
    at ← now w
    leaf ←
        tell (
          or_problem (issue_leaf c.hosts issuer order.row (c.read_csr csr) account_key at w.signed))
    recorded ← transact w (Certificates.record_certificate order.row.id leaf)
    certificate ← tell (or_internal recorded)
    pure tt

  unfoldable pub finalise : ℕ → Post → Act Reply
  finalise id post = do
    signed ← by_account c w post
    ready ← order_of c w id signed.0
    is_ready ← tell (check_ready ready.row.status)
    request ← tell (or_refuse (c.parse_finalise signed.2) ProblemType.malformed)
    csr ← tell (or_refuse (from_base64url request) ProblemType.bad_csr)
    issuer ← issuing
    finalise_order issuer ready csr (c.subject_public_key_info signed.1)
    order ← order_of c w id signed.0
    pure (order_reply 200 (some (url_of post "order" id)) false order)
