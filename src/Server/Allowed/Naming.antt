-- ===== src/Server/Allowed/Naming.antt =====
-- What `names` and `authorisation_for` of crates/opca-acme-broker/src/acme/server.rs let through.
use op_ca.Prelude.{
  Text, ℕ, ◌≡◌, refl, ap₂, Bool, true, false, not, ◌||◌, List, [], ◌∷◌, Result, ok, err, bind-ok,
  All, arith, ltb, length, ◌==◌, text_eq, codes, Bool-cases, inl, inr, filter, map,
}
use op_ca.Problem.{ProblemType}
use op_ca.Hosts.{Hosts, lower, insert_name, check_identifier, base_of}
use op_ca.Hosts.Identifiers.{Issuable, check_identifier-Issuable}
use op_ca.Issue.Names.{insert-All}
use op_ca.Store.Tables.{ChallengeType}
use op_ca.Store.Orders.{NewAuthorisation}
use op_ca.Server.{or_problem, Identifier}
use op_ca.Server.Ordering.{
  name_of, collect_identifiers, names, max_identifiers, is_wildcard, is_dns_01, authorisation_for,
  authorisations_for, offer,
}
use op_ca.Server.Allowed.{OffersFor}

pub or_problem-ok : {A : Type 0} (r : Result ProblemType A) (a : A) → or_problem r ≡ ok a → r ≡ ok a
or_problem-ok (ok x) a h = ground arith
or_problem-ok (err e) a h = absurd (cc h)

module _ (h : Hosts) (permitted : List Text) where
  name_of-Issuable :
      (identifier : Identifier) (name : Text)
      → name_of h permitted identifier ≡ ok name
      → Issuable h name permitted
  unfolding name_of
  name_of-Issuable identifier name e = elim (Bool-cases (text_eq identifier.kind (codes "dns"))) [
    | inl dns ↦
        let (u, checks, same) =
          bind-ok (check_identifier h (lower identifier.value) permitted)
            (λ u. ok (lower identifier.value)) name (ground arith) in
        let is : lower identifier.value ≡ name = ground arith in
        rw (← is) (check_identifier-Issuable h (lower identifier.value) permitted checks)
    | inr other ↦ absurd (ground arith)
  ]

  collect_identifiers-All :
      (asked : List Identifier) (found names : List Text)
      → All (λ n. Issuable h n permitted) found
      → collect_identifiers h permitted asked found ≡ ok names
      → All (λ n. Issuable h n permitted) names
  unfolding collect_identifiers
  collect_identifiers-All [] found names a e =
      let same : found ≡ names = ground arith in rw (← same) a
  collect_identifiers-All (identifier ∷ rest) found names a e =
      let (name, is, more) = bind-ok (name_of h permitted identifier) _ names e in
      collect_identifiers-All rest (insert_name name found) names
        (insert-All (λ n. Issuable h n permitted) name found (name_of-Issuable identifier name is)
          a)
        more

  pub names-All :
      (asked : List Identifier) (found : List Text)
      → names h asked permitted ≡ ok found
      → All (λ n. Issuable h n permitted) found
  unfolding names
  names-All asked found e =
      elim (Bool-cases (length asked == 0 || ltb max_identifiers (length asked))) [
        | inl many ↦ absurd (ground arith)
        | inr fine ↦ collect_identifiers-All asked [] found tt (ground arith)
      ]

offered-dns_01 :
    (wild : Bool) (offered : List ChallengeType)
    → wild ≡ true
    → All (λ k. k ≡ ChallengeType.dns_01) (filter (λ kind. not wild || is_dns_01 kind) offered)
unfolding is_dns_01
offered-dns_01 false offered e = absurd (cc e)
offered-dns_01 true [] e = tt
offered-dns_01 true (ChallengeType.dns_01 ∷ rest) e = (refl, offered-dns_01 true rest e)
offered-dns_01 true (ChallengeType.http_01 ∷ rest) e = offered-dns_01 true rest e
offered-dns_01 true (ChallengeType.tls_alpn_01 ∷ rest) e = offered-dns_01 true rest e

authorisation_for_lem :
    (name : Text) (offered : List ChallengeType) (until : ℕ) (new : NewAuthorisation)
    → authorisation_for name offered until ≡ ok new
    → (new.identifier ≡ base_of name) × OffersFor new
unfolding authorisation_for
authorisation_for_lem name offered until new e =
    from (filter (λ kind. not (is_wildcard name) || is_dns_01 kind) offered)
      (offered-dns_01 (is_wildcard name) offered) e
  where
    from :
        (kinds : List ChallengeType)
        → (is_wildcard name ≡ true → All (λ k. k ≡ ChallengeType.dns_01) kinds)
        → offer name until kinds ≡ ok new
        → (new.identifier ≡ base_of name) × OffersFor new
    from [] f e = absurd (cc e)
    from (kind ∷ kinds) f e =
        let same : record {
          identifier = base_of name;
          wildcard = is_wildcard name;
          expires = until;
          challenges = kind ∷ kinds;
        }
            ≡ new =
          ground arith in
        rw (← same) (refl, f)

pub authorisations_for_lem :
    (names : List Text) (offered : List ChallengeType) (until : ℕ) (news : List NewAuthorisation)
    → authorisations_for names offered until ≡ ok news
    → (map (λ (a : NewAuthorisation). a.identifier) news ≡ map base_of names) × All OffersFor news
unfolding authorisations_for
authorisations_for_lem [] offered until news e =
    let same : [] ≡ news = ground arith in rw (← same) (refl, tt)
authorisations_for_lem (name ∷ rest) offered until news e =
    let (new, one, e1) = bind-ok (authorisation_for name offered until) _ news e in
    let (others, more, e2) = bind-ok (authorisations_for rest offered until) _ news e1 in
    let same : new ∷ others ≡ news = ground arith in
    let (base, offers) = authorisation_for_lem name offered until new one in
    let (bases, all) = authorisations_for_lem rest offered until others more in
    rw (← same) (ap₂ ◌∷◌ base bases, (offers, all))
