-- ===== src/Hosts/Identifiers.antt =====
-- Which names are issued for.
use op_ca.Prelude.{
  Text, ℕ, ◌≡◌, refl, ap, true, false, ◌&&◌, Option, none, some, List, [], ◌∷◌, ◌++◌, ◌⊎◌, inl, inr,
  arith, ok, any, text_eq, text_eq_iff, Bool-cases, ◌==◌,
}
use op_ca.Hosts.{
  is_text, Hosts, lower, lower_code, trim_dots, ends_with, base_of, within, host_within,
  is_issuable, check_identifier,
}

-- A host equal to a domain, or under it: some labels and a dot in front of it.
abbrev pub Under : Text → Text → Type 0
Under host domain = (host ≡ domain) ⊎ ((front : Text) × (host ≡ front ++ b'.' ∷ domain))

-- Under one of the domains, in lower case.
abbrev pub UnderOne : Text → List Text → Type 0
UnderOne host [] = ⊥
UnderOne host (domain ∷ domains) = Under host (lower domain) ⊎ UnderOne host domains

ends_with_lem :
    (suffix text : Text) → ends_with suffix text ≡ true → (front : Text) × (text ≡ front ++ suffix)
unfolding ends_with
ends_with_lem suffix [] h = ([], (text_eq_iff [] suffix).0 h)
ends_with_lem suffix (c ∷ text) h = elim (Bool-cases (text_eq (c ∷ text) suffix)) [
  | inl e ↦ ([], (text_eq_iff (c ∷ text) suffix).0 e)
  | inr e ↦
      let (front, same) = ends_with_lem suffix text (ground arith) in (c ∷ front, ap (◌∷◌ c) same)
]

within-Under : (host domain : Text) → within host domain ≡ true → Under host (lower domain)
unfolding within
within-Under host domain h = elim (Bool-cases (text_eq host (lower domain))) [
  | inl e ↦ inl ((text_eq_iff host (lower domain)).0 e)
  | inr e ↦ inr (ends_with_lem (b'.' ∷ lower domain) host (ground arith))
]

any-UnderOne :
    (host : Text) (domains : List Text) → any (within host) domains ≡ true → UnderOne host domains
any-UnderOne host [] h = absurd (cc h)
any-UnderOne host (domain ∷ domains) h = elim (Bool-cases (within host domain)) [
  | inl e ↦ inl (within-Under host domain e)
  | inr e ↦ inr (any-UnderOne host domains (ground arith))
]

-- A text that does not end in a dot is not trimmed.
trim_dots_lem : (text : Text) → ends_with (b'.' ∷ []) text ≡ false → trim_dots text ≡ text
unfolding trim_dots ends_with
trim_dots_lem [] h = refl
trim_dots_lem (c ∷ text) h =
    let rest = trim_dots_lem text (ground arith) in rw rest (ground (arith, text_eq_iff text []))

lower_code_twice : (c : ℕ) → lower_code (lower_code c) ≡ lower_code c
unfolding lower_code
lower_code_twice c = ground arith

lower-base_of : (name : Text) → lower name ≡ name → lower (base_of name) ≡ base_of name
unfolding base_of
lower-base_of [] h = refl
lower-base_of (c ∷ []) h = h
lower-base_of (c ∷ d ∷ text) h = ground arith

base_of_lem : (name : Text) → (name ≡ base_of name) ⊎ (name ≡ b'*' ∷ b'.' ∷ base_of name)
unfolding base_of
base_of_lem [] = inl refl
base_of_lem (c ∷ []) = inl refl
base_of_lem (c ∷ d ∷ text) = elim (Bool-cases ((c == b'*') && (d == b'.'))) [
  | inl e ↦
      let star : c ≡ b'*' = ground arith in
      let dot : d ≡ b'.' = ground arith in rw e (inr (rw (star, dot) refl))
  | inr e ↦ rw e (inl refl)
]

is_text_lem : (t : Option Text) (text : Text) → is_text t text ≡ true → t ≡ some text
is_text_lem none text h = absurd (cc h)
is_text_lem (some t) text h = ap some ((text_eq_iff t text).0 h)

-- What is known of a name that is issued for; `base` is the name without a wildcard's label.
pub record Issuable (h : Hosts) (name : Text) (permitted : List Text) : Type 0 where
  pub base : Text
  pub labels : (name ≡ base) ⊎ (name ≡ b'*' ∷ b'.' ∷ base)
  pub no_ip : h.is_ip name ≡ false
  pub base_no_ip : h.is_ip base ≡ false
  pub no_star : any (λ c. c == b'*') base ≡ false
  pub lower_case : lower name ≡ name
  pub hostname : h.is_hostname base ≡ true
  pub a_labels : h.to_ascii base ≡ some base
  pub under : UnderOne base permitted

host_within-UnderOne :
    (h : Hosts) (host : Text) (domains : List Text)
    → ends_with (b'.' ∷ []) host ≡ false
    → lower host ≡ host
    → host_within h host domains ≡ true
    → UnderOne host domains
unfolding host_within
host_within-UnderOne h host domains undotted lowered passed =
    any-UnderOne host domains (ground (arith, trim_dots_lem host undotted, lowered, passed))

-- A host that `host_within` lets through is no IP address.
host_within-no_ip :
    (h : Hosts) (host : Text) (domains : List Text)
    → ends_with (b'.' ∷ []) host ≡ false
    → lower host ≡ host
    → host_within h host domains ≡ true
    → h.is_ip host ≡ false
unfolding host_within
host_within-no_ip h host domains undotted lowered passed =
    ground (arith, trim_dots_lem host undotted, lowered, passed)

is_issuable-Issuable :
    (h : Hosts) (name : Text) (permitted : List Text)
    → is_issuable h name permitted ≡ true
    → Issuable h name permitted
unfolding is_issuable
is_issuable-Issuable h name permitted passed =
    let lowered : lower name ≡ name = (text_eq_iff (lower name) name).0 (ground arith) in
    record {
      base = base_of name;
      labels = base_of_lem name;
      no_ip = ground arith;
      base_no_ip =
          host_within-no_ip h (base_of name) permitted (ground arith) (lower-base_of name lowered)
            (ground arith);
      no_star = ground arith;
      lower_case = lowered;
      hostname = ground arith;
      a_labels = is_text_lem (h.to_ascii (base_of name)) (base_of name) (ground arith);
      under =
          host_within-UnderOne h (base_of name) permitted (ground arith)
            (lower-base_of name lowered) (ground arith);
    }

-- A name that passes `check_identifier` is a lower-case A-label host name after at most one wildcard as
-- its whole leftmost label; neither the name nor that host is an IP address, and the host is equal to or
-- under a permitted domain.
pub check_identifier-Issuable :
    (h : Hosts) (name : Text) (permitted : List Text)
    → check_identifier h name permitted ≡ ok tt
    → Issuable h name permitted
unfolding check_identifier
check_identifier-Issuable h name permitted passed =
    is_issuable-Issuable h name permitted (ground arith)
