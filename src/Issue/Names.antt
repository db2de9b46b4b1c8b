-- ===== src/Issue/Names.antt =====
-- The names that are collected from a CSR.
use op_ca.Prelude.{
  Text, ◌≤◌, ◌≡◌, refl, ap, ◌∙◌, map, Bool, true, false, ◌||◌, Option, none, some, List, [], ◌∷◌,
  ok, bind-ok, any, length, All, text_eq, text_eq_iff, arith, Bool-cases, inl, inr, leb,
}
use op_ca.Hosts.{Hosts, lower, insert_name, same_names, check_identifier, comes_before}
use op_ca.Issue.{
  ordered_names, SubjectAltName, dns, ip, other_name, collect_names, fitting, first_of, chosen,
}
use op_ca.Hosts.Identifiers.{Issuable, check_identifier-Issuable}

abbrev pub has : Text → List Text → Bool
has x names = any (text_eq x) names

pub insert-All :
    (P : Text → Type 0) (x : Text) (names : List Text)
    → P x
    → All P names
    → All P (insert_name x names)
unfolding insert_name
insert-All P x [] p h = (p, tt)
insert-All P x (y ∷ names) p h = elim (Bool-cases (text_eq x y)) [
  | inl e ↦ rw e h
  | inr e ↦ elim (Bool-cases (comes_before x y)) [
    | inl f ↦ rw (e, f) (p, h)
    | inr f ↦ rw (e, f) (h.0, insert-All P x names p h.1)
  ]
]

has-insert :
    (z x : Text) (names : List Text) → has z (insert_name x names) ≡ (text_eq z x || has z names)
unfolding insert_name
has-insert z x [] = refl
has-insert z x (y ∷ names) = ground (arith, text_eq_iff x y, has-insert z x names)

pub same_names_iff : (xs ys : List Text) → same_names xs ys ≡ true → xs ≡ ys
unfolding same_names
same_names_iff [] [] h = refl
same_names_iff [] (y ∷ ys) h = absurd (cc h)
same_names_iff (x ∷ xs) [] h = absurd (cc h)
same_names_iff (x ∷ xs) (y ∷ ys) h = ground (arith, text_eq_iff x y, same_names_iff xs ys)

module _ (h : Hosts) (permitted : List Text) where
  -- The names so far stay, each is issuable, and each of the CSR's DNS names is there.
  pub collect_names-All :
      (asked : List SubjectAltName) (names found : List Text)
      → All (λ n. Issuable h n permitted) names
      → collect_names h permitted asked names ≡ ok found
      → All (λ n. Issuable h n permitted) found
  unfolding collect_names
  collect_names-All [] names found a e = let same : names ≡ found = ground arith in rw (← same) a
  collect_names-All (dns name ∷ rest) names found a e =
      let (u, checks, more) = bind-ok (check_identifier h (lower name) permitted) _ found e in
      collect_names-All rest (insert_name (lower name) names) found
        (insert-All (λ n. Issuable h n permitted) (lower name) names
          (check_identifier-Issuable h (lower name) permitted checks) a)
        more
  collect_names-All (ip address ∷ rest) names found a e = absurd (cc e)
  collect_names-All (other_name ∷ rest) names found a e = absurd (cc e)

  collect_names-has :
      (asked : List SubjectAltName) (names found : List Text) (z : Text)
      → collect_names h permitted asked names ≡ ok found
      → has z names ≡ true
      → has z found ≡ true
  unfolding collect_names
  collect_names-has [] names found z e a = let same : names ≡ found = ground arith in rw (← same) a
  collect_names-has (dns name ∷ rest) names found z e a =
      let (u, checks, more) = bind-ok (check_identifier h (lower name) permitted) _ found e in
      collect_names-has rest (insert_name (lower name) names) found z more
        (ground (arith, has-insert z (lower name) names, a))
  collect_names-has (ip address ∷ rest) names found z e a = absurd (cc e)
  collect_names-has (other_name ∷ rest) names found z e a = absurd (cc e)

  pub collect-fitting :
      (asked : List SubjectAltName) (names found : List Text)
      → collect_names h permitted asked names ≡ ok found
      → All (λ z. has z found ≡ true) (fitting asked)
  unfolding collect_names fitting
  collect-fitting [] names found e = tt
  collect-fitting (dns name ∷ rest) names found e =
      let (u, checks, more) = bind-ok (check_identifier h (lower name) permitted) _ found e in
      let there : has (lower name) found ≡ true =
        collect_names-has rest (insert_name (lower name) names) found (lower name) more (
          ground (
            arith,
            has-insert (lower name) (lower name) names,
            text_eq_iff (lower name) (lower name),
          )) in
      let others = collect-fitting rest (insert_name (lower name) names) found more in
      elim (Bool-cases (leb (length name) 64)) [
        | inl fits ↦ rw fits (there, others)
        | inr long ↦ rw long others
      ]
  collect-fitting (ip address ∷ rest) names found e = absurd (cc e)
  collect-fitting (other_name ∷ rest) names found e = absurd (cc e)

-- Whether a name is one of those asked for, in lower case.
abbrev pub asks : Text → List Text → Bool
asks z asked = any (λ n. text_eq z (lower n)) asked

-- Names are collected only where all are DNS names, and then they are these and those before.
pub collect_names-dns :
    (h : Hosts) (permitted : List Text) (names : List SubjectAltName) (before found : List Text)
    → collect_names h permitted names before ≡ ok found
    → (asked : List Text) × (names ≡ map dns asked)
      × ((z : Text) → has z found ≡ (asks z asked || has z before))
unfolding collect_names
collect_names-dns h permitted [] before found e =
    let same : before ≡ found = ground arith in ([], refl, λ z. rw same refl)
collect_names-dns h permitted (dns name ∷ rest) before found e =
    let (u, checks, more) = bind-ok (check_identifier h (lower name) permitted) _ found e in
    let (asked, all, there) =
      collect_names-dns h permitted rest (insert_name (lower name) before) found more in
    (
      name ∷ asked,
      ap (◌∷◌ (dns name)) all,
      λ z.
          there z
          ∙ either (asks z asked) (text_eq z (lower name)) z (has-insert z (lower name) before),
    )
  where
    either :
        (a b : Bool) (z : Text)
        → has z (insert_name (lower name) before) ≡ (b || has z before)
        → (a || has z (insert_name (lower name) before)) ≡ ((b || a) || has z before)
    either a b z e = ground (arith, e)
collect_names-dns h permitted (ip address ∷ rest) before found e = absurd (cc e)
collect_names-dns h permitted (other_name ∷ rest) before found e = absurd (cc e)

pub has-ordered_names : (z : Text) (names : List Text) → has z (ordered_names names) ≡ asks z names
unfolding ordered_names
has-ordered_names z [] = refl
has-ordered_names z (name ∷ names) =
    has-insert z (lower name) (ordered_names names)
    ∙ ap (λ b. text_eq z (lower name) || b) (has-ordered_names z names)

pub has-none : (b : Bool) → (b || false) ≡ b
has-none true = refl
has-none false = refl

length-lower : (text : Text) → length (lower text) ≡ length text
length-lower [] = refl
length-lower (c ∷ text) = omega (arith, length-lower text)

pub fitting-length : (asked : List SubjectAltName) → All (λ z. length z ≤ 64) (fitting asked)
unfolding fitting
fitting-length [] = tt
fitting-length (dns name ∷ rest) = elim (Bool-cases (leb (length name) 64)) [
  | inl fits ↦
      let short : length name ≤ 64 = ground arith in
      rw fits (omega (arith, length-lower name), fitting-length rest)
  | inr long ↦ rw long (fitting-length rest)
]
fitting-length (ip address ∷ rest) = fitting-length rest
fitting-length (other_name ∷ rest) = fitting-length rest

module _ (P : Text → Type 0) where
  first-All : (names : List Text) (z : Text) → All P names → first_of names ≡ some z → P z
  first-All [] z a e = absurd (cc e)
  first-All (x ∷ names) z a e = let same : x ≡ z = ground arith in rw (← same) a.0

  any-All : (w : Text) (names : List Text) → All P names → any (λ x. text_eq x w) names ≡ true → P w
  any-All w [] a e = absurd (cc e)
  any-All w (x ∷ names) a e = elim (Bool-cases (text_eq x w)) [
    | inl s ↦ rw (← (text_eq_iff x w).0 s) a.0
    | inr s ↦ any-All w names a.1 (ground arith)
  ]

  pub chosen-All :
      (cn : Option Text) (names : List Text) (z : Text)
      → All P names
      → chosen cn names ≡ some z
      → P z
  chosen-All none names z a e = first-All names z a e
  chosen-All (some cn) names z a e = elim (Bool-cases (any (λ x. text_eq x (lower cn)) names)) [
    | inl s ↦ let same : lower cn ≡ z = ground arith in rw (← same) (any-All (lower cn) names a s)
    | inr s ↦ first-All names z a (ground arith)
  ]
