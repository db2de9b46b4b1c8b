-- ===== src/Hosts.antt =====
-- Which names the broker issues for: `check_identifier` of
-- crates/opca-acme-broker/src/acme/issue.rs and `host_within` of enrolment.rs, and sets of names. The
-- host names of wslib_dns and the reader of IP addresses are parameters; texts are the lists of their
-- characters' codes.
pub mod Identifiers
use op_ca.Prelude.{
  Text, ℕ, ◌+◌, ◌-◌, ◌*◌, ◌==◌, ltb, leb, min, max, String, Bool, true, false, not, ◌&&◌, ◌||◌,
  Option, none, some, List, [], ◌∷◌, ◌++◌, Result, ok, err, bind, any, map, filter, length, text_eq,
  codes, str_eq, if◌then◌else◌,
}
use op_ca.Problem.{ProblemType}

-- A BTreeSet's order.
unfoldable pub comes_before : Text → Text → Bool
comes_before [] [] = false
comes_before [] (d ∷ y) = true
comes_before (c ∷ x) [] = false
comes_before (c ∷ x) (d ∷ y) = if c == d then comes_before x y else ltb c d

-- A set of names, in order and each once.
unfoldable pub insert_name : Text → List Text → List Text
insert_name x [] = x ∷ []
insert_name x (y ∷ names) =
    let rest = insert_name x names in
    if text_eq x y then y ∷ names else if comes_before x y then x ∷ y ∷ names else y ∷ rest

unfoldable pub same_names : List Text → List Text → Bool
same_names [] [] = true
same_names (x ∷ xs) (y ∷ ys) = text_eq x y && same_names xs ys
same_names _ _ = false

-- `to_ascii_lowercase`
unfoldable pub lower_code : ℕ → ℕ
lower_code c = if leb b'A' c && leb c b'Z' then c + 32 else c

abbrev pub lower : Text → Text
lower text = map lower_code text

-- `trim_end_matches('.')`, `ends_with`, `strip_prefix("*.")` and `contains('*')`
unfoldable pub trim_dots : Text → Text
trim_dots [] = []
trim_dots (c ∷ text) =
    let rest = trim_dots text in if (c == b'.') && text_eq rest [] then [] else c ∷ rest

unfoldable pub ends_with : Text → Text → Bool
ends_with suffix [] = text_eq [] suffix
ends_with suffix (c ∷ text) = text_eq (c ∷ text) suffix || ends_with suffix text

unfoldable pub base_of : Text → Text
base_of [] = []
base_of (c ∷ []) = c ∷ []
base_of (c ∷ d ∷ text) = if (c == b'*') && (d == b'.') then text else c ∷ d ∷ text

-- The readers that are not this code.
pub record Hosts : Type 0 where
  pub is_ip : Text → Bool
  pub is_hostname : Text → Bool
  pub to_ascii : Text → Option Text

unfoldable pub within : Text → Text → Bool
within host domain = text_eq host (lower domain) || ends_with (b'.' ∷ lower domain) host

unfoldable pub host_within : Hosts → Text → List Text → Bool
host_within h host domains =
    let name = lower (trim_dots host) in not (h.is_ip name) && any (within name) domains

abbrev pub is_text : Option Text → Text → Bool
is_text none text = false
is_text (some t) text = text_eq t text

-- Each refusal is `rejectedIdentifier`; the reasons are in the order of the code.
unfoldable pub is_issuable : Hosts → Text → List Text → Bool
is_issuable h name permitted =
    not (h.is_ip name)
    && not (any (λ c. c == b'*') (base_of name))
    && not (ends_with (b'.' ∷ []) (base_of name))
    && text_eq (lower name) name
    && h.is_hostname (base_of name)
    && is_text (h.to_ascii (base_of name)) (base_of name)
    && host_within h (base_of name) permitted

unfoldable pub check_identifier : Hosts → Text → List Text → Result ProblemType (Unit {0})
check_identifier h name permitted =
    if is_issuable h name permitted then ok tt else err ProblemType.rejected_identifier
