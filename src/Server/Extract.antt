-- ===== src/Server/Extract.antt =====
-- What crates/opca-acme-broker/src/acme/server.rs takes from a request before a handler runs: `base`
-- and the extractor of `Post`. The `Host` header is there if it is an authority.
use op_ca.Prelude.{
  Text, ℕ, Bool, false, ◌&&◌, ◌||◌, Option, none, some, List, [], ◌∷◌, ◌++◌, Result, ok, err, bind,
  any, text_eq, codes, ◌==◌, if◌then◌else◌,
}
use op_ca.Problem.{ProblemType}
use op_ca.Server.{Refusal, refusal, or_refuse, Post}

pub record HttpRequest : Type 0 where
  pub content_type : Option Text
  pub authority : Option Text
  pub host : Option Text
  pub path : Text
  pub body : Option (List ℕ)

-- `split(';').next()` and `trim`; a header's text has no white space but spaces and tabs.
unfoldable pub before_semicolon : Text → Text
before_semicolon [] = []
before_semicolon (c ∷ text) = if c == b';' then [] else c ∷ before_semicolon text

is_blank : ℕ → Bool
is_blank c = c == 32 || c == 9

unfoldable pub trim_start : Text → Text
unfolding is_blank
trim_start [] = []
trim_start (c ∷ text) = let rest = trim_start text in if is_blank c then rest else c ∷ text

unfoldable pub trim_end : Text → Text
unfolding is_blank
trim_end [] = []
trim_end (c ∷ text) =
    let rest = trim_end text in if is_blank c && text_eq rest [] then [] else c ∷ rest

unfoldable pub is_jose : Option Text → Bool
is_jose none = false
is_jose (some value) =
    text_eq (trim_start (trim_end (before_semicolon value))) (codes "application/jose+json")

abbrev or_else : {A : Type 0} → Option A → Option A → Option A
or_else none other = other
or_else (some a) other = some a

abbrev without_user : Option Text → Option Text
without_user none = none
without_user (some authority) = if any (λ c. c == b'@') authority then none else some authority

-- `https://` and the authority the request was sent to.
unfoldable pub base : HttpRequest → Result Refusal Text
base request = elim (without_user (or_else request.authority request.host)) [
  | none ↦ err (refusal ProblemType.malformed)
  | some authority ↦ ok (codes "https://" ++ authority)
]

abbrev post_of : Text → Text → List ℕ → Post
post_of base path body = record {
  base = base;
  url = base ++ path;
  accounts = base ++ codes "/acme/account/";
  body = body;
}

unfoldable pub from_request : HttpRequest → Result Refusal Post
from_request request =
    if is_jose request.content_type
    then bind (base request) (λ base.
      bind (or_refuse request.body ProblemType.malformed)
        (λ body. ok (post_of base request.path body)))
    else err (record { problem = ProblemType.malformed; status = 415; location = none })
