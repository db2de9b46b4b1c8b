-- ===== src/Http01.antt =====
-- http-01 of crates/opca-acme-broker/src/acme/validate.rs: `http_01` and `redirect`. The network, the
-- reader of URLs and the reader of IP addresses are parameters; a body arrives as the text that
-- `from_utf8_lossy` makes of it.
pub mod Safe
pub mod Proof
use op_ca.Prelude.{
  Text, ℕ, zero, suc, ◌==◌, leb, ltb, Bool, true, false, not, ◌&&◌, ◌||◌, Option, none, some, List,
  [], ◌∷◌, ◌++◌, Result, ok, err, text_eq, codes, if◌then◌else◌,
}
use op_ca.Problem.{ProblemType}
use op_ca.Hosts.{lower}

pub record Ports : Type 0 where
  pub http : ℕ
  pub https : ℕ

pub record Target : Type 0 where
  pub https : Bool
  pub host : Text
  pub port : ℕ
  pub path : Text

-- What is read of a URL.
pub data Scheme : Type 0 where
  http_scheme https_scheme other_scheme : Scheme

pub record Uri : Type 0 where
  pub path_and_query : Option Text
  pub scheme : Option Scheme
  pub port : Option ℕ
  pub host : Option Text

pub data Body : Type 0 where
  too_long : Body
  unreadable : Body
  whole : Text → Body

pub record Response : Type 0 where
  pub status : ℕ
  pub location : Option Text
  pub body : Body

pub record Web : Type 0 where
  pub get : Target → Result ProblemType Response
  pub parse_uri : Text → Option Uri
  pub is_ip : Text → Bool

abbrev pub max_redirects : ℕ
max_redirects = 10

-- `char::is_whitespace`
abbrev is_whitespace : ℕ → Bool
is_whitespace c =
    (leb 9 c && leb c 13)
    || (c == 32)
    || (c == 0x85)
    || (c == 0xa0)
    || (c == 0x1680)
    || (leb 0x2000 c && leb c 0x200a)
    || (c == 0x2028)
    || (c == 0x2029)
    || (c == 0x202f)
    || (c == 0x205f)
    || (c == 0x3000)

unfoldable pub trim_end : Text → Text
trim_end [] = []
trim_end (c ∷ text) =
    let rest = trim_end text in if is_whitespace c && text_eq rest [] then [] else c ∷ rest

-- `split('.').next()`
unfoldable pub before_dot : Text → Text
before_dot [] = []
before_dot (c ∷ text) = let rest = before_dot text in if c == b'.' then [] else c ∷ rest

abbrev pub starts_with : ℕ → Text → Bool
starts_with c [] = false
starts_with c (d ∷ text) = c == d

abbrev pub or_text : Option Text → Text → Text
or_text none text = text
or_text (some t) text = t

abbrev asks_other : Option ℕ → ℕ → Bool
asks_other none port = false
asks_other (some asked) port = not (asked == port)

-- A redirect to an absolute URL.
unfoldable pub redirect_to : Web → Bool → ℕ → Uri → Result ProblemType Target
redirect_to web https port uri =
    let host = lower (or_text uri.host []) in
    let target : Target = record {
      https = https;
      host = host;
      port = port;
      path = or_text uri.path_and_query (codes "/");
    } in
    if asks_other uri.port port
    then err ProblemType.connection
    else if text_eq host [] || (starts_with b'[' host || web.is_ip host)
    then err ProblemType.connection
    else ok target

unfoldable pub redirect_uri :
    Web → Ports → Target → Text → Uri → Option Scheme → Result ProblemType Target
redirect_uri web ports from location uri none =
    if starts_with b'/' location
    then ok (record from { path = or_text uri.path_and_query (codes "/") })
    else err ProblemType.connection
redirect_uri web ports from location uri (some http_scheme) = redirect_to web false ports.http uri
redirect_uri web ports from location uri (some https_scheme) = redirect_to web true ports.https uri
redirect_uri web ports from location uri (some other_scheme) = err ProblemType.connection

unfoldable pub redirect : Web → Ports → Target → Text → Result ProblemType Target
redirect web ports from location = elim (web.parse_uri location) [
  | none ↦ err ProblemType.connection
  | some uri ↦ redirect_uri web ports from location uri uri.scheme
]

abbrev pub is_redirection : ℕ → Bool
is_redirection status = leb 300 status && ltb status 400

-- What the answer to the last request comes to.
unfoldable pub judge_body : Text → Body → Result ProblemType (Unit {0})
judge_body key_authorisation too_long = err ProblemType.incorrect_response
judge_body key_authorisation unreadable = err ProblemType.connection
judge_body key_authorisation (whole text) =
    if text_eq (trim_end text) key_authorisation then ok tt else err ProblemType.incorrect_response

unfoldable pub judge : Text → Response → Result ProblemType (Unit {0})
judge key_authorisation response =
    if response.status == 200
    then judge_body key_authorisation response.body
    else err ProblemType.unauthorized

abbrev pub location_target : Web → Ports → Target → Option Text → Result ProblemType Target
location_target web ports from none = err ProblemType.connection
location_target web ports from (some location) = redirect web ports from location

-- Where an answer leads: to a verdict, or to another target.
pub data Turn : Type 0 where
  done : Result ProblemType (Unit {0}) → Turn
  go : Target → Turn

abbrev pub turn_of : Result ProblemType Target → Turn
turn_of (ok target) = go target
turn_of (err e) = done (err e)

abbrev pub answered : Web → Ports → Text → Target → Result ProblemType Response → Turn
answered web ports key_authorisation target (err e) = done (err e)
answered web ports key_authorisation target (ok response) =
    if is_redirection response.status
    then turn_of (location_target web ports target response.location)
    else done (judge key_authorisation response)

unfoldable pub turn : Web → Ports → Text → Target → Turn
turn web ports key_authorisation target =
    answered web ports key_authorisation target (web.get target)

abbrev pub followed :
    Target
    → Turn
    → (Target → Result ProblemType (Unit {0}) × List Target)
    → Result ProblemType (Unit {0}) × List Target
followed target (done verdict) rest = (verdict, target ∷ [])
followed target (go next) rest = ((rest next).0, target ∷ (rest next).1)

-- The loop, of as many rounds as are left, with the targets that it asks.
unfoldable pub follow :
    Web → Ports → Text → ℕ → Target → Result ProblemType (Unit {0}) × List Target
follow web ports key_authorisation zero target = (err ProblemType.connection, [])
follow web ports key_authorisation (suc n) target =
    followed target (turn web ports key_authorisation target) (follow web ports key_authorisation n)

unfoldable pub first_target : Ports → Text → Text → Target
first_target ports name key_authorisation = record {
  https = false;
  host = name;
  port = ports.http;
  path = codes "/.well-known/acme-challenge/" ++ before_dot key_authorisation;
}

unfoldable pub http_01 : Web → Ports → Text → Text → Result ProblemType (Unit {0}) × List Target
http_01 web ports name key_authorisation =
    follow web ports key_authorisation (suc max_redirects)
      (first_target ports name key_authorisation)
