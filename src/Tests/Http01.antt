-- ===== src/Tests/Http01.antt =====
-- The theorems of http-01 at a name that redirects.
use op_ca.Prelude.{
  ◌≤◌, ◌≡◌, refl, false, none, some, [], ◌∷◌, ◌++◌, ok, All, length, codes, if◌then◌else◌,
}
use op_ca.Hosts.{lower_code}
use op_ca.Http01.{
  Ports, Target, Web, whole, https_scheme, trim_end, before_dot, redirect_to, redirect_uri,
  redirect, judge, judge_body, turn, follow, first_target, http_01,
}
use op_ca.Http01.Safe.{IsSafe, http_01-IsSafe}
use op_ca.Http01.Proof.{Last, Answers, http_01-ok}

-- On port 80 everything redirects to https, which answers the key authorisation and a new line.
abbrev web : Web
web = record {
  get = λ t.
      if t.https
      then ok
          (record { status = 200; location = none; body = whole (codes "tok.thumb" ++ 10 ∷ []) })
      else ok (record { status = 301; location = some (codes "https://WWW/"); body = whole [] });
  parse_uri = λ text. some (record {
    path_and_query = some (codes "/");
    scheme = some https_scheme;
    port = none;
    host = some (codes "WWW");
  });
  is_ip = λ text. false;
}

abbrev ports : Ports
ports = record { http = 80; https = 443 }

proves : (http_01 web ports (codes "a") (codes "tok.thumb")).0 ≡ ok tt
unfolding http_01 follow turn redirect redirect_uri redirect_to judge judge_body trim_end
    first_target before_dot lower_code
proves = refl

asks : length (http_01 web ports (codes "a") (codes "tok.thumb")).1 ≡ 2
unfolding http_01 follow turn redirect redirect_uri redirect_to judge judge_body trim_end
    first_target before_dot lower_code
asks = refl

http_01-IsSafe_example :
    All (IsSafe web ports (codes "a")) (http_01 web ports (codes "a") (codes "tok.thumb")).1
    × (length (http_01 web ports (codes "a") (codes "tok.thumb")).1 ≤ 11)
http_01-IsSafe_example = http_01-IsSafe web ports (codes "a") (codes "tok.thumb")

http_01-ok_example :
    (t : Target) × Last t (http_01 web ports (codes "a") (codes "tok.thumb")).1
    × Answers web (codes "tok.thumb") t
http_01-ok_example = http_01-ok web ports (codes "a") (codes "tok.thumb") proves
