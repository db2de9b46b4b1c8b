-- ===== src/Http01/Safe.antt =====
-- Which servers http-01 asks, and how often.
use op_ca.Prelude.{
  Text, codes, ℕ, suc, ◌≤◌, ◌≡◌, ◌≢◌, refl, Bool, true, false, Option, none, some, List, [], ◌∷◌,
  ◌⊎◌, inl, inr, Result, ok, err, length, All, text_eq_iff, arith, Bool-cases, Option-cases, zero,
}
use op_ca.Problem.{ProblemType}
use op_ca.Hosts.{lower}
use op_ca.Http01.{
  Scheme, or_text, turn_of, answered, is_redirection, Ports, Target, Uri, Web, Response, Turn, done,
  go, http_scheme, https_scheme, other_scheme, redirect_to, redirect_uri, redirect, location_target,
  turn, followed, follow, starts_with, first_target, http_01,
}

-- A host in brackets is an IPv6 address.
abbrev pub NoLiteral : Text → Type 0
NoLiteral [] = Unit
NoLiteral (c ∷ host) = c ≢ b'['

-- The scheme's own port, and the name itself or a host that is not empty, in no bracket and no IP
-- address.
pub record IsSafe (web : Web) (ports : Ports) (name : Text) (t : Target) : Type 0 where
  pub own_port :
      ((t.https ≡ false) × (t.port ≡ ports.http)) ⊎ ((t.https ≡ true) × (t.port ≡ ports.https))
  pub named : (t.host ≡ name) ⊎ ((t.host ≢ []) × NoLiteral t.host × (web.is_ip t.host ≡ false))

no_bracket : (host : Text) → starts_with b'[' host ≡ false → NoLiteral host
no_bracket [] e = tt
no_bracket (c ∷ host) e = ground arith

module _ (web : Web) (ports : Ports) (name : Text) where
  redirect_to-host :
      (https : Bool) (port : ℕ) (uri : Uri) (t : Target)
      → redirect_to web https port uri ≡ ok t
      → (t.https ≡ https)
        × (t.port ≡ port)
        × (t.host ≢ [])
        × NoLiteral t.host
        × (web.is_ip t.host ≡ false)
  unfolding redirect_to
  redirect_to-host https port uri t e =
      let host = lower (or_text uri.host []) in
      let target : Target = record {
        https = https;
        host = host;
        port = port;
        path = or_text uri.path_and_query (codes "/");
      } in
      let same : target ≡ t = ground arith in
      rw (← same) (
        refl,
        refl,
        (λ n. ground (arith, text_eq_iff host [])),
        no_bracket host (ground arith),
        ground arith,
      )

  redirect_uri-IsSafe :
      (from : Target) (location : Text) (uri : Uri) (scheme : Option Scheme) (t : Target)
      → IsSafe web ports name from
      → redirect_uri web ports from location uri scheme ≡ ok t
      → IsSafe web ports name t
  unfolding redirect_uri
  redirect_uri-IsSafe from location uri none t s e =
      let same : record from { path = or_text uri.path_and_query (codes "/") } ≡ t = ground arith in
      rw (← same) (record { own_port = s.own_port; named = s.named })
  redirect_uri-IsSafe from location uri (some http_scheme) t s e =
      let (https, port, filled, no_literal, no_ip) = redirect_to-host false ports.http uri t e in
      record { own_port = inl (https, port); named = inr (filled, no_literal, no_ip) }
  redirect_uri-IsSafe from location uri (some https_scheme) t s e =
      let (https, port, filled, no_literal, no_ip) = redirect_to-host true ports.https uri t e in
      record { own_port = inr (https, port); named = inr (filled, no_literal, no_ip) }
  redirect_uri-IsSafe from location uri (some other_scheme) t s e = absurd (cc e)

  redirect-IsSafe :
      (from : Target) (location : Option Text) (t : Target)
      → IsSafe web ports name from
      → location_target web ports from location ≡ ok t
      → IsSafe web ports name t
  unfolding redirect
  redirect-IsSafe from none t s e = absurd (cc e)
  redirect-IsSafe from (some location) t s e = elim (Option-cases (web.parse_uri location)) [
    | inl p ↦ absurd (ground arith)
    | inr (uri, p) ↦ redirect_uri-IsSafe from location uri uri.scheme t s (ground arith)
  ]

  turn-IsSafe :
      (key_authorisation : Text) (from t : Target)
      → IsSafe web ports name from
      → turn web ports key_authorisation from ≡ go t
      → IsSafe web ports name t
  unfolding turn
  turn-IsSafe key_authorisation from t s e = on (web.get from) e
    where
      led : (r : Result ProblemType Target) → turn_of r ≡ go t → r ≡ ok t
      led (ok x) e = ground arith
      led (err p) e = absurd (cc e)

      on :
          (r : Result ProblemType Response)
          → answered web ports key_authorisation from r ≡ go t
          → IsSafe web ports name t
      on (err p) e = absurd (cc e)
      on (ok response) e = elim (Bool-cases (is_redirection response.status)) [
        | inl d ↦
            redirect-IsSafe from response.location t s
              (led (location_target web ports from response.location) (ground arith))
        | inr d ↦ absurd (ground arith)
      ]

  follow-IsSafe :
      (key_authorisation : Text) (n : ℕ) (t : Target)
      → IsSafe web ports name t
      → All (IsSafe web ports name) (follow web ports key_authorisation n t).1
        × (length (follow web ports key_authorisation n t).1 ≤ n)
  unfolding follow
  follow-IsSafe key_authorisation zero t s = (tt, omega arith)
  follow-IsSafe key_authorisation (suc n) t s =
      on (turn web ports key_authorisation t) refl (λ next e.
        follow-IsSafe key_authorisation n next (turn-IsSafe key_authorisation t next s e))
    where
      Asked : Result ProblemType (Unit {0}) × List Target → Type 0
      Asked r = All (IsSafe web ports name) r.1 × (length r.1 ≤ suc n)

      on :
          (w : Turn)
          → turn web ports key_authorisation t ≡ w
          → ((next : Target)
              → turn web ports key_authorisation t ≡ go next
              → All (IsSafe web ports name) (follow web ports key_authorisation n next).1
                × (length (follow web ports key_authorisation n next).1 ≤ n))
          → Asked (followed t w (follow web ports key_authorisation n))
      on (done verdict) e rest = ((s, tt), omega arith)
      on (go next) e rest = ((s, (rest next e).0), omega (arith, (rest next e).1))

-- Every server that http-01 asks for a name, however it is redirected, is asked on the port that is
-- set for its scheme, by the name itself or by a host that is not empty, starts with no bracket and is
-- no IP address; and eleven at most are asked.
pub http_01-IsSafe :
    (web : Web) (ports : Ports) (name key_authorisation : Text)
    → All (IsSafe web ports name) (http_01 web ports name key_authorisation).1
      × (length (http_01 web ports name key_authorisation).1 ≤ 11)
unfolding http_01
http_01-IsSafe web ports name key_authorisation =
    follow-IsSafe web ports name key_authorisation 11 (first_target ports name key_authorisation)
      (unfold first_target in record { own_port = inl (refl, refl); named = inl refl })
