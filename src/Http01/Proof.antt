-- ===== src/Http01/Proof.antt =====
-- What http-01 takes for proof.
use op_ca.Prelude.{
  Text, ℕ, zero, suc, ◌≡◌, refl, ap, ◌∙◌, List, [], ◌∷◌, Result, ok, err, text_eq_iff, arith,
  Bool-cases, inl, inr,
}
use op_ca.Problem.{ProblemType}
use op_ca.Http01.{
  Ports, Target, Web, Response, Body, too_long, unreadable, whole, Turn, done, go, trim_end,
  judge_body, judge, location_target, is_redirection, turn_of, answered, turn, followed, follow,
  first_target, http_01,
}

-- The last of the targets that were asked.
abbrev pub Last : Target → List Target → Type 0
Last t [] = ⊥
Last t (x ∷ []) = t ≡ x
Last t (x ∷ y ∷ ts) = Last t (y ∷ ts)

-- A target that answers the challenge.
pub record Answers (web : Web) (key_authorisation : Text) (t : Target) : Type 0 where
  pub response : Response
  pub gets : web.get t ≡ ok response
  pub found : response.status ≡ 200
  pub text : Text
  pub reads : response.body ≡ whole text
  pub proves : trim_end text ≡ key_authorisation

judge_body-ok :
    (key_authorisation : Text) (b : Body)
    → judge_body key_authorisation b ≡ ok tt
    → (text : Text) × (b ≡ whole text) × (trim_end text ≡ key_authorisation)
unfolding judge_body
judge_body-ok key_authorisation too_long e = absurd (cc e)
judge_body-ok key_authorisation unreadable e = absurd (cc e)
judge_body-ok key_authorisation (whole text) e =
    (text, refl, ground (arith, text_eq_iff (trim_end text) key_authorisation))

module _ (web : Web) (ports : Ports) (key_authorisation : Text) where
  judge-ok :
      (t : Target) (r : Response)
      → web.get t ≡ ok r
      → judge key_authorisation r ≡ ok tt
      → Answers web key_authorisation t
  unfolding judge
  judge-ok t r g e =
      let (text, reads, proves) = judge_body-ok key_authorisation r.body (ground arith) in
      record {
        response = r;
        gets = g;
        found = ground arith;
        text = text;
        reads = reads;
        proves = proves;
      }

  turn-ok :
      (t : Target)
      → turn web ports key_authorisation t ≡ done (ok tt)
      → Answers web key_authorisation t
  unfolding turn
  turn-ok t e = on (web.get t) refl e
    where
      led : (r : Result ProblemType Target) → turn_of r ≡ done (ok tt) → ⊥
      led (ok x) e = cc e
      led (err p) e = absurd (ground arith)

      on :
          (r : Result ProblemType Response)
          → web.get t ≡ r
          → answered web ports key_authorisation t r ≡ done (ok tt)
          → Answers web key_authorisation t
      on (err p) g e = absurd (ground arith)
      on (ok response) g e = elim (Bool-cases (is_redirection response.status)) [
        | inl d ↦ absurd (led (location_target web ports t response.location) (ground arith))
        | inr d ↦ judge-ok t response g (ground arith)
      ]

  abbrev Proved : List Target → Type 0
  Proved targets = (t : Target) × Last t targets × Answers web key_authorisation t

  longer : (x : Target) (targets : List Target) → Proved targets → Proved (x ∷ targets)
  longer x [] (t, l, a) = absurd l
  longer x (y ∷ targets) (t, l, a) = (t, l, a)

  follow-ok :
      (n : ℕ) (t : Target)
      → (follow web ports key_authorisation n t).0 ≡ ok tt
      → Proved (follow web ports key_authorisation n t).1
  unfolding follow
  follow-ok zero t e = absurd (cc e)
  follow-ok (suc n) t e = on (turn web ports key_authorisation t) refl (λ next. follow-ok n next) e
    where
      on :
          (w : Turn)
          → turn web ports key_authorisation t ≡ w
          → ((next : Target)
              → (follow web ports key_authorisation n next).0 ≡ ok tt
              → Proved (follow web ports key_authorisation n next).1)
          → (followed t w (follow web ports key_authorisation n)).0 ≡ ok tt
          → Proved (followed t w (follow web ports key_authorisation n)).1
      on (done verdict) w rest e = (t, refl, turn-ok t (w ∙ ap done e))
      on (go next) w rest e = longer t (follow web ports key_authorisation n next).1 (rest next e)

-- http-01 succeeds only if the last server that it asked answered 200 with a whole body that is the
-- key authorisation, but for white space at its end.
pub http_01-ok :
    (web : Web) (ports : Ports) (name key_authorisation : Text)
    → (http_01 web ports name key_authorisation).0 ≡ ok tt
    → (t : Target) × Last t (http_01 web ports name key_authorisation).1
      × Answers web key_authorisation t
unfolding http_01
http_01-ok web ports name key_authorisation e =
    follow-ok web ports key_authorisation 11 (first_target ports name key_authorisation) e
