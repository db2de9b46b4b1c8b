-- ===== src/Store/Upkeep/Taking.antt =====
-- Which validations `processing` takes up again.
use op_ca.Prelude.{
  ◌≡◌, ◌≢◌, refl, sym, ap, ◌∙◌, true, Option, none, some, List, [], ◌∷◌, ◌++◌, filter, codes,
  Option-cases, Bool-cases, inl, inr,
}
use op_ca.Store.Status.{ChallengeStatus}
use op_ca.Store.Moves.{is_processing}
use op_ca.Store.Tables.{Account, OrderRow, AuthorisationRow, Challenge, Db}
use op_ca.Store.Lifecycle.{accounts_table, orders_table, authorisations_table, row_of}
use op_ca.Store.Upkeep.{Validation, validation_of, validations, processing}

-- The validation of a challenge: of its authorisation's identifier, with the key authorisation of the
-- account that placed the order.
abbrev pub IsFor : Db → Challenge → Validation → Type 0
IsFor d c v =
    (a : AuthorisationRow) × (row_of authorisations_table c.authorisation d ≡ some a)
    × (o : OrderRow) × (row_of orders_table a.order d ≡ some o)
    × (k : Account) × (row_of accounts_table o.account d ≡ some k)
    × (v ≡ record {
      challenge = c.id;
      kind = c.kind;
      identifier = a.identifier;
      key_authorisation = c.token ++ codes "." ++ codes k.thumbprint;
    })

-- Those of the challenges that are processing, in their order, where the rows that they refer to are
-- there.
pub data Taken (d : Db) : List Challenge → List Validation → Type 0 where
  all_taken : Taken d [] []
  not_processing :
      {c : Challenge} {cs : List Challenge} {vs : List Validation}
      → c.status ≢ ChallengeStatus.processing
      → Taken d cs vs
      → Taken d (c ∷ cs) vs
  dangling :
      {c : Challenge} {cs : List Challenge} {vs : List Validation}
      → ((v : Validation) → ¬ IsFor d c v)
      → Taken d cs vs
      → Taken d (c ∷ cs) vs
  taken :
      {c : Challenge} {cs : List Challenge} {v : Validation} {vs : List Validation}
      → c.status ≡ ChallengeStatus.processing
      → IsFor d c v
      → Taken d cs vs
      → Taken d (c ∷ cs) (v ∷ vs)

processing-true : (s : ChallengeStatus) → is_processing s ≡ true → s ≡ ChallengeStatus.processing
processing-true ChallengeStatus.processing e = refl
processing-true ChallengeStatus.pending e = absurd (cc e)
processing-true ChallengeStatus.valid e = absurd (cc e)
processing-true ChallengeStatus.invalid e = absurd (cc e)

unlike : {A : Type 0} (o : Option A) (a : A) → o ≡ none → o ≢ some a
unlike o a n s = cc (n, s)

same_row : {A : Type 0} (o : Option A) (a b : A) → o ≡ some a → o ≡ some b → a ≡ b
same_row o a b p q = cc (p, q)

-- The next of the challenges that are processing.
next_one :
    (d : Db) (c : Challenge) (cs : List Challenge) (vs : List Validation)
    → c.status ≡ ChallengeStatus.processing
    → Taken d cs vs
    → Taken d (c ∷ cs) (validation_of d c ++ vs)
unfolding validation_of
next_one d c cs vs is rest = elim (Option-cases (row_of authorisations_table c.authorisation d)) [
  | inl p ↦ rw p (dangling (λ v h. unlike _ h.0 p h.1) rest)
  | inr (a, p) ↦ elim (Option-cases (row_of orders_table a.order d)) [
    | inl q ↦
        rw (p, q)
          (dangling
            (λ v h.
              unlike _ h.2
                (ap (λ x. row_of orders_table x.order d) (sym (same_row _ a h.0 p h.1)) ∙ q) h.3)
            rest)
    | inr (o, q) ↦ elim (Option-cases (row_of accounts_table o.account d)) [
      | inl r ↦
          rw (p, q, r)
            (dangling
              (λ v h.
                let same_a = same_row _ a h.0 p h.1 in
                let same_o =
                  same_row _ o h.2 q (ap (λ x. row_of orders_table x.order d) same_a ∙ h.3) in
                unlike _ h.4 (ap (λ x. row_of accounts_table x.account d) (sym same_o) ∙ r) h.5)
              rest)
      | inr (k, r) ↦ rw (p, q, r) (taken is (a, p, o, q, k, r, refl) rest)
    ]
  ]
]

validations-Taken :
    (d : Db) (cs : List Challenge)
    → Taken d cs (validations d (filter (λ c. is_processing c.status) cs))
unfolding validations
validations-Taken d [] = all_taken
validations-Taken d (c ∷ cs) = elim (Bool-cases (is_processing c.status)) [
  | inl e ↦ rw e (next_one d c cs _ (processing-true c.status e) (validations-Taken d cs))
  | inr e ↦
      rw e (not_processing (λ is. absurd (cc (ap is_processing is, e))) (validations-Taken d cs))
]

pub processing-Taken : (d : Db) → Taken d d.challenges (processing d)
unfolding processing
processing-Taken d = validations-Taken d d.challenges
