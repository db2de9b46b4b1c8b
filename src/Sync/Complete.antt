-- ===== src/Sync/Complete.antt =====
-- opCA's sync reads everything past its cursor.

use op_ca.Prelude.{
  ℕ, zero, suc, ◌^◌, ◌≡◌, ◌≤◌, ◌<◌, refl, ap, ◌∙◌, String, not, ◌&&◌, ◌||◌, Option, some, List, [],
  ◌∷◌, ◌++◌, arith, All, filter, take, drop, length, leb, ltb, ok, Bool-cases, inl, inr,
  if◌then◌else◌, lt→ltb, ltb→lt, gt→leb, take-append-drop,
}
use mathlib.Core.List.{append_assoc}
use op_ca.Store.Tables.{Certificate, Db}
use op_ca.Store.Certificates.{changed_after, issued_by, order_by_change}
use op_ca.Sync.{IssuedPage, issued, issued_since, last_change_or}
use op_ca.Sync.Sorting.{
  Ascending, Distinct, All-filter, All-order, filter-Distinct, order-Ascending, order-filter,
}
use op_ca.Sync.Paging.{page_lem, take_all, length-drop-lt, last_change-lt, filter-last_change}

-- What waits past a cursor, oldest change first.
abbrev pub waiting : Option (List String) → Db → ℕ → List Certificate
waiting issuers d after =
    order_by_change (filter (λ c. ltb after c.changed && issued_by issuers c) d.certificates)

filter-and :
    (k after : ℕ) (issuers : Option (List String)) (cs : List Certificate)
    → after ≤ k
    → filter (λ c. ltb k c.changed && issued_by issuers c) cs
      ≡ filter (λ c. ltb k c.changed) (filter (λ c. ltb after c.changed && issued_by issuers c) cs)
filter-and k after issuers [] h = refl
filter-and k after issuers (c ∷ cs) h = ground (arith, filter-and k after issuers cs h)

module _ (issuers : Option (List String)) (limit : ℕ) (d : Db)
    (distinct : Distinct d.certificates) where
  waiting-Ascending : (after : ℕ) → Ascending (waiting issuers d after)
  waiting-Ascending after = order-Ascending _ (filter-Distinct _ d.certificates distinct)

  past :
      (after : ℕ) (cs : List Certificate)
      → All (λ c. after < c.changed) (filter (λ c. ltb after c.changed && issued_by issuers c) cs)
  past after [] = tt
  past after (c ∷ cs) = elim (Bool-cases (ltb after c.changed && issued_by issuers c)) [
    | inl e ↦ rw e (ground arith, past after cs)
    | inr e ↦ rw e (past after cs)
  ]

  pub waiting-past : (after : ℕ) → All (λ c. after < c.changed) (waiting issuers d after)
  waiting-past after = All-order _ _ (past after d.certificates)

  waiting_mono :
      (after k : ℕ)
      → after ≤ k
      → waiting issuers d k ≡ filter (λ c. ltb k c.changed) (waiting issuers d after)
  waiting_mono after k h =
      ap order_by_change (filter-and k after issuers d.certificates h)
      ∙ order-filter _ _ (filter-Distinct _ d.certificates distinct)

  -- What a page is made of.
  abbrev page_at : ℕ → IssuedPage
  page_at after = record {
    certificates = take limit (waiting issuers d after);
    next = last_change_or after (take limit (waiting issuers d after));
    more = ltb limit (length (waiting issuers d after));
  }

  issued_lem : (after : ℕ) → after < 2 ^ 63 → issued issuers limit after d ≡ ok (page_at after)
  unfolding issued changed_after
  issued_lem after h = rw (lt→ltb after (2 ^ 63) h, page_lem (waiting issuers d after) limit)

  last_change_below :
      (after n : ℕ) (cs : List Certificate)
      → after < 2 ^ 63
      → All (λ c. c.changed < 2 ^ 63) cs
      → last_change_or after (take n cs) < 2 ^ 63
  last_change_below after zero cs h l = h
  last_change_below after (suc n) [] h l = h
  last_change_below after (suc n) (c ∷ cs) h l = last_change_below c.changed n cs l.0 l.1

  -- One round of the loop, by its page.
  round :
      (fuel after : ℕ) (cs : List Certificate) (page : IssuedPage)
      → issued issuers limit after d ≡ ok page
      → issued_since (λ a. issued issuers limit a d) (suc fuel) after cs ≡ (
          if not page.more || leb page.next after
          then some (ok (cs ++ page.certificates))
          else issued_since
              (λ a. issued issuers limit a d)
              fuel
              page.next
              (cs ++ page.certificates))
  unfolding issued_since
  round fuel after cs page e = rw (e, issued_since)

  pub loop-waiting :
      0 < limit
      → All (λ c. c.changed < 2 ^ 63) d.certificates
      → (fuel after : ℕ) (cs : List Certificate) → after < 2 ^ 63
      → length (waiting issuers d after) < fuel
      → issued_since (λ a. issued issuers limit a d) fuel after cs
        ≡ some (ok (cs ++ waiting issuers d after))
  loop-waiting p small zero after cs h l = absurd (omega arith)
  loop-waiting p small (suc fuel) after cs h l =
      let w = waiting issuers d after in
      let next = last_change_or after (take limit w) in
      rw (round fuel after cs _ (issued_lem after h)) (elim (Bool-cases (ltb limit (length w))) [
        | inl more ↦
            let beyond : after < next =
              last_change-lt after limit w p (ltb→lt _ _ more) (waiting-past after)
                (waiting-Ascending after) in
            let rest : waiting issuers d next ≡ drop limit w =
              waiting_mono after next (omega arith)
              ∙ filter-last_change after limit w p (ltb→lt _ _ more) (waiting-past after)
                  (waiting-Ascending after) in
            let ih =
              loop-waiting p small fuel next (cs ++ take limit w)
                (last_change_below after limit w h
                  (All-order _ _ (All-filter _ _ d.certificates small)))
                (rw rest (omega (arith, length-drop-lt limit w p (ltb→lt _ _ more)))) in
            rw (more, gt→leb after next beyond)
              (ih ∙ ap (λ x. some (ok x)) (rw (rest, append_assoc, take-append-drop limit w)))
        | inr last ↦ rw last (ap (λ x. some (ok (cs ++ x))) (take_all limit w (ground arith)))
      ])

-- The sync is complete: where no two certificates have one change and all changes fit an `i64`, a
-- page limit above 0 and fuel above the number of certificates that wait past the cursor, the loop
-- over the broker's pages returns exactly the certificates of the asked issuers that changed past
-- the cursor, each once, oldest change first.
pub issued_since-waiting :
    (issuers : Option (List String)) (limit : ℕ) (d : Db) (fuel after : ℕ)
    → Distinct d.certificates
    → All (λ c. c.changed < 2 ^ 63) d.certificates
    → 0 < limit
    → after < 2 ^ 63
    → length (waiting issuers d after) < fuel
    → issued_since (λ a. issued issuers limit a d) fuel after []
      ≡ some (ok (waiting issuers d after))
issued_since-waiting issuers limit d fuel after distinct small p h l =
    loop-waiting issuers limit d distinct p small fuel after [] h l
