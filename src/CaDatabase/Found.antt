-- ===== src/CaDatabase/Found.antt =====
-- Each row after the scan is the row before with its new status and revocation, whatever the order in
-- which the scan read them; and where each serial is then found.
use op_ca.Prelude.{
  Text, text_eq_iff, ℕ, ◌≡◌, refl, sym, ap, ◌∙◌, subst, Bool, true, false, ◌&&◌, ◌||◌, Option, none,
  some, List, [], ◌∷◌, any, All, All-map, find, find-update_where, leb, if◌then◌else◌, arith,
  Bool-cases, inl, inr,
}
use op_ca.CaDatabase.{CertRecord, has_serial}
use op_ca.CaDatabase.Standing.{
  Outside, expiry_of, standing_of, revokes, status_differs, status_of,
  query_all_certs_including_deleted, insert_by_cast,
}
use op_ca.CaDatabase.Scanning.{changes, written, written_at, rewritten, rewrite_all, change_at}

-- The rows with a row's serial are that row: `serial` is the primary key.
abbrev pub Only : CertRecord → List CertRecord → Type 0
Only r cs = All (λ c. has_serial r.serial c ≡ true → c ≡ r) cs

abbrev pub Keyed : List CertRecord → Type 0
Keyed cs = All (λ r. Only r cs) cs

module _ (w : Outside) (revoke : Option Text) where
  written-serial : (o : Option ℕ) (c : CertRecord) → (written_at w revoke o c).serial ≡ c.serial
  written-serial none c = refl
  written-serial (some e) c = refl

  pub unchanged :
      (o : Option ℕ) (c : CertRecord) → change_at w revoke o c ≡ false → written_at w revoke o c ≡ c
  unchanged none c h = refl
  unchanged (some e) c h =
      by (revokes w revoke e c) (status_differs (status_of (standing_of w revoke e c)) c) h
    where
      by :
          (a b : Bool)
          → (a || b) ≡ false
          → record c {
            revocation_date = if a then some w.now_text else c.revocation_date;
            status = if b then status_of (standing_of w revoke e c) else c.status;
          }
            ≡ c
      by true b h = absurd (cc h)
      by false true h = absurd (cc h)
      by false false h = refl

  find-rewritten :
      (s : Text) (c y : CertRecord) (t : List CertRecord)
      → find (has_serial s) t ≡ some y
      → find (has_serial s) (rewritten w revoke c t)
        ≡ some (
            if changes w revoke c && has_serial c.serial y
            then record (written w revoke c) { serial = y.serial }
            else y)
  find-rewritten s c y t e = elim (Bool-cases (changes w revoke c)) [
    | inl h ↦
        rw (h, written-serial (expiry_of w c.expiry_date) c)
          (find-update_where (has_serial s) (has_serial c.serial)
            (λ x. record (written w revoke c) { serial = x.serial }) (λ x. refl) t y e)
    | inr h ↦ rw h e
  ]

  -- A row that the scan wrote stays so.
  same_again :
      (r c : CertRecord)
      → (has_serial r.serial c ≡ true → c ≡ r)
      → (if changes w revoke c && has_serial c.serial (written w revoke r)
          then record (written w revoke c) { serial = (written w revoke r).serial }
          else written w revoke r)
        ≡ written w revoke r
  same_again r c one = elim (Bool-cases (has_serial r.serial c)) [
    | inl e ↦ rw (one e) (either (changes w revoke r && has_serial r.serial (written w revoke r)))
    | inr e ↦
        let other : has_serial c.serial (written w revoke r) ≡ false =
          rw (written-serial (expiry_of w r.expiry_date) r)
            (ground (arith, text_eq_iff c.serial r.serial, text_eq_iff r.serial c.serial)) in
        rw other (never (changes w revoke c))
  ]
    where
      either :
          (b : Bool) → (if b then written w revoke r else written w revoke r) ≡ written w revoke r
      either true = refl
      either false = refl

      never :
          (b : Bool)
          → (if b && false
              then record (written w revoke c) { serial = (written w revoke r).serial }
              else written w revoke r)
            ≡ written w revoke r
      never true = refl
      never false = refl

  stays :
      (s : Text) (r : CertRecord) (cs t : List CertRecord)
      → Only r cs
      → find (has_serial s) t ≡ some (written w revoke r)
      → find (has_serial s) (rewrite_all w revoke cs t) ≡ some (written w revoke r)
  stays s r [] t only e = e
  stays s r (c ∷ cs) t only e =
      stays s r cs (rewritten w revoke c t) only.1
        (find-rewritten s c (written w revoke r) t e ∙ ap some (same_again r c only.0))

  -- The row that the scan meets is written.
  first_time :
      (r : CertRecord)
      → (if changes w revoke r && has_serial r.serial r
          then record (written w revoke r) { serial = r.serial }
          else r)
        ≡ written w revoke r
  first_time r = elim (Bool-cases (changes w revoke r)) [
    | inl h ↦
        rw (h, itself)
          (ap (λ n. record (written w revoke r) { serial = n })
            (sym (written-serial (expiry_of w r.expiry_date) r)))
    | inr h ↦ rw h (sym (unchanged (expiry_of w r.expiry_date) r h))
  ]
    where
      itself : has_serial r.serial r ≡ true
      itself = ground (arith, text_eq_iff r.serial r.serial)

  pub becomes :
      (s : Text) (r : CertRecord) (cs t : List CertRecord)
      → Only r cs
      → any (has_serial r.serial) cs ≡ true
      → find (has_serial s) t ≡ some r
      → find (has_serial s) (rewrite_all w revoke cs t) ≡ some (written w revoke r)
  becomes s r [] t only met e = absurd (cc met)
  becomes s r (c ∷ cs) t only met e = elim (Bool-cases (has_serial r.serial c)) [
    | inl h ↦ stays s r cs (rewritten w revoke c t) only.1 (
        subst (λ k. find (has_serial s) (rewritten w revoke k t) ≡ some (written w revoke r))
          (sym (only.0 h)) (find-rewritten s r r t e ∙ ap some (first_time r)))
    | inr h ↦
        let other : has_serial c.serial r ≡ false =
          ground (arith, text_eq_iff c.serial r.serial, text_eq_iff r.serial c.serial) in
        becomes s r cs (rewritten w revoke c t) only.1 (ground arith)
          (find-rewritten s c r t e ∙ ap some (rw other (left_alone (changes w revoke c))))
  ]
    where
      left_alone :
          (b : Bool)
          → (if b && false then record (written w revoke c) { serial = r.serial } else r) ≡ r
      left_alone true = refl
      left_alone false = refl

module _ (w : Outside) where
  insert-All {ℓ} :
      (P : CertRecord → Type ℓ) (c : CertRecord) (xs : List CertRecord)
      → P c
      → All P xs
      → All P (insert_by_cast w c xs)
  insert-All P c [] h hs = (h, tt)
  insert-All P c (x ∷ xs) h hs =
      elim (Bool-cases (leb (w.cast_integer c.serial) (w.cast_integer x.serial))) [
        | inl e ↦ rw e (h, hs)
        | inr e ↦ rw e (hs.0, insert-All P c xs h hs.1)
      ]

  pub query-All {ℓ} :
      (P : CertRecord → Type ℓ) (cs : List CertRecord)
      → All P cs
      → All P (query_all_certs_including_deleted w cs)
  unfolding query_all_certs_including_deleted
  query-All P [] h = tt
  query-All P (c ∷ cs) h =
      insert-All P c (query_all_certs_including_deleted w cs) h.0 (query-All P cs h.1)

  any-insert :
      (p : CertRecord → Bool) (c : CertRecord) (xs : List CertRecord)
      → any p (insert_by_cast w c xs) ≡ (p c || any p xs)
  any-insert p c [] = refl
  any-insert p c (x ∷ xs) = ground (arith, any-insert p c xs)

  pub any-query :
      (p : CertRecord → Bool) (cs : List CertRecord)
      → any p (query_all_certs_including_deleted w cs) ≡ any p cs
  unfolding query_all_certs_including_deleted
  any-query p [] = refl
  any-query p (c ∷ cs) =
      any-insert p c (query_all_certs_including_deleted w cs) ∙ ap (λ b. p c || b) (any-query p cs)

-- What is found is there.
pub find-any :
    (p : CertRecord → Bool) (cs : List CertRecord) (r : CertRecord)
    → find p cs ≡ some r
    → any p cs ≡ true
find-any p [] r e = absurd (cc e)
find-any p (c ∷ cs) r e = ground (arith, find-any p cs r)

pub All-find {ℓ} :
    (P : CertRecord → Type ℓ) (p : CertRecord → Bool) (cs : List CertRecord) (r : CertRecord)
    → All P cs
    → find p cs ≡ some r
    → P r
All-find P p [] r h e = absurd (cc e)
All-find P p (c ∷ cs) r h e = elim (Bool-cases (p c)) [
  | inl t ↦ let same : c ≡ r = ground arith in subst P same h.0
  | inr f ↦ All-find P p cs r h.1 (ground arith)
]

-- Every row is there under its serial.
pub itself_there : (cs : List CertRecord) → All (λ c. any (has_serial c.serial) cs ≡ true) cs
itself_there [] = tt
itself_there (c ∷ cs) = (
  ground (arith, text_eq_iff c.serial c.serial),
  All-map _ _ (λ k e. ground arith) cs (itself_there cs),
)
