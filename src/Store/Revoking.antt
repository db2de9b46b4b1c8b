-- ===== src/Store/Revoking.antt =====
-- `revoke` of acme/store.rs on every branch, and what a sync sees of it.
use op_ca.Prelude.{
  ℕ, ◌+◌, ◌≡◌, ◌≢◌, ◌≤◌, refl, sym, ap, ◌∙◌, String, true, false, not, ◌&&◌, Option, none, some,
  List, [], ◌∷◌, arith, All, filter, map, subst, ◌<◌, leb, ◌==◌, find, update_where, Result, ok,
  err, Bool-cases, inl, inr, ltb, str_eq, eq_iff, if◌then◌else◌,
}
use op_ca.Store.Tables.{
  Certificate, Db, Error, check, refused, not_found, already_revoked, by_serial,
}
use op_ca.Store.Certificates.{
  is_some, is_revocable, reason_allowed, next_change, certificate_by_serial, mark_revoked, revoke,
  issued_by, order_by_change, insert_by_change,
}
use op_ca.Store.Upkeep.{last_change}
use op_ca.Sync.Complete.{waiting}
use op_ca.Store.Revoked.{
  UniqueSerials, revoked, revoke_answer, found_serial, revoke_answered, changed-le,
  next_change-past,
}

-- The reasons of RFC 5280, which leave out 7, or none.
abbrev pub Reason : Option ℕ → Type 0
Reason none = Unit
Reason (some r) = (r ≤ 10) × (r ≢ 7)

Reason-allowed : (reason : Option ℕ) → Reason reason → reason_allowed reason ≡ true
unfolding reason_allowed
Reason-allowed none h = refl
Reason-allowed (some r) h = ground arith

not_Reason : (reason : Option ℕ) → ¬ Reason reason → reason_allowed reason ≡ false
unfolding reason_allowed
not_Reason none h = absurd (h tt)
not_Reason (some r) h = elim (Bool-cases (leb r 10 && not (r == 7))) [
  | inl e ↦ absurd (h (ground arith, ground arith))
  | inr e ↦ e
]

-- The certificates with the one that has the serial replaced by what it is once revoked.
abbrev pub with_revoked : String → Option ℕ → ℕ → ℕ → List Certificate → List Certificate
with_revoked serial reason now change cs =
    map (λ c. if str_eq c.serial serial then revoked reason now change c else c) cs

-- What `revoke` is to answer, by the certificate that has the serial.
abbrev pub Answers :
    String → Option ℕ → ℕ → Db → Option Certificate → Result Error (Certificate × Db) → Type 0
Answers serial reason now d none r = r ≡ err (not_found "certificates" (by_serial serial))
Answers serial reason now d (some c) r =
    ((at : ℕ) → c.revoked_at ≡ some at → r ≡ err (already_revoked serial))
    × (c.revoked_at ≡ none → ¬ Reason reason → r ≡ err (refused check))
    × (c.revoked_at ≡ none
        → Reason reason
        → (change : ℕ) × All (λ x. x.changed < change) d.certificates
          × (r
              ≡ ok (
                revoked reason now change c,
                record d { certificates = with_revoked serial reason now change d.certificates },
              )))

alone :
    (serial s : String) (f : Certificate → Certificate) (cs : List Certificate)
    → s ≡ serial
    → All (λ x. s ≢ x.serial) cs
    → update_where (is_revocable serial) f cs
      ≡ map (λ c. if str_eq c.serial serial then f c else c) cs
alone serial s f [] e h = refl
alone serial s f (c ∷ cs) e h =
    ground (arith, eq_iff c.serial serial, h.0, alone serial s f cs e h.1)

update-map :
    (serial : String) (f : Certificate → Certificate) (cs : List Certificate) (r : Certificate)
    → UniqueSerials cs
    → find (λ c. str_eq c.serial serial) cs ≡ some r
    → r.revoked_at ≡ none
    → update_where (is_revocable serial) f cs
      ≡ map (λ c. if str_eq c.serial serial then f c else c) cs
update-map serial f [] r u e n = refl
update-map serial f (c ∷ cs) r u e n = elim (Bool-cases (str_eq c.serial serial)) [
  | inl hit ↦
      let same : c ≡ r = ground arith in
      let live : is_some c.revoked_at ≡ false =
        ap (λ x. is_some x.revoked_at) same ∙ ap is_some n in
      rw (hit, live)
        (ap (◌∷◌ (f c)) (alone serial c.serial f cs ((eq_iff c.serial serial).0 hit) u.0))
  | inr miss ↦ rw miss (ap (◌∷◌ c) (update-map serial f cs r u.1 (ground arith) n))
]

-- Where serials are unique, `revoke` answers on each branch as the certificate with the serial
-- decides: not found; already revoked; refused for a reason that is none of RFC 5280's; and else that
-- certificate revoked now, for the reason, with a change past every other, in a database in which it
-- alone is replaced.
pub revoke_lem :
    (serial : String) (reason : Option ℕ) (now : ℕ) (d : Db)
    → UniqueSerials d.certificates
    → Answers serial reason now d (certificate_by_serial serial d) (revoke serial reason now d)
unfolding mark_revoked
revoke_lem serial reason now d u =
    subst (Answers serial reason now d (certificate_by_serial serial d))
      (sym (revoke_answered serial reason now d u)) (by (certificate_by_serial serial d) refl)
  where
    by :
        (o : Option Certificate)
        → certificate_by_serial serial d ≡ o
        → Answers serial reason now d o (revoke_answer serial reason now d o)
    by none e = refl
    by (some c) e =
        let live : c.revoked_at ≡ none → is_some c.revoked_at ≡ false = λ n. ap is_some n in
        (
          (λ at was. rw was refl),
          (λ n not_one. rw (live n, not_Reason reason not_one) refl),
          λ n one. (
            next_change d,
            next_change-past d,
            rw (live n, Reason-allowed reason one)
                (ap
                  (λ cs. ok (revoked reason now (next_change d) c, record d { certificates = cs }))
                  (update-map serial (revoked reason now (next_change d)) d.certificates c u
                    (unfold certificate_by_serial in e) n)),
          ),
        )

module _ (serial : String) (last : ℕ) (mark : Certificate → Certificate)
    (past : (c : Certificate) → (mark c).changed ≡ last + 1) where
  none_marked :
      (s : String) (cs : List Certificate)
      → s ≡ serial
      → All (λ x. s ≢ x.serial) cs
      → All (λ c. c.changed ≤ last) cs
      → filter
          (λ c. ltb last c.changed && issued_by none c)
          (update_where (is_revocable serial) mark cs)
        ≡ []
  unfolding issued_by
  none_marked s [] e h l = refl
  none_marked s (c ∷ cs) e h l =
      ground (arith, eq_iff c.serial serial, h.0, none_marked s cs e h.1 l.1)

  one_marked :
      (cs : List Certificate) (r : Certificate)
      → UniqueSerials cs
      → All (λ c. c.changed ≤ last) cs
      → find (λ c. str_eq c.serial serial) cs ≡ some r
      → is_some r.revoked_at ≡ false
      → filter
          (λ c. ltb last c.changed && issued_by none c)
          (update_where (is_revocable serial) mark cs)
        ≡ mark r ∷ []
  unfolding issued_by
  one_marked [] r u l e n = cc
  one_marked (c ∷ cs) r u l e n = elim (Bool-cases (str_eq c.serial serial)) [
    | inl hit ↦
        let same : c ≡ r = ground arith in
        ground
          (arith, same, past c, none_marked c.serial cs ((eq_iff c.serial serial).0 hit) u.0 l.1)
    | inr miss ↦ ground (arith, one_marked cs r u.1 l.1)
  ]

-- The answer of a successful `revoke`, taken apart.
revoke_answer-ok :
    (serial : String) (reason : Option ℕ) (now : ℕ) (d d' : Db) (c r : Certificate)
    → revoke_answer serial reason now d (some r) ≡ ok (c, d')
    → (is_some r.revoked_at ≡ false)
      × (revoked reason now (next_change d) r ≡ c)
      × (mark_revoked serial reason now d ≡ d')
revoke_answer-ok serial reason now d d' c r h = ground arith

order_one : (c : Certificate) → order_by_change (c ∷ []) ≡ c ∷ []
unfolding order_by_change insert_by_change
order_one c = refl

marked-waiting :
    (serial : String) (reason : Option ℕ) (now : ℕ) (d : Db) (r : Certificate)
    → UniqueSerials d.certificates
    → certificate_by_serial serial d ≡ some r
    → is_some r.revoked_at ≡ false
    → waiting none (mark_revoked serial reason now d) (last_change d)
      ≡ revoked reason now (next_change d) r ∷ []
unfolding certificate_by_serial mark_revoked next_change
marked-waiting serial reason now d r u e n =
    ap order_by_change (
      one_marked serial (last_change d) (revoked reason now (last_change d + 1)) (λ c. refl)
        d.certificates r u (changed-le d) e n)
    ∙ order_one _

serial_found :
    (serial : String) (d : Db) (r : Certificate)
    → certificate_by_serial serial d ≡ some r
    → r.serial ≡ serial
unfolding certificate_by_serial
serial_found serial d r e = (eq_iff r.serial serial).0 (found_serial serial d.certificates r e)

-- A client that had read every change is given exactly the certificate that a successful `revoke`
-- answers, and it is the one with the serial, marked revoked at that time and for that reason.
pub waiting-revoke :
    (serial : String) (reason : Option ℕ) (now : ℕ) (d d' : Db) (c : Certificate)
    → UniqueSerials d.certificates
    → revoke serial reason now d ≡ ok (c, d')
    → (waiting none d' (last_change d) ≡ c ∷ [])
      × (c.serial ≡ serial)
      × (c.revoked_at ≡ some now)
      × (c.revocation_reason ≡ reason)
waiting-revoke serial reason now d d' c u h =
    answers (certificate_by_serial serial d) refl (sym (revoke_answered serial reason now d u) ∙ h)
  where
    answers :
        (o : Option Certificate)
        → certificate_by_serial serial d ≡ o
        → revoke_answer serial reason now d o ≡ ok (c, d')
        → (waiting none d' (last_change d) ≡ c ∷ [])
          × (c.serial ≡ serial)
          × (c.revoked_at ≡ some now)
          × (c.revocation_reason ≡ reason)
    answers none e a = absurd (ground arith)
    answers (some r) e a =
        let (n, same, committed) = revoke_answer-ok serial reason now d d' c r a in
        rw (← same, ← committed)
          (marked-waiting serial reason now d r u e n, serial_found serial d r e, refl, refl)
