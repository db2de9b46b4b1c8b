-- ===== src/CaDatabase/Publishing.antt =====
-- One certificate of a name is published.
use op_ca.Prelude.{
  ◌≡◌, refl, ◌∙◌, Bool, true, false, not, ◌&&◌, ◌||◌, some, List, [], ◌∷◌, ok, arith, All, find,
  update_where, find-update_where, find-passes, Text, text_eq, text_eq_iff, String, if◌then◌else◌,
}
use op_ca.CaDatabase.{
  CertRecord, CaDb, DatabaseError, has_serial, has_text, is_null, stamped, updated,
  mark_cert_published,
}

abbrev pub is_published : CertRecord → Bool
is_published c = not (is_null c.published_at)

-- What `mark_cert_published` writes to.
abbrev picked : Text → String → CertRecord → Bool
picked serial cn c = has_serial serial c || (has_text cn c.cn && is_published c)

updated-ok :
    (e : DatabaseError) (p : CertRecord → Bool) (f : CertRecord → CertRecord) (d after : CaDb)
    → updated e p f d ≡ ok after
    → after.certs ≡ update_where p f d.certs
updated-ok e p f d after h = ground arith

only_serial :
    (now : String) (serial : Text) (cn : String) (cs : List CertRecord)
    → All
        (λ c. has_text cn c.cn ≡ true → is_published c ≡ has_serial serial c)
        (update_where (picked serial cn) (stamped now serial) cs)
only_serial now serial cn [] = tt
only_serial now serial cn (c ∷ cs) = ((λ h. one h), only_serial now serial cn cs)
  where
    one :
        has_text cn (if picked serial cn c then stamped now serial c else c).cn ≡ true
        → is_published (if picked serial cn c then stamped now serial c else c)
          ≡ has_serial serial (if picked serial cn c then stamped now serial c else c)
    one h = ground arith

-- A text is one text.
other_serial :
    (serial other : Text) (c : CertRecord)
    → text_eq serial other ≡ false
    → has_serial other c ≡ true
    → has_serial serial c ≡ false
other_serial serial other c n h =
    ground
      (arith, text_eq_iff c.serial other, text_eq_iff c.serial serial, text_eq_iff serial other)

-- The mark is the name's own. Where the call succeeds, a certificate of the name is published exactly
-- where it has the serial; and a certificate of another name and serial is as it was.
pub mark_cert_published-One :
    (now : String) (serial : Text) (cn : String) (d after : CaDb)
    → mark_cert_published now serial cn d ≡ ok after
    → All (λ c. has_text cn c.cn ≡ true → is_published c ≡ has_serial serial c) after.certs
      × ((other : Text) (c : CertRecord)
          → find (has_serial other) d.certs ≡ some c
          → text_eq serial other ≡ false
          → has_text cn c.cn ≡ false
          → find (has_serial other) after.certs ≡ some c)
unfolding mark_cert_published
mark_cert_published-One now serial cn d after h =
    let e =
      updated-ok DatabaseError.certificate_not_found (picked serial cn) (stamped now serial) d after
        h in
    (
      rw e (only_serial now serial cn d.certs),
      λ other c found n differs. rw e (
          find-update_where (has_serial other) (picked serial cn) (stamped now serial) (λ x. refl)
            d.certs c found
          ∙ rw
              (
                other_serial serial other c n (find-passes (has_serial other) d.certs c found),
                differs,
              )
              refl),
    )
