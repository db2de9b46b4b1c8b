-- ===== src/CaDatabase/Processing.antt =====
-- `process_ca_database`, the scan that moves statuses with the time, revokes and sorts the serials into
-- sets; and `crl_entries`.
use op_ca.Prelude.{
  Text, ℕ, String, Bool, true, false, not, ◌&&◌, ◌||◌, Option, none, some, List, [], ◌∷◌, Result,
  ok, err, ltb, if◌then◌else◌,
}
use op_ca.CaDatabase.{
  CertRecord, ExternalCertRecord, Standings, CaDb, DatabaseError, has_text, update_cert,
  update_external_cert, query_cert, CertLookup,
}
use op_ca.CaDatabase.Standing.{
  Outside, Standing, is_filled, expiry_of, query_all_certs_including_deleted, current_valid,
  standing_at, standing_of, settled, cert_changed, filed, insert,
}

-- A scan's step: whether it changed a row, and what stays changed when it fails.
abbrev pub Scanned : Type 0
Scanned = Result DatabaseError Bool × CaDb

-- `?` after a step.
abbrev pub continued : (Bool → CaDb → Scanned) → Scanned → Scanned
continued rest (err e, d) = (err e, d)
continued rest (ok b, d) = rest b d

abbrev pub stored : Result DatabaseError CaDb → CaDb → Scanned
stored (err e) d = (err e, d)
stored (ok after) d = (ok true, after)

-- A row without a readable expiry is passed over.
abbrev pub process_cert : Outside → Option Text → CertRecord → Option ℕ → CaDb → Scanned
process_cert w revoke c none d = (ok false, d)
process_cert w revoke c (some expiry) d =
    let sorted = record d { standings = filed (standing_of w revoke expiry c) c d.standings } in
    if cert_changed w revoke expiry c
    then stored (update_cert (settled w revoke expiry c) sorted) sorted
    else (ok false, sorted)

unfoldable pub process_certs : Outside → Option Text → List CertRecord → Bool → CaDb → Scanned
process_certs w revoke [] changed d = (ok changed, d)
process_certs w revoke (c ∷ cs) changed d =
    continued (λ b next. process_certs w revoke cs (changed || b) next)
      (process_cert w revoke c (expiry_of w c.expiry_date) d)

abbrev pub filed_external : Standing → Text → Standings → Standings
filed_external Standing.expired serial s = record s {
  ext_certs_expired = insert serial s.ext_certs_expired;
}
filed_external Standing.revoked serial s = s
filed_external Standing.expires_soon serial s = record s {
  ext_certs_expires_soon = insert serial s.ext_certs_expires_soon;
  ext_certs_expires_warning = insert serial s.ext_certs_expires_warning;
}
filed_external Standing.expires_warning serial s = record s {
  ext_certs_expires_warning = insert serial s.ext_certs_expires_warning;
}
filed_external Standing.valid serial s = record s {
  ext_certs_valid = insert serial s.ext_certs_valid;
}

-- No revocation.
abbrev pub process_external : Outside → ExternalCertRecord → Option ℕ → CaDb → Scanned
process_external w x none d = (ok false, d)
process_external w x (some expiry) d =
    let sorted = record d {
      standings = filed_external (standing_at w.now expiry false) x.serial d.standings;
    } in
    if ltb expiry w.now && not (has_text "Expired" x.status)
    then stored (update_external_cert (record x { status = some "Expired" }) sorted) sorted
    else (ok false, sorted)

unfoldable pub process_externals : Outside → List ExternalCertRecord → Bool → CaDb → Scanned
process_externals w [] changed d = (ok changed, d)
process_externals w (x ∷ xs) changed d =
    continued (λ b next. process_externals w xs (changed || b) next)
      (process_external w x (expiry_of w x.expiry_date) d)

-- The sets as a scan starts: empty but for the first pass.
abbrev pub cleared : List (String × Text) → Standings
cleared m = record {
  certs_expired = [];
  certs_expires_soon = [];
  certs_expires_warning = [];
  certs_revoked = [];
  certs_valid = [];
  certs_ignored = [];
  certs_superseded = [];
  replacements = [];
  valid_cn_to_serial = m;
  ext_certs_expired = [];
  ext_certs_expires_soon = [];
  ext_certs_expires_warning = [];
  ext_certs_valid = [];
}

abbrev pub finished : Bool → CaDb → Scanned
finished changed d = (ok changed, record d { dirty = false })

abbrev pub then_externals : Outside → Bool → CaDb → Scanned
then_externals w changed d = continued finished (process_externals w d.externals changed d)

abbrev pub is_none : Option Text → Bool
is_none none = true
is_none (some s) = false

unfoldable pub process_ca_database : Outside → Option Text → Bool → CaDb → Scanned
process_ca_database w revoke force d =
    let certs = query_all_certs_including_deleted w d.certs in
    let started = record d { standings = cleared (current_valid w revoke certs []) } in
    if not d.dirty && (is_none revoke && not force)
    then (ok false, d)
    else continued (then_externals w) (process_certs w revoke certs false started)

pub record CrlEntry : Type 0 where
  pub serial : Text
  pub revocation_date : String

abbrev pub date_of : Option CertRecord → Option String
date_of none = none
date_of (some c) = if is_filled c.revocation_date then c.revocation_date else none

abbrev pub entry : Text → Option String → List CrlEntry → List CrlEntry
entry serial none entries = entries
entry serial (some date) entries = (record { serial = serial; revocation_date = date }) ∷ entries

unfoldable pub entries_of : List Text → CaDb → List CrlEntry
entries_of [] d = []
entries_of (serial ∷ serials) d =
    entry serial (date_of (query_cert (CertLookup.by_serial serial) false d)) (entries_of serials d)

unfoldable pub crl_entries : CaDb → List CrlEntry
crl_entries d = entries_of d.standings.certs_revoked d
