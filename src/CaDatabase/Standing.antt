-- ===== src/CaDatabase/Standing.antt =====
-- What `process_ca_database` finds of one certificate: its expiry, its standing, the status it is to have
-- and the sets that take its serial; and the first pass, which names each name's current certificate.
-- Times are nanoseconds.
use op_ca.Prelude.{
  Text, text_eq, ℕ, ◌+◌, ◌*◌, String, Bool, false, not, ◌&&◌, ◌||◌, Option, none, some, List, [],
  ◌∷◌, any, filter, leb, ltb, str_eq, if◌then◌else◌,
}
use op_ca.Decimal.Signed.{parse_i64, zero_i64}
use op_ca.CaDatabase.{CertRecord, Standings, has_text, is_null}

-- The clock, its text, chrono's reader of OpenSSL's times, and SQLite's CAST AS INTEGER.
pub record Outside : Type 0 where
  pub now : ℕ
  pub now_text : String
  pub read_time : String → Option ℕ
  pub cast_integer : Text → ℕ

abbrev pub days : ℕ → ℕ
days n = n * 86400000000000

abbrev pub expiry_warning_days : ℕ
expiry_warning_days = 30

abbrev pub expiry_caution_days : ℕ
expiry_caution_days = 183

abbrev pub is_filled : Option String → Bool
is_filled none = false
is_filled (some t) = not (str_eq t "")

-- The expiry, where the row has one that can be read.
abbrev pub expiry_of : Outside → Option String → Option ℕ
expiry_of w none = none
expiry_of w (some t) = if str_eq t "" then none else w.read_time t

abbrev pub was_revoked : CertRecord → Bool
was_revoked c = is_filled c.revocation_date || has_text "Revoked" c.status

abbrev pub names : Option Text → Text → Bool
names none serial = false
names (some s) serial = text_eq s serial

-- ORDER BY CAST(serial AS INTEGER)
abbrev pub insert_by_cast : Outside → CertRecord → List CertRecord → List CertRecord
insert_by_cast w c [] = c ∷ []
insert_by_cast w c (x ∷ xs) =
    if leb (w.cast_integer c.serial) (w.cast_integer x.serial)
    then c ∷ x ∷ xs
    else x ∷ insert_by_cast w c xs

unfoldable pub query_all_certs_including_deleted : Outside → List CertRecord → List CertRecord
query_all_certs_including_deleted w [] = []
query_all_certs_including_deleted w (c ∷ cs) =
    insert_by_cast w c (query_all_certs_including_deleted w cs)

abbrev pub get_cn : String → List (String × Text) → Option Text
get_cn cn [] = none
get_cn cn ((k, v) ∷ m) = if str_eq k cn then some v else get_cn cn m

abbrev pub insert_cn : String → Text → List (String × Text) → List (String × Text)
insert_cn cn serial m = (cn, serial) ∷ filter (λ e. not (str_eq e.0 cn)) m

abbrev or_zero : Option ℕ → ℕ
or_zero none = zero_i64
or_zero (some n) = n

abbrev pub serial_number : Text → ℕ
serial_number serial = or_zero (parse_i64 serial)

abbrev or_min : Option ℕ → ℕ
or_min none = 0
or_min (some n) = n

-- `i64::MIN` where there is none that is a number.
abbrev pub existing_number : Option Text → ℕ
existing_number none = 0
existing_number (some serial) = or_min (parse_i64 serial)

-- Still valid, and not about to be revoked.
abbrev pub may_replace : Outside → Option Text → CertRecord → Option ℕ → Bool
may_replace w revoke c none = false
may_replace w revoke c (some expiry) =
    is_null c.ignored_at
    && (not (names revoke c.serial) && (not (ltb expiry w.now) && not (was_revoked c)))

abbrev pub noted : Text → Option String → List (String × Text) → List (String × Text)
noted serial none m = m
noted serial (some cn) m =
    if not (str_eq cn "") && ltb (existing_number (get_cn cn m)) (serial_number serial)
    then insert_cn cn serial m
    else m

-- The first pass: each name's current valid certificate, the highest serial.
unfoldable pub current_valid :
    Outside → Option Text → List CertRecord → List (String × Text) → List (String × Text)
current_valid w revoke [] m = m
current_valid w revoke (c ∷ cs) m =
    current_valid w revoke cs
      (if may_replace w revoke c (expiry_of w c.expiry_date) then noted c.serial c.cn m else m)

pub data Standing : Type 0 where
  expired : Standing
  revoked : Standing
  expires_soon : Standing
  expires_warning : Standing
  valid : Standing

unfoldable pub standing_at : ℕ → ℕ → Bool → Standing
standing_at now expiry is_revoked =
    if ltb expiry now
    then expired
    else if is_revoked
    then revoked
    else if ltb expiry (now + days expiry_warning_days)
    then expires_soon
    else if ltb expiry (now + days expiry_caution_days)
    then expires_warning
    else valid

-- Whether this scan revokes the certificate.
abbrev pub revokes : Outside → Option Text → ℕ → CertRecord → Bool
revokes w revoke expiry c = names revoke c.serial && (not (ltb expiry w.now) && not (was_revoked c))

abbrev pub standing_of : Outside → Option Text → ℕ → CertRecord → Standing
standing_of w revoke expiry c =
    standing_at w.now expiry (was_revoked c || revokes w revoke expiry c)

-- The status that a standing has, which only these two write.
abbrev pub status_of : Standing → Option String
status_of expired = some "Expired"
status_of revoked = some "Revoked"
status_of expires_soon = none
status_of expires_warning = none
status_of valid = none

abbrev pub status_differs : Option String → CertRecord → Bool
status_differs none c = false
status_differs (some t) c = not (has_text t c.status)

abbrev pub settled : Outside → Option Text → ℕ → CertRecord → CertRecord
settled w revoke expiry c =
    let written = status_of (standing_of w revoke expiry c) in
    record c {
      revocation_date = if revokes w revoke expiry c then some w.now_text else c.revocation_date;
      status = if status_differs written c then written else c.status;
    }

abbrev pub cert_changed : Outside → Option Text → ℕ → CertRecord → Bool
cert_changed w revoke expiry c =
    revokes w revoke expiry c || status_differs (status_of (standing_of w revoke expiry c)) c

abbrev pub contains : Text → List Text → Bool
contains serial set = any (text_eq serial) set

abbrev pub insert : Text → List Text → List Text
insert serial set = if contains serial set then set else serial ∷ set

abbrev pub replacement_of : Option String → List (String × Text) → Option Text
replacement_of none m = none
replacement_of (some cn) m = get_cn cn m

abbrev pub insert_pair : Text → Text → List (Text × Text) → List (Text × Text)
insert_pair serial by m = (serial, by) ∷ filter (λ e. not (text_eq e.0 serial)) m

abbrev pub expire : Text → Option Text → Standings → Standings
expire serial none s = record s { certs_expired = insert serial s.certs_expired }
expire serial (some by) s = record s {
  certs_superseded = insert serial s.certs_superseded;
  replacements = insert_pair serial by s.replacements;
}

abbrev pub sorted_in : Standing → CertRecord → Standings → Standings
sorted_in expired c s = expire c.serial (replacement_of c.cn s.valid_cn_to_serial) s
sorted_in revoked c s = record s { certs_revoked = insert c.serial s.certs_revoked }
sorted_in expires_soon c s = record s {
  certs_expires_soon = insert c.serial s.certs_expires_soon;
  certs_expires_warning = insert c.serial s.certs_expires_warning;
}
sorted_in expires_warning c s = record s {
  certs_expires_warning = insert c.serial s.certs_expires_warning;
}
sorted_in valid c s = record s { certs_valid = insert c.serial s.certs_valid }

abbrev pub filed : Standing → CertRecord → Standings → Standings
filed standing c s = sorted_in standing c (
    if is_null c.ignored_at
    then s
    else record s { certs_ignored = insert c.serial s.certs_ignored })
