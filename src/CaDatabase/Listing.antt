-- ===== src/CaDatabase/Listing.antt =====
-- What the scan revokes, or finds revoked, the CRL lists.
use op_ca.Prelude.{
  ◌≢◌, ◌≤◌, ◌⊎◌, ℕ, Text, text_eq, String, ◌≡◌, Bool, ◌&&◌, Option, some, List, any, str_eq,
}
use op_ca.CaDatabase.{CertRecord}
use op_ca.CaDatabase.Standing.{Outside}
use op_ca.CaDatabase.Processing.{CrlEntry}
use op_ca.CaDatabase.Spelled.{Expires, WasRevoked}

-- Whether a serial is listed with a date.
abbrev pub listed : Text → String → List CrlEntry → Bool
listed serial date entries =
    any (λ e. text_eq e.serial serial && str_eq e.revocation_date date) entries

-- A certificate that is not past its expiry and was revoked, or is named to be revoked, and the date that
-- it is revoked with: its own, and else the scan's.
abbrev pub RevokedOn : Outside → Option Text → CertRecord → String → Type 0
RevokedOn w revoke r date =
    (date ≢ "")
    × (e : ℕ) × Expires w r e
    × (w.now ≤ e)
    × ((WasRevoked r × (r.revocation_date ≡ some date))
        ⊎ (¬ WasRevoked r × (revoke ≡ some r.serial) × (date ≡ w.now_text)))
