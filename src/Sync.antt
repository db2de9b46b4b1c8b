-- ===== src/Sync.antt =====
-- The sync of issued certificates: a page as the broker serves it, `issued` of
-- crates/opca-acme-broker/src/enrolled.rs, and opCA's loop over the pages, `issued_since` of
-- crates/opca-core/src/services/acme_broker/mod.rs.
pub mod Sorting
pub mod Paging
pub mod Complete
use op_ca.Prelude.{
  ℕ, zero, suc, ◌^◌, String, Bool, not, ◌||◌, Option, none, some, List, [], ◌∷◌, ◌++◌, leb, ltb,
  Result, ok, err, if◌then◌else◌,
}
use op_ca.Store.Tables.{Certificate, Db}
use op_ca.Store.Certificates.{changed_after}

pub data ErrorKind : Type 0 where
  bad_request : ErrorKind

pub record IssuedPage : Type 0 where
  pub certificates : List Certificate
  pub next : ℕ
  pub more : Bool

-- `certificates.last().map_or(after, |last| last.changed)`
abbrev pub last_change_or : ℕ → List Certificate → ℕ
last_change_or after [] = after
last_change_or after (c ∷ cs) = last_change_or c.changed cs

-- The cursor must fit an `i64`.
unfoldable pub issued : Option (List String) → ℕ → ℕ → Db → Result ErrorKind IssuedPage
issued issuers issued_page after d =
    let changes = changed_after after issuers issued_page d in
    if ltb after (2 ^ 63)
    then ok (record {
      certificates = changes.certificates;
      next = last_change_or after changes.certificates;
      more = changes.more;
    })
    else err bad_request

-- `loop` on fuel, which `none` says ran out; `certificates` is what the pages before gave.
unfoldable pub issued_since :
    (ℕ → Result ErrorKind IssuedPage)
    → ℕ
    → ℕ
    → List Certificate
    → Option (Result ErrorKind (List Certificate))
issued_since issued zero after certificates = none
issued_since issued (suc fuel) after certificates = elim (issued after) [
  | err e ↦ some (err e)
  | ok page ↦
      let more = certificates ++ page.certificates in
      let rest = issued_since issued fuel page.next more in
      if not page.more || leb page.next after then some (ok more) else rest
]
