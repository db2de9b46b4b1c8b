-- ===== src/Mirror/Rows.antt =====
-- What is found in the table after rows were recorded, and where the cursor stands.
use op_ca.Prelude.{
  ℕ, ◌≡◌, ◌≤◌, refl, ◌∙◌, max, String, Bool, true, false, not, ◌&&◌, Option, some, List, [], ◌∷◌,
  ◌++◌, arith, All, any, filter, find, map, ◌==◌, str_eq, eq_iff, Bool-cases, inl, inr,
  if◌then◌else◌,
}
use op_ca.Store.Tables.{Certificate, greatest}
use op_ca.Mirror.{BrokerCert, row, has_key, insert_or_replace, record_broker_certs, broker_cursor}

-- The row with a key.
abbrev pub lookup : ℕ → String → List BrokerCert → Option BrokerCert
lookup id serial rows = find (has_key id serial) rows

find-append-last :
    (id : ℕ) (serial : String) (r : BrokerCert) (rows : List BrokerCert)
    → lookup id serial (filter (λ x. not (has_key r.broker_id r.serial x)) rows ++ r ∷ [])
      ≡ (if has_key id serial r then some r else lookup id serial rows)
find-append-last id serial r [] = refl
find-append-last id serial r (x ∷ rows) = ground (
  arith,
  find-append-last id serial r rows,
  eq_iff x.serial r.serial,
  eq_iff r.serial serial,
  eq_iff x.serial serial,
)

pub lookup-insert :
    (id : ℕ) (serial : String) (r : BrokerCert) (rows : List BrokerCert)
    → lookup id serial (insert_or_replace r rows)
      ≡ (if has_key id serial r then some r else lookup id serial rows)
unfolding insert_or_replace
lookup-insert id serial r rows = find-append-last id serial r rows

abbrev pub has_serial : String → Certificate → Bool
has_serial serial c = str_eq c.serial serial

pub lookup-unrecorded :
    (id j : ℕ) (serial : String) (cs : List Certificate) (rows : List BrokerCert)
    → ((id == j) && any (has_serial serial) cs) ≡ false
    → lookup j serial (record_broker_certs (map (row id) cs) rows) ≡ lookup j serial rows
unfolding record_broker_certs
lookup-unrecorded id j serial [] rows h = refl
lookup-unrecorded id j serial (c ∷ cs) rows h =
    lookup-unrecorded id j serial cs (insert_or_replace (row id c) rows) (ground arith)
    ∙ ground (arith, lookup-insert j serial (row id c) rows)

-- A serial that stands for one certificate leads to its row.
pub lookup-recorded :
    (id : ℕ) (c : Certificate) (cs : List Certificate) (rows : List BrokerCert)
    → All (λ k. has_serial c.serial k ≡ true → k ≡ c) cs
    → any (has_serial c.serial) cs ≡ true
    → lookup id c.serial (record_broker_certs (map (row id) cs) rows) ≡ some (row id c)
unfolding record_broker_certs
lookup-recorded id c [] rows one h = absurd (cc h)
lookup-recorded id c (k ∷ cs) rows one h = elim (Bool-cases (any (has_serial c.serial) cs)) [
  | inl later ↦ lookup-recorded id c cs (insert_or_replace (row id k) rows) one.1 later
  | inr last ↦
      let here : has_serial c.serial k ≡ true = ground arith in
      lookup-unrecorded id id c.serial cs (insert_or_replace (row id k) rows) (ground arith)
      ∙ (lookup-insert id c.serial (row id k) rows ∙ ground (arith, one.0 here))
]

-- A row of the broker is not past its cursor.
pub lookup-le-cursor :
    (id : ℕ) (serial : String) (rows : List BrokerCert) (r : BrokerCert)
    → lookup id serial rows ≡ some r
    → r.changed ≤ broker_cursor id rows
unfolding broker_cursor greatest
lookup-le-cursor id serial [] r e = absurd (cc e)
lookup-le-cursor id serial (x ∷ rows) r e = ground (arith, lookup-le-cursor id serial rows r)

pub cursor-append :
    (id : ℕ) (r : BrokerCert) (rows : List BrokerCert)
    → broker_cursor id (rows ++ r ∷ [])
      ≡ (if r.broker_id == id then max (broker_cursor id rows) r.changed else broker_cursor id rows)
unfolding broker_cursor greatest
cursor-append id r [] = ground arith
cursor-append id r (x ∷ rows) = ground (arith, cursor-append id r rows)

pub cursor-filter-le :
    (id : ℕ) (p : BrokerCert → Bool) (rows : List BrokerCert)
    → broker_cursor id (filter p rows) ≤ broker_cursor id rows
unfolding broker_cursor greatest
cursor-filter-le id p [] = omega arith
cursor-filter-le id p (x ∷ rows) = ground (arith, cursor-filter-le id p rows)
