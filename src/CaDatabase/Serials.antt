-- ===== src/CaDatabase/Serials.antt =====
-- No serial is given twice.
use op_ca.Prelude.{
  ℕ, suc, ◌+◌, ◌^◌, ◌%◌, ◌≡◌, ◌≤◌, ◌<◌, refl, ◌∙◌, Option, none, some, List, [], ◌∷◌, arith, All,
  All-map, length,
}
use op_ca.Decimal.Signed.{print_i64, parse-trim-print}
use op_ca.CaDatabase.{
  SerialType, Counters, CaDb, counter, with_counter, current_value, bumped, increment_serial,
}

-- A call of `increment_serial`: whose counter, and the serial that it asks for.
abbrev pub Taking : Type 0
Taking = SerialType × Option ℕ

-- The serials that a sequence of calls gives, each with its counter's type.
unfoldable pub take_serials : List Taking → CaDb → List (SerialType × ℕ)
take_serials [] d = []
take_serials ((type, asked) ∷ calls) d =
    let (given, next) = increment_serial type asked d in (type, given) ∷ take_serials calls next

-- Those of one counter.
abbrev pub of_type : SerialType → List (SerialType × ℕ) → List ℕ
of_type type [] = []
of_type SerialType.cert ((SerialType.cert, n) ∷ given) = n ∷ of_type SerialType.cert given
of_type SerialType.cert ((SerialType.crl, n) ∷ given) = of_type SerialType.cert given
of_type SerialType.crl ((SerialType.cert, n) ∷ given) = of_type SerialType.crl given
of_type SerialType.crl ((SerialType.crl, n) ∷ given) = n ∷ of_type SerialType.crl given

abbrev pub Rising : List ℕ → Type 0
Rising [] = Unit
Rising (n ∷ ns) = All (λ m. n < m) ns × Rising ns

-- `room` more calls do not reach the end of an `i64`.
abbrev pub HasRoom : ℕ → Option ℕ → Type 0
HasRoom room none = Unit
HasRoom room (some asked) = asked + room < 2 ^ 64

next_value :
    (type : SerialType) (n : ℕ) (c : Counters)
    → n < 2 ^ 64
    → current_value (counter type (with_counter type (print_i64 n) c)) ≡ n
next_value SerialType.cert n c h = rw (parse-trim-print n h) refl
next_value SerialType.crl n c h = rw (parse-trim-print n h) refl

bumped-lem :
    (asked : Option ℕ) (n room : ℕ)
    → n + suc room < 2 ^ 64
    → HasRoom (suc room) asked
    → (n ≤ bumped asked n) × (bumped asked n + suc room < 2 ^ 64)
bumped-lem none n room h k = (omega arith, h)
bumped-lem (some sn) n room h k = (ground arith, ground arith)

-- Where a counter stands.
abbrev pub at : SerialType → CaDb → ℕ
at type d = current_value (counter type d.counters)

-- After a call: its counter is past what was given, the other one where it was.
after_call :
    (type : SerialType) (asked : Option ℕ) (d : CaDb)
    → bumped asked (at type d) + 1 < 2 ^ 64
    → at type (increment_serial type asked d).1 ≡ bumped asked (at type d) + 1
unfolding increment_serial
after_call type asked d h =
    next_value type ((bumped asked (at type d) + 1) % 2 ^ 64) d.counters (omega arith) ∙ omega arith

others_stay_cert :
    (asked : Option ℕ) (d : CaDb)
    → at SerialType.cert (increment_serial SerialType.crl asked d).1 ≡ at SerialType.cert d
unfolding increment_serial
others_stay_cert asked d = refl

others_stay_crl :
    (asked : Option ℕ) (d : CaDb)
    → at SerialType.crl (increment_serial SerialType.cert asked d).1 ≡ at SerialType.crl d
unfolding increment_serial
others_stay_crl asked d = refl

abbrev pub AllHaveRoom : ℕ → List Taking → Type 0
AllHaveRoom room calls = All (λ c. HasRoom room c.1) calls

less_room : (room : ℕ) (asked : Option ℕ) → HasRoom (suc room) asked → HasRoom room asked
less_room room none h = h
less_room room (some sn) h = omega arith

-- What is given is not below where the counter stood, and rises.
abbrev Given : SerialType → List Taking → CaDb → Type 0
Given type calls d =
    All (λ n. at type d ≤ n) (of_type type (take_serials calls d))
    × Rising (of_type type (take_serials calls d))

-- A serial in front of those that the counter gives once it is past it.
in_front :
    (before n later : ℕ) (ns : List ℕ)
    → before ≤ n
    → later ≡ n + 1
    → All (λ m. later ≤ m) ns × Rising ns
    → All (λ m. before ≤ m) (n ∷ ns) × Rising (n ∷ ns)
in_front before n later ns up moved (low, rising) = (
  (up, All-map _ _ (λ m h. omega arith) ns low),
  (All-map _ _ (λ m h. omega arith) ns low, rising),
)

-- Whichever counter is called, both have room for the calls after it.
roomy :
    (type : SerialType) (asked : Option ℕ) (room : ℕ) (d : CaDb)
    → at SerialType.cert d + suc room < 2 ^ 64
    → at SerialType.crl d + suc room < 2 ^ 64
    → HasRoom (suc room) asked
    → (at SerialType.cert (increment_serial type asked d).1 + room < 2 ^ 64)
      × (at SerialType.crl (increment_serial type asked d).1 + room < 2 ^ 64)
roomy SerialType.cert asked room d hc hr k =
    let (up, left) = bumped-lem asked (at SerialType.cert d) room hc k in
    let moved = after_call SerialType.cert asked d (omega arith) in
    (omega arith, rw (others_stay_crl asked d) (omega arith))
roomy SerialType.crl asked room d hc hr k =
    let (up, left) = bumped-lem asked (at SerialType.crl d) room hr k in
    let moved = after_call SerialType.crl asked d (omega arith) in
    (rw (others_stay_cert asked d) (omega arith), omega arith)

called :
    (type : SerialType) (asked : Option ℕ) (room : ℕ) (d : CaDb)
    → at type d + suc room < 2 ^ 64
    → HasRoom (suc room) asked
    → (at type d ≤ (increment_serial type asked d).0)
      × (at type (increment_serial type asked d).1 ≡ (increment_serial type asked d).0 + 1)
called type asked room d h k =
    let (up, left) = bumped-lem asked (at type d) room h k in
    (
      unfold increment_serial in up,
      after_call type asked d (omega arith) ∙ unfold increment_serial in refl,
    )

given :
    (type : SerialType) (calls : List Taking) (d : CaDb)
    → at SerialType.cert d + length calls < 2 ^ 64
    → at SerialType.crl d + length calls < 2 ^ 64
    → AllHaveRoom (length calls) calls
    → Given type calls d
unfolding take_serials
given type [] d hc hr k = (tt, tt)
given type ((called_type, asked) ∷ calls) d hc hr k =
    let next = (increment_serial called_type asked d).1 in
    let (rc, rr) = roomy called_type asked (length calls) d hc hr k.0 in
    let more : Given type calls next =
      given type calls next rc rr (All-map _ _ (λ c h. less_room (length calls) c.1 h) calls k.1) in
    by type called_type hc hr more
  where
    by :
        (type called_type : SerialType)
        → at SerialType.cert d + suc (length calls) < 2 ^ 64
        → at SerialType.crl d + suc (length calls) < 2 ^ 64
        → Given type calls (increment_serial called_type asked d).1
        → Given type ((called_type, asked) ∷ calls) d
    by SerialType.cert SerialType.cert hc hr more =
        let (up, moved) = called SerialType.cert asked (length calls) d hc k.0 in
        in_front _ _ _ _ up moved more
    by SerialType.crl SerialType.crl hc hr more =
        let (up, moved) = called SerialType.crl asked (length calls) d hr k.0 in
        in_front _ _ _ _ up moved more
    by SerialType.cert SerialType.crl hc hr more =
        (All-map _ _ (λ n h. omega (arith, h, others_stay_cert asked d)) _ more.0, more.1)
    by SerialType.crl SerialType.cert hc hr more =
        (All-map _ _ (λ n h. omega (arith, h, others_stay_crl asked d)) _ more.0, more.1)

-- No serial is given twice. Where neither counter nor a serial asked for is so near the end of an `i64`
-- that the calls could pass it, the serials that a counter gives rise strictly from where it stood,
-- whatever is asked for between, and whatever is taken of the other counter.
pub take_serials-Rising :
    (type : SerialType) (calls : List Taking) (d : CaDb)
    → at SerialType.cert d + length calls < 2 ^ 64
    → at SerialType.crl d + length calls < 2 ^ 64
    → AllHaveRoom (length calls) calls
    → All (λ n. at type d ≤ n) (of_type type (take_serials calls d))
      × Rising (of_type type (take_serials calls d))
take_serials-Rising type calls d hc hr k = given type calls d hc hr k
