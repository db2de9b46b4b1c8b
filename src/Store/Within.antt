-- ===== src/Store/Within.antt =====
-- Reasoning about transactions: `Within R m` says that whatever `m` commits is related by `R` to what
-- it began with. There is a rule for each way to build a transaction.
use op_ca.Store.Lifecycle.{Lifecycle, row_of, read_status, put_status, transition}
use op_ca.Prelude.{
  ℕ, ◌≡◌, refl, inl, inr, Option-cases, Bool, true, false, Option, none, some, Result, ok, err,
  if◌then◌else◌,
}
use op_ca.Store.Tables.{Db, Error, Tx, after, continue, ◌>>=◌, pure, fail, read, write, found_or}

module _ {A : Type 0} where
  -- `P` of the database that a result commits, if it commits one.
  abbrev pub Committed : (Db → Type 0) → Result Error (A × Db) → Type 0
  Committed P (ok (a, d)) = P d
  Committed P (err e) = Unit

  pub Committed-map :
      (P Q : Db → Type 0)
      → ((d : Db) → P d → Q d)
      → (r : Result Error (A × Db)) → Committed P r
      → Committed Q r
  Committed-map P Q f (ok (a, d)) h = f d h
  Committed-map P Q f (err e) h = tt

  pub Committed-after :
      (P : Db → Type 0) (d : Db) (r : Result Error (A × Db)) → P d → Committed P r → P (after d r)
  Committed-after P d (ok (a, d')) p h = h
  Committed-after P d (err e) p h = p

pub record Within {A : Type 0} (R : Db → Db → Type 0) (m : Tx A) : Type 0 where
  pub at : (d : Db) → Committed (R d) (m d)

-- What a preorder on databases has.
pub record IsOrder (R : Db → Db → Type 0) : Type 0 where
  pub here : (d : Db) → R d d
  pub chain : (a b c : Db) → R a b → R b c → R a c

module _ {R : Db → Db → Type 0} where
  pub Within-write : (f : Db → Db) → ((d : Db) → R d (f d)) → Within R (write f)
  Within-write f h = record { at = h }

  pub Within-fail : {A : Type 0} (e : Error) → Within {A = A} R (fail e)
  Within-fail e = record { at = λ d. tt }

  pub Within-if :
      {A : Type 0} (b : Bool) (m n : Tx A) → Within R m → Within R n → Within R (if b then m else n)
  Within-if true m n hm hn = hm
  Within-if false m n hm hn = hn

  pub Within-after :
      {A : Type 0} (o : IsOrder R) (m : Tx A) → Within R m → (d : Db) → R d (after d (m d))
  Within-after o m h d = Committed-after (R d) d (m d) (o.here d) (h.at d)

module _ {R : Db → Db → Type 0} (o : IsOrder R) where
  pub Within-pure : {A : Type 0} (a : A) → Within R (pure a)
  Within-pure a = record { at = o.here }

  pub Within-read : {A : Type 0} (f : Db → A) → Within R (read f)
  Within-read f = record { at = o.here }

  found_or_at :
      {A : Type 0} (found : Option A) (e : Error) (d : Db) → Committed (R d) (found_or found e d)
  found_or_at none e d = tt
  found_or_at (some a) e d = o.here d

  pub Within-found_or : {A : Type 0} (found : Option A) (e : Error) → Within R (found_or found e)
  Within-found_or found e = record { at = found_or_at found e }

  continue_at :
      {A B : Type 0} (f : A → Tx B) (d : Db) (r : Result Error (A × Db))
      → ((a : A) → Within R (f a))
      → Committed (R d) r
      → Committed (R d) (continue r f)
  continue_at f d (ok (a, d')) hf h =
      Committed-map (R d') (R d) (λ c. o.chain d d' c h) (f a d') ((hf a).at d')
  continue_at f d (err e) hf h = tt

  pub Within-bind :
      {A B : Type 0} (m : Tx A) (f : A → Tx B)
      → Within R m
      → ((a : A) → Within R (f a))
      → Within R (m >>= f)
  Within-bind m f hm hf = record { at = λ d. continue_at f d (m d) hf (hm.at d) }

pub ruleset within_rules =
    (Within-write, Within-fail, Within-if, Within-pure, Within-read, Within-found_or, Within-bind)

-- `transition` finds its row, and the row's status may become the new one.
module _ {S Row : Type 0} (l : Lifecycle S Row) where
  move_at :
      (P : Db → Type 0) (i : ℕ) (to : S) (d : Db) (e : Error) (b : Bool)
      → (b ≡ true → P (put_status l i to d))
      → Committed P ((if b then write (put_status l i to) else fail e) d)
  move_at P i to d e true h = h refl
  move_at P i to d e false h = tt

  pub Within-transition :
      {R : Db → Db → Type 0} (i : ℕ) (to : S)
      → ((d : Db) (r : Row)
          → row_of l i d ≡ some r
          → l.may_become (l.status r) to ≡ true
          → R d (put_status l i to d))
      → Within R (transition l i to)
  unfolding transition read_status
  Within-transition i to h = record {
    at = λ d. elim (Option-cases (row_of l i d)) [
      | inl e ↦ rw (e, found_or) tt
      | inr (r, e) ↦ rw (e, found_or) (move_at _ i to d _ _ (h d r e))
    ];
  }
