-- ===== src/Server/Trace.antt =====
-- Reasoning about handlers: the calls that a step makes on the database, each with what is known when
-- it is made, the calls of others in between, and what is known of the step's answer.
use op_ca.Prelude.{
  ℕ, suc, ◌≡◌, ◌≤◌, arith, refl, sym, ◌∙◌, List, [], ◌∷◌, Result, ok, err, subst, Bool, true, false,
  if◌then◌else◌,
}
use op_ca.Store.Tables.{Db, Error, Tx, after}
use op_ca.Store.Calls.{Call, step, run}
use op_ca.Server.{
  Act, ◌>>=◌, pure, tell, look, now, transact, arrive, continue, returned, Refusal, World, Server,
}

-- From a database and a moment to later ones: the others' calls take a moment each, and every call of
-- the step itself has the property `P` of the moment and of the database that it is made on.
pub data Made (w : World) (P : ℕ → Db → Call → Type 0) (d : Db) (n : ℕ) : Db → ℕ → Type 0 where
  here : Made w P d n d n
  others : {e f : Db} {m : ℕ} → Made w P d n e m → f ≡ run e (w.others m) → Made w P d n f (suc m)
  makes :
      {e f : Db} {m : ℕ} (c : Call) → Made w P d n e m → P m e c → f ≡ step e c → Made w P d n f m

module _ (w : World) (P : ℕ → Db → Call → Type 0) where
  pub Made-trans :
      {d e : Db} {n m : ℕ} {f : Db} {k : ℕ} → Made w P d n e m → Made w P e m f k → Made w P d n f k
  Made-trans p here = p
  Made-trans p (others q e) = others (Made-trans p q) e
  Made-trans p (makes c q h e) = makes c (Made-trans p q) h e

  -- What calls keep, a trace keeps.
  pub Made-keeps :
      (F : Db → Type 0)
      → ((d : Db) (cs : List Call) → F d → F (run d cs))
      → {d : Db} {n : ℕ} {e : Db} {m : ℕ} → Made w P d n e m
      → F d
      → F e
  unfolding run
  Made-keeps F keep here h = h
  Made-keeps F keep (others {e} {f} {m} q s) h =
      subst F (sym s) (keep e (w.others m) (Made-keeps F keep q h))
  Made-keeps F keep (makes {e} c q p s) h =
      subst F (sym s) (keep e (c ∷ []) (Made-keeps F keep q h))

-- From one state of the server to a later one in the same request.
pub record Later (w : World) (P : ℕ → Db → Call → Type 0) (s t : Server) : Type 0 where
  pub made : Made w P s.store s.moment t.store t.moment
  pub same_issuer : t.issuer ≡ s.issuer
  pub same_pause : t.paused ≡ s.paused

-- At some moment of the request, later than `s`, the database was as `F` says.
abbrev pub Met : World → (ℕ → Db → Call → Type 0) → Server → (Db → Type 0) → Type 0
Met w P s F = (u : Server) × Later w P s u × F u.store

abbrev pub Gives : {A : Type 0} → (A → Server → Type 0) → Result Refusal A × Server → Type 0
Gives Q (ok a, t) = Q a t
Gives Q (err e, t) = Unit

pub record Does {A : Type 0} (w : World) (P : ℕ → Db → Call → Type 0) (Q : A → Server → Type 0)
    (m : Act A) (s : Server) : Type 0 where
  pub later : Later w P s (m s).1
  pub answer : Gives Q (m s)

module _ (w : World) (P : ℕ → Db → Call → Type 0) where
  pub Later-refl : (s : Server) → Later w P s s
  Later-refl s = record { made = here; same_issuer = refl; same_pause = refl }

  pub Later-trans : {s t u : Server} → Later w P s t → Later w P t u → Later w P s u
  Later-trans p q = record {
    made = Made-trans w P p.made q.made;
    same_issuer = q.same_issuer ∙ p.same_issuer;
    same_pause = q.same_pause ∙ p.same_pause;
  }

  moment-Made : {d : Db} {n : ℕ} {e : Db} {m : ℕ} → Made w P d n e m → n ≤ m
  moment-Made here = omega arith
  moment-Made (others p e) = let h = moment-Made p in omega arith
  moment-Made (makes c p q e) = moment-Made p

  pub moment-Later : {s t : Server} → Later w P s t → s.moment ≤ t.moment
  moment-Later l = moment-Made l.made

  pub Met-before : {s t : Server} (F : Db → Type 0) → Later w P s t → Met w P t F → Met w P s F
  Met-before F l (u, l', f) = (u, Later-trans l l', f)

  pub Later-arrive : (s : Server) → Later w P s (arrive w s)
  unfolding arrive
  Later-arrive s = record { made = others here refl; same_issuer = refl; same_pause = refl }

  pub keeps :
      (F : Db → Type 0)
      → ((d : Db) (cs : List Call) → F d → F (run d cs))
      → {s t : Server} → Later w P s t
      → F s.store
      → F t.store
  keeps F keep l h = Made-keeps w P F keep l.made h

-- More calls may be made of a step than are.
module _ (w : World) (E P : ℕ → Db → Call → Type 0)
    (allow : (n : ℕ) (d : Db) (c : Call) → E n d c → P n d c) where
  Made-allow : {d : Db} {n : ℕ} {e : Db} {m : ℕ} → Made w E d n e m → Made w P d n e m
  Made-allow here = here
  Made-allow (others p e) = others (Made-allow p) e
  Made-allow (makes {e} {f} {m} c p q s) = makes c (Made-allow p) (allow m e c q) s

  pub Later-allow : {s t : Server} → Later w E s t → Later w P s t
  Later-allow l = record {
    made = Made-allow l.made;
    same_issuer = l.same_issuer;
    same_pause = l.same_pause;
  }

  -- What follows the step may use that it made no other calls.
  pub Does-allow :
      {A : Type 0} {Q : A → Server → Type 0} (m : Act A) (s : Server)
      → Does w E Q m s
      → Does w P (λ a t. Q a t × Later w E s t) m s
  Does-allow {A} {Q} m s h = record {
    later = Later-allow h.later;
    answer = gives (m s) h.answer h.later;
  }
    where
      gives :
          (p : Result Refusal A × Server)
          → Gives Q p
          → Later w E s p.1
          → Gives (λ a t. Q a t × Later w E s t) p
      gives (ok a, t) q l = (q, l)
      gives (err e, t) q l = tt

tell_at :
    {A : Type 0} (Q : A → Server → Type 0) (r : Result Refusal A) (s : Server)
    → ((a : A) → r ≡ ok a → Q a s)
    → Gives Q (r, s)
tell_at Q (ok a) s h = h a refl
tell_at Q (err e) s h = tt

module _ {w : World} {P : ℕ → Db → Call → Type 0} where
  pub Does-pure :
      {A : Type 0} {Q : A → Server → Type 0} (a : A) (s : Server) → Q a s → Does w P Q (pure a) s
  unfolding pure
  Does-pure a s q = record { later = Later-refl w P s; answer = q }

  pub Does-tell :
      {A : Type 0} {Q : A → Server → Type 0} (r : Result Refusal A) (s : Server)
      → ((a : A) → r ≡ ok a → Q a s)
      → Does w P Q (tell r) s
  unfolding tell
  Does-tell r s h = record { later = Later-refl w P s; answer = tell_at _ r s h }

  pub Does-look :
      {A : Type 0} {Q : A → Server → Type 0} (f : Db → A) (s : Server)
      → Q (f (arrive w s).store) (arrive w s)
      → Does w P Q (look w f) s
  unfolding look
  Does-look f s q = record { later = Later-arrive w P s; answer = q }

  pub Does-now :
      {Q : ℕ → Server → Type 0} (s : Server)
      → Q (w.clock s.moment) (arrive w s)
      → Does w P Q (now w) s
  unfolding now
  Does-now s q = record { later = Later-arrive w P s; answer = q }

  -- A transaction that is the call `c`.
  pub Does-transact :
      {A : Type 0} {Q : Result Error A → Server → Type 0} (m : ℕ → Tx A) (c : ℕ → Call) (s : Server)
      → ((at : ℕ) (d : Db) → step d (c at) ≡ after d (m at d))
      → P (arrive w s).moment (arrive w s).store (c (w.clock s.moment))
      → (let r = m (w.clock s.moment) (arrive w s).store in
          Q (returned r) (record (arrive w s) { store = after (arrive w s).store r }))
      → Does w P Q (transact w m) s
  unfolding transact
  Does-transact m c s same p q = record {
    later = record {
      made =
          makes (c (w.clock s.moment)) (Later-arrive w P s).made p
            (sym (same (w.clock s.moment) (arrive w s).store));
      same_issuer = (Later-arrive w P s).same_issuer;
      same_pause = (Later-arrive w P s).same_pause;
    };
    answer = q;
  }

  pub Does-weaken :
      {A : Type 0} {Q R : A → Server → Type 0} (m : Act A) (s : Server)
      → ((a : A) (t : Server) → Q a t → R a t)
      → Does w P Q m s
      → Does w P R m s
  Does-weaken {A} {Q} {R} m s f h = record { later = h.later; answer = gives (m s) h.answer }
    where
      gives : (p : Result Refusal A × Server) → Gives Q p → Gives R p
      gives (ok a, t) q = f a t q
      gives (err e, t) q = tt

  -- One step and then the next.
  module _ {A B : Type 0} (Q : A → Server → Type 0) (R : B → Server → Type 0) (f : A → Act B)
      (s : Server) (next : (a : A) (t : Server) → Later w P s t → Q a t → Does w P R (f a) t) where
    continue_at :
        (p : Result Refusal A × Server)
        → Later w P s p.1
        → Gives Q p
        → Later w P s (continue p f).1 × Gives R (continue p f)
    continue_at (ok a, t) l q = let d = next a t l q in (Later-trans w P l d.later, d.answer)
    continue_at (err e, t) l q = (l, tt)

  pub Does-bind :
      {A B : Type 0} {Q : A → Server → Type 0} {R : B → Server → Type 0} (m : Act A) (f : A → Act B)
      (s : Server)
      → Does w P Q m s
      → ((a : A) (t : Server) → Later w P s t → Q a t → Does w P R (f a) t)
      → Does w P R (m >>= f) s
  unfolding ◌>>=◌
  Does-bind {Q} {R} m f s h next =
      let (l, g) = continue_at Q R f s next (m s) h.later h.answer in
      record { later = l; answer = g }

  -- The steps that need no postcondition of their own, each with what follows it.
  module _ {A B : Type 0} {R : B → Server → Type 0} where
    pub tell-then :
        (r : Result Refusal A) (f : A → Act B) (s : Server)
        → ((a : A) → r ≡ ok a → Does w P R (f a) s)
        → Does w P R (tell r >>= f) s
    unfolding ◌>>=◌ tell
    tell-then (ok a) f s next = let d = next a refl in record { later = d.later; answer = d.answer }
    tell-then (err e) f s next = record { later = Later-refl w P s; answer = tt }

    pub look-then :
        (g : Db → A) (f : A → Act B) (s : Server)
        → (Later w P s (arrive w s) → Does w P R (f (g (arrive w s).store)) (arrive w s))
        → Does w P R (look w g >>= f) s
    unfolding look ◌>>=◌
    look-then g f s next =
        let l = Later-arrive w P s in
        let d = next l in record { later = Later-trans w P l d.later; answer = d.answer }

    pub transact-then :
        (m : ℕ → Tx A) (c : ℕ → Call) (f : Result Error A → Act B) (s : Server)
        → ((at : ℕ) (d : Db) → step d (c at) ≡ after d (m at d))
        → P (arrive w s).moment (arrive w s).store (c (w.clock s.moment))
        → (let r = m (w.clock s.moment) (arrive w s).store in
            let t = record (arrive w s) { store = after (arrive w s).store r } in
            Later w P s t → Does w P R (f (returned r)) t)
        → Does w P R (transact w m >>= f) s
    unfolding transact ◌>>=◌
    transact-then m c f s same p next =
        let r = m (w.clock s.moment) (arrive w s).store in
        let l = (Does-transact {Q = λ r t. Unit {0}} m c s same p tt).later in
        let d = next l in record { later = Later-trans w P l d.later; answer = d.answer }

  pub now-then :
      {B : Type 0} {R : B → Server → Type 0} (f : ℕ → Act B) (s : Server)
      → (Later w P s (arrive w s) → Does w P R (f (w.clock s.moment)) (arrive w s))
      → Does w P R (now w >>= f) s
  unfolding now ◌>>=◌
  now-then f s next =
      let l = Later-arrive w P s in
      let d = next l in record { later = Later-trans w P l d.later; answer = d.answer }

  pub Does-if :
      {A : Type 0} {Q : A → Server → Type 0} (b : Bool) (m n : Act A) (s : Server)
      → (b ≡ true → Does w P Q m s)
      → (b ≡ false → Does w P Q n s)
      → Does w P Q (if b then m else n) s
  Does-if true m n s f g = f refl
  Does-if false m n s f g = g refl
