-- ===== src/Server/Allowed/Reading.antt =====
-- The reads of crates/opca-acme-broker/src/acme/server.rs: what is known of a row that is shown.
use op_ca.Prelude.{
  subst, ℕ, ◌≡◌, refl, sym, ap, ◌∙◌, Bool, true, Option, none, some, List, [], ◌∷◌, ok, arith, ◌==◌,
  ◌≤◌, ◌<◌, filter, Bool-cases, inl, inr, find,
}
use op_ca.Requests.{account_signer}
use op_ca.Store.Tables.{Account, OrderRow, AuthorisationRow, Challenge, Db}
use op_ca.Store.Lifecycle.{orders_table, authorisations_table, challenges_table, row_of}
use op_ca.Store.Orders.{Order, Authorisation}
use op_ca.Store.Placing.{Read, order_row}
use op_ca.Store.Kept.{Sorted, run-Sorted, authorisation-run}
use op_ca.Store.Calls.{Call, expires, step}
use op_ca.Server.{
  Crates, World, Server, Post, found, arrive, owned_by, expire_stale, owned_order, order_of,
  authorisation_of,
}
use op_ca.Server.Trace.{
  Does, Does-bind, Does-pure, Later, Later-trans, Met, keeps, tell-then, look-then, transact-then,
  now-then,
}
use op_ca.Server.Allowed.{Authentic, Allowed, ReadsAuthorisation}
use op_ca.Server.Owned.{OwnsOrder, OwnsAuthorisation, authorisation_row}

pub find-passes {ℓ} :
    {A : Type ℓ} (p : A → Bool) (xs : List A) (r : A) → find p xs ≡ some r → p r ≡ true
find-passes p [] r e = absurd (cc e)
find-passes p (x ∷ xs) r e = elim (Bool-cases (p x)) [
  | inl hit ↦ let same : x ≡ r = ground arith in rw (← same) hit
  | inr miss ↦ find-passes p xs r (ground arith)
]

pub order_id : (id : ℕ) (d : Db) (o : OrderRow) → row_of orders_table id d ≡ some o → o.id ≡ id
unfolding row_of
order_id id d o e =
    let hit = find-passes (λ (r : OrderRow). r.id == id) d.orders o e in ground arith

pub authorisation_id :
    (id : ℕ) (d : Db) (a : AuthorisationRow) → row_of authorisations_table id d ≡ some a → a.id ≡ id
unfolding row_of
authorisation_id id d a e =
    let hit = find-passes (λ (r : AuthorisationRow). r.id == id) d.authorisations a e in
    ground arith

pub challenge_id :
    (id : ℕ) (d : Db) (k : Challenge) → row_of challenges_table id d ≡ some k → k.id ≡ id
unfolding row_of
challenge_id id d k e =
    let hit = find-passes (λ (r : Challenge). r.id == id) d.challenges k e in ground arith

pub found-ok : {A : Type 0} (o : Option A) (a : A) → found o ≡ ok a → o ≡ some a
found-ok none a h = absurd (cc h)
found-ok (some x) a h = ground arith

pub owned_by-ok :
    (account : Account) (owner : ℕ) (u : Unit {0})
    → owned_by account owner ≡ ok u
    → account.id ≡ owner
unfolding owned_by
owned_by-ok account owner u h = ground arith

module _ (c : Crates) (w : World) (P : ℕ → Db → Call → Type 0) where
  -- The order as it stands, and the account's.
  abbrev pub IsOwn : ℕ → Account → Order → Server → Type 0
  IsOwn id account o t = Read id o t.store × (o.row.account ≡ account.id)

  pub owned_order-Does :
      (id : ℕ) (account : Account) (s : Server)
      → Does w P (IsOwn id account) (owned_order c w id account) s
  unfolding owned_order
  owned_order-Does id account s = look-then _ _ s λ l. tell-then _ _ _ λ o there.
      tell-then _ _ _ λ u owns.
        Does-pure o _ (
          order_row id (arrive w s).store o (found-ok _ o there),
          sym (owned_by-ok account _ u owns),
        )

  -- The authorisation has the row's number, its order is the account's, and it was read later than
  -- `s`.
  abbrev pub IsOwnAuthorisation : Server → ℕ → Account → Authorisation → Server → Type 0
  IsOwnAuthorisation s id account a t =
      (a.row.id ≡ id)
      × OwnsOrder account.id a.row.order t.store
      × OwnsAuthorisation account.id id t.store
      × Met w P s (ReadsAuthorisation a)

  read_as :
      (id : ℕ) (d : Db) (a : Authorisation)
      → (row_of authorisations_table id d ≡ some a.row)
        × (a.challenges ≡ filter (λ k. k.authorisation == id) d.challenges)
      → ReadsAuthorisation a d
  read_as id d a (row, ks) =
      subst
        (λ i.
          (row_of authorisations_table i d ≡ some a.row)
          × (a.challenges ≡ filter (λ k. k.authorisation == i) d.challenges))
        (sym (authorisation_id id d a.row row)) (row, ks)

  row-later :
      (id : ℕ) (a : AuthorisationRow) {t t' : Server}
      → Later w P t t'
      → Sorted t.store
      → row_of authorisations_table id t.store ≡ some a
      → (r : AuthorisationRow) × (row_of authorisations_table id t'.store ≡ some r)
        × (a.order ≡ r.order)
  row-later id a l s e =
      let h =
        keeps w P
          (λ d.
            Sorted d
            × (r : AuthorisationRow) × (row_of authorisations_table id d ≡ some r)
            × (a.order ≡ r.order))
          (λ d cs h.
            let (next, found, same) = authorisation-run d cs id h.1 h.0 h.2 in
            (run-Sorted d cs h.0, next, found, h.3 ∙ ap (λ r. r.order) same))
          l (s, a, e, refl) in
      (h.1, h.2, h.3)

  -- From the server `from` on, what is past its time may lapse.
  module _ (from : Server)
      (may_expire : (d : Db) (n k : ℕ)
        → from.moment ≤ k
        → k < n
        → P n d (expires (w.clock k))) where
    pub expire_stale-Does :
        (s : Server) → from.moment ≤ s.moment → Does w P (λ u t. Unit) (expire_stale c w) s
    unfolding expire_stale step arrive
    expire_stale-Does s h = now-then _ s λ l.
        transact-then _ (λ at. expires (w.clock s.moment)) _ (arrive w s) (λ at d. refl)
          (may_expire _ _ s.moment h (omega arith))
          λ l'. tell-then _ _ _ λ expired done. Does-pure tt _ tt

    pub order_of-Does :
        (id : ℕ) (account : Account) (s : Server)
        → from.moment ≤ s.moment
        → Does w P (IsOwn id account) (order_of c w id account) s
    unfolding order_of
    order_of-Does id account s h =
        Does-bind (expire_stale c w) _ s (expire_stale-Does s h)
          λ u t l q. owned_order-Does id account t

    pub authorisation_of-Does :
        (id : ℕ) (account : Account) (s : Server)
        → from.moment ≤ s.moment
        → Sorted s.store
        → Does w P (IsOwnAuthorisation s id account) (authorisation_of c w id account) s
    unfolding authorisation_of
    authorisation_of-Does id account s h sorted =
        Does-bind (expire_stale c w) _ s (expire_stale-Does s h) λ u t l q. look-then _ _ t λ l'.
          tell-then _ _ _ λ a there.
            let read = authorisation_row id (arrive w t).store a (found-ok _ a there) in
            let sorted' : Sorted (arrive w t).store =
              keeps w P Sorted run-Sorted (Later-trans w P l l') sorted in
            Does-bind _ _ (arrive w t) (owned_order-Does a.row.order account (arrive w t))
              λ o t'' l'' own.
                let order : OwnsOrder account.id a.row.order t''.store = (o.row, own.0.0, own.1) in
                let (r, found, same) = row-later id a.row l'' sorted' read.0 in
                Does-pure a t'' (
                  authorisation_id id (arrive w t).store a.row read.0,
                  order,
                  (r, found, rw (← same) order),
                  (arrive w t, Later-trans w P l l', read_as id (arrive w t).store a read),
                )

-- An account's request may let what is past its time lapse, at any of its moments.
pub may_lapse :
    (c : Crates) (w : World) (post : Post) (s : Server) (jws : c.jose.Jws) (a : Account)
    (key : c.jose.Jwk)
    → Authentic c w post s jws (account_signer a key)
    → (d : Db) (n k : ℕ) → s.moment ≤ k
    → k < n
    → Allowed c w post s n d (expires (w.clock k))
may_lapse c w post s jws a key signed d n k h h' =
    (jws, account_signer a key, signed, (k, h, h', refl))
