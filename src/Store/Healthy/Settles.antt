-- ===== src/Store/Healthy/Settles.antt =====
-- An authorisation moves and its order settles: `set_authorisation_status`, and the end of
-- `set_challenge_status`.
use op_ca.Prelude.{
  ℕ, ◌≡◌, ◌≤◌, refl, sym, ap, subst, Bool, true, false, ◌&&◌, none, some, List, [], ◌∷◌, arith, All,
  All-map, find, update_where, find-update_where, Option-cases, inl, inr, ok, ◌==◌, if◌then◌else◌,
}
use op_ca.Store.Status.{AuthorisationStatus}
use op_ca.Store.Moves.{is_pending, authorisation_may_become}
use op_ca.Store.Tables.{
  AuthorisationRow, Db, Error, write, fail, found_or, continue, ◌>>◌, greatest,
}
use op_ca.Store.Lifecycle.{authorisations_table, row_of, put_status, read_status, transition}
use op_ca.Store.Lifecycles.{Rising, keys-update, only_one}
use op_ca.Store.Within.{Committed, Within}
use op_ca.Store.Settle.{fail_order, ready_order, settle_order, settle_order_of}
use op_ca.Store.Settled.{settle_order-AllInStep}
use op_ca.Store.Orders.{set_authorisation_status, decide_authorisation}
use op_ca.Store.Healthy.{Healthy, Keeps, keeping_tx, settle_order_ids, All-update}

-- The authorisations that pass a test all have the key of the row `r`.
module _ (q : AuthorisationRow → Bool) (f : AuthorisationRow → AuthorisationRow)
    (same_id : (a : AuthorisationRow) → (f a).id ≡ a.id)
    (same_order : (a : AuthorisationRow) → (f a).order ≡ a.order)
    (decided : (a : AuthorisationRow) → is_pending (f a).status ≡ false) where
  pub resettled-Healthy :
      (id : ℕ) (r : AuthorisationRow) (d : Db)
      → ((a : AuthorisationRow) → q a ≡ true → a.id ≡ id)
      → row_of authorisations_table id d ≡ some r
      → Healthy d
      → Healthy
          (settle_order r.order (record d { authorisations = update_where q f d.authorisations }))
  unfolding settle_order fail_order ready_order row_of
  resettled-Healthy id r d keyed e h = record {
    ids = subst Rising (sym (keys-update authorisations_table q f same_id d.authorisations)) h.ids;
    refs =
        subst (λ ns. All (λ a. a.order ≤ greatest ns) (update_where q f d.authorisations))
          (sym (
            settle_order_ids r.order
              (record d { authorisations = update_where q f d.authorisations })))
          (All-update _ _ q f (λ a l t. rw same_order l) (λ a l t. l) d.authorisations h.refs);
    in_step =
        settle_order-AllInStep q f r.order d same_order decided
          (All-map _ _ (λ a one t. ap (λ (x : AuthorisationRow). x.order) (one (keyed a t)))
            d.authorisations (only_one authorisations_table id r d.authorisations h.ids e))
          h.in_step;
  }

pub settle_order_of_lem :
    (id : ℕ) (d : Db) (r : AuthorisationRow)
    → row_of authorisations_table id d ≡ some r
    → settle_order_of id d ≡ ok (tt, settle_order r.order d)
unfolding settle_order_of
settle_order_of_lem id d r e = rw e

-- A test that keeps the id finds the row that was found, changed or not, with its order.
found_after :
    (q : AuthorisationRow → Bool) (f : AuthorisationRow → AuthorisationRow)
    → ((a : AuthorisationRow) → (f a).id ≡ a.id)
    → ((a : AuthorisationRow) → (f a).order ≡ a.order)
    → (id : ℕ) (d : Db) (r : AuthorisationRow) → row_of authorisations_table id d ≡ some r
    → (r' : AuthorisationRow) × (row_of authorisations_table id
          (record d { authorisations = update_where q f d.authorisations })
        ≡ some r')
      × (r'.order ≡ r.order)
unfolding row_of
found_after q f same_id same_order id d r e = (
  (if q r then f r else r),
  find-update_where (λ a. a.id == id) q f (λ a. ap (λ n. n == id) (same_id a)) d.authorisations r e,
  one (q r),
)
  where
    one : (b : Bool) → (if b then f r else r).order ≡ r.order
    one true = same_order r
    one false = refl

-- Authorisations of one id changed, and the order settled that the id leads to.
pub settles-Healthy :
    (q : AuthorisationRow → Bool) (f : AuthorisationRow → AuthorisationRow)
    → ((a : AuthorisationRow) → (f a).id ≡ a.id)
    → ((a : AuthorisationRow) → (f a).order ≡ a.order)
    → ((a : AuthorisationRow) → is_pending (f a).status ≡ false)
    → (id : ℕ) → ((a : AuthorisationRow) → q a ≡ true → a.id ≡ id)
    → (d : Db) (r : AuthorisationRow) → row_of authorisations_table id d ≡ some r
    → Healthy d
    → Committed Healthy
        (settle_order_of id (record d { authorisations = update_where q f d.authorisations }))
settles-Healthy q f same_id same_order decided id keyed d r e h =
    let (r', e', o) = found_after q f same_id same_order id d r e in
    rw (settle_order_of_lem id _ r' e', o)
      (resettled-Healthy q f same_id same_order decided id r d keyed e h)

leaves_pending :
    (from to : AuthorisationStatus)
    → authorisation_may_become from to ≡ true
    → is_pending to ≡ false
unfolding authorisation_may_become
leaves_pending from to h = ground arith

moved-Healthy :
    (id : ℕ) (to : AuthorisationStatus) (d : Db) (r : AuthorisationRow)
    → row_of authorisations_table id d ≡ some r
    → authorisation_may_become r.status to ≡ true
    → Healthy d
    → Committed Healthy (settle_order_of id (put_status authorisations_table id to d))
unfolding put_status
moved-Healthy id to d r e m h =
    settles-Healthy (λ a. a.id == id) (λ a. record a { status = to }) (λ a. refl) (λ a. refl)
      (λ a. leaves_pending r.status to m) id (λ a t. ground arith) d r e h

settle_or_not :
    (id : ℕ) (to : AuthorisationStatus) (d : Db) (r : AuthorisationRow) (e : Error) (b : Bool)
    → row_of authorisations_table id d ≡ some r
    → authorisation_may_become r.status to ≡ b
    → Healthy d
    → Committed Healthy (
        continue
          ((if b then write (put_status authorisations_table id to) else fail e) d)
          (λ u. settle_order_of id))
settle_or_not id to d r e true f m h = moved-Healthy id to d r f m h
settle_or_not id to d r e false f m h = tt

-- No row stands under the id afterwards either, and nothing is committed.
find_missing :
    (id : ℕ) (q : AuthorisationRow → Bool) (f : AuthorisationRow → AuthorisationRow)
    → ((a : AuthorisationRow) → (f a).id ≡ a.id)
    → (auths : List AuthorisationRow) → find (λ a. a.id == id) auths ≡ none
    → find (λ a. a.id == id) (update_where q f auths) ≡ none
find_missing id q f same [] e = refl
find_missing id q f same (a ∷ auths) e = ground (arith, same a, find_missing id q f same auths)

missing :
    (id : ℕ) (to : AuthorisationStatus) (d : Db)
    → row_of authorisations_table id d ≡ none
    → Committed Healthy ((decide_authorisation id to >> settle_order_of id) d)
unfolding decide_authorisation settle_order_of row_of
missing id to d e =
    rw
      (
        find_missing id (λ a. (a.id == id) && is_pending a.status) (λ a. record a { status = to })
            (λ a. refl) d.authorisations e,
        found_or,
      )
      tt

pub set_authorisation_status-Healthy :
    (id : ℕ) (to : AuthorisationStatus) → Within (Keeps Healthy) (set_authorisation_status id to)
unfolding set_authorisation_status transition read_status
set_authorisation_status-Healthy id to = keeping_tx Healthy _ λ d h.
    elim (Option-cases (row_of authorisations_table id d)) [
      | inl e ↦ rw (e, found_or) tt
      | inr (r, e) ↦ rw (e, found_or) (settle_or_not id to d r _ _ e refl h)
    ]

-- What `set_challenge_status` does once its challenge is valid or invalid.
pub decide_and_settle-Healthy :
    (id : ℕ) (to : AuthorisationStatus)
    → is_pending to ≡ false
    → Within (Keeps Healthy) (decide_authorisation id to >> settle_order_of id)
unfolding decide_authorisation
decide_and_settle-Healthy id to n = keeping_tx Healthy _ λ d h.
    elim (Option-cases (row_of authorisations_table id d)) [
      | inl e ↦ missing id to d e
      | inr (r, e) ↦
          settles-Healthy (λ a. (a.id == id) && is_pending a.status) (λ a. record a { status = to })
            (λ a. refl) (λ a. refl) (λ a. n) id (λ a t. ground arith) d r e h
    ]
