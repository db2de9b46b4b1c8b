-- ===== src/Server/Allowed/Orders.antt =====
-- The handlers on orders do only what the signer may have done, and show only the signer's orders.
use op_ca.Prelude.{
  Text, ℕ, ◌≡◌, refl, sym, ◌∙◌, Bool, true, false, Option, none, some, List, Result, ok, err, arith,
  subst, map, filter, ◌==◌, if◌then◌else◌,
}
use op_ca.Problem.{ProblemType}
use op_ca.Requests.{account_signer}
use op_ca.Issue.{Issuer}
use op_ca.Issue.Leaves.{issue_leaf-Issued}
use op_ca.Store.Status.{OrderStatus}
use op_ca.Store.Tables.{Account, OrderRow, Db, Error, after}
use op_ca.Store.Lifecycle.{orders_table, row_of}
use op_ca.Store.Orders
use op_ca.Store.Orders.{Order, NewOrder, NewAuthorisation}
use op_ca.Store.Placing.{Read, Placed, create_order-Placed}
use op_ca.Store.Kept.{Sorted, run-Sorted}
use op_ca.Store.Calls.{Call, creates_order, records, step}
use op_ca.Server.{
  Act, ◌>>=◌, Crates, World, Server, Post, order_reply, url_of, or_stored, or_refuse, arrive,
  returned, tell, transact, issuing, pure, order_of,
}
use op_ca.Server.Ordering.{
  lifetime_of, is_processing_order, check_ready, new_order, order, finalise_order, finalise,
}
use op_ca.Server.Trace.{
  Does, Does-bind, Does-pure, Later, Later-refl, Later-trans, Later-arrive, keeps, Met, Does-allow,
  Later-allow, moment-Later, tell-then, transact-then, now-then, Gives,
}
use op_ca.Server.Owned.{OrderIs, OrderIs-run}
use op_ca.Server.Allowed.{Authentic, Allowed, IsExpiry, ReadsOrder, Shown, Orderable, Issues}
use op_ca.Server.Allowed.Naming.{or_problem-ok, names-All, authorisations_for_lem}
use op_ca.Server.Allowed.Signing.{by_account-Does}
use op_ca.Server.Allowed.Reading.{order_of-Does, order_id, may_lapse, IsOwn}

issuing-ok :
    (s : Server) (Q : Issuer → Server → Type 0)
    → ((issuer : Issuer) → Issues s issuer → Q issuer s)
    → Gives Q (issuing s)
unfolding issuing
issuing-ok s Q f = by s.paused refl
  where
    set :
        (issuer : Option Issuer)
        → ((i : Issuer) → issuer ≡ some i → Q i s)
        → Gives Q (or_refuse issuer ProblemType.server_internal, s)
    set none g = tt
    set (some i) g = g i refl

    by :
        (b : Bool)
        → s.paused ≡ b
        → Gives Q (
          if b
              then err
                  (record { problem = ProblemType.server_internal; status = 503; location = none })
              else or_refuse s.issuer ProblemType.server_internal,
          s,
        )
    by true e = tt
    by false e = set s.issuer λ i h. f i (e, h)

-- The issuer is that of the request's first moment.
issuing-then :
    {B : Type 0} {w : World} {P : ℕ → Db → Call → Type 0} {R : B → Server → Type 0}
    (f : Issuer → Act B) (s t : Server)
    → Later w P s t
    → ((issuer : Issuer) → Issues s issuer → Does w P R (f issuer) t)
    → Does w P R (issuing >>= f) t
issuing-then {B} {w} {P} {R} f s t l next =
    Does-bind {Q = λ issuer u. (u ≡ t) × Issues s issuer} issuing f t
      (record {
        later = same_state;
        answer =
            issuing-ok t (λ issuer u. (u ≡ t) × Issues s issuer)
              λ issuer h. (refl, (sym l.same_pause ∙ h.0, sym l.same_issuer ∙ h.1));
      })
      λ issuer u l' (same, issues). rw same (next issuer issues)
  where
    same_state : Later w P t (issuing t).1
    same_state = unfold issuing in Later-refl w P t

order_is :
    (id : ℕ) (o : OrderRow) (d : Db) → Sorted d → row_of orders_table id d ≡ some o → OrderIs id o d
order_is id o d s e = record { sorted = s; current = o; found = e; same = refl }

check_ready-ok :
    (status : OrderStatus) (u : Unit {0}) → check_ready status ≡ ok u → status ≡ OrderStatus.ready
unfolding check_ready
check_ready-ok OrderStatus.ready u h = refl
check_ready-ok _ u h = absurd (cc h)

by_its_id : (id : ℕ) (o : Order) (d : Db) → Read id o d → ReadsOrder o d
by_its_id id o d read =
    subst
      (λ i.
        (row_of orders_table i d ≡ some o.row)
        × (o.authorisations ≡ map (λ x. x.id) (filter (λ x. x.order == i) d.authorisations)))
      (sym (order_id id d o.row read.0)) read

module _ (c : Crates) (w : World) (post : Post) (s : Server) where
  open c use {jose, Jwk}

  module _ (jws : jose.Jws) (a : Account) (key : Jwk)
      (signed : Authentic c w post s jws (account_signer a key)) where
    order-Shown :
        (id status : ℕ) (location : Option Text) (retry : Bool) (o : Order) (t : Server)
        → IsOwn c w (Allowed c w post s) id a o t
        → Shown c w post s (order_reply status location retry o) t
    order-Shown id status location retry o t (read, owner) =
        (jws, account_signer a key, signed, (owner, by_its_id id o t.store read))

    order_of-Shown :
        (id status : ℕ) (location : Option Text) (retry : Order → Bool) (t : Server)
        → Later w (Allowed c w post s) s t
        → Does w
            (Allowed c w post s)
            (Shown c w post s)
            (order_of c w id a >>= λ o. pure (order_reply status location (retry o) o))
            t
    order_of-Shown id status location retry t later =
        Does-bind _ _ t
          (order_of-Does c w (Allowed c w post s) s (may_lapse c w post s jws a key signed) id a t
            (moment-Later w (Allowed c w post s) later))
          λ o t' l own. Does-pure _ t' (order-Shown id status location (retry o) o t' own)

    expiry-Allowed :
        (n : ℕ) (d : Db) (call : Call) → IsExpiry w s n d call → Allowed c w post s n d call
    expiry-Allowed n d call (k, h, h', same) =
        subst (Allowed c w post s n d) (sym same) (may_lapse c w post s jws a key signed d n k h h')

    create-Does :
        (issuer : Issuer) (new : NewOrder) (t : Server)
        → Issues s issuer
        → new.account ≡ a.id
        → Orderable c.hosts issuer new
        → Does w
            (Allowed c w post s)
            (Shown c w post s)
            (transact w (λ later. Orders.create_order w.draws later new) >>= λ made.
              tell (or_stored made) >>= λ o.
              pure (order_reply 201 (some (url_of post "order" o.row.id)) false o))
            t
    unfolding step
    create-Does issuer new t issues owner orderable =
        transact-then _ (λ at. creates_order w.draws at new) _ t (λ at d. refl)
          (jws, account_signer a key, signed, (owner, issuer, issues, orderable))
          λ l. tell-then _ _ _ λ o made. Does-pure _ _ (
            placed o (Orders.create_order w.draws (w.clock t.moment) new (arrive w t).store)
              (create_order-Placed w.draws (w.clock t.moment) new (arrive w t).store) made)
      where
        placed :
            (o : Order) (r : Result Error (Order × Db))
            → Placed new.account r
            → or_stored (returned r) ≡ ok o
            → Shown c w post s
                (order_reply 201 (some (url_of post "order" o.row.id)) false o)
                (record (arrive w t) { store = after (arrive w t).store r })
        placed o (err e) p h = absurd (cc h)
        placed o (ok (x, d)) (whose, id, read) h =
            let same : x ≡ o = ground arith in
            rw (← same) (jws, account_signer a key, signed, (whose ∙ owner, by_its_id id x d read))

    finalise_order-Does :
        (issuer : Issuer) (o : Order) (id : ℕ) (csr : List ℕ) (t : Server)
        → Sorted t.store
        → row_of orders_table id t.store ≡ some o.row
        → o.row.account ≡ a.id
        → Met w (IsExpiry w s) s (λ e. row_of orders_table o.row.id e ≡ some o.row)
        → o.row.status ≡ OrderStatus.ready
        → Issues s issuer
        → Does w
            (Allowed c w post s)
            (λ u v. Unit)
            (finalise_order c w issuer o csr (c.subject_public_key_info key))
            t
    unfolding finalise_order step
    finalise_order-Does issuer o id csr t sorted found owner read ready issues = now-then _ t λ l.
        tell-then _ _ _ λ leaf made.
          let (asked, reads, issued) =
            issue_leaf-Issued c.hosts issuer o.row (c.read_csr csr) (c.subject_public_key_info key)
              (w.clock t.moment) w.signed leaf (or_problem-ok _ leaf made) in
          transact-then _ (records o.row.id leaf) _ (arrive w t) (λ at d. refl)
            (
              jws,
              account_signer a key,
              signed,
              record {
                row = o.row;
                is_order = still l;
                owner = owner;
                read = read;
                ready = ready;
                issuer = issuer;
                issues = issues;
                csr = asked;
                at = w.clock t.moment;
                issued = issued;
              },
            )
            λ l'. tell-then _ _ _ λ recorded h. Does-pure tt _ tt
      where
        -- The order is there under its number when its certificate is recorded.
        still :
            Later w (Allowed c w post s) t (arrive w t)
            → OrderIs o.row.id o.row (arrive w (arrive w t)).store
        still l =
            keeps w (Allowed c w post s) (OrderIs o.row.id o.row) (OrderIs-run o.row.id o.row)
              (Later-trans w (Allowed c w post s) l
                (Later-arrive w (Allowed c w post s) (arrive w t)))
              (order_is o.row.id o.row t.store sorted (
                subst (λ i. row_of orders_table i t.store ≡ some o.row)
                  (sym (order_id id t.store o.row found)) found))

  pub order-Does : (id : ℕ) → Does w (Allowed c w post s) (Shown c w post s) (order c w id post) s
  unfolding order
  order-Does id =
      Does-bind _ _ s (by_account-Does c w (Allowed c w post s) post s) λ signed t l (jws, auth).
        tell-then _ _ t λ e empty.
          order_of-Shown jws signed.0 signed.1 auth id 200 none
            (λ o. is_processing_order o.row.status) t l

  pub new_order-Does : Does w (Allowed c w post s) (Shown c w post s) (new_order c w post) s
  unfolding new_order
  new_order-Does =
      Does-bind _ _ s (by_account-Does c w (Allowed c w post s) post s) λ signed t l (jws, auth).
        tell-then _ _ t λ request parsed. issuing-then _ s t l λ issuer issues.
          tell-then _ _ t λ found named. now-then _ t λ l'.
            Does-bind {Q = λ u v. Unit {0}} lifetime_of _ (arrive w t)
              (record { later = Later-refl w (Allowed c w post s) (arrive w t); answer = tt })
              λ lifetime t' l'' q. tell-then _ _ t' λ news made. tell-then _ _ t' λ from h.
                tell-then _ _ t' λ until h'.
                  let (covered, offers) =
                    authorisations_for_lem found issuer.config.challenges _ news
                      (or_problem-ok _ news made) in
                  create-Does jws signed.0 signed.1 auth issuer _ t' issues refl (record {
                    issuable =
                        names-All c.hosts issuer.config.permitted_domains request.identifiers found
                          (or_problem-ok _ found named);
                    covered = covered;
                    offers = offers;
                  })

  pub finalise-Does :
      (id : ℕ)
      → Sorted s.store
      → Does w (Allowed c w post s) (Shown c w post s) (finalise c w id post) s
  unfolding finalise
  finalise-Does id sorted =
      Does-bind _ _ s
        (Does-allow w (λ n d k. ⊥) (Allowed c w post s) (λ n d k e. absurd e) _ s
          (by_account-Does c w (λ n d k. ⊥) post s))
        λ signed t l ((jws, auth), still).
          Does-bind _ _ t
            (Does-allow w (IsExpiry w s) (Allowed c w post s)
              (λ n d k e. expiry-Allowed jws signed.0 signed.1 auth n d k e) _ t
              (order_of-Does c w (IsExpiry w s) s (λ d n k h h'. (k, h, h', refl)) id signed.0 t
                (moment-Later w (Allowed c w post s) l)))
            λ o t' l' ((found, owner), lapsing). tell-then _ _ t' λ u ready.
              tell-then _ _ t' λ request parsed. tell-then _ _ t' λ csr decoded.
                let later = Later-trans w (Allowed c w post s) l l' in
                let read = by_its_id id o t'.store found in
                let untouched =
                  Later-trans w (IsExpiry w s)
                    (Later-allow w (λ n d k. ⊥) (IsExpiry w s) (λ n d k e. absurd e) still)
                    lapsing in
                issuing-then _ s t' later λ issuer issues.
                  Does-bind _ _ t'
                    (finalise_order-Does jws signed.0 signed.1 auth issuer o id csr t'
                      (keeps w (Allowed c w post s) Sorted run-Sorted later sorted) found.0 owner
                      (t', untouched, read.0) (check_ready-ok o.row.status u ready) issues)
                    λ u' t'' l'' q.
                      order_of-Shown jws signed.0 signed.1 auth id 200
                        (some (url_of post "order" id)) (λ o. false) t''
                        (Later-trans w (Allowed c w post s) later l'')
