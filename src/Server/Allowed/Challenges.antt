-- ===== src/Server/Allowed/Challenges.antt =====
-- The handlers on authorisations and challenges do only what the signer may have done, and show only
-- the signer's.
use op_ca.Prelude.{ℕ, ◌≡◌, refl, ap, sym, ◌∙◌, none, some, List, [], ◌∷◌, arith, subst}
use op_ca.Requests.{account_signer}
use op_ca.Store.Status.{AuthorisationStatus, ChallengeStatus}
use op_ca.Store.Tables.{Account, Challenge, Db}
use op_ca.Store.Lifecycle.{challenges_table, row_of}
use op_ca.Store.Orders
use op_ca.Store.Orders.{Authorisation}
use op_ca.Store.Upkeep.{Validation}
use op_ca.Store.Kept.{Sorted, run-Sorted, challenge-run}
use op_ca.Store.Calls.{Call, sets_authorisation, sets_challenge, step, run}
use op_ca.Server.{Crates, World, Server, Post, arrive, found, modify}
use op_ca.Server.Challenges.{
  validate_in_background, update_authorisation, authorisation, begin_validation, challenge,
}
use op_ca.Server.Trace.{
  Does, Does-bind, Does-tell, Does-pure, Does-weaken, Does-if, Later, Later-refl, Later-trans,
  keeps, Met, Met-before, moment-Later, tell-then, look-then, transact-then,
}
use op_ca.Server.Owned.{
  OwnsOrder, OwnsAuthorisation, OwnsChallenge, OwnsAuthorisation-run, OwnsChallenge-run, AtRest,
  AtRest-run,
}
use op_ca.Server.Allowed.{Authentic, Allowed, ReadsAuthorisation, Shown}
use op_ca.Server.Allowed.Signing.{by_account-Does}
use op_ca.Server.Allowed.Reading.{authorisation_of-Does, challenge_id, found-ok, may_lapse}

challenge_there :
    (id : ℕ) (d : Db) (k : Challenge)
    → row_of challenges_table id d ≡ some k
    → row_of challenges_table k.id d ≡ some k
challenge_there id d k e =
    subst (λ i. row_of challenges_table i d ≡ some k) (sym (challenge_id id d k e)) e

-- The challenge that stands under the number is the account's.
shown_challenge :
    (account id : ℕ) (d : Db) (shown : Challenge)
    → OwnsChallenge account id d
    → row_of challenges_table id d ≡ some shown
    → OwnsAuthorisation account shown.authorisation d
shown_challenge account id d shown (k, there, owns) e =
    let same : k ≡ shown = ground (arith, there, e) in rw (← same) owns

validate_in_background-Does :
    {w : World} {P : ℕ → Db → Call → Type 0} (validation : Validation) (s : Server)
    → Does w P (λ u t. t.store ≡ s.store) (validate_in_background validation) s
unfolding validate_in_background modify
validate_in_background-Does {w} {P} validation s = record {
  later = record { made = (Later-refl w P s).made; same_issuer = refl; same_pause = refl };
  answer = refl;
}

module _ (c : Crates) (w : World) (post : Post) (s : Server) where
  open c use {jose, Jwk}

  module _ (jws : jose.Jws) (a : Account) (key : Jwk)
      (signed : Authentic c w post s jws (account_signer a key)) where
    update_authorisation-Does :
        (id : ℕ) (read : Authorisation) (payload : List ℕ) (t : Server)
        → Later w (Allowed c w post s) s t
        → Sorted t.store
        → OwnsOrder a.id read.row.order t.store
        → OwnsAuthorisation a.id id t.store
        → Met w (Allowed c w post s) s (ReadsAuthorisation read)
        → Does w
            (Allowed c w post s)
            (λ u v.
              OwnsOrder a.id u.row.order v.store
              × Met w (Allowed c w post s) s (ReadsAuthorisation u))
            (update_authorisation c w id a read payload)
            t
    unfolding update_authorisation step arrive
    update_authorisation-Does id read [] t later sorted order own met =
        Does-pure read t (order, met)
    update_authorisation-Does id read (byte ∷ payload) t later sorted order own met =
        tell-then _ _ t λ asked h.
          transact-then _ (λ at. sets_authorisation id AuthorisationStatus.deactivated) _ t
            (λ at d. refl)
            (
              jws,
              account_signer a key,
              signed,
              (OwnsAuthorisation-run a.id id t.store (w.others t.moment) sorted own, refl),
            )
            λ l. tell-then _ _ _ λ done e.
              let later' = Later-trans w (Allowed c w post s) later l in
              Does-weaken _ _
                (λ u v own.
                  (own.1, Met-before w (Allowed c w post s) (ReadsAuthorisation u) later' own.3))
                (authorisation_of-Does c w (Allowed c w post s) s
                  (may_lapse c w post s jws a key signed) id a _
                  (moment-Later w (Allowed c w post s) later')
                  (keeps w (Allowed c w post s) Sorted run-Sorted l sorted))

    -- The challenge that was read, once its authorisation was found to be the account's.
    later_challenge :
        (id : ℕ) (read : Challenge) {t u : Server}
        → Later w (Allowed c w post s) t u
        → Sorted t.store
        → row_of challenges_table id t.store ≡ some read
        → OwnsAuthorisation a.id read.authorisation u.store
        → OwnsChallenge a.id id u.store
    later_challenge id read {t} {u} l sorted found own =
        let (next, there, same) =
          standing (keeps w (Allowed c w post s) Stands stays l (sorted, read, found, refl)) in
        (next, there, subst (λ i. OwnsAuthorisation a.id i u.store) same own)
      where
        Stands : Db → Type 0
        Stands d =
            Sorted d
            × (k : Challenge) × (row_of challenges_table id d ≡ some k)
            × (read.authorisation ≡ k.authorisation)

        stays : (d : Db) (cs : List Call) → Stands d → Stands (run d cs)
        stays d cs (sorted, k, found, same) =
            let (next, found', same') = challenge-run d cs id k sorted found in
            (run-Sorted d cs sorted, next, found', same ∙ ap (λ r. r.authorisation) same')

        standing :
            Stands u.store
            → (k : Challenge) × (row_of challenges_table id u.store ≡ some k)
              × (read.authorisation ≡ k.authorisation)
        standing (sorted, k, found, same) = (k, found, same)

    begin_validation-Does :
        (id : ℕ) (read : Challenge) (au : Authorisation) (payload : List ℕ) (t : Server)
        → Later w (Allowed c w post s) s t
        → Sorted t.store
        → OwnsChallenge a.id id t.store
        → Does w
            (Allowed c w post s)
            (λ k v.
              OwnsAuthorisation a.id k.authorisation v.store
              × Met w (Allowed c w post s) s (λ e. row_of challenges_table k.id e ≡ some k))
            (begin_validation c w id a read au payload)
            t
    unfolding begin_validation step Orders.challenge arrive
    begin_validation-Does id read au payload t later sorted own = tell-then _ _ t λ object h.
        transact-then _ (sets_challenge id ChallengeStatus.processing none) _ t (λ at d. refl)
          (
            jws,
            account_signer a key,
            signed,
            (OwnsChallenge-run a.id id t.store (w.others t.moment) sorted own, refl),
          )
          λ l. tell-then _ _ _ λ done e.
            Does-bind _ _ _ (validate_in_background-Does _ _) λ u v l' same. look-then _ _ v λ l''.
              let after =
                Later-trans w (Allowed c w post s) l (Later-trans w (Allowed c w post s) l' l'') in
              Does-tell _ _ λ shown there.
                let stands = found-ok _ shown there in
                (
                  shown_challenge a.id id (arrive w v).store shown
                      (keeps w (Allowed c w post s) (AtRest (OwnsChallenge a.id id))
                        (AtRest-run (OwnsChallenge a.id id) (OwnsChallenge-run a.id id)) after
                        (sorted, own)).1
                      stands,
                  (
                    arrive w v,
                    Later-trans w (Allowed c w post s) later after,
                    challenge_there id (arrive w v).store shown stands,
                  ),
                )

  pub authorisation-Does :
      (id : ℕ)
      → Sorted s.store
      → Does w (Allowed c w post s) (Shown c w post s) (authorisation c w id post) s
  unfolding authorisation
  authorisation-Does id sorted =
      Does-bind _ _ s (by_account-Does c w (Allowed c w post s) post s) λ signed t l (jws, auth).
        let may = may_lapse c w post s jws signed.0 signed.1 auth in
        let sorted_t = keeps w (Allowed c w post s) Sorted run-Sorted l sorted in
        Does-bind _ _ t
          (authorisation_of-Does c w (Allowed c w post s) s may id signed.0 t
            (moment-Later w (Allowed c w post s) l) sorted_t)
          λ read t' l' (same, order, own, met).
            Does-bind _ _ t'
              (update_authorisation-Does jws signed.0 signed.1 auth id read signed.2 t'
                (Later-trans w (Allowed c w post s) l l')
                (keeps w (Allowed c w post s) Sorted run-Sorted l' sorted_t) order own
                (Met-before w (Allowed c w post s) (ReadsAuthorisation read) l met))
              λ shown u l'' owns. Does-pure _ u (jws, account_signer signed.0 signed.1, auth, owns)

  pub challenge-Does :
      (id : ℕ)
      → Sorted s.store
      → Does w (Allowed c w post s) (Shown c w post s) (challenge c w id post) s
  unfolding challenge Orders.challenge
  challenge-Does id sorted =
      Does-bind _ _ s (by_account-Does c w (Allowed c w post s) post s) λ signed t l (jws, auth).
        look-then _ _ t λ l'. tell-then _ _ _ λ read there.
          let may = may_lapse c w post s jws signed.0 signed.1 auth in
          let later = Later-trans w (Allowed c w post s) l l' in
          let sorted' = keeps w (Allowed c w post s) Sorted run-Sorted later sorted in
          let stood = challenge_there id (arrive w t).store read (found-ok _ read there) in
          Does-bind _ _ (arrive w t)
            (authorisation_of-Does c w (Allowed c w post s) s may read.authorisation signed.0
              (arrive w t) (moment-Later w (Allowed c w post s) later) sorted')
            λ au u l'' (same, order, own, met).
              Does-bind _ _ u
                (Does-if _ _ _ u
                  (λ e.
                    begin_validation-Does jws signed.0 signed.1 auth id read au signed.2 u
                      (Later-trans w (Allowed c w post s) later l'')
                      (keeps w (Allowed c w post s) Sorted run-Sorted l'' sorted')
                      (later_challenge jws signed.0 signed.1 auth id read l'' sorted'
                        (found-ok _ read there) own))
                  (λ e. Does-pure read u (own, (arrive w t, later, stood))))
                λ shown v l3 owns. Does-pure _ v (jws, account_signer signed.0 signed.1, auth, owns)
