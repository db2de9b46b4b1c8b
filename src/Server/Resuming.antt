-- ===== src/Server/Resuming.antt =====
-- The validations that a restart left are started again, once.
use op_ca.Prelude.{◌≡◌, refl, ap, ◌∙◌, true, false, List, [], ◌∷◌, ◌++◌, ok}
use mathlib.Core.List.{append_assoc, append-nil}
use op_ca.Store.Upkeep.{Validation, processing}
use op_ca.Store.Upkeep.Taking.{Taken, processing-Taken}
use op_ca.Server.{World, Server, arrive, look, modify, pure, ◌>>=◌}
use op_ca.Server.Challenges.{validate_in_background, start_all, resume_once, resume}

start_all_lem :
    (w : World) (left : List Validation) (s : Server)
    → start_all w left s ≡ (ok tt, record s { background = s.background ++ left })
unfolding start_all validate_in_background modify pure ◌>>=◌
start_all_lem w [] s =
    ap (λ b. (ok tt, record s { background = b })) (rw (append-nil s.background) refl)
start_all_lem w (validation ∷ rest) s =
    start_all_lem w rest (record s { background = s.background ++ validation ∷ [] })
    ∙ ap (λ b. (ok tt, record s { background = b }))
        (append_assoc s.background (validation ∷ []) rest)

-- The server once it was resumed.
abbrev resumed : World → Server → Server
resumed w s = record (arrive w s) {
  resumed = true;
  background = s.background ++ processing (arrive w s).store;
}

first_time : (w : World) (s : Server) → resume_once w false s ≡ (ok tt, resumed w s)
unfolding resume_once modify look arrive ◌>>=◌
first_time w s =
    start_all_lem w (processing (arrive w s).store) (arrive w (record s { resumed = true }))

later_on : (w : World) (s : Server) → s.resumed ≡ true → resume w s ≡ (ok tt, s)
unfolding resume resume_once pure
later_on w s e = ap (λ b. resume_once w b s) e

-- The first `resume` of a process starts a validation of every challenge that is then being processed,
-- in their order, each for its authorisation's identifier and with the key authorisation of the account
-- that placed the order, and of no other challenge; it changes nothing else. Any later one does nothing
-- at all.
pub resume_lem :
    (w later : World) (s : Server)
    → s.resumed ≡ false
    → (started : List Validation) × Taken (arrive w s).store (arrive w s).store.challenges started
      × (resume w s
          ≡ (ok tt, record (arrive w s) { resumed = true; background = s.background ++ started }))
      × (resume later (resume w s).1 ≡ (ok tt, (resume w s).1))
unfolding resume
resume_lem w later s e =
    let first = ap (λ b. resume_once w b s) e ∙ first_time w s in
    (
      processing (arrive w s).store,
      processing-Taken (arrive w s).store,
      first,
      later_on later (resume_once w s.resumed s).1 (ap (λ r. r.1.resumed) first),
    )
