-- ===== src/CommandQueue/Flush.antt =====
-- What a flush reports and leaves.
use op_ca.Prelude.{◌≡◌, refl, true, false, none, some, List, [], ◌∷◌, Result, ok, err}
use op_ca.Vault.{OpError, Vault}
use op_ca.CommandQueue.{
  QueuedCommand, FlushResult, CommandQueue, result_of, execute, execute_all, flush,
}
use op_ca.CommandQueue.Collapse.{keep_last, collapse_queue-keep_last}

-- What a result says of a command, by how it went.
abbrev pub Outcome : QueuedCommand → Result OpError (Unit {0}) → FlushResult → Type 0
Outcome c (ok u) r =
    (r.operation ≡ c.operation)
    × (r.target_id ≡ c.target_id)
    × (r.success ≡ true)
    × (r.error ≡ none)
Outcome c (err e) r =
    (r.operation ≡ c.operation)
    × (r.target_id ≡ c.target_id)
    × (r.success ≡ false)
    × (r.error ≡ some e)

-- Commands executed one after another on a vault, with a result for each, until the vault is as the
-- last one left it.
abbrev pub Ran : (v : Vault) → CommandQueue → v.World → List FlushResult → v.World → Type 0
Ran v [] w [] w' = w' ≡ w
Ran v [] w (r ∷ results) w' = ⊥
Ran v (c ∷ cs) w [] w' = ⊥
Ran v (c ∷ cs) w (r ∷ results) w' =
    Outcome c (execute v c w).0 r × Ran v cs (execute v c w).1 results w'

result-Outcome : (c : QueuedCommand) (a : Result OpError (Unit {0})) → Outcome c a (result_of c a)
result-Outcome c (ok u) = (refl, refl, refl, refl)
result-Outcome c (err e) = (refl, refl, refl, refl)

execute_all-Ran :
    (v : Vault) (cs : CommandQueue) (w : v.World)
    → Ran v cs w (execute_all v cs w).0 (execute_all v cs w).1
unfolding execute_all
execute_all-Ran v [] w = refl
execute_all-Ran v (c ∷ cs) w =
    (result-Outcome c (execute v c w).0, execute_all-Ran v cs (execute v c w).1)

-- A flush leaves the queue empty. Every command that the collapsed queue holds was executed, in order
-- and whichever before it failed, each on the vault that the one before it left; the results say of each
-- whether it went well, and else its error.
pub flush_lem :
    (v : Vault) (queue : CommandQueue) (w : v.World)
    → ((flush v queue w).1 ≡ []) × Ran v (keep_last queue) w (flush v queue w).0 (flush v queue w).2
unfolding flush
flush_lem v [] w = (refl, unfold keep_last in refl)
flush_lem v (c ∷ cs) w =
    rw (collapse_queue-keep_last (c ∷ cs)) (refl, execute_all-Ran v (keep_last (c ∷ cs)) w)
