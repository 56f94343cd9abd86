-- ===== src/Scheduler/Tests.antt =====
-- pool_state.rs: an interleaving of a trigger, a worker and a second trigger, run to its end, and
-- the safety theorems at it.
use cfw.Prelude.{
  ℕ, ◌≡◌, ◌≢◌, ◌+◌, ◌≤◌, ◌⊎◌, refl, List, [], ◌∷◌, ◌++◌, true, false, arith, total, some,
}
use cfw.Scheduler.{idle, waiting, new, new_node, next_finish, notify_all, queued, running, is_idle}
use cfw.Scheduler.Threads.{
  Event, call, receive, proceed, spurious, ran, System, Progress, next, panic, run,
}
use cfw.Scheduler.Weights.{waiting_in, holds_entry, holds_claim}
use cfw.Scheduler.New.{start}
use cfw.Scheduler.Safety.{run-ne-panic, is_idle-quiescent, claim-exclusive, next_finish-notify_all}

abbrev pools_of_nodes : List ℕ
pools_of_nodes = 0 ∷ 0 ∷ 1 ∷ []

abbrev workers : List ℕ
workers = 1 ∷ 2 ∷ []

-- Thread 0 triggers node 1, with one spurious failure of its exchange.
abbrev triggering : List (ℕ × Event)
triggering =
    (0, call 1 true)
    ∷ (0, proceed)
    ∷ (0, proceed)
    ∷ (0, proceed)
    ∷ (0, spurious)
    ∷ (0, proceed)
    ∷ (0, proceed)
    ∷ (0, proceed)
    ∷ (0, proceed)
    ∷ []

-- Thread 1 receives it, claims it and runs it to its end.
abbrev working : List (ℕ × Event)
working =
    (1, receive 0)
    ∷ (1, proceed)
    ∷ (1, proceed)
    ∷ (1, ran true)
    ∷ (1, proceed)
    ∷ (1, proceed)
    ∷ (1, proceed)
    ∷ (1, proceed)
    ∷ []

abbrev until_claimed : List (ℕ × Event)
until_claimed = triggering ++ (1, receive 0) ∷ (1, proceed) ∷ (1, proceed) ∷ []

abbrev whole : List (ℕ × Event)
whole = triggering ++ working

abbrev system_of : Progress → System
system_of (next y) = y
system_of _ = start pools_of_nodes workers 3

abbrev claimed_state : System
claimed_state = system_of (run until_claimed (start pools_of_nodes workers 3))

abbrev final_state : System
final_state = system_of (run whole (start pools_of_nodes workers 3))

final_is_idle : (is_idle final_state.scheduler ≡ true) × (final_state.scheduler.completed ≡ 1)
unfolding run new is_idle
final_is_idle = (refl, refl)

claimed_is_busy : (is_idle claimed_state.scheduler ≡ false)
unfolding run new is_idle
claimed_is_busy = refl

run-ne-panic_example : run whole (start pools_of_nodes workers 3) ≢ panic
run-ne-panic_example = run-ne-panic pools_of_nodes workers 3 whole (omega arith) (omega arith)

is_idle-quiescent_example : (idle ≡ idle) ⊎ (idle ≡ waiting)
unfolding run new
is_idle-quiescent_example =
    (is_idle-quiescent pools_of_nodes workers 3 whole final_state (omega arith) (omega arith) refl
        final_is_idle.0).0
      1 (new_node 0) refl

claim-exclusive_example :
    total (waiting_in 1) claimed_state.scheduler.pools
      + total (holds_entry 1) claimed_state.threads
      + total (holds_claim 1) claimed_state.threads
    ≤ 1
unfolding run new
claim-exclusive_example =
    (claim-exclusive pools_of_nodes workers 3 until_claimed claimed_state (omega arith)
      (omega arith) refl 1).0

next_finish-notify_all_example :
    next_finish (notify_all running (false ∷ true ∷ [])) true ≡ some queued
next_finish-notify_all_example = next_finish-notify_all (false ∷ true ∷ []) true
