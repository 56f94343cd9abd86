-- ===== src/Simulation/Tests.antt =====
-- simulation_executor: runs of the model, and the theorems at inputs that meet their hypotheses.
use cfw.Prelude.{
  ℕ, zero, suc, ◌+◌, ◌≡◌, ◌≤◌, refl, true, false, none, some, List, [], ◌∷◌, All, arith, ◌==◌,
  if◌then◌else◌,
}
use cfw.Prelude.Int.{pos, ◌+ℤ◌}
use cfw.Prelude.Result.{Result, ok, err}
use cfw.Sort.{sort, insert}
use cfw.Time.{FrameworkTime, from_nanos, checked_add_duration}
use cfw.Schedule.{CallbackSchedule, has_execution_duration, is_ever_runnable, next_after, duration}
use cfw.Simulation.{
  callback_failed, BatchFailure, loan_error, StepError, poisoned, StepResult, Node, wake, once,
  Entry, SimulationState, Environment,
}
use cfw.Simulation.Batch.{run_prepared_batch, deal}
use cfw.Simulation.Batch.Laws.{run_in_order, run_prepared_batch_lem}
use cfw.Simulation.Threads.{
  Candidate, Selection, select, free_threads, free_threads_from, candidates, claim_thread,
  take_thread, ready_from,
}
use cfw.Simulation.Select.{HasPool, IsSelected, select_lem}
use cfw.Simulation.Refresh.{refresh, refresh_from, refresh_node, deliver}
use cfw.Simulation.Frame.{IsWellFormed, SameFrame}
use cfw.Simulation.Actions.{run_due, insert_action}
use cfw.Simulation.Actions.Laws.{run_due_lem}
use cfw.Simulation.Threads.Laws.{busy_in, threads_of}
use cfw.Simulation.Phases.{batch_timing, settle_all, any_runnable, next_event, any_future}
use cfw.Simulation.Step.{
  step, run_until_idle, step_inner, execute_batch, conclude, prepare_all, commit_all, advance_time,
}
use cfw.Simulation.Step.Ends.{IsFine, Ends}
use cfw.Simulation.Step.Laws.{step_poisons}
use cfw.Simulation.Step.Running.{Runs, run_until_idle_lem}
use cfw.Simulation.New.{SimulationConfig, ScheduledCallback, with_config, new_nodes, new_node}
use cfw.Simulation.Reach.{begin, reaches-Ends}

-- A world that counts commits; callback 1 fails.
abbrev run_body : FrameworkTime → ℕ → Result BatchFailure ℕ
run_body now job = if job == 1 then err loan_error else ok job

abbrev env : Environment ℕ ℕ ℕ ℕ
env = record {
  required_inputs_available = λ index world. true;
  prepare = λ index world. (some index, (world, []));
  run = run_body;
  commit = λ done world. (world + 1, []);
  run_once = λ action now world. ok (world, wake 0 ∷ []);
  run_stream = λ action now world. ok (none, (action, (world, [])));
}

abbrev at_time : ℕ → FrameworkTime
at_time n = from_nanos (pos n)

abbrev schedule : CallbackSchedule
schedule = record {
  pool = 0;
  run_on_start = true;
  period = some 10;
  execution_duration = some 4;
  execution_duration_callback = none;
  next_execution_time_callback = none;
}

abbrev callback : ScheduledCallback
callback = record { schedule = schedule; has_triggering_inputs = false; has_pending_inputs = false }

abbrev config : SimulationConfig
config = record {
  node_executor_thread_count = 2;
  virtual_pool_threads = 1 ∷ [];
  start_time = at_time 0;
}

abbrev node : Node
node = record {
  schedule = schedule;
  notification = 0;
  input_requested = false;
  requested = true;
  ready_since = none;
  busy_until = at_time 0;
  next = some (at_time 0);
}

abbrev state : SimulationState ℕ ℕ
state = record {
  timers = true;
  nodes = node ∷ [];
  virtual_pool_threads = 1 ∷ [];
  worker_count = 2;
  time = at_time 0;
  step_count = 0;
  failed = false;
  actions = [];
  action_sequence = 0;
  world = 0;
}

with_config_runs : with_config 0 (callback ∷ []) config ≡ ok state
unfolding with_config new_nodes new_node has_execution_duration is_ever_runnable
with_config_runs = refl

-- The callback runs, and time goes on to the end of its run.
abbrev after_one : SimulationState ℕ ℕ
after_one = record state {
  nodes = record node { requested = false; busy_until = at_time 4; next = some (at_time 14) } ∷ [];
  time = at_time 4;
  step_count = 1;
  world = 1;
}

abbrev first_result : StepResult
first_result = record { before = at_time 0; after = at_time 4; executed = 0 ∷ []; idle = false }

reaches-Ends_example : Ends (at_time 0) (step env state)
reaches-Ends_example = reaches-Ends env 0 (callback ∷ []) config state state with_config_runs begin

run_prepared_batch_example :
    run_prepared_batch (run_body (at_time 0)) (0 ∷ 2 ∷ 1 ∷ 3 ∷ []) 3
    ≡ run_in_order (run_body (at_time 0)) 0 (0 ∷ 2 ∷ 1 ∷ 3 ∷ [])
run_prepared_batch_example =
    run_prepared_batch_lem (run_body (at_time 0)) (0 ∷ 2 ∷ 1 ∷ 3 ∷ []) 3 (λ e. ground (arith, e))

run_in_order_runs :
    run_in_order (run_body (at_time 0)) 0 (0 ∷ 2 ∷ 1 ∷ 3 ∷ [])
    ≡ err (record { failed_at = 2; failure = loan_error })
unfolding run_in_order
run_in_order_runs = refl

abbrev two_ready : List Candidate
two_ready = record { since = at_time 0; index = 1 } ∷ record { since = at_time 3; index = 0 } ∷ []

abbrev one_free : Selection
one_free = record { free = 1 ∷ []; selected = [] }

two_ready-HasPool : All (HasPool (node ∷ node ∷ []) 1) two_ready
two_ready-HasPool = ((0, refl, ground arith), ((0, refl, ground arith), tt))

select_example :
    (s' : Selection) × (select (node ∷ node ∷ []) two_ready one_free ≡ ok s')
    × IsSelected (node ∷ node ∷ []) two_ready one_free s'
select_example = select_lem (node ∷ node ∷ []) two_ready one_free two_ready-HasPool

abbrev due_action : Entry ℕ
due_action = record { at = at_time 0; sequence = 0; action = once 5 }

run_due_example :
    (r : Result StepError (Unit {0})) × (s' : SimulationState ℕ ℕ) × (run_due env 2
        (record state { actions = due_action ∷ [] })
      ≡ some (r, s'))
    × SameFrame (record state { actions = due_action ∷ [] }) s'
    × IsFine r
run_due_example = run_due_lem env 2 (record state { actions = due_action ∷ [] }) (ground arith)

state-IsWellFormed : IsWellFormed state
state-IsWellFormed = record { pools_exist = (ground arith, tt); within_pools = within }
  where
    within :
        (pool : ℕ)
        → busy_in state.time pool state.nodes ≤ threads_of state.virtual_pool_threads pool
    within zero = ground arith
    within (suc pool) = ground arith

run_until_idle_example : Runs env 3 (run_until_idle env 3 state)
run_until_idle_example = run_until_idle_lem env 3 state state-IsWellFormed

-- Two callbacks are due, and the second one fails.
abbrev failing : SimulationState ℕ ℕ
failing = record state { nodes = node ∷ node ∷ []; virtual_pool_threads = 2 ∷ [] }

abbrev after_failing : SimulationState ℕ ℕ
after_failing = record failing { failed = true }

fails : step env failing ≡ some (err (callback_failed 1 loan_error), after_failing)
unfolding step step_inner run_due refresh refresh_from refresh_node free_threads free_threads_from
    take_thread candidates ready_from sort insert select claim_thread execute_batch prepare_all
    run_prepared_batch deal batch_timing duration checked_add_duration next_after commit_all
    settle_all deliver conclude any_runnable advance_time next_event any_future ◌+ℤ◌
fails = refl

step_poisons_example :
    (step env after_failing ≡ some (err poisoned, after_failing))
    × (insert_action env (at_time 9) (once 5) after_failing ≡ (err poisoned, after_failing))
step_poisons_example =
    step_poisons env failing after_failing (callback_failed 1 loan_error) (at_time 9) (once 5) fails

step_runs : step env state ≡ some (ok first_result, after_one)
unfolding step step_inner run_due refresh refresh_from refresh_node free_threads free_threads_from
    take_thread candidates ready_from sort insert select claim_thread execute_batch prepare_all
    run_prepared_batch deal batch_timing duration checked_add_duration next_after commit_all
    settle_all deliver conclude any_runnable advance_time next_event any_future ◌+ℤ◌
step_runs = refl
