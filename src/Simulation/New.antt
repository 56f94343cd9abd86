-- ===== src/Simulation/New.antt =====
-- state.rs, `with_config`: the checks of a configuration, and the simulation that it starts. A
-- callback is its schedule and the answers of `has_triggering_inputs` and `has_pending_inputs`.
use cfw.Prelude.{
  ℕ, ◌+◌, ◌==◌, Bool, true, false, not, ◌&&◌, ◌||◌, Option, none, some, List, [], ◌∷◌, length, ltb,
  if◌then◌else◌,
}
use cfw.Prelude.Result.{Result, ok, err, ◌>>=◌}
use cfw.Time.{FrameworkTime, time_le, invalid}
use cfw.Schedule.{
  CallbackSchedule, missing_duration, has_execution_duration, is_ever_runnable, next_after,
}
use cfw.Simulation.{StepError, bad_config, timing, Node, SimulationState}
use cfw.Simulation.Phases.{named}

pub record SimulationConfig : Type 0 where
  pub node_executor_thread_count : ℕ
  pub virtual_pool_threads : List ℕ
  pub start_time : FrameworkTime

pub record ScheduledCallback : Type 0 where
  pub schedule : CallbackSchedule
  pub has_triggering_inputs : Bool
  pub has_pending_inputs : Bool

abbrev pub contains_zero : List ℕ → Bool
contains_zero [] = false
contains_zero (n ∷ ns) = (n == 0) || contains_zero ns

abbrev pub is_zero_period : Option ℕ → Bool
is_zero_period none = false
is_zero_period (some period) = period == 0

abbrev is_empty : List ℕ → Bool
is_empty [] = true
is_empty (n ∷ ns) = false

abbrev pub time_eq : FrameworkTime → FrameworkTime → Bool
time_eq a b = time_le a b && time_le b a

abbrev pub is_bad : SimulationConfig → Bool
is_bad config =
    (config.node_executor_thread_count == 0)
    || (is_empty config.virtual_pool_threads
        || (contains_zero config.virtual_pool_threads || time_eq config.start_time invalid))

abbrev pub first_deadline :
    SimulationConfig → ℕ → CallbackSchedule → Result StepError (Option FrameworkTime)
first_deadline config index schedule =
    if schedule.run_on_start
    then ok (some config.start_time)
    else named index (next_after schedule config.start_time)

abbrev pub fresh_node : SimulationConfig → ScheduledCallback → Option FrameworkTime → Node
fresh_node config callback next = record {
  schedule = callback.schedule;
  notification = 0;
  input_requested = callback.has_pending_inputs;
  requested = callback.schedule.run_on_start || callback.has_pending_inputs;
  ready_since = none;
  busy_until = config.start_time;
  next = next;
}

-- The body of the loop over the callbacks.
unfoldable pub new_node : SimulationConfig → ℕ → ScheduledCallback → Result StepError Node
unfolding has_execution_duration is_ever_runnable
new_node config index callback =
    if is_zero_period callback.schedule.period
    then err bad_config
    else if not (has_execution_duration callback.schedule)
    then err (timing index missing_duration)
    else if not (is_ever_runnable callback.schedule callback.has_triggering_inputs)
    then err bad_config
    else if not (ltb callback.schedule.pool (length config.virtual_pool_threads))
    then err bad_config
    else (first_deadline config index callback.schedule >>= λ next.
        ok (fresh_node config callback next))

unfoldable pub new_nodes :
    SimulationConfig → ℕ → List ScheduledCallback → Result StepError (List Node)
unfolding new_node
new_nodes config index [] = ok []
new_nodes config index (callback ∷ callbacks) = do
  node ← new_node config index callback
  nodes ← new_nodes config (index + 1) callbacks
  ok (node ∷ nodes)

abbrev pub start_state : {W A : Type 0} → W → List Node → SimulationConfig → SimulationState W A
start_state world nodes config = record {
  timers = true;
  nodes = nodes;
  virtual_pool_threads = config.virtual_pool_threads;
  worker_count = config.node_executor_thread_count;
  time = config.start_time;
  step_count = 0;
  failed = false;
  actions = [];
  action_sequence = 0;
  world = world;
}

unfoldable pub with_config :
    {W A : Type 0}
    → W
    → List ScheduledCallback
    → SimulationConfig
    → Result StepError (SimulationState W A)
unfolding new_nodes
with_config world callbacks config =
    if is_bad config
    then err bad_config
    else (new_nodes config 0 callbacks >>= λ nodes. ok (start_state world nodes config))
