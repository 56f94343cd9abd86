-- ===== src/Simulation.antt =====
-- simulation_executor/src/state.rs: the data of a discrete-event simulation.
--
-- The vectors `callbacks`, `schedules`, `nodes` and `notifications`, which grow together and never
-- shrink, are one list of `Node`. What lies outside the executor is a parameter: `W` is the state of
-- the user's callbacks and of the channels, `Job` a prepared callback, `Done` one that has run, and
-- `A` a scheduled action. The feature `iceoryx2` is off, so `poll_events` does nothing.
pub mod Batch
pub mod Select
pub mod Threads
pub mod Refresh
pub mod Frame
pub mod Actions
pub mod Phases
pub mod Step
pub mod New
pub mod Reach
mod Tests
use Prim.Native.String.{String}
use cfw.Prelude.{ℕ, Bool, Option, List}
use cfw.Prelude.Result.{Result}
use cfw.Time.{FrameworkTime}
use cfw.Schedule.{CallbackSchedule, TimingError}

pub data BatchFailure : Type 0 where
  loan_error panic : BatchFailure

pub data StepError : Type 0 where
  bad_config : StepError
  callback_failed : ℕ → BatchFailure → StepError
  timing : ℕ → TimingError → StepError
  panicked : StepError
  poisoned : StepError
  action_failed : String → StepError
  past_action : StepError
  step_limit_exceeded : StepError

pub record StepResult : Type 0 where
  pub before : FrameworkTime
  pub after : FrameworkTime
  pub executed : List ℕ
  pub idle : Bool

-- One callback: its schedule, its notification byte, and the source's `NodeState`.
pub record Node : Type 0 where
  pub schedule : CallbackSchedule
  pub notification : ℕ
  pub input_requested : Bool
  pub requested : Bool
  pub ready_since : Option FrameworkTime
  pub busy_until : FrameworkTime
  pub next : Option FrameworkTime

-- `wake` and `readiness_changed` of a callback's waker.
pub data Wakeup : Type 0 where
  wake readiness_changed : ℕ → Wakeup

pub data Action (A : Type 0) : Type 0 where
  once stream : A → Action A

pub record Entry (A : Type 0) : Type 0 where
  pub at : FrameworkTime
  pub sequence : ℕ
  pub action : Action A

pub record SimulationState (W A : Type 0) : Type 0 where
  pub timers : Bool
  pub nodes : List Node
  pub virtual_pool_threads : List ℕ
  pub worker_count : ℕ
  pub time : FrameworkTime
  pub step_count : ℕ
  pub failed : Bool
  pub actions : List (Entry A)
  pub action_sequence : ℕ
  pub world : W

-- The callbacks, the channels and the actions, as the executor calls them.
pub record Environment (W A Job Done : Type 0) : Type 1 where
  pub required_inputs_available : ℕ → W → Bool
  pub prepare : ℕ → W → Option Job × (W × List Wakeup)
  pub run : FrameworkTime → Job → Result BatchFailure Done
  pub commit : Done → W → W × List Wakeup
  pub run_once : A → FrameworkTime → W → Result String (W × List Wakeup)
  pub run_stream :
      A → FrameworkTime → W → Result String (Option FrameworkTime × (A × (W × List Wakeup)))
