-- ===== src/Simulation/Actions.antt =====
-- state.rs: scheduled actions, ordered by their time and then by their insertion.
pub mod Laws
use Prim.Native.String.{String}
use cfw.Prelude.{
  ℕ, zero, suc, ◌+◌, ◌^◌, Bool, true, false, ◌&&◌, ◌||◌, Option, none, some, List, [], ◌∷◌, length,
  ltb, leb, if◌then◌else◌,
}
use cfw.Prelude.Result.{Result, ok, err}
use cfw.Sort.{insert}
use cfw.Time.{FrameworkTime, time_le, time_lt}
use cfw.Simulation.{
  Wakeup, Action, once, stream, Entry, StepError, bad_config, poisoned, past_action, action_failed,
  SimulationState, Environment,
}
use cfw.Simulation.Refresh.{deliver}

-- The order of the keys `(at, sequence)`.
abbrev pub entry_le : {A : Type 0} → Entry A → Entry A → Bool
entry_le a b = time_lt a.at b.at || (time_le a.at b.at && leb a.sequence b.sequence)

module _ {W A Job Done : Type 0} (env : Environment W A Job Done) where
  unfoldable pub insert_action :
      FrameworkTime
      → Action A
      → SimulationState W A
      → Result StepError (Unit {0}) × SimulationState W A
  unfolding insert
  insert_action at action s =
      if s.failed
      then (err poisoned, s)
      else if time_lt at s.time
      then (err past_action, s)
      else if ltb (s.action_sequence + 1) (2 ^ 64)
      then (
        ok tt,
        record s {
          action_sequence = s.action_sequence + 1;
          actions =
              insert entry_le (record { at = at; sequence = s.action_sequence; action = action })
                s.actions;
        },
      )
      else (err bad_config, s)

  -- The world after an action, and the wakeups that the action caused.
  unfoldable pub take_effect : W × List Wakeup → SimulationState W A → SimulationState W A
  unfolding deliver
  take_effect (world, wakeups) s = record s { world = world; nodes = deliver wakeups s.nodes }

  unfoldable pub finish_once :
      Result String (W × List Wakeup)
      → SimulationState W A
      → Result StepError (Unit {0}) × SimulationState W A
  unfolding take_effect
  finish_once (err reason) s = (err (action_failed reason), s)
  finish_once (ok effect) s = (ok tt, take_effect effect s)

  unfoldable pub finish_stream :
      Result String (Option FrameworkTime × (A × (W × List Wakeup)))
      → SimulationState W A
      → Result StepError (Unit {0}) × SimulationState W A
  unfolding insert_action take_effect
  finish_stream (err reason) s = (err (action_failed reason), s)
  finish_stream (ok (none, (a, effect))) s = (ok tt, take_effect effect s)
  finish_stream (ok (some next, (a, effect))) s =
      if time_le next s.time
      then (
        err (action_failed "streaming action must return a future timestamp"),
        take_effect effect s,
      )
      else insert_action next (stream a) (take_effect effect s)

  unfoldable pub run_action :
      FrameworkTime
      → Action A
      → SimulationState W A
      → Result StepError (Unit {0}) × SimulationState W A
  unfolding finish_once finish_stream
  run_action at (once a) s = finish_once (env.run_once a at s.world) s
  run_action at (stream a) s = finish_stream (env.run_stream a at s.world) s

  -- `first_key_value` and `pop_first`, where the first action is due.
  abbrev pub pop_due : FrameworkTime → List (Entry A) → Option (Entry A × List (Entry A))
  pop_due time [] = none
  pop_due time (entry ∷ actions) = if time_le entry.at time then some (entry, actions) else none

  abbrev pub go_on :
      Result StepError (Unit {0}) × SimulationState W A
      → (SimulationState W A → Option (Result StepError (Unit {0}) × SimulationState W A))
      → Option (Result StepError (Unit {0}) × SimulationState W A)
  go_on (err e, s) again = some (err e, s)
  go_on (ok done, s) again = again s

  -- The loop over the actions that are due; `none` is fuel that ran out.
  unfoldable pub run_due :
      ℕ → SimulationState W A → Option (Result StepError (Unit {0}) × SimulationState W A)
  unfolding run_action
  run_due zero s = none
  run_due (suc fuel) s = elim (pop_due s.time s.actions) [
    | none ↦ some (ok tt, s)
    | some (entry, actions) ↦
        go_on (run_action entry.at entry.action (record s { actions = actions })) (run_due fuel)
  ]
