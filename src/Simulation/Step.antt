-- ===== src/Simulation/Step.antt =====
-- state.rs, `step_inner`, `step` and `run_until_idle`: one step of the simulation, in the phases of
-- the source: due actions, refresh, selection, the batch, and the advance of time. The rank table
-- and the sort by rank, which put the chosen callbacks in the order of their choice, are that order.
-- A batch that fails leaves the state as its preparation left it: the session is then poisoned.
pub mod Ends
pub mod Settling
pub mod Preparing
pub mod Executing
pub mod Concluding
pub mod Choosing
pub mod Running
pub mod Laws
use cfw.Prelude.{
  ℕ, zero, suc, ◌+◌, ◌-◌, ◌==◌, ◌^◌, Bool, true, false, not, ◌&&◌, ◌||◌, Option, none, some, List,
  [], ◌∷◌, ◌++◌, length, get_elem?, ltb, min, if◌then◌else◌,
}
use cfw.Prelude.Result.{Result, ok, err, ◌>>=◌}
use cfw.Time.{FrameworkTime}
use cfw.Simulation.{
  BatchFailure, StepError, bad_config, callback_failed, panicked, poisoned, step_limit_exceeded,
  StepResult, Node, Entry, SimulationState, Environment, Wakeup,
}
use cfw.Simulation.Batch.{BatchError, run_prepared_batch}
use cfw.Simulation.Threads.{free_threads, Candidate, candidates, Selection, select}
use cfw.Simulation.Refresh.{deliver, refresh}
use cfw.Simulation.Actions.{run_due}
use cfw.Simulation.Phases.{
  Step, and_then, check_with, clear_all, Timing, batch_timing, settle_all, any_runnable, first_at,
  next_event, any_future,
}

module _ {W A Job Done : Type 0} (env : Environment W A Job Done) where
  -- The callbacks that had an invocation to prepare, with their jobs.
  pub record Prepared : Type 0 where
    pub executed : List ℕ
    pub jobs : List Job

  abbrev pub add_job : ℕ → Option Job → Prepared → Prepared
  add_job index none p = p
  add_job index (some job) p = record { executed = index ∷ p.executed; jobs = job ∷ p.jobs }

  abbrev pub effect_of : W × List Wakeup → SimulationState W A → SimulationState W A
  effect_of (world, wakeups) s = record s { world = world; nodes = deliver wakeups s.nodes }

  unfoldable pub prepare_all : List ℕ → SimulationState W A → Prepared × SimulationState W A
  unfolding deliver
  prepare_all [] s = (record { executed = []; jobs = [] }, s)
  prepare_all (index ∷ selected) s =
      let (job, effect) = env.prepare index s.world in
      let (p, s') = prepare_all selected (effect_of effect s) in (add_job index job p, s')

  unfoldable pub commit_all : List Done → SimulationState W A → SimulationState W A
  unfolding deliver
  commit_all [] s = s
  commit_all (done ∷ finished) s = commit_all finished (effect_of (env.commit done s.world) s)

  abbrev pub at_position : Option ℕ → BatchFailure → StepError
  at_position none failure = panicked
  at_position (some index) failure = callback_failed index failure

  abbrev pub batch_result : List ℕ → Result BatchError (List Done) → Result StepError (List Done)
  batch_result executed (ok finished) = ok finished
  batch_result executed (err e) = err (at_position (get_elem? executed e.failed_at) e.failure)

  -- `execute_callback_batch`, and the loop that settles its timing.
  unfoldable pub execute_batch : List ℕ → SimulationState W A → Step (SimulationState W A) (List ℕ)
  unfolding prepare_all commit_all batch_timing settle_all run_prepared_batch
  execute_batch selected s =
      if s.worker_count == 0
      then some (err bad_config, s)
      else let (p, s1) = prepare_all selected s in
        check_with s1
          (batch_result p.executed (run_prepared_batch (env.run s1.time) p.jobs s.worker_count))
          (λ finished.
            check_with s1 (batch_timing s1.timers s1.time s1.nodes p.executed) (λ timings.
              let s2 = commit_all finished s1 in
              some (ok p.executed, record s2 { nodes = settle_all p.executed timings s2.nodes })))

  abbrev pub move_to : Option FrameworkTime → SimulationState W A → SimulationState W A
  move_to none s = s
  move_to (some next) s = record s { time = next }

  -- Time moves only where nothing can run now.
  unfoldable pub advance_time : Bool → SimulationState W A → SimulationState W A
  unfolding next_event
  advance_time runnable s =
      if runnable then s else move_to (next_event s.time s.nodes (first_at s.actions)) s

  abbrev pub runnable_now : SimulationState W A → Result StepError Bool
  runnable_now s =
      free_threads s.time s.nodes s.virtual_pool_threads >>= λ free. any_runnable s.nodes free

  abbrev pub is_empty : List (Entry A) → Bool
  is_empty [] = true
  is_empty (entry ∷ actions) = false

  -- What follows the batch.
  unfoldable pub conclude :
      FrameworkTime → List ℕ → SimulationState W A → Step (SimulationState W A) StepResult
  unfolding refresh free_threads any_runnable advance_time any_future
  conclude before executed s =
      let s1 = refresh env s in
      check_with s1 (runnable_now s1) (λ runnable.
        let s2 = refresh env (advance_time runnable s1) in
        check_with s2 (runnable_now s2) (λ still_runnable.
          let future = not (is_empty s2.actions) || any_future s2.time s2.nodes in
          some (
            ok (record {
              before = before;
              after = s2.time;
              executed = executed;
              idle = not still_runnable && not future;
            }),
            record s2 { step_count = min (s2.step_count + 1) (2 ^ 64 - 1) },
          )))

  unfoldable pub step_inner : SimulationState W A → Step (SimulationState W A) StepResult
  unfolding run_due refresh free_threads candidates select execute_batch conclude
  step_inner s = and_then (run_due env (length s.actions + 1) s) (λ done s1.
      let s2 = refresh env s1 in
      check_with s2 (free_threads s2.time s2.nodes s2.virtual_pool_threads) (λ free.
        check_with s2
          (select s2.nodes (candidates s2.nodes) (record { free = free; selected = [] }))
          (λ chosen.
            and_then
              (execute_batch chosen.selected
                (record s2 { nodes = clear_all chosen.selected s2.nodes }))
              (λ executed s3. conclude s.time executed s3))))

  abbrev pub poison :
      Result StepError StepResult × SimulationState W A
      → Result StepError StepResult × SimulationState W A
  poison (err e, s) = (err e, record s { failed = true })
  poison (ok r, s) = (ok r, s)

  abbrev pub poison_failed :
      Step (SimulationState W A) StepResult → Step (SimulationState W A) StepResult
  poison_failed none = none
  poison_failed (some end) = some (poison end)

  unfoldable pub step : SimulationState W A → Step (SimulationState W A) StepResult
  unfolding step_inner
  step s = if s.failed then some (err poisoned, s) else poison_failed (step_inner s)

  unfoldable pub run_until_idle :
      ℕ → SimulationState W A → Step (SimulationState W A) (List StepResult)
  unfolding step
  run_until_idle zero s = some (err step_limit_exceeded, s)
  run_until_idle (suc max_steps) s = and_then (step s) (λ result s'. elim result.idle [
    | true ↦ some (ok (result ∷ []), s')
    | false ↦
        and_then (run_until_idle max_steps s') (λ results s''. some (ok (result ∷ results), s''))
  ])
