-- ===== src/Simulation/Step/Laws.antt =====
-- state.rs: every step of a well-formed simulation ends, keeps it well-formed, never panics in the
-- executor's own code, and never takes time back.
use cfw.Prelude.{
  ℕ, ◌+◌, ◌<◌, ◌≡◌, refl, ap, sym, subst, ◌∙◌, Bool, true, false, none, some, List, [], length,
  if◌then◌else◌, arith, ltb, ◌^◌, All,
}
use cfw.Prelude.Result.{ok, err}
use cfw.Sort.{insert}
use cfw.Time.{FrameworkTime, time_lt}
use cfw.Simulation.{
  StepError, Action, poisoned, bad_config, past_action, StepResult, SimulationState, Environment,
}
use cfw.Simulation.Frame.{IsWellFormed, SameFrame, refresh-SameFrame}
use cfw.Simulation.Refresh.{refresh}
use cfw.Simulation.Threads.{candidates, select, free_threads}
use cfw.Simulation.Actions.{run_due, insert_action, entry_le}
use cfw.Simulation.Actions.Laws.{due_count-length, run_due_lem}
use cfw.Simulation.Phases.{and_then, check_with, clear_all, Step}
use cfw.Simulation.Step.{execute_batch, conclude, step_inner, step, poison_failed}
use cfw.Simulation.Step.Settling.{seats-clear_all, length_same}
use cfw.Simulation.Step.Executing.{execute_batch-Ends, SameFrame-Fits}
use cfw.Simulation.Step.Choosing.{batch_lem}
use cfw.Simulation.Step.Concluding.{conclude-Ends}
use cfw.Simulation.Step.Ends.{
  if-Ends, IsAfter, Ends, and_then-Ends, SameFrame-IsAfter, time_le_refl,
}

module _ {W A Job Done : Type 0} (env : Environment W A Job Done) where
  run_due-Ends :
      (s : SimulationState W A)
      → IsWellFormed s
      → Ends s.time (run_due env (length s.actions + 1) s)
  run_due-Ends s w =
      let (r, s', e, frame, fine) =
        run_due_lem env (length s.actions + 1) s
          (omega (arith, due_count-length s.time s.actions)) in
      (
        r,
        s',
        e,
        fine,
        SameFrame-IsAfter s.time s s' frame
            (record { well_formed = w; not_before = time_le_refl s.time }),
      )

  clear_all-SameFrame :
      (selected : List ℕ) (s : SimulationState W A)
      → SameFrame s (record s { nodes = clear_all selected s.nodes })
  clear_all-SameFrame selected s = record {
    same_time = refl;
    same_threads = refl;
    same_seats = seats-clear_all selected s.nodes;
  }

  step_inner-Ends : (s : SimulationState W A) → IsWellFormed s → Ends s.time (step_inner env s)
  unfolding step_inner
  step_inner-Ends s w =
      and_then-Ends s.time (run_due env (length s.actions + 1) s) _ (run_due-Ends s w)
        (λ done s1 ran a1.
          let s2 = refresh env s1 in
          let a2 = SameFrame-IsAfter s.time s1 s2 (refresh-SameFrame env s1) a1 in
          batch_ends s s2 a2)
    where
      batch_ends :
          (s s2 : SimulationState W A)
          → IsAfter s.time s2
          → Ends s.time (
              check_with s2 (free_threads s2.time s2.nodes s2.virtual_pool_threads) (λ free.
                check_with s2
                  (select s2.nodes (candidates s2.nodes) (record { free = free; selected = [] }))
                  (λ chosen.
                    and_then
                      (execute_batch env chosen.selected
                        (record s2 { nodes = clear_all chosen.selected s2.nodes }))
                      (λ executed s3. conclude env s.time executed s3))))
      batch_ends s s2 a2 =
          let b = batch_lem env s2 a2.well_formed in
          let selected = b.chosen.selected in
          let s3 = record s2 { nodes = clear_all selected s2.nodes } in
          let frame = clear_all-SameFrame selected s2 in
          rw (b.counted, b.choice)
            (and_then-Ends s.time (execute_batch env selected s3) _
              (execute_batch-Ends env s.time selected s3 (SameFrame-IsAfter s.time s2 s3 frame a2)
                (SameFrame-Fits env s2 s3 selected frame b.fits)
                (subst (λ count. All (λ j. j < count) selected)
                  (sym (length_same s2.nodes s3.nodes frame.same_seats)) b.inside))
              (λ executed s4 f a4. conclude-Ends env s.time s.time executed s4 a4))

  poison-Ends :
      (time : FrameworkTime) (m : Step (SimulationState W A) StepResult)
      → Ends time m
      → Ends time (poison_failed env m)
  poison-Ends time m (ok r, s, e, fine, a) = (ok r, s, rw e refl, fine, a)
  poison-Ends time m (err x, s, e, fine, a) = (
    err x,
    record s { failed = true },
    rw e refl,
    fine,
    record {
      well_formed = record {
        pools_exist = a.well_formed.pools_exist;
        within_pools = a.well_formed.within_pools;
      };
      not_before = a.not_before;
    },
  )

  -- From every well-formed state a step ends, with a result or an error. It leaves a well-formed
  -- state, in which no pool has more busy callbacks than threads; time does not go back; and the
  -- error, if there is one, is never a panic of the executor's own code: no index is out of range
  -- and no count of free threads goes below zero.
  pub step-Ends : (s : SimulationState W A) → IsWellFormed s → Ends s.time (step env s)
  unfolding step
  step-Ends s w =
      if-Ends s.time s.failed _ _
        (λ failed.
          (err poisoned, s, refl, tt, record { well_formed = w; not_before = time_le_refl s.time }))
        (λ fine. poison-Ends s.time (step_inner env s) (step_inner-Ends s w))

  abbrev failed_in : Step (SimulationState W A) StepResult → Bool
  failed_in none = true
  failed_in (some (r, s)) = s.failed

  poisoned_after :
      (m : Step (SimulationState W A) StepResult) (s' : SimulationState W A) (e : StepError)
      → poison_failed env m ≡ some (err e, s')
      → s'.failed ≡ true
  poisoned_after none s' e h = cc
  poisoned_after (some (ok r, s)) s' e h = cc
  poisoned_after (some (err x, s)) s' e h = sym (ap failed_in h)

  -- A step that fails poisons the session: every later step is refused and changes nothing, and so
  -- is every later action.
  pub step_poisons :
      (s s' : SimulationState W A) (e : StepError) (at : FrameworkTime) (action : Action A)
      → step env s ≡ some (err e, s')
      → (step env s' ≡ some (err poisoned, s'))
        × (insert_action env at action s' ≡ (err poisoned, s'))
  unfolding step insert_action
  step_poisons s s' e at action h =
      let failed = go s.failed refl h in
      (
        ap (λ b. if b then some (err poisoned, s') else poison_failed env (step_inner env s'))
            failed,
        ap
            (λ b.
              if b
              then (err poisoned, s')
              else if time_lt at s'.time
              then (err past_action, s')
              else if ltb (s'.action_sequence + 1) (2 ^ 64)
              then (
                ok tt,
                record s' {
                  action_sequence = s'.action_sequence + 1;
                  actions =
                      insert entry_le
                        (record { at = at; sequence = s'.action_sequence; action = action })
                        s'.actions;
                },
              )
              else (err bad_config, s'))
            failed,
      )
    where
      go :
          (b : Bool)
          → s.failed ≡ b
          → (if b then some (err poisoned, s) else poison_failed env (step_inner env s))
            ≡ some (err e, s')
          → s'.failed ≡ true
      go true f k = sym (ap failed_in k) ∙ f
      go false f k = poisoned_after (step_inner env s) s' e k
