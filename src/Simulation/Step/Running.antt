-- ===== src/Simulation/Step/Running.antt =====
-- state.rs, `run_until_idle`: how a run ends.
use cfw.Prelude.{
  ℕ, zero, suc, ◌≤◌, ◌≡◌, refl, Bool, true, false, some, List, [], ◌∷◌, length, arith,
}
use cfw.Prelude.Result.{Result, ok, err}
use cfw.Simulation.{StepError, step_limit_exceeded, StepResult, SimulationState, Environment}
use cfw.Simulation.Frame.{IsWellFormed}
use cfw.Simulation.Phases.{Step, and_then}
use cfw.Simulation.Step.{step, run_until_idle}
use cfw.Simulation.Step.Ends.{IsFine, Ends}
use cfw.Simulation.Step.Laws.{step-Ends}

-- Steps that were not idle, and a last one that was.
abbrev pub EndsIdle : List StepResult → Type 0
EndsIdle [] = ⊥
EndsIdle (last ∷ []) = last.idle ≡ true
EndsIdle (result ∷ next ∷ rest) = (result.idle ≡ false) × EndsIdle (next ∷ rest)

abbrev pub IsRun : ℕ → Result StepError (List StepResult) → Type 0
IsRun max_steps (err e) = IsFine {R = List StepResult} (err e)
IsRun max_steps (ok results) = EndsIdle results × (length results ≤ max_steps)

module _ {W A Job Done : Type 0} (env : Environment W A Job Done) where
  abbrev pub Runs : ℕ → Step (SimulationState W A) (List StepResult) → Type 0
  Runs max_steps m =
      (r : Result StepError (List StepResult)) × (s : SimulationState W A) × (m ≡ some (r, s))
      × IsRun max_steps r
      × IsWellFormed s

  cons-EndsIdle :
      (r : StepResult) (rest : List StepResult)
      → r.idle ≡ false
      → EndsIdle rest
      → EndsIdle (r ∷ rest)
  cons-EndsIdle r [] e h = elim h [ ]
  cons-EndsIdle r (next ∷ rest) e h = (e, h)

  -- A run of a well-formed simulation ends. Either it fails, never with a panic of the executor's
  -- own code, or it gives the results of at most as many steps as allowed, of which the last was
  -- idle and no other.
  pub run_until_idle_lem :
      (max_steps : ℕ) (s : SimulationState W A)
      → IsWellFormed s
      → Runs max_steps (run_until_idle env max_steps s)
  unfolding run_until_idle
  run_until_idle_lem zero s w = (err step_limit_exceeded, s, refl, tt, w)
  run_until_idle_lem (suc max_steps) s w =
      go (λ s' w'. run_until_idle_lem max_steps s' w') (step-Ends env s w)
    where
      after :
          (result : StepResult) (idle : Bool) (s' : SimulationState W A)
          → result.idle ≡ idle
          → IsWellFormed s'
          → Runs max_steps (run_until_idle env max_steps s')
          → Runs (suc max_steps) (elim idle [
            | true ↦ some (ok (result ∷ []), s')
            | false ↦
                and_then
                  (run_until_idle env max_steps s')
                  (λ results s''. some (ok (result ∷ results), s''))
          ])
      after result true s' e w' run = (ok (result ∷ []), s', refl, (e, ground arith), w')
      after result false s' e w' (err x, s'', f, fine, w'') = (err x, s'', rw f refl, fine, w'')
      after result false s' e w' (ok rest, s'', f, (idle, len), w'') = (
        ok (result ∷ rest),
        s'',
        rw f refl,
        (cons-EndsIdle result rest e idle, ground (arith, len)),
        w'',
      )

      go :
          ((s' : SimulationState W A)
            → IsWellFormed s'
            → Runs max_steps (run_until_idle env max_steps s'))
          → Ends s.time (step env s)
          → Runs (suc max_steps) (run_until_idle env (suc max_steps) s)
      go again (err x, s', e, fine, a) = (err x, s', rw e refl, fine, a.well_formed)
      go again (ok result, s', e, fine, a) =
          rw e (after result result.idle s' refl a.well_formed (again s' a.well_formed))
