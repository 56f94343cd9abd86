-- ===== src/Simulation/Step/Preparing.antt =====
-- callback_execution.rs: preparing and committing a batch, and the place of a failed body.
use cfw.Prelude.{
  ℕ, ◌+◌, ◌≤◌, ◌<◌, ◌≡◌, ◌≢◌, refl, sym, subst, Option, none, some, List, [], ◌∷◌, length,
  get_elem?-of_lt, arith, All,
}
use cfw.Prelude.Result.{Result, ok, err}
use cfw.Time.{FrameworkTime}
use cfw.Simulation.{BatchFailure, Node, Wakeup, SimulationState, Environment}
use cfw.Simulation.Batch.{BatchError, collect_one, run_prepared_batch}
use cfw.Simulation.Batch.Laws.{run_in_order, run_prepared_batch_lem}
use cfw.Simulation.Frame.{SameFrame, SameFrame-refl, SameFrame-trans, seats-deliver}
use cfw.Simulation.Select.{chosen_in}
use cfw.Simulation.Step.{Prepared, add_job, effect_of, prepare_all, commit_all, batch_result}
use cfw.Simulation.Step.Ends.{IsFine}

module _ {W A Job Done : Type 0} (env : Environment W A Job Done) where
  pub effect_of-SameFrame :
      (effect : W × List Wakeup) (s : SimulationState W A) → SameFrame s (effect_of env effect s)
  effect_of-SameFrame (world, wakeups) s = record {
    same_time = refl;
    same_threads = refl;
    same_seats = seats-deliver wakeups s.nodes;
  }

  -- What the preparation of a batch leaves: the frame, and jobs for some of the chosen callbacks.
  pub record IsPrepared (selected : List ℕ) (s s' : SimulationState W A) (p : Prepared env)
      : Type 0 where
    pub frame : SameFrame s s'
    pub as_many : length p.jobs ≡ length p.executed
    pub part :
        (nodes : List Node) (pool : ℕ)
        → chosen_in nodes pool p.executed ≤ chosen_in nodes pool selected
    pub in_range : (count : ℕ) → All (λ i. i < count) selected → All (λ i. i < count) p.executed

  pub prepare_all_lem :
      (selected : List ℕ) (s : SimulationState W A)
      → IsPrepared selected s (prepare_all env selected s).1 (prepare_all env selected s).0
  unfolding prepare_all
  prepare_all_lem [] s = record {
    frame = SameFrame-refl s;
    as_many = refl;
    part = λ nodes pool. ground arith;
    in_range = λ count a. a;
  }
  prepare_all_lem (index ∷ selected) s =
      add (env.prepare index s.world).0 (prepare_all env selected s1).1
        (prepare_all env selected s1).0 (prepare_all_lem selected s1)
    where
      s1 : SimulationState W A
      s1 = effect_of env (env.prepare index s.world).1 s

      add :
          (job : Option Job) (s' : SimulationState W A) (p : Prepared env)
          → IsPrepared selected s1 s' p
          → IsPrepared (index ∷ selected) s s' (add_job env index job p)
      add none s' p i = record {
        frame = SameFrame-trans (effect_of-SameFrame (env.prepare index s.world).1 s) i.frame;
        as_many = i.as_many;
        part = λ nodes pool. ground (arith, i.part nodes pool);
        in_range = λ count a. i.in_range count a.1;
      }
      add (some job) s' p i = record {
        frame = SameFrame-trans (effect_of-SameFrame (env.prepare index s.world).1 s) i.frame;
        as_many = ground (arith, i.as_many);
        part = λ nodes pool. ground (arith, i.part nodes pool);
        in_range = λ count a. (a.0, i.in_range count a.1);
      }

  pub commit_all-SameFrame :
      (finished : List Done) (s : SimulationState W A) → SameFrame s (commit_all env finished s)
  unfolding commit_all
  commit_all-SameFrame [] s = SameFrame-refl s
  commit_all-SameFrame (done ∷ finished) s =
      SameFrame-trans (effect_of-SameFrame (env.commit done s.world) s)
        (commit_all-SameFrame finished (effect_of env (env.commit done s.world) s))

  -- A body that fails stands at a place of the batch.
  abbrev FailsWithin : ℕ → Result BatchError (List Done) → Type 0
  FailsWithin bound (ok finished) = Unit {0}
  FailsWithin bound (err x) = x.failed_at < bound

  collect_one-FailsWithin :
      (run : Job → Result BatchFailure Done) (position bound : ℕ) (r : Result BatchFailure Done)
      (rest : Result BatchError (List Done))
      → position < bound
      → FailsWithin bound rest
      → FailsWithin bound (collect_one run position r rest)
  collect_one-FailsWithin run position bound (err failure) rest lt f = lt
  collect_one-FailsWithin run position bound (ok done) (ok finished) lt f = tt
  collect_one-FailsWithin run position bound (ok done) (err x) lt f = f

  run_in_order-FailsWithin :
      (run : Job → Result BatchFailure Done) (position : ℕ) (jobs : List Job) (bound : ℕ)
      → position + length jobs ≤ bound
      → FailsWithin bound (run_in_order run position jobs)
  unfolding run_in_order
  run_in_order-FailsWithin run position [] bound le = tt
  run_in_order-FailsWithin run position (job ∷ jobs) bound le =
      collect_one-FailsWithin run position bound (run job) (run_in_order run (position + 1) jobs)
        (omega (arith, le))
        (run_in_order-FailsWithin run (position + 1) jobs bound (omega (arith, le)))

  pub batch_result-IsFine :
      (jobs : List Job) (executed : List ℕ) (time : FrameworkTime) (workers : ℕ)
      → workers ≢ 0
      → length jobs ≡ length executed
      → IsFine (batch_result env executed (run_prepared_batch (env.run time) jobs workers))
  batch_result-IsFine jobs executed time workers ne len =
      subst (λ r. IsFine (batch_result env executed r))
        (sym (run_prepared_batch_lem (env.run time) jobs workers ne))
        (go (run_in_order (env.run time) 0 jobs)
          (run_in_order-FailsWithin (env.run time) 0 jobs (length executed) (omega (arith, len))))
    where
      go :
          (r : Result BatchError (List Done))
          → FailsWithin (length executed) r
          → IsFine (batch_result env executed r)
      go (ok finished) f = tt
      go (err x) f = let (index, at) = get_elem?-of_lt executed x.failed_at f in rw at tt
