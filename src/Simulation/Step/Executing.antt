-- ===== src/Simulation/Step/Executing.antt =====
-- state.rs: a batch settles within the pools.
use cfw.Prelude.{
  ℕ, ◌+◌, ◌≤◌, ◌<◌, ◌==◌, refl, sym, subst, Bool, true, false, none, some, List, [], ◌∷◌, length,
  get_elem?, get_elem?-of_lt, if◌then◌else◌, arith, All,
}
use cfw.Prelude.Result.{Result, ok, err}
use cfw.Time.{FrameworkTime, checked_add_duration}
use cfw.Simulation.{bad_config, Node, SimulationState, Environment}
use cfw.Simulation.Batch.{run_prepared_batch}
use cfw.Simulation.Frame.{IsWellFormed, SameFrame, SameFrame-trans, busy_in_same}
use cfw.Simulation.Threads.Laws.{busy_in, threads_of}
use cfw.Simulation.Select.{chosen_in}
use cfw.Schedule.{TimingError, duration, next_after}
use cfw.Simulation.Phases.{finish_at, Timing, settle_all, batch_timing, timing_of_node, named}
use cfw.Simulation.Step.Preparing.{prepare_all_lem, commit_all-SameFrame, batch_result-IsFine}
use cfw.Simulation.Step.Settling.{settle_all_busy, settle_all_pools, length_same, chosen_in_same}
use cfw.Simulation.Step.{prepare_all, commit_all, batch_result, execute_batch}
use cfw.Simulation.Step.Ends.{
  if-Ends, bind-IsFine, IsFine, IsAfter, Ends, check_with-Ends, SameFrame-IsAfter,
}

named-IsFine : {R : Type 0} (index : ℕ) (r : Result TimingError R) → IsFine (named index r)
named-IsFine index (ok r) = tt
named-IsFine index (err e) = tt

timing_of_node-IsFine :
    (timers : Bool) (time : FrameworkTime) (index : ℕ) (node : Node)
    → IsFine (timing_of_node timers time index (some node))
timing_of_node-IsFine timers time index node =
    bind-IsFine (named index (duration node.schedule)) _
      (named-IsFine index (duration node.schedule))
      (λ d.
        bind-IsFine (named index (finish_at (checked_add_duration time d))) _
          (named-IsFine index (finish_at (checked_add_duration time d)))
          (λ finish.
            bind-IsFine (if timers then named index (next_after node.schedule finish) else ok none)
              _ (next timers finish) (λ n. tt)))
  where
    next :
        (timers : Bool) (finish : FrameworkTime)
        → IsFine (if timers then named index (next_after node.schedule finish) else ok none)
    next true finish = named-IsFine index (next_after node.schedule finish)
    next false finish = tt

batch_timing-IsFine :
    (timers : Bool) (time : FrameworkTime) (nodes : List Node) (executed : List ℕ)
    → All (λ i. i < length nodes) executed
    → IsFine (batch_timing timers time nodes executed)
unfolding batch_timing
batch_timing-IsFine timers time nodes [] a = tt
batch_timing-IsFine timers time nodes (index ∷ executed) a =
    let (node, at) = get_elem?-of_lt nodes index a.0 in
    bind-IsFine (timing_of_node timers time index (get_elem? nodes index)) _
      (subst (λ o. IsFine (timing_of_node timers time index o)) (sym at)
        (timing_of_node-IsFine timers time index node))
      (λ first.
        bind-IsFine (batch_timing timers time nodes executed) _
          (batch_timing-IsFine timers time nodes executed a.1) (λ rest. tt))

module _ {W A Job Done : Type 0} (env : Environment W A Job Done) where
  -- A batch that fits the free threads, settled in full, stays within the pools.
  settled-IsWellFormed :
      (s : SimulationState W A) (executed : List ℕ) (timings : List Timing)
      → IsWellFormed s
      → ((pool : ℕ)
          → busy_in s.time pool s.nodes + chosen_in s.nodes pool executed
            ≤ threads_of s.virtual_pool_threads pool)
      → IsWellFormed (record s { nodes = settle_all executed timings s.nodes })
  settled-IsWellFormed s executed timings w fits = record {
    pools_exist =
        settle_all_pools (length s.virtual_pool_threads) executed timings s.nodes w.pools_exist;
    within_pools =
        λ pool. ground (arith, settle_all_busy s.time pool executed timings s.nodes, fits pool);
  }

  -- The chosen callbacks fit the threads that the busy ones leave.
  abbrev pub Fits : SimulationState W A → List ℕ → Type 0
  Fits s chosen =
      (pool : ℕ)
      → busy_in s.time pool s.nodes + chosen_in s.nodes pool chosen
        ≤ threads_of s.virtual_pool_threads pool

  pub SameFrame-Fits :
      (s s' : SimulationState W A) (chosen : List ℕ)
      → SameFrame s s'
      → Fits s chosen
      → Fits s' chosen
  SameFrame-Fits s s' chosen f fits pool =
      let busy = busy_in_same s.time s'.time pool s.nodes s'.nodes f.same_time f.same_seats in
      let same = chosen_in_same s.nodes s'.nodes pool chosen f.same_seats in
      subst
        (λ threads.
          busy_in s'.time pool s'.nodes + chosen_in s'.nodes pool chosen ≤ threads_of threads pool)
        (sym f.same_threads) (ground (arith, fits pool, busy, same))

  pub execute_batch-Ends :
      (time : FrameworkTime) (selected : List ℕ) (s : SimulationState W A)
      → IsAfter time s
      → Fits s selected
      → All (λ i. i < length s.nodes) selected
      → Ends time (execute_batch env selected s)
  unfolding execute_batch
  execute_batch-Ends time selected s a fits inside =
      let p = (prepare_all env selected s).0 in
      let s1 = (prepare_all env selected s).1 in
      let i = prepare_all_lem env selected s in
      let a1 = SameFrame-IsAfter time s s1 i.frame a in
      let inside1 =
        subst (λ count. All (λ j. j < count) p.executed)
          (sym (length_same s.nodes s1.nodes i.frame.same_seats))
          (i.in_range (length s.nodes) inside) in
      if-Ends time (s.worker_count == 0) _ _ (λ none_left. (err bad_config, s, refl, tt, a))
        (λ workers.
          check_with-Ends time s1
            (batch_result env p.executed
              (run_prepared_batch (env.run s1.time) p.jobs s.worker_count))
            _ a1
            (batch_result-IsFine env p.jobs p.executed s1.time s.worker_count (ground arith)
              i.as_many)
            (λ finished done.
              check_with-Ends time s1 (batch_timing s1.timers s1.time s1.nodes p.executed) _ a1
                (batch_timing-IsFine s1.timers s1.time s1.nodes p.executed inside1)
                (λ timings timed. settled finished timings)))
    where
      settled :
          (finished : List Done) (timings : List Timing)
          → let p = (prepare_all env selected s).0 in
            let s2 = commit_all env finished (prepare_all env selected s).1 in
            Ends time
              (some (ok p.executed, record s2 { nodes = settle_all p.executed timings s2.nodes }))
      settled finished timings =
          let i = prepare_all_lem env selected s in
          let p = (prepare_all env selected s).0 in
          let s1 = (prepare_all env selected s).1 in
          let s2 = commit_all env finished s1 in
          let frame = SameFrame-trans i.frame (commit_all-SameFrame env finished s1) in
          let a2 = SameFrame-IsAfter time s s2 frame a in
          let part : Fits s p.executed = λ pool. ground (arith, fits pool, i.part s.nodes pool) in
          (
            ok p.executed,
            record s2 { nodes = settle_all p.executed timings s2.nodes },
            refl,
            tt,
            record {
              well_formed =
                  settled-IsWellFormed s2 p.executed timings a2.well_formed
                    (SameFrame-Fits s s2 p.executed frame part);
              not_before = a2.not_before;
            },
          )
