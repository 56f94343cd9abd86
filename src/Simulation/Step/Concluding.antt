-- ===== src/Simulation/Step/Concluding.antt =====
-- state.rs: what follows the batch: time goes on to the next event only, within the pools.
use cfw.Prelude.{
  ℕ, ◌≤◌, ◌<◌, ◌≡◌, refl, sym, subst, inl, inr, Bool, true, false, Option, none, some, List, [],
  ◌∷◌, length, get_elem?, get_elem?-of_lt, if◌then◌else◌, arith, Bool-cases, All,
}
use cfw.Prelude.Result.{ok}
use cfw.Time.{FrameworkTime, time_le, time_lt}
use cfw.Simulation.{Node, SimulationState, Environment}
use cfw.Simulation.Frame.{IsWellFormed, refresh-SameFrame}
use cfw.Simulation.Refresh.{refresh}
use cfw.Simulation.Threads.{free_threads}
use cfw.Simulation.Threads.Laws.{busy_in, free_threads_from_lem}
use cfw.Simulation.Phases.{
  is_ready, positive, is_runnable, any_runnable, later_min, later_min_of, first_at, next_event,
}
use cfw.Simulation.Step.{move_to, advance_time, runnable_now, conclude}
use cfw.Simulation.Step.Ends.{
  IsFine, IsAfter, Ends, check_with-Ends, SameFrame-IsAfter, bind-IsFine, time_le_trans,
}

is_runnable-IsFine :
    (node : Node) (free : List ℕ)
    → node.schedule.pool < length free
    → IsFine (is_runnable node free)
is_runnable-IsFine node free lt = go (is_ready node.ready_since)
  where
    go : (b : Bool) → IsFine (if b then positive (get_elem? free node.schedule.pool) else ok false)
    go true = let (n, at) = get_elem?-of_lt free node.schedule.pool lt in rw at tt
    go false = tt

any_runnable-IsFine :
    (nodes : List Node) (free : List ℕ)
    → All (λ node. node.schedule.pool < length free) nodes
    → IsFine (any_runnable nodes free)
unfolding any_runnable
any_runnable-IsFine [] free a = tt
any_runnable-IsFine (node ∷ nodes) free a =
    bind-IsFine (is_runnable node free) _ (is_runnable-IsFine node free a.0)
      (rest (any_runnable-IsFine nodes free a.1))
  where
    rest :
        IsFine (any_runnable nodes free)
        → (here : Bool) → IsFine (if here then ok true else any_runnable nodes free)
    rest fine true = tt
    rest fine false = fine

-- A time that is after the present, where there is one.
abbrev IsLater : FrameworkTime → Option FrameworkTime → Type 0
IsLater time none = Unit {0}
IsLater time (some t) = time_lt time t ≡ true

later_min-IsLater :
    (time t : FrameworkTime) (best : Option FrameworkTime)
    → IsLater time best
    → IsLater time (later_min time t best)
later_min-IsLater time t none l = elim (Bool-cases (time_lt time t)) [
  | inl e ↦ rw e (subst (λ b. b ≡ true) (sym e) refl)
  | inr e ↦ rw e tt
]
later_min-IsLater time t (some best) l = elim (Bool-cases (time_lt time t)) [
  | inl e ↦ elim (Bool-cases (time_le t best)) [ inl f ↦ rw (e, f) e | inr f ↦ rw (e, f) l ]
  | inr e ↦ rw e l
]

later_min_of-IsLater :
    (time : FrameworkTime) (t best : Option FrameworkTime)
    → IsLater time best
    → IsLater time (later_min_of time t best)
later_min_of-IsLater time none best l = l
later_min_of-IsLater time (some t) best l = later_min-IsLater time t best l

next_event-IsLater :
    (time : FrameworkTime) (nodes : List Node) (action_time : Option FrameworkTime)
    → IsLater time (next_event time nodes action_time)
unfolding next_event
next_event-IsLater time [] action_time = later_min_of-IsLater time action_time none tt
next_event-IsLater time (node ∷ nodes) action_time = later_min-IsLater time node.busy_until _ (
    later_min_of-IsLater time node.next (next_event time nodes action_time)
      (next_event-IsLater time nodes action_time))

busy_in_later :
    (time next : FrameworkTime) (pool : ℕ) (nodes : List Node)
    → time_lt time next ≡ true
    → busy_in next pool nodes ≤ busy_in time pool nodes
busy_in_later time next pool [] l = ground arith
busy_in_later time next pool (node ∷ nodes) l = ground (arith, busy_in_later time next pool nodes l)

module _ {W A Job Done : Type 0} (env : Environment W A Job Done) where
  runnable_now-IsFine : (s : SimulationState W A) → IsWellFormed s → IsFine (runnable_now env s)
  unfolding free_threads
  runnable_now-IsFine s w =
      let (free, counted, len, at) =
        free_threads_from_lem s.time s.nodes s.virtual_pool_threads w.within_pools in
      rw counted (
        any_runnable-IsFine s.nodes free (
          subst (λ count. All (λ node. node.schedule.pool < count) s.nodes) (sym len)
            w.pools_exist))

  move_to-IsAfter :
      (time : FrameworkTime) (next : Option FrameworkTime) (s : SimulationState W A)
      → IsLater s.time next
      → IsAfter time s
      → IsAfter time (move_to env next s)
  move_to-IsAfter time none s l a = a
  move_to-IsAfter time (some next) s l a = record {
    well_formed = record {
      pools_exist = a.well_formed.pools_exist;
      within_pools = λ pool.
          ground (arith, busy_in_later s.time next pool s.nodes l, a.well_formed.within_pools pool);
    };
    not_before = time_le_trans time s.time next a.not_before (ground (arith, l));
  }

  advance_time-IsAfter :
      (time : FrameworkTime) (runnable : Bool) (s : SimulationState W A)
      → IsAfter time s
      → IsAfter time (advance_time env runnable s)
  unfolding advance_time
  advance_time-IsAfter time true s a = a
  advance_time-IsAfter time false s a =
      move_to-IsAfter time (next_event s.time s.nodes (first_at s.actions)) s
        (next_event-IsLater s.time s.nodes (first_at s.actions)) a

  pub conclude-Ends :
      (time before : FrameworkTime) (executed : List ℕ) (s : SimulationState W A)
      → IsAfter time s
      → Ends time (conclude env before executed s)
  unfolding conclude
  conclude-Ends time before executed s a =
      let s1 = refresh env s in
      let a1 = SameFrame-IsAfter time s s1 (refresh-SameFrame env s) a in
      check_with-Ends time s1 (runnable_now env s1) _ a1 (runnable_now-IsFine s1 a1.well_formed)
        (λ runnable now.
          let moved = advance_time env runnable s1 in
          let s2 = refresh env moved in
          let a2 =
            SameFrame-IsAfter time moved s2 (refresh-SameFrame env moved)
              (advance_time-IsAfter time runnable s1 a1) in
          check_with-Ends time s2 (runnable_now env s2) _ a2 (runnable_now-IsFine s2 a2.well_formed)
            (λ still now2. (
              _,
              _,
              refl,
              tt,
              record {
                well_formed = record {
                  pools_exist = a2.well_formed.pools_exist;
                  within_pools = a2.well_formed.within_pools;
                };
                not_before = a2.not_before;
              },
            )))
