-- ===== src/Simulation/Reach.antt =====
-- state.rs: the states that a simulation can reach by steps, by scheduled actions, and by what
-- happens outside it between its steps.
use cfw.Prelude.{
  ℕ, ◌+◌, ◌<◌, ◌≡◌, refl, ap, sym, subst, Bool, true, false, not, Option, none, some, List, [], ◌∷◌,
  length, ltb, if◌then◌else◌, arith, ◌^◌, All, All-map,
}
use cfw.Prelude.Result.{Result, ok, err, ◌>>=◌}
use cfw.Time.{FrameworkTime, time_lt}
use cfw.Schedule.{missing_duration, has_execution_duration, is_ever_runnable}
use cfw.Simulation.{
  StepError, StepResult, bad_config, timing, Wakeup, Node, Action, SimulationState, Environment,
}
use cfw.Simulation.Frame.{
  IsWellFormed, SameFrame, SameFrame-refl, SameFrame-IsWellFormed, seats-deliver,
}
use cfw.Simulation.Refresh.{deliver}
use cfw.Simulation.Threads.Laws.{busy_in}
use cfw.Simulation.Actions.{insert_action}
use cfw.Simulation.Phases.{Step}
use cfw.Simulation.Step.{step}
use cfw.Simulation.Step.Ends.{Ends}
use cfw.Simulation.Step.Laws.{step-Ends}
use cfw.Simulation.New.{
  SimulationConfig, ScheduledCallback, new_node, new_nodes, with_config, is_bad, is_zero_period,
  fresh_node, start_state, first_deadline,
}

abbrev IfOk : {R : Type 0} → (R → Type 0) → Result StepError R → Type 0
IfOk P (err e) = Unit {0}
IfOk P (ok r) = P r

bind-IfOk :
    {Q R : Type 0} (P : Q → Type 0) (P' : R → Type 0) (m : Result StepError Q)
    (k : Q → Result StepError R)
    → IfOk P m
    → ((q : Q) → P q → IfOk P' (k q))
    → IfOk P' (m >>= k)
bind-IfOk P P' (err e) k h f = tt
bind-IfOk P P' (ok q) k h f = f q h

-- A callback that nothing occupies yet, in a pool that is there.
abbrev IsFresh : SimulationConfig → Node → Type 0
IsFresh config node =
    (node.schedule.pool < length config.virtual_pool_threads)
    × (node.busy_until ≡ config.start_time)

new_node-IsFresh :
    (config : SimulationConfig) (index : ℕ) (callback : ScheduledCallback)
    → IfOk (IsFresh config) (new_node config index callback)
unfolding new_node
new_node-IsFresh config index callback =
    checked (is_zero_period callback.schedule.period) (has_execution_duration callback.schedule)
      (is_ever_runnable callback.schedule callback.has_triggering_inputs)
      (ltb callback.schedule.pool (length config.virtual_pool_threads)) (λ e. ground arith)
  where
    made :
        (m : Result StepError (Option FrameworkTime))
        → callback.schedule.pool < length config.virtual_pool_threads
        → IfOk (IsFresh config) (m >>= λ next. ok (fresh_node config callback next))
    made (err e) lt = tt
    made (ok next) lt = (lt, refl)

    checked :
        (zero_period has_duration runnable pool_exists : Bool)
        → (pool_exists ≡ true → callback.schedule.pool < length config.virtual_pool_threads)
        → IfOk (IsFresh config) (
            if zero_period
            then err bad_config
            else if not has_duration
            then err (timing index missing_duration)
            else if not runnable
            then err bad_config
            else if not pool_exists
            then err bad_config
            else (first_deadline config index callback.schedule >>= λ next.
                ok (fresh_node config callback next)))
    checked true b c d h = tt
    checked false false c d h = tt
    checked false true false d h = tt
    checked false true true false h = tt
    checked false true true true h = made (first_deadline config index callback.schedule) (h refl)

new_nodes-IsFresh :
    (config : SimulationConfig) (index : ℕ) (callbacks : List ScheduledCallback)
    → IfOk (All (IsFresh config)) (new_nodes config index callbacks)
unfolding new_nodes
new_nodes-IsFresh config index [] = tt
new_nodes-IsFresh config index (callback ∷ callbacks) =
    bind-IfOk (IsFresh config) (All (IsFresh config)) (new_node config index callback) _
      (new_node-IsFresh config index callback)
      (λ node fresh.
        bind-IfOk (All (IsFresh config)) (All (IsFresh config))
          (new_nodes config (index + 1) callbacks) _
          (new_nodes-IsFresh config (index + 1) callbacks) (λ nodes rest. (fresh, rest)))

busy_in-IsFresh :
    (config : SimulationConfig) (pool : ℕ) (nodes : List Node)
    → All (IsFresh config) nodes
    → busy_in config.start_time pool nodes ≡ 0
busy_in-IsFresh config pool [] a = refl
busy_in-IsFresh config pool (node ∷ nodes) a =
    ground (arith, a.0.1, busy_in-IsFresh config pool nodes a.1)

module _ {W A Job Done : Type 0} (env : Environment W A Job Done) where
  with_config-IsWellFormed :
      (world : W) (callbacks : List ScheduledCallback) (config : SimulationConfig)
      → IfOk (IsWellFormed {W = W} {A = A}) (with_config world callbacks config)
  unfolding with_config
  with_config-IsWellFormed world callbacks config =
      checked (is_bad config) (new_nodes config 0 callbacks) (new_nodes-IsFresh config 0 callbacks)
    where
      checked :
          (bad : Bool) (m : Result StepError (List Node))
          → IfOk (All (IsFresh config)) m
          → IfOk
              (IsWellFormed {W = W} {A = A})
              (if bad then err bad_config else (m >>= λ nodes. ok (start_state world nodes config)))
      checked true m h = tt
      checked false (err e) h = tt
      checked false (ok nodes) fresh = record {
        pools_exist = All-map (λ node f. f.0) nodes fresh;
        within_pools = λ pool. ground (arith, busy_in-IsFresh config pool nodes fresh);
      }

  abbrev pub state_after :
      SimulationState W A → Step (SimulationState W A) StepResult → SimulationState W A
  state_after s none = s
  state_after s (some (r, s')) = s'

  -- By steps, by scheduled actions, by changes of the world and notifications from outside, and by
  -- who holds the switch of the timers.
  pub data Reaches (s : SimulationState W A) : SimulationState W A → Type 0 where
    begin : Reaches s s
    stepped : {s' : SimulationState W A} → Reaches s s' → Reaches s (state_after s' (step env s'))
    scheduled :
        {s' : SimulationState W A} (at : FrameworkTime) (action : Action A)
        → Reaches s s'
        → Reaches s (insert_action env at action s').1
    disturbed :
        {s' : SimulationState W A} (world : W) (wakeups : List Wakeup)
        → Reaches s s'
        → Reaches s (record s' { world = world; nodes = deliver wakeups s'.nodes })
    switched :
        {s' : SimulationState W A} (timers : Bool)
        → Reaches s s'
        → Reaches s (record s' { timers = timers })

  if-SameFrame :
      (s : SimulationState W A) (b : Bool) (x y : Result StepError (Unit {0}) × SimulationState W A)
      → SameFrame s x.1
      → SameFrame s y.1
      → SameFrame s (if b then x else y).1
  if-SameFrame s true x y f g = f
  if-SameFrame s false x y f g = g

  insert_action-SameFrame :
      (at : FrameworkTime) (action : Action A) (s : SimulationState W A)
      → SameFrame s (insert_action env at action s).1
  unfolding insert_action
  insert_action-SameFrame at action s = if-SameFrame s s.failed _ _ (SameFrame-refl s) (
      if-SameFrame s (time_lt at s.time) _ _ (SameFrame-refl s) (
        if-SameFrame s (ltb (s.action_sequence + 1) (2 ^ 64)) _ _
          (record { same_time = refl; same_threads = refl; same_seats = refl }) (SameFrame-refl s)))

  step-IsWellFormed :
      (s : SimulationState W A) → IsWellFormed s → IsWellFormed (state_after s (step env s))
  step-IsWellFormed s w =
      let (q, t, f, fine, a) = step-Ends env s w in
      subst IsWellFormed (sym (ap (state_after s) f)) a.well_formed

  reaches-IsWellFormed :
      (s s' : SimulationState W A) → Reaches s s' → IsWellFormed s → IsWellFormed s'
  reaches-IsWellFormed s _ begin w = w
  reaches-IsWellFormed s _ (stepped {s' = s1} reach) w =
      step-IsWellFormed s1 (reaches-IsWellFormed s s1 reach w)
  reaches-IsWellFormed s _ (scheduled {s' = s1} at action reach) w =
      SameFrame-IsWellFormed (insert_action-SameFrame at action s1)
        (reaches-IsWellFormed s s1 reach w)
  reaches-IsWellFormed s _ (disturbed {s' = s1} world wakeups reach) w =
      SameFrame-IsWellFormed
        (record {
          same_time = refl;
          same_threads = refl;
          same_seats = seats-deliver wakeups s1.nodes;
        })
        (reaches-IsWellFormed s s1 reach w)
  reaches-IsWellFormed s _ (switched {s' = s1} timers reach) w =
      SameFrame-IsWellFormed (record { same_time = refl; same_threads = refl; same_seats = refl })
        (reaches-IsWellFormed s s1 reach w)

  -- A simulation that `with_config` accepts stays sound through any sequence of steps, scheduled
  -- actions, outside changes, notifications and switches of the timers: each further step ends
  -- without a panic of the executor's own code, no pool ever has more busy callbacks than threads, and time never goes back.
  pub reaches-Ends :
      (world : W) (callbacks : List ScheduledCallback) (config : SimulationConfig)
      (s s' : SimulationState W A)
      → with_config world callbacks config ≡ ok s
      → Reaches s s'
      → Ends s'.time (step env s')
  reaches-Ends world callbacks config s s' e reach = step-Ends env s' (
      reaches-IsWellFormed s s' reach
        (subst (IfOk IsWellFormed) e (with_config-IsWellFormed world callbacks config)))
