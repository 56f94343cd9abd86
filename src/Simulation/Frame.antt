-- ===== src/Simulation/Frame.antt =====
-- state.rs: the well-formedness of a simulation, and the part of the state that notifications,
-- `refresh` and actions leave alone.
use cfw.Prelude.{
  ℕ, zero, suc, ◌+◌, ◌≤◌, ◌<◌, ◌==◌, ◌≡◌, refl, ap, sym, subst, ◌∙◌, inl, inr, Bool, List, [], ◌∷◌,
  length, if◌then◌else◌, Bool-cases, All,
}
use cfw.Time.{FrameworkTime, time_lt}
use cfw.Schedule.{CallbackSchedule}
use cfw.Simulation.{Node, Wakeup, wake, readiness_changed, SimulationState, Environment}
use cfw.Simulation.Refresh.{
  deliver, target, notify_node, update_at, has_trigger, has_readiness, refresh_node, refresh_from,
  refresh,
}
use cfw.Simulation.Threads.{is_busy}
use cfw.Simulation.Threads.Laws.{busy_in, threads_of, one_if}

-- The schedule and the occupation of a callback.
pub record Seat : Type 0 where
  pub schedule : CallbackSchedule
  pub busy_until : FrameworkTime

abbrev pub seat : Node → Seat
seat node = record { schedule = node.schedule; busy_until = node.busy_until }

abbrev pub seats : List Node → List Seat
seats [] = []
seats (node ∷ nodes) = seat node ∷ seats nodes

abbrev busy_seats : FrameworkTime → ℕ → List Seat → ℕ
busy_seats time pool [] = 0
busy_seats time pool (a ∷ rest) =
    (if a.schedule.pool == pool then one_if (time_lt time a.busy_until) else 0)
    + busy_seats time pool rest

busy_in-seats :
    (time : FrameworkTime) (pool : ℕ) (nodes : List Node)
    → busy_in time pool nodes ≡ busy_seats time pool (seats nodes)
busy_in-seats time pool [] = refl
busy_in-seats time pool (node ∷ nodes) =
    ap (λ n. (if node.schedule.pool == pool then one_if (is_busy time node) else 0) + n)
      (busy_in-seats time pool nodes)

abbrev SeatsHave : ℕ → List Seat → Type 0
SeatsHave count [] = Unit {0}
SeatsHave count (a ∷ rest) = (a.schedule.pool < count) × SeatsHave count rest

seats_of_pools :
    (count : ℕ) (nodes : List Node)
    → All (λ node. node.schedule.pool < count) nodes
    → SeatsHave count (seats nodes)
seats_of_pools count [] a = tt
seats_of_pools count (node ∷ nodes) a = (a.0, seats_of_pools count nodes a.1)

pools_of_seats :
    (count : ℕ) (nodes : List Node)
    → SeatsHave count (seats nodes)
    → All (λ node. node.schedule.pool < count) nodes
pools_of_seats count [] a = tt
pools_of_seats count (node ∷ nodes) a = (a.0, pools_of_seats count nodes a.1)

pub busy_in_same :
    (time time' : FrameworkTime) (pool : ℕ) (nodes nodes' : List Node)
    → time' ≡ time
    → seats nodes' ≡ seats nodes
    → busy_in time' pool nodes' ≡ busy_in time pool nodes
busy_in_same time time' pool nodes nodes' t e =
    rw (busy_in-seats time' pool nodes', busy_in-seats time pool nodes, t, e) refl

module _ {W A : Type 0} where
  -- No pool has more busy callbacks than threads, and each callback's pool is there.
  pub record IsWellFormed (s : SimulationState W A) : Type 0 where
    pub pools_exist : All (λ node. node.schedule.pool < length s.virtual_pool_threads) s.nodes
    pub within_pools :
        (pool : ℕ) → busy_in s.time pool s.nodes ≤ threads_of s.virtual_pool_threads pool

  -- What a step may not change outside the settling of a batch.
  pub record SameFrame (s s' : SimulationState W A) : Type 0 where
    pub same_time : s'.time ≡ s.time
    pub same_threads : s'.virtual_pool_threads ≡ s.virtual_pool_threads
    pub same_seats : seats s'.nodes ≡ seats s.nodes

  pub SameFrame-refl : (s : SimulationState W A) → SameFrame s s
  SameFrame-refl s = record { same_time = refl; same_threads = refl; same_seats = refl }

  pub SameFrame-trans :
      {a b c : SimulationState W A} → SameFrame a b → SameFrame b c → SameFrame a c
  SameFrame-trans f g = record {
    same_time = g.same_time ∙ f.same_time;
    same_threads = g.same_threads ∙ f.same_threads;
    same_seats = g.same_seats ∙ f.same_seats;
  }

  pub SameFrame-IsWellFormed :
      {s s' : SimulationState W A} → SameFrame s s' → IsWellFormed s → IsWellFormed s'
  SameFrame-IsWellFormed {s = s} {s' = s'} f w = record {
    pools_exist = pools_of_seats (length s'.virtual_pool_threads) s'.nodes (
        subst (λ count. SeatsHave count (seats s'.nodes)) (sym (ap length f.same_threads))
          (subst (SeatsHave (length s.virtual_pool_threads)) (sym f.same_seats)
            (seats_of_pools (length s.virtual_pool_threads) s.nodes w.pools_exist)));
    within_pools = λ pool.
        subst (λ n. n ≤ threads_of s'.virtual_pool_threads pool)
          (sym (busy_in_same s.time s'.time pool s.nodes s'.nodes f.same_time f.same_seats))
          (subst (λ threads. busy_in s.time pool s.nodes ≤ threads_of threads pool)
            (sym f.same_threads) (w.within_pools pool));
  }

pub seats-update_at :
    (f : Node → Node) (index : ℕ) (nodes : List Node)
    → ((node : Node) → seat (f node) ≡ seat node)
    → seats (update_at f index nodes) ≡ seats nodes
seats-update_at f index [] h = refl
seats-update_at f zero (node ∷ nodes) h = ap (λ a. a ∷ seats nodes) (h node)
seats-update_at f (suc index) (node ∷ nodes) h =
    ap (λ l. seat node ∷ l) (seats-update_at f index nodes h)

seat-notify_node : (w : Wakeup) (node : Node) → seat (notify_node w node) ≡ seat node
seat-notify_node (wake index) node = elim (Bool-cases (has_trigger node.notification)) [
  | inl e ↦ rw e refl
  | inr e ↦ rw e refl
]
seat-notify_node (readiness_changed index) node =
    elim (Bool-cases (has_readiness node.notification)) [ inl e ↦ rw e refl | inr e ↦ rw e refl ]

pub seats-deliver :
    (wakeups : List Wakeup) (nodes : List Node) → seats (deliver wakeups nodes) ≡ seats nodes
unfolding deliver
seats-deliver [] nodes = refl
seats-deliver (w ∷ wakeups) nodes =
    seats-deliver wakeups (update_at (notify_node w) (target w) nodes)
    ∙ seats-update_at (notify_node w) (target w) nodes (seat-notify_node w)

module _ {W A Job Done : Type 0} (env : Environment W A Job Done) where
  seats-refresh_from :
      (timers : Bool) (time : FrameworkTime) (world : W) (index : ℕ) (nodes : List Node)
      → seats (refresh_from env timers time world index nodes) ≡ seats nodes
  unfolding refresh_from refresh_node
  seats-refresh_from timers time world index [] = refl
  seats-refresh_from timers time world index (node ∷ nodes) =
      ap (λ l. seat node ∷ l) (seats-refresh_from timers time world (index + 1) nodes)

  pub refresh-SameFrame : (s : SimulationState W A) → SameFrame s (refresh env s)
  unfolding refresh
  refresh-SameFrame s = record {
    same_time = refl;
    same_threads = refl;
    same_seats = seats-refresh_from s.timers s.time s.world 0 s.nodes;
  }
