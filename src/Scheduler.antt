-- ===== src/Scheduler.antt =====
-- live_executor/src/pool_state.rs: the shared state of the live executor's scheduler. A callback
-- node has an atomic phase, a pool has a bounded channel of node indices, and `active` counts the
-- nodes with outstanding work.
pub mod Threads
pub mod Weights
pub mod Invariant
pub mod New
pub mod Safety
mod Tests
use cfw.Prelude.{
  ℕ, suc, ◌+◌, ◌-◌, ◌%◌, ◌^◌, max, Bool, true, false, Option, none, some, List, [], ◌∷◌, map, set,
  ◌==◌, not, ◌&&◌, if◌then◌else◌,
}
use cfw.Time.{FrameworkTime, invalid}

-- The constants IDLE to READINESS_CHANGED, by their numbers.
pub data Phase : Type 0 where
  idle queued running retriggered waiting readiness_changed : Phase

unfoldable pub code : Phase → ℕ
code idle = 0
code queued = 1
code running = 2
code retriggered = 3
code waiting = 4
code readiness_changed = 5

unfoldable pub phase_eq : Phase → Phase → Bool
unfolding code
phase_eq a b = code a == code b

pub record PoolState : Type 0 where
  pub thread_count : ℕ
  pub capacity : ℕ
  pub work : List ℕ

pub record NodeState : Type 0 where
  pub phase : Phase
  pub pool : ℕ
  pub deadline : FrameworkTime

pub record Scheduler : Type 0 where
  pub active : ℕ
  pub completed : ℕ
  pub timers_enabled : Bool
  pub pools : List PoolState
  pub nodes : List NodeState
  pub stopped : Bool
  pub timer_signal : Bool

abbrev pub usize_mod : ℕ
usize_mod = 2 ^ 64

-- `fetch_add(1)` and `fetch_sub(1)` on an AtomicUsize.
abbrev pub wrapping_inc : ℕ → ℕ
wrapping_inc a = (a + 1) % usize_mod

abbrev pub wrapping_dec : ℕ → ℕ
wrapping_dec a = (a + usize_mod - 1) % usize_mod

-- The `match` of `Scheduler::notify`.
unfoldable pub next_notify : Phase → Bool → Phase
next_notify idle true = queued
next_notify idle false = idle
next_notify waiting t = queued
next_notify running true = retriggered
next_notify running false = readiness_changed
next_notify readiness_changed true = retriggered
next_notify readiness_changed false = readiness_changed
next_notify queued t = queued
next_notify retriggered t = retriggered

-- `next == QUEUED && current != QUEUED`.
unfoldable pub new_work : Phase → Bool → Bool
unfolding phase_eq next_notify
new_work current trigger =
    phase_eq (next_notify current trigger) queued && not (phase_eq current queued)

-- The `match` of `Scheduler::finish`; `none` is its `unreachable!`.
unfoldable pub next_finish : Phase → Bool → Option Phase
next_finish running true = some idle
next_finish running false = some waiting
next_finish readiness_changed true = some idle
next_finish readiness_changed false = some queued
next_finish retriggered e = some queued
next_finish idle e = none
next_finish queued e = none
next_finish waiting e = none

abbrev pub set_phase : Scheduler → ℕ → NodeState → Phase → Scheduler
set_phase s n node phase = record s { nodes = set s.nodes n (record node { phase = phase }) }

-- `schedules.iter().filter(|s| s.pool == pool).count()`; a schedule is here its pool.
unfoldable pub count_pool : ℕ → List ℕ → ℕ
count_pool p [] = 0
count_pool p (q ∷ qs) = (if q == p then 1 else 0) + count_pool p qs

unfoldable pub new_pools : List ℕ → ℕ → List ℕ → List PoolState
unfolding count_pool
new_pools schedules p [] = []
new_pools schedules p (threads ∷ workers) =
    record { thread_count = threads; capacity = max (count_pool p schedules) 1; work = [] }
    ∷ new_pools schedules (suc p) workers

abbrev pub new_node : ℕ → NodeState
new_node p = record { phase = idle; pool = p; deadline = invalid }

unfoldable pub new : List ℕ → List ℕ → Scheduler
unfolding new_pools
new schedules workers = record {
  active = 0;
  completed = 0;
  timers_enabled = true;
  pools = new_pools schedules 0 workers;
  nodes = map new_node schedules;
  stopped = false;
  timer_signal = false;
}

unfoldable pub is_idle : Scheduler → Bool
is_idle s = s.active == 0

-- A node's phase after notifications that nothing comes between.
unfoldable pub notify_all : Phase → List Bool → Phase
unfolding next_notify
notify_all c [] = c
notify_all c (t ∷ ts) = notify_all (next_notify c t) ts
