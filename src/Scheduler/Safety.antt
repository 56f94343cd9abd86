-- ===== src/Scheduler/Safety.antt =====
-- pool_state.rs, pool_worker.rs: what every interleaving of notifications, workers and stops keeps.
use cfw.Prelude.{
  ℕ, ◌+◌, ◌≤◌, ◌<◌, ◌≡◌, refl, ◌≢◌, ◌⊎◌, inl, inr, List, [], ◌∷◌, some, length, get_elem?, total,
  All, arith, Bool, true, false, if◌then◌else◌, ◌||◌, total-get_elem?-le, total-two, Option-cases,
  total_mono, subst,
}
use native.Mathlib.Decide.{ℕ_discrete}
use cfw.Scheduler.{
  idle, queued, running, retriggered, waiting, readiness_changed, PoolState, NodeState, next_finish,
  usize_mod, is_idle, notify_all,
}
use cfw.Scheduler.Threads.{Pc, Event, System, Progress, next, stuck, panic, step, run, then_run}
use cfw.Scheduler.Weights.{Inv, node_active, waiting_in, holds_entry, holds_claim, queued_in}
use cfw.Scheduler.Invariant.{Fine, step-Fine}
use cfw.Scheduler.New.{start, pool_at, start-Inv}

queued_in-le : (p : ℕ) (d : NodeState) → queued_in p d ≤ node_active d
queued_in-le p d = ground arith

run-Fine :
    (pool_of : ℕ → ℕ) (es : List (ℕ × Event)) (y : System) → Inv pool_of y → Fine pool_of (run es y)
unfolding run
run-Fine pool_of [] y v = v
run-Fine pool_of ((i, e) ∷ es) y v =
    go (run-Fine pool_of es) (step i e y) (step-Fine pool_of i e y v)
  where
    go :
        ((z : System) → Inv pool_of z → Fine pool_of (run es z))
        → (r : Progress) → Fine pool_of r
        → Fine pool_of (then_run (run es) r)
    go ih (next z) w = ih z w
    go ih stuck w = tt
    go ih panic w = w

-- No interleaving panics: for a scheduler built over schedules whose pools exist, with fewer nodes
-- and threads than a usize counts, whatever the threads do and in whatever order, no claim finds a
-- node that is not queued, no finish one that is not running, and no queue is full when a node is
-- sent to it.
pub run-ne-panic :
    (schedules workers : List ℕ) (threads : ℕ) (es : List (ℕ × Event))
    → All (λ p. p < length workers) schedules
    → length schedules + threads < usize_mod
    → run es (start schedules workers threads) ≢ panic
run-ne-panic schedules workers threads es known few e =
    subst (Fine (pool_at schedules)) e
      (run-Fine (pool_at schedules) es _ (start-Inv schedules workers threads known few))

module _ (schedules workers : List ℕ) (threads : ℕ) (es : List (ℕ × Event)) (y : System)
    (known : All (λ p. p < length workers) schedules) (few : length schedules + threads < usize_mod)
    (reached : run es (start schedules workers threads) ≡ next y) where
  inv : Inv (pool_at schedules) y
  inv =
      subst (Fine (pool_at schedules)) reached
        (run-Fine (pool_at schedules) es _ (start-Inv schedules workers threads known few))

  no_work :
      (p : ℕ) (pool : PoolState)
      → get_elem? y.scheduler.pools p ≡ some pool
      → total (queued_in p) y.scheduler.nodes ≡ 0
      → pool.work ≡ []
  no_work p pool e none_queued = empty_of pool.work (omega (arith, inv.backlog p pool e))
    where
      empty_of : (l : List ℕ) → length l ≡ 0 → l ≡ []
      empty_of [] h = refl
      empty_of (x ∷ l) h = absurd (omega arith)

  -- In every reachable state that reports itself idle, each node is idle or waits for its inputs,
  -- each queue is empty, and no thread is in a callback or carries an entry for one.
  pub is_idle-quiescent :
      is_idle y.scheduler ≡ true
      → ((n : ℕ) (d : NodeState)
          → get_elem? y.scheduler.nodes n ≡ some d
          → (d.phase ≡ idle) ⊎ (d.phase ≡ waiting))
        × ((p : ℕ) (pool : PoolState) → get_elem? y.scheduler.pools p ≡ some pool → pool.work ≡ [])
        × ((i n : ℕ) (pc : Pc)
            → get_elem? y.threads i ≡ some pc
            → (holds_claim n pc ≡ 0) × (holds_entry n pc ≡ 0))
  unfolding is_idle
  is_idle-quiescent h =
      let none_active : total node_active y.scheduler.nodes ≡ 0 = ground (arith, inv.active_eq) in
      (
        λ n d e. ground (arith, total-get_elem?-le node_active y.scheduler.nodes n d e),
        λ p pool e. no_work p pool e (
            omega (
              arith,
              none_active,
              total_mono (queued_in p) node_active (queued_in-le p) y.scheduler.nodes,
            )),
        λ i n pc e. elim (Option-cases (get_elem? y.scheduler.nodes n)) [
          | inl out ↦ ground (
            arith,
            inv.claims n,
            inv.entries n,
            total-get_elem?-le (holds_claim n) y.threads i pc e,
            total-get_elem?-le (holds_entry n) y.threads i pc e,
          )
          | inr (d, at) ↦ ground (
            arith,
            inv.claims n,
            inv.entries n,
            total-get_elem?-le (holds_claim n) y.threads i pc e,
            total-get_elem?-le (holds_entry n) y.threads i pc e,
            total-get_elem?-le node_active y.scheduler.nodes n d at,
          )
        ],
      )

  -- In every reachable state a node is in one place at most: in one queue once, with one thread that
  -- carries its entry, or with one thread that has claimed it. Two threads that have claimed the
  -- same node are one thread.
  pub claim-exclusive :
      (n : ℕ)
      → (total (waiting_in n) y.scheduler.pools
            + total (holds_entry n) y.threads
            + total (holds_claim n) y.threads
          ≤ 1)
        × ((i j : ℕ) (a b : Pc)
            → get_elem? y.threads i ≡ some a
            → get_elem? y.threads j ≡ some b
            → holds_claim n a ≡ 1
            → holds_claim n b ≡ 1
            → i ≡ j)
  claim-exclusive n = (once, same)
    where
      once :
          total (waiting_in n) y.scheduler.pools
            + total (holds_entry n) y.threads
            + total (holds_claim n) y.threads
          ≤ 1
      once = elim (Option-cases (get_elem? y.scheduler.nodes n)) [
        | inl out ↦ ground (arith, inv.claims n, inv.entries n)
        | inr (d, at) ↦ ground (arith, inv.claims n, inv.entries n)
      ]

      same :
          (i j : ℕ) (a b : Pc)
          → get_elem? y.threads i ≡ some a
          → get_elem? y.threads j ≡ some b
          → holds_claim n a ≡ 1
          → holds_claim n b ≡ 1
          → i ≡ j
      same i j a b p q ha hb = elim (ℕ_discrete i j) [
        | yes e ↦ e
        | no ne ↦ absurd (omega (arith, once, total-two (holds_claim n) y.threads i j a b p q ne))
      ]

abbrev any_trigger : List Bool → Bool
any_trigger [] = false
any_trigger (t ∷ ts) = t || any_trigger ts

abbrev some_notified : List Bool → Bool
some_notified [] = false
some_notified (t ∷ ts) = true

retriggered_stays : (ts : List Bool) → notify_all retriggered ts ≡ retriggered
unfolding notify_all
retriggered_stays [] = refl
retriggered_stays (t ∷ ts) = retriggered_stays ts

readiness_changed_then :
    (ts : List Bool)
    → notify_all readiness_changed ts ≡ (if any_trigger ts then retriggered else readiness_changed)
unfolding notify_all
readiness_changed_then [] = refl
readiness_changed_then (true ∷ ts) = retriggered_stays ts
readiness_changed_then (false ∷ ts) = readiness_changed_then ts

running_then :
    (ts : List Bool)
    → notify_all running ts ≡ (
        if any_trigger ts
        then retriggered
        else if some_notified ts
        then readiness_changed
        else running)
unfolding notify_all
running_then [] = refl
running_then (true ∷ ts) = retriggered_stays ts
running_then (false ∷ ts) = readiness_changed_then ts

-- No notification that arrives while a callback runs is lost. If any of them was a trigger the node
-- is queued again. If none was, a callback that executed leaves the node idle, and one that did not,
-- for want of an input, is queued again if its readiness changed meanwhile and waits if not.
pub next_finish-notify_all :
    (ts : List Bool) (executed : Bool)
    → next_finish (notify_all running ts) executed
      ≡ some (
          if any_trigger ts
          then queued
          else if executed
          then idle
          else if some_notified ts
          then queued
          else waiting)
unfolding next_finish
next_finish-notify_all ts executed = rw (running_then ts) (ground arith)
