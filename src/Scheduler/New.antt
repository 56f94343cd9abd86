-- ===== src/Scheduler/New.antt =====
-- pool_state.rs, `Scheduler::new`: the state that it builds meets the invariant.
use cfw.Prelude.{
  ℕ, zero, suc, ◌+◌, ◌≤◌, ◌<◌, ◌≡◌, refl, List, [], ◌∷◌, map, Option, none, some, length, get_elem?,
  total, All, arith, replicate, length-replicate,
}
use cfw.Scheduler.{PoolState, NodeState, count_pool, new_pools, new_node, new, usize_mod}
use cfw.Scheduler.Threads.{Pc, System}
use cfw.Scheduler.Weights.{
  Inv, node_active, queued_in, in_pool, waiting_in, holds_active, holds_entry, holds_entry_in,
  holds_claim, astray, queued_at, claimed_at, occurrences,
}

-- The pool of each node.
abbrev pub pool_at : List ℕ → ℕ → ℕ
pool_at [] n = 0
pool_at (p ∷ ps) zero = p
pool_at (p ∷ ps) (suc n) = pool_at ps n

-- The scheduler before its threads run.
abbrev pub start : List ℕ → List ℕ → ℕ → System
start schedules workers threads = record {
  scheduler = new schedules workers;
  threads = replicate threads Pc.rest;
}

total-rest : (w : Pc → ℕ) (k : ℕ) → w Pc.rest ≡ 0 → total w (replicate k Pc.rest) ≡ 0
unfolding total
total-rest w zero h = refl
total-rest w (suc k) h = omega (arith, h, total-rest w k h)

total-new_node :
    (w : NodeState → ℕ)
    → ((p : ℕ) → w (new_node p) ≡ 0)
    → (ps : List ℕ) → total w (map new_node ps) ≡ 0
unfolding total
total-new_node w h [] = refl
total-new_node w h (p ∷ ps) = omega (arith, h p, total-new_node w h ps)

total-in_pool : (p : ℕ) (ps : List ℕ) → total (in_pool p) (map new_node ps) ≡ count_pool p ps
unfolding total count_pool
total-in_pool p [] = refl
total-in_pool p (q ∷ qs) = ground (arith, total-in_pool p qs)

total-new_pools :
    (n : ℕ) (schedules : List ℕ) (k : ℕ) (workers : List ℕ)
    → total (waiting_in n) (new_pools schedules k workers) ≡ 0
unfolding total new_pools occurrences
total-new_pools n schedules k [] = refl
total-new_pools n schedules k (w ∷ ws) = omega (arith, total-new_pools n schedules (suc k) ws)

length-new_pools :
    (schedules : List ℕ) (k : ℕ) (workers : List ℕ)
    → length (new_pools schedules k workers) ≡ length workers
unfolding new_pools
length-new_pools schedules k [] = refl
length-new_pools schedules k (w ∷ ws) = omega (arith, length-new_pools schedules (suc k) ws)

-- Each pool is empty and has room for all its nodes.
get-new_pools :
    (schedules : List ℕ) (k : ℕ) (workers : List ℕ) (p : ℕ) (pool : PoolState)
    → get_elem? (new_pools schedules k workers) p ≡ some pool
    → (pool.work ≡ []) × (count_pool (k + p) schedules ≤ pool.capacity)
unfolding new_pools
get-new_pools schedules k [] p pool e = cc
get-new_pools schedules k (w ∷ ws) zero pool e =
    let same : k + 0 ≡ k = omega arith in rw same (ground arith)
get-new_pools schedules k (w ∷ ws) (suc p) pool e =
    let same : k + suc p ≡ suc k + p = omega arith in
    rw same (get-new_pools schedules (suc k) ws p pool e)

length-new_nodes : (ps : List ℕ) → length (map new_node ps) ≡ length ps
length-new_nodes [] = refl
length-new_nodes (p ∷ ps) = omega (arith, length-new_nodes ps)

new_phase :
    (f : Option NodeState → ℕ)
    → f none ≡ 0
    → ((p : ℕ) → f (some (new_node p)) ≡ 0)
    → (ps : List ℕ) (n : ℕ) → f (get_elem? (map new_node ps) n) ≡ 0
new_phase f a b [] n = a
new_phase f a b (p ∷ ps) zero = b p
new_phase f a b (p ∷ ps) (suc n) = new_phase f a b ps n

new_assigned :
    (limit : ℕ) (ps : List ℕ)
    → All (λ p. p < limit) ps
    → (n : ℕ) (d : NodeState) → get_elem? (map new_node ps) n ≡ some d
    → (d.pool ≡ pool_at ps n) × (pool_at ps n < limit)
new_assigned limit [] h n d e = cc
new_assigned limit (p ∷ ps) h zero d e = ground arith
new_assigned limit (p ∷ ps) h (suc n) d e = new_assigned limit ps h.1 n d e

pub start-Inv :
    (schedules workers : List ℕ) (threads : ℕ)
    → All (λ p. p < length workers) schedules
    → length schedules + threads < usize_mod
    → Inv (pool_at schedules) (start schedules workers threads)
unfolding new holds_active
start-Inv schedules workers threads known few = record {
  small = omega (arith, few, length-new_nodes schedules, length-replicate threads Pc.rest);
  active_eq = omega (
    arith,
    total-new_node node_active (λ p. refl) schedules,
    total-rest holds_active threads refl,
  );
  entries = λ n. omega (
    arith,
    total-rest (holds_entry n) threads refl,
    total-new_pools n schedules 0 workers,
    new_phase queued_at refl (λ p. refl) schedules n,
  );
  claims = λ n. omega (
    arith,
    total-rest (holds_claim n) threads refl,
    new_phase claimed_at refl (λ p. refl) schedules n,
  );
  backlog = λ p pool e.
      let (empty, _) = get-new_pools schedules 0 workers p pool e in
      rw empty (
        omega (
          arith,
          total-rest (holds_entry_in (pool_at schedules) p) threads refl,
          total-new_node (queued_in p) (λ q. ground arith) schedules,
        ));
  room = λ p pool e.
      let (_, fits) = get-new_pools schedules 0 workers p pool e in
      let same : 0 + p ≡ p = omega arith in
      omega (arith, total-in_pool p schedules, (rw same at fits));
  placed = λ p pool e. let (empty, _) = get-new_pools schedules 0 workers p pool e in rw empty tt;
  assigned = λ n d e.
      rw (length-new_pools schedules 0 workers)
        (new_assigned (length workers) schedules known n d e);
  on_course = total-rest (astray (length (map new_node schedules))) threads refl;
}
