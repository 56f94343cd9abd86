-- ===== src/Simulation/Threads/Laws.antt =====
-- state.rs: counting the busy callbacks of a pool; the free threads are what is left.
use cfw.Prelude.{
  ℕ, zero, suc, ◌+◌, ◌≤◌, ◌<◌, ◌==◌, ◌≡◌, refl, ◌∙◌, inl, inr, Bool, true, false, List, [], ◌∷◌,
  if◌then◌else◌, arith, Bool-cases, length,
}
use cfw.Prelude.Result.{ok}
use cfw.Time.{FrameworkTime}
use cfw.Simulation.{Node}
use cfw.Simulation.Threads.{take_thread, is_busy, free_threads_from}

-- The threads of a pool, none for a pool that is not there.
abbrev pub threads_of : List ℕ → ℕ → ℕ
threads_of [] pool = 0
threads_of (n ∷ free) zero = n
threads_of (n ∷ free) (suc pool) = threads_of free pool

abbrev pub one_if : Bool → ℕ
one_if true = 1
one_if false = 0

-- The callbacks of a pool that occupy a thread.
abbrev pub busy_in : FrameworkTime → ℕ → List Node → ℕ
busy_in time pool [] = 0
busy_in time pool (node ∷ nodes) =
    (if node.schedule.pool == pool then one_if (is_busy time node) else 0) + busy_in time pool nodes

-- Taking a thread of a pool that has one succeeds, and leaves one less in that pool and all others
-- as they are.
pub take_thread_lem :
    (free : List ℕ) (pool : ℕ)
    → 0 < threads_of free pool
    → (rest : List ℕ) × (take_thread free pool ≡ ok rest)
      × (length rest ≡ length free)
      × ((p : ℕ) → threads_of rest p + (if pool == p then 1 else 0) ≡ threads_of free p)
unfolding take_thread
take_thread_lem [] pool lt = elim lt [ ]
take_thread_lem (zero ∷ free) zero lt = elim lt [ ]
take_thread_lem (suc n ∷ free) zero lt = (n ∷ free, refl, refl, first)
  where
    first :
        (p : ℕ) → threads_of (n ∷ free) p + (if 0 == p then 1 else 0) ≡ threads_of (suc n ∷ free) p
    first zero = ground arith
    first (suc p) = ground arith
take_thread_lem (n ∷ free) (suc pool) lt =
    let (rest, e, len, at) = take_thread_lem free pool lt in
    (n ∷ rest, rw e refl, ground (arith, len), later rest at)
  where
    later :
        (rest : List ℕ)
        → ((p : ℕ) → threads_of rest p + (if pool == p then 1 else 0) ≡ threads_of free p)
        → (p : ℕ)
        → threads_of (n ∷ rest) p + (if suc pool == p then 1 else 0) ≡ threads_of (n ∷ free) p
    later rest at zero = ground arith
    later rest at (suc p) = ground (arith, at p)

-- Where no pool has more busy callbacks than threads, counting the free threads neither leaves the
-- list nor goes below zero, and gives for each pool its threads less its busy callbacks.
pub free_threads_from_lem :
    (time : FrameworkTime) (nodes : List Node) (free : List ℕ)
    → ((p : ℕ) → busy_in time p nodes ≤ threads_of free p)
    → (rest : List ℕ) × (free_threads_from time nodes free ≡ ok rest)
      × (length rest ≡ length free)
      × ((p : ℕ) → threads_of rest p + busy_in time p nodes ≡ threads_of free p)
unfolding free_threads_from
free_threads_from_lem time [] free h = (free, refl, refl, λ p. ground arith)
free_threads_from_lem time (node ∷ nodes) free h = elim (Bool-cases (is_busy time node)) [
  | inl busy ↦
      let pool = node.schedule.pool in
      let (taken, e, len, at) = take_thread_lem free pool (ground (arith, h pool, busy)) in
      let (rest, f, len', all) =
        free_threads_from_lem time nodes taken (λ p. ground (arith, h p, at p, busy)) in
      (rest, rw (busy, e) f, len' ∙ len, λ p. ground (arith, all p, at p, busy))
  | inr idle ↦
      let (rest, f, len', all) =
        free_threads_from_lem time nodes free (λ p. ground (arith, h p, idle)) in
      (rest, rw idle f, len', λ p. ground (arith, all p, idle))
]
