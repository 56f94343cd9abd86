-- ===== src/Arena/Alone.antt =====
-- arena.rs: what holds of every run from a new arena.
use cfw.Prelude.{length, true, ◌<◌, ℕ, ◌≡◌, refl, subst, List, arith}
use cfw.Prelude.Result.{Result, ok, err}
use cfw.Buffers.{ArrayQueue}
use cfw.Arena.{all_gone, run_new, Arena, Fault, new, run, Move}
use cfw.Arena.Weights.{solo, shared, parked, occurrences, count_of}
use cfw.Arena.Safety.{IsWhole, IsSound}
use cfw.Arena.Runs.{run_from-IsSound}
use cfw.Arena.New.{new-IsSound, total-gone}

module _ ⦃queue : ArrayQueue ℕ⦄ where
  -- From a new arena, after any moves of callers and threads in any order: a step fails by nothing but
  -- the panic of a clone that finds a count above 2^63 - 1, so no index from the free list belongs to
  -- a slot in use, no index comes back twice, and no payload is read or destroyed that is not there.
  -- In the arena that the moves lead to, the count of each slot is the number of the holders that use
  -- it; each index is on the free list once, or in the hands of one call, or in use; a loan and a
  -- pointer that destroys its payload are alone; and the payload of each pointer is there.
  pub run-IsSound : (capacity : ℕ) (moves : List Move) → IsSound (run_new capacity moves)
  unfolding run_new
  run-IsSound capacity moves = go (new capacity) (new-IsSound capacity)
    where
      go :
          (r : Result Fault Arena)
          → IsSound r
          → IsSound (elim r [ err e ↦ err e | ok a ↦ run a moves ])
      go (err e) s = s
      go (ok a) w = run_from-IsSound moves a w

  -- In the arena that any moves from a new one lead to: when every call and every pointer is gone, no
  -- slot is lost, since the index of each is on the free list, once, and its count is 0.
  pub run-returned :
      (capacity : ℕ) (moves : List Move) (a : Arena) (i : ℕ)
      → run_new capacity moves ≡ ok a
      → all_gone a.holders ≡ true
      → i < length a.slots
      → (occurrences i (queue.elements a.free_list) ≡ 1) × (count_of a i ≡ 0)
  unfolding solo shared parked
  run-returned capacity moves a i ran idle l =
      let w : IsWhole a = subst IsSound ran (run-IsSound capacity moves) in
      let f = w.facts i in
      ground (
        arith,
        f,
        total-gone (solo i) a.holders refl idle,
        total-gone (shared i) a.holders refl idle,
        total-gone (parked i) a.holders refl idle,
      )
