-- ===== src/Arena/Tests.antt =====
-- arena.rs: runs at concrete moves.
use cfw.Prelude.{◌≡◌, refl, List, [], ◌∷◌, arith}
use cfw.Prelude.Result.{ok}
use cfw.Buffers.Bounded.{bounded}
use cfw.Arena.{
  empty_slot, resize, reallocate, live, uninit, taken, destroying, gone, Arena, Move, allocate,
  advance, assume_init, begin_drop, clone, deref, run_new,
}
use cfw.Arena.Weights.{occurrences, count_of}
use cfw.Arena.Safety.{IsSound}
use cfw.Arena.Alone.{run-IsSound, run-returned}

-- A message is written and cloned, the clone is dropped, and the last pointer begins to destroy it
-- while a second message is allocated.
abbrev moves : List Move
moves =
    allocate
    ∷ advance 0
    ∷ assume_init 0
    ∷ clone 0
    ∷ deref 1
    ∷ begin_drop 1
    ∷ advance 1
    ∷ begin_drop 0
    ∷ advance 0
    ∷ allocate
    ∷ []

abbrev reached : Arena ⦃queue = bounded⦄
reached = record {
  slots =
      record { ref_count = 1; payload = live } ∷ record { ref_count = 0; payload = uninit } ∷ [];
  free_list = record { items = []; bound = 2 };
  capacity = 2;
  holders = destroying 0 ∷ gone ∷ taken 1 ∷ [];
}

reached_eq : run_new 2 moves ≡ ok reached
unfolding run_new
reached_eq = refl

run-IsSound_example : IsSound (run_new 2 moves)
run-IsSound_example = run-IsSound 2 moves

-- A loan is given up, and the arena is made larger when no pointer is left.
grows :
    run_new 1
      (allocate ∷ advance 0 ∷ resize 2 ∷ begin_drop 0 ∷ advance 0 ∷ resize 2 ∷ reallocate ∷ [])
    ≡ ok (record {
      slots = empty_slot ∷ empty_slot ∷ [];
      free_list = record { items = 0 ∷ 1 ∷ []; bound = 2 };
      capacity = 2;
      holders = gone ∷ [];
    })
unfolding run_new
grows = refl

-- The first slot comes back behind the second, which was never used.
abbrev idle : Arena ⦃queue = bounded⦄
idle = record {
  slots = empty_slot ∷ empty_slot ∷ [];
  free_list = record { items = 1 ∷ 0 ∷ []; bound = 2 };
  capacity = 2;
  holders = gone ∷ [];
}

idle_eq : run_new 2 (allocate ∷ advance 0 ∷ begin_drop 0 ∷ advance 0 ∷ []) ≡ ok idle
unfolding run_new
idle_eq = refl

run-returned_example : (occurrences 0 (1 ∷ 0 ∷ []) ≡ 1) × (count_of idle 0 ≡ 0)
run-returned_example =
    run-returned 2 (allocate ∷ advance 0 ∷ begin_drop 0 ∷ advance 0 ∷ []) idle 0 idle_eq refl
      (omega arith)
