-- ===== src/Buffers/Order.antt =====
-- double_buffer.rs: publishers, drains and the reader in any order. What is read is in the order of the
-- writes, and what is not read is kept or counted.
use cfw.Prelude.{ℕ, ◌≤◌, refl, List, [], ◌∷◌, arith}
use cfw.Buffers.{ArrayQueue, new}
use cfw.Buffers.DoubleBuffer.{make_buffer}
use cfw.Buffers.Subsequence.{nothing}
use cfw.Buffers.Turns.{written-IsWorld, turned-IsWorld}
use cfw.Buffers.Reads.{read-IsWorld, read_all-IsWorld, discarded_back-IsWorld, cleared-IsWorld}
use cfw.Buffers.World.{
  Step, written, turned, read, read_all, discarded_back, cleared, World, step, run, start, IsWorld,
}

module _ {A : Type 0} (array : ArrayQueue A) where
  open array use {make_elements}

  step-IsWorld :
      (w : World array) (s : Step array) → IsWorld array w → IsWorld array (step array w s)
  step-IsWorld w (written v) i = written-IsWorld array w v i
  step-IsWorld w turned i = turned-IsWorld array w i
  step-IsWorld w read i = read-IsWorld array w i
  step-IsWorld w read_all i = read_all-IsWorld array w i
  step-IsWorld w discarded_back i = discarded_back-IsWorld array w i
  step-IsWorld w cleared i = cleared-IsWorld array w i

  run_from-IsWorld :
      (steps : List (Step array)) (w : World array)
      → IsWorld array w
      → IsWorld array (run array w steps)
  unfolding run
  run_from-IsWorld [] w i = i
  run_from-IsWorld (s ∷ steps) w i = run_from-IsWorld steps (step array w s) (step-IsWorld w s i)

  -- From a new buffer, after any steps of publishers, of drains and of the reader in any order: what
  -- has been read, followed by what the buffer and the queue hold, is a part of what has been
  -- written, in the order of the writes, so that nothing is read twice or out of order; and while
  -- fewer than 2^64 elements are written, every one that is missing is counted, as dropped by the
  -- queue or by the buffer, or was discarded by a removal of the back or a clear. The condition is
  -- that the buffer has a place.
  pub run-IsWorld :
      (capacity storage_capacity : ℕ) (steps : List (Step array))
      → 1 ≤ storage_capacity
      → IsWorld array (run array (start array capacity storage_capacity) steps)
  unfolding make_buffer new
  run-IsWorld capacity storage_capacity steps h =
      run_from-IsWorld steps (start array capacity storage_capacity) (record {
        is_buffer = record { within = omega arith; positive = h; drops_lt = omega arith };
        in_order = rw (make_elements capacity) nothing;
        counted = λ small. rw (make_elements capacity) refl;
      })
