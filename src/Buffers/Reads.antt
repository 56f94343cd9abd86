-- ===== src/Buffers/Reads.antt =====
-- double_buffer.rs: reads, the removal of the back and a clear keep what holds of the buffer.
use mathlib.Core.List.{append_assoc}
use cfw.Prelude.{◌≤◌, ◌≡◌, ap, sym, subst, List, [], ◌∷◌, ◌++◌, length, arith}
use cfw.Buffers.{rest_of, front_of, ArrayQueue}
use cfw.Buffers.DoubleBuffer.{pop_front, pop_back, drain_contiguous, clear_buffers, without_last}
use cfw.Buffers.Laws.{waiting}
use cfw.Buffers.Subsequence.{
  Subsequence, Subsequence-refl, Subsequence-append, without_last-Subsequence, Subsequence-length,
  nothing-Subsequence,
}
use cfw.Buffers.Clear.{clear_lem}
use cfw.Buffers.World.{
  read, read_all, discarded_back, cleared, World, listed, step, IsWorld, length-held, within_reads,
}

module _ {A : Type 0} (array : ArrayQueue A) where
  open array use {
    elements, capacity, force_push, force_push_elements, force_push_result, make_elements,
  }

  held-read :
      (reads s q : List A)
      → (reads ++ listed array (front_of s)) ++ (rest_of s ++ q) ≡ reads ++ (s ++ q)
  held-read reads [] q = append_assoc reads [] ([] ++ q)
  held-read reads (x ∷ s) q = append_assoc reads (x ∷ []) (s ++ q)

  rest-le : (s : List A) → length (rest_of s) ≤ length s
  rest-le [] = omega arith
  rest-le (x ∷ s) = omega arith

  pub read-IsWorld : (w : World array) → IsWorld array w → IsWorld array (step array w read)
  unfolding step pop_front
  read-IsWorld w i =
      let same = held-read w.reads w.buffer.storage (waiting array w.buffer) in
      record {
        is_buffer = record {
          within = omega (arith, i.is_buffer.within, rest-le w.buffer.storage);
          positive = i.is_buffer.positive;
          drops_lt = i.is_buffer.drops_lt;
        };
        in_order = subst (λ l. Subsequence l w.writes) (sym same) i.in_order;
        counted = λ small. omega (arith, i.counted small, ap (λ l. length l) same);
      }

  pub read_all-IsWorld : (w : World array) → IsWorld array w → IsWorld array (step array w read_all)
  unfolding step drain_contiguous
  read_all-IsWorld w i =
      let same = append_assoc w.reads w.buffer.storage (waiting array w.buffer) in
      record {
        is_buffer = record {
          within = omega arith;
          positive = i.is_buffer.positive;
          drops_lt = i.is_buffer.drops_lt;
        };
        in_order = subst (λ l. Subsequence l w.writes) (sym same) i.in_order;
        counted = λ small. omega (arith, i.counted small, ap (λ l. length l) same);
      }

  pub discarded_back-IsWorld :
      (w : World array) → IsWorld array w → IsWorld array (step array w discarded_back)
  unfolding step pop_back
  discarded_back-IsWorld w i =
      let s = w.buffer.storage in
      let q = waiting array w.buffer in
      let part = without_last-Subsequence s in
      let shorter = Subsequence-length part in
      record {
        is_buffer = record {
          within = omega (arith, i.is_buffer.within, shorter);
          positive = i.is_buffer.positive;
          drops_lt = i.is_buffer.drops_lt;
        };
        in_order =
            within_reads array w.reads (s ++ q) (without_last s ++ q) w.writes i.in_order
              (Subsequence-append q q part (Subsequence-refl q));
        counted = λ small. omega (
          arith,
          i.counted small,
          shorter,
          length-held array w,
          length-held array (step array w discarded_back),
        );
      }

  pub cleared-IsWorld : (w : World array) → IsWorld array w → IsWorld array (step array w cleared)
  unfolding step clear_buffers
  cleared-IsWorld w i =
      let (none_left, same) = clear_lem array w.buffer.write_queue in
      record {
        is_buffer = record {
          within = omega arith;
          positive = i.is_buffer.positive;
          drops_lt = i.is_buffer.drops_lt;
        };
        in_order =
            within_reads array w.reads (w.buffer.storage ++ waiting array w.buffer) _ w.writes
              i.in_order
              (subst (λ l. Subsequence l (w.buffer.storage ++ waiting array w.buffer))
                (sym none_left) (nothing-Subsequence (w.buffer.storage ++ waiting array w.buffer)));
        counted = λ small. omega (
          arith,
          i.counted small,
          same,
          ap (λ l. length l) none_left,
          length-held array w,
          length-held array (step array w cleared),
        );
      }
