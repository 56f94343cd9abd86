-- ===== src/Buffers/Turns.antt =====
-- double_buffer.rs: a write and a turn of a drain keep what holds of the buffer.
use mathlib.Core.List.{append_assoc}
use cfw.Prelude.{
  ℕ, ◌+◌, ◌%◌, ◌^◌, ◌<◌, ◌≡◌, refl, ap, sym, ◌∙◌, subst, inl, inr, List, [], ◌∷◌, ◌++◌, length,
  length-append, leb, if◌then◌else◌, is_some, arith, Bool-cases,
}
use cfw.Buffers.{displaced, pushed, ArrayQueue, push}
use cfw.Buffers.DoubleBuffer.{DoubleBuffer, write, drain_turn}
use cfw.Buffers.Laws.{length-keep_last, keep_last, waiting, turn_lem, empty_turn}
use cfw.Buffers.Subsequence.{
  Subsequence, Subsequence-refl, Subsequence-append, rest-Subsequence, keep_last-Subsequence,
}
use cfw.Buffers.World.{written, turned, World, step, held, IsWorld, length-held, within_reads}

module _ {A : Type 0} (array : ArrayQueue A) where
  open array use {
    elements, capacity, force_push, force_push_elements, force_push_result, make_elements,
  }

  -- What a write does to the queue.
  write_lem :
      (b : DoubleBuffer array) (v : A)
      → (waiting array (write array v b)
          ≡ pushed (capacity b.write_queue.inner) v (waiting array b))
        × ((write array v b).write_queue.dropped ≡ (
            if is_some (displaced (capacity b.write_queue.inner) (waiting array b))
            then (b.write_queue.dropped + 1) % 2 ^ 64
            else b.write_queue.dropped))
  unfolding write push
  write_lem b v = (
    force_push_elements v b.write_queue.inner,
    ap (λ o. if is_some o then (b.write_queue.dropped + 1) % 2 ^ 64 else b.write_queue.dropped)
        (force_push_result v b.write_queue.inner),
  )

  pushed-Subsequence : (n : ℕ) (v : A) (xs : List A) → Subsequence (pushed n v xs) (xs ++ v ∷ [])
  pushed-Subsequence n v xs = elim (Bool-cases (leb n (length xs))) [
    | inl full ↦
        rw full
          (Subsequence-append (v ∷ []) (v ∷ []) (rest-Subsequence xs) (Subsequence-refl (v ∷ [])))
    | inr spare ↦ rw spare (Subsequence-refl (xs ++ v ∷ []))
  ]

  length-pushed :
      (n d : ℕ) (v : A) (xs : List A)
      → d + 1 < 2 ^ 64
      → length (pushed n v xs) + (if is_some (displaced n xs) then (d + 1) % 2 ^ 64 else d)
        ≡ length xs + d + 1
  length-pushed n d v [] h = elim (Bool-cases (leb n 0)) [
    | inl full ↦ rw full (omega arith)
    | inr spare ↦ rw spare (omega arith)
  ]
  length-pushed n d v (x ∷ xs) h = elim (Bool-cases (leb n (length (x ∷ xs)))) [
    | inl full ↦ rw full (ground (arith, h, length-append xs (v ∷ [])))
    | inr spare ↦ rw spare (ground (arith, length-append xs (v ∷ [])))
  ]

  held-append :
      (reads s q : List A) (v : A) → (reads ++ (s ++ q)) ++ v ∷ [] ≡ reads ++ (s ++ (q ++ v ∷ []))
  held-append reads s q v =
      append_assoc reads (s ++ q) (v ∷ []) ∙ ap (λ l. reads ++ l) (append_assoc s q (v ∷ []))

  pub written-IsWorld :
      (w : World array) (v : A) → IsWorld array w → IsWorld array (step array w (written v))
  unfolding step write
  written-IsWorld w v i =
      let s = w.buffer.storage in
      let q = waiting array w.buffer in
      let n = capacity w.buffer.write_queue.inner in
      let d = w.buffer.write_queue.dropped in
      let (queue, drops) = write_lem w.buffer v in
      let after = step array w (written v) in
      record {
        is_buffer = record {
          within = i.is_buffer.within;
          positive = i.is_buffer.positive;
          drops_lt = i.is_buffer.drops_lt;
        };
        in_order =
            subst (λ l. Subsequence (w.reads ++ (s ++ l)) (w.writes ++ v ∷ [])) (sym queue)
              (within_reads array w.reads (s ++ (q ++ v ∷ [])) (s ++ pushed n v q)
                (w.writes ++ v ∷ [])
                (subst (λ l. Subsequence l (w.writes ++ v ∷ [])) (held-append w.reads s q v)
                  (Subsequence-append (v ∷ []) (v ∷ []) i.in_order (Subsequence-refl (v ∷ []))))
                (Subsequence-append (pushed n v q) (q ++ v ∷ []) (Subsequence-refl s)
                  (pushed-Subsequence n v q)));
        counted = λ small.
            let before : length w.writes + 1 < 2 ^ 64 =
              omega (arith, small, length-append w.writes (v ∷ [])) in
            let count = i.counted (omega (arith, before)) in
            omega (
              arith,
              count,
              length-held array w,
              length-held array after,
              ap (λ l. length l) queue,
              drops,
              length-pushed n d v q (omega (arith, before, count)),
              length-append w.writes (v ∷ []),
            );
      }

  -- The buffer of a world is what its laws are about.
  regroup : (s q : List A) (v : A) → (s ++ v ∷ []) ++ q ≡ s ++ v ∷ q
  regroup s q v = append_assoc s (v ∷ []) q

  empty-IsWorld :
      (w : World array)
      → IsWorld array w
      → waiting array w.buffer ≡ []
      → IsWorld array (step array w turned)
  unfolding step
  empty-IsWorld w i e =
      let (left, stored, cap, drops, dropped) = empty_turn array w.buffer e in
      let same : held array (step array w turned) ≡ held array w =
        ap (λ l. w.reads ++ (l ++ waiting array (drain_turn array w.buffer))) stored
        ∙ ap (λ l. w.reads ++ (w.buffer.storage ++ l)) (left ∙ sym e) in
      record {
        is_buffer = record {
          within = ground (arith, i.is_buffer.within, ap (λ l. length l) stored, cap);
          positive = rw cap i.is_buffer.positive;
          drops_lt = omega (arith, drops, i.is_buffer.drops_lt);
        };
        in_order = subst (λ l. Subsequence l w.writes) (sym same) i.in_order;
        counted = λ small. omega (arith, i.counted small, ap (λ l. length l) same, drops, dropped);
      }

  found-IsWorld :
      (w : World array) (v : A) (q : List A)
      → IsWorld array w
      → waiting array w.buffer ≡ v ∷ q
      → IsWorld array (step array w turned)
  unfolding step
  found-IsWorld w v q i e =
      let s = w.buffer.storage in
      let n = w.buffer.storage_capacity in
      let (is_buffer, left, cap, kept, count, dropped) =
        turn_lem array w.buffer v q i.is_buffer e in
      let after = step array w turned in
      let same : held array after ≡ w.reads ++ (keep_last n (s ++ v ∷ []) ++ q) =
        ap (λ l. w.reads ++ (l ++ waiting array (drain_turn array w.buffer))) kept
        ∙ ap (λ l. w.reads ++ (keep_last n (s ++ v ∷ []) ++ l)) left in
      let before : Subsequence (w.reads ++ (s ++ v ∷ q)) w.writes =
        subst (λ l. Subsequence (w.reads ++ (s ++ l)) w.writes) e i.in_order in
      record {
        is_buffer = is_buffer;
        in_order =
            subst (λ l. Subsequence l w.writes) (sym same)
              (within_reads array w.reads (s ++ v ∷ q) (keep_last n (s ++ v ∷ []) ++ q) w.writes
                before
                (subst (Subsequence (keep_last n (s ++ v ∷ []) ++ q)) (regroup s q v) (
                  Subsequence-append q q (keep_last-Subsequence n (s ++ v ∷ []))
                    (Subsequence-refl q))));
        counted = λ small. omega (
          arith,
          i.counted small,
          length-held array w,
          length-held array after,
          ap (λ l. length l) e,
          ap (λ l. length l) left,
          count,
          dropped,
          i.is_buffer.within,
          ap (λ l. length l) kept,
          length-keep_last array n (s ++ v ∷ []),
          length-append s (v ∷ []),
        );
      }

  pub turned-IsWorld : (w : World array) → IsWorld array w → IsWorld array (step array w turned)
  turned-IsWorld w i = go (waiting array w.buffer) refl
    where
      go : (q : List A) → waiting array w.buffer ≡ q → IsWorld array (step array w turned)
      go [] e = empty-IsWorld w i e
      go (v ∷ q) e = found-IsWorld w v q i e
