-- ===== src/Arena/Runs.antt =====
-- arena.rs: every operation of a holder, and every run of operations, fails by nothing but a count of
-- 2^63.
use cfw.Prelude.{
  max, ap, sym, true, ℕ, ◌+◌, ◌-◌, ◌%◌, ◌^◌, ◌≡◌, ◌==◌, refl, ◌∙◌, true, false, some, List, [], ◌∷◌,
  length-set, get_elem?, ltb, total-get_elem?-le, arith,
}
use cfw.Prelude.Result.{Result, ok, err}
use cfw.Buffers.{ArrayQueue}
use cfw.Arena.{
  reallocate, resize, all_gone, live, Holder, taken, loan, pointer, destroying, clearing, returning,
  dropping, gone, Arena, Fault, is_live, swap_count, exchange, destroy, add_pointer, advance_holder,
  initialize, start_drop, clone_holder, read_holder, fail_exchange, Move, allocate, advance,
  assume_init, begin_drop, clone, deref, retry, step, run,
}
use cfw.Arena.Weights.{solo, shared, parked, needing}
use cfw.Arena.Moves.{clear-Facts, publish-Facts, discard-Facts}
use cfw.Arena.Places.{load-Facts, reload-Facts, last-Facts, clone-Facts}
use cfw.Arena.Safety.{
  IsWhole, IsSound, slot-IsSound, holder-IsSound, if-IsSound, moved-IsWhole, try_new-IsWhole,
  swap_count-IsSound, exchange-IsSound, destroy-IsSound, push_index-IsSound, index_lt,
}
use cfw.Arena.New.{reallocate_slots-IsSound, resize-Facts}

module _ ⦃queue : ArrayQueue ℕ⦄ where
  advance_holder-IsSound :
      (a : Arena) (h : ℕ) (x : Holder)
      → IsWhole a
      → get_elem? a.holders h ≡ some x
      → IsSound (advance_holder a h x)
  unfolding advance_holder solo shared parked
  advance_holder-IsSound a h (taken j) w e =
      slot-IsSound a j (swap_count a h j) (index_lt a h j (taken j) w.facts e (ground arith))
        (λ s es. swap_count-IsSound a h j s w e es)
  advance_holder-IsSound a h (dropping j c) w e =
      if-IsSound (c == 1) _ _
        (λ yes. record { facts = λ i. last-Facts a h j c i e yes (w.facts i); roomy = w.roomy })
        (λ no.
          slot-IsSound a j (exchange a h j c)
            (index_lt a h j (dropping j c) w.facts e (ground arith))
            (λ s es. exchange-IsSound a h j c s w e es no))
  advance_holder-IsSound a h (destroying j) w e =
      slot-IsSound a j (destroy a h j) (index_lt a h j (destroying j) w.facts e (ground arith))
        (λ s es. destroy-IsSound a h j s w e es)
  advance_holder-IsSound a h (clearing j) w e =
      slot-IsSound a j _ (index_lt a h j (clearing j) w.facts e (ground arith)) (λ s es.
        moved-IsWhole a h j (returning j) (record s { ref_count = 0 }) w
          (λ i. clear-Facts a h j i s e es (w.facts i)))
  advance_holder-IsSound a h (returning j) w e = push_index-IsSound a h j w e
  advance_holder-IsSound a h (loan j) w e = w
  advance_holder-IsSound a h (pointer j) w e = w
  advance_holder-IsSound a h gone w e = w

  initialize-IsSound :
      (a : Arena) (h : ℕ) (x : Holder)
      → IsWhole a
      → get_elem? a.holders h ≡ some x
      → IsSound (initialize a h x)
  unfolding initialize solo shared parked
  initialize-IsSound a h (loan j) w e =
      slot-IsSound a j _ (index_lt a h j (loan j) w.facts e (ground arith)) (λ s es.
        moved-IsWhole a h j (pointer j) (record s { payload = live }) w
          (λ i. publish-Facts a h j i s e es (w.facts i)))
  initialize-IsSound a h (taken j) w e = w
  initialize-IsSound a h (pointer j) w e = w
  initialize-IsSound a h (destroying j) w e = w
  initialize-IsSound a h (clearing j) w e = w
  initialize-IsSound a h (returning j) w e = w
  initialize-IsSound a h (dropping j c) w e = w
  initialize-IsSound a h gone w e = w

  start_drop-IsSound :
      (a : Arena) (h : ℕ) (x : Holder)
      → IsWhole a
      → get_elem? a.holders h ≡ some x
      → IsSound (start_drop a h x)
  unfolding start_drop solo shared parked
  start_drop-IsSound a h (loan j) w e =
      slot-IsSound a j _ (index_lt a h j (loan j) w.facts e (ground arith)) (λ s es.
        moved-IsWhole a h j (returning j) (record s { ref_count = 0 }) w
          (λ i. discard-Facts a h j i s e es (w.facts i)))
  start_drop-IsSound a h (pointer j) w e =
      slot-IsSound a j _ (index_lt a h j (pointer j) w.facts e (ground arith))
        (λ s es. record { facts = λ i. load-Facts a h j i s e es (w.facts i); roomy = w.roomy })
  start_drop-IsSound a h (taken j) w e = w
  start_drop-IsSound a h (destroying j) w e = w
  start_drop-IsSound a h (clearing j) w e = w
  start_drop-IsSound a h (returning j) w e = w
  start_drop-IsSound a h (dropping j c) w e = w
  start_drop-IsSound a h gone w e = w

  next_count : (c : ℕ) → ltb (2 ^ 63 - 1) c ≡ false → (c + 1) % 2 ^ 64 ≡ c + 1
  next_count c h = ground (arith, h)

  clone_holder-IsSound :
      (a : Arena) (h : ℕ) (x : Holder)
      → IsWhole a
      → get_elem? a.holders h ≡ some x
      → IsSound (clone_holder a x)
  unfolding clone_holder add_pointer solo shared parked
  clone_holder-IsSound a h (pointer j) w e =
      slot-IsSound a j (add_pointer a j) (index_lt a h j (pointer j) w.facts e (ground arith))
        (λ s es.
          if-IsSound (ltb (2 ^ 63 - 1) s.ref_count) _ _ (λ yes. refl)
            (λ no. record {
              facts = λ i.
                  clone-Facts a h j i ((s.ref_count + 1) % 2 ^ 64) s e es
                    (next_count s.ref_count no) (w.facts i);
              roomy = w.roomy ∙ ap (λ n. max n 1) (sym (length-set a.slots j _));
            }))
  clone_holder-IsSound a h (loan j) w e = w
  clone_holder-IsSound a h (taken j) w e = w
  clone_holder-IsSound a h (destroying j) w e = w
  clone_holder-IsSound a h (clearing j) w e = w
  clone_holder-IsSound a h (returning j) w e = w
  clone_holder-IsSound a h (dropping j c) w e = w
  clone_holder-IsSound a h gone w e = w

  read_holder-IsSound :
      (a : Arena) (h : ℕ) (x : Holder)
      → IsWhole a
      → get_elem? a.holders h ≡ some x
      → IsSound (read_holder a x)
  unfolding read_holder solo shared parked needing
  read_holder-IsSound a h (pointer j) w e =
      let f = w.facts j in
      slot-IsSound a j _ (index_lt a h j (pointer j) w.facts e (ground arith)) (λ s es.
        let there : is_live s.payload ≡ true =
          ground (arith, es, f.alive, total-get_elem?-le (needing j) a.holders h (pointer j) e) in
        if-IsSound (is_live s.payload) _ _ (λ yes. w) (λ no. cc))
  read_holder-IsSound a h (loan j) w e = w
  read_holder-IsSound a h (taken j) w e = w
  read_holder-IsSound a h (destroying j) w e = w
  read_holder-IsSound a h (clearing j) w e = w
  read_holder-IsSound a h (returning j) w e = w
  read_holder-IsSound a h (dropping j c) w e = w
  read_holder-IsSound a h gone w e = w

  fail_exchange-IsSound :
      (a : Arena) (h : ℕ) (x : Holder)
      → IsWhole a
      → get_elem? a.holders h ≡ some x
      → IsSound (fail_exchange a h x)
  unfolding fail_exchange solo shared parked
  fail_exchange-IsSound a h (dropping j c) w e =
      if-IsSound (c == 1) _ _ (λ yes. w)
        (λ no. slot-IsSound a j _ (index_lt a h j (dropping j c) w.facts e (ground arith)) (λ s es.
          record { facts = λ i. reload-Facts a h j c i s e es no (w.facts i); roomy = w.roomy }))
  fail_exchange-IsSound a h (pointer j) w e = w
  fail_exchange-IsSound a h (loan j) w e = w
  fail_exchange-IsSound a h (taken j) w e = w
  fail_exchange-IsSound a h (destroying j) w e = w
  fail_exchange-IsSound a h (clearing j) w e = w
  fail_exchange-IsSound a h (returning j) w e = w
  fail_exchange-IsSound a h gone w e = w

  step-IsSound : (a : Arena) (m : Move) → IsWhole a → IsSound (step a m)
  unfolding step
  step-IsSound a allocate w = try_new-IsWhole a w
  step-IsSound a reallocate w =
      if-IsSound (all_gone a.holders) _ _ (λ yes. reallocate_slots-IsSound a yes) (λ no. w)
  step-IsSound a (resize n) w =
      if-IsSound (all_gone a.holders) _ _
        (λ yes. record { facts = λ i. resize-Facts a n i (w.facts i); roomy = w.roomy }) (λ no. w)
  step-IsSound a (advance h) w =
      holder-IsSound a h (advance_holder a h) w (λ x. advance_holder-IsSound a h x w)
  step-IsSound a (assume_init h) w =
      holder-IsSound a h (initialize a h) w (λ x. initialize-IsSound a h x w)
  step-IsSound a (begin_drop h) w =
      holder-IsSound a h (start_drop a h) w (λ x. start_drop-IsSound a h x w)
  step-IsSound a (clone h) w =
      holder-IsSound a h (clone_holder a) w (λ x. clone_holder-IsSound a h x w)
  step-IsSound a (deref h) w =
      holder-IsSound a h (read_holder a) w (λ x. read_holder-IsSound a h x w)
  step-IsSound a (retry h) w =
      holder-IsSound a h (fail_exchange a h) w (λ x. fail_exchange-IsSound a h x w)

  pub run_from-IsSound : (ms : List Move) (a : Arena) → IsWhole a → IsSound (run a ms)
  unfolding run
  run_from-IsSound [] a w = w
  run_from-IsSound (m ∷ ms) a w = go (λ b. run_from-IsSound ms b) (step a m) (step-IsSound a m w)
    where
      go :
          ((b : Arena) → IsWhole b → IsSound (run b ms))
          → (r : Result Fault Arena) → IsSound r
          → IsSound (elim r [ err e ↦ err e | ok b ↦ run b ms ])
      go k (err e) s = s
      go k (ok b) s = k b s
