-- ===== src/Buffers/Laws.antt =====
-- double_buffer.rs, `drain_writer_to_reader`: a drain appends the queue to the buffer and keeps the
-- last elements.
use mathlib.Core.List.{append_assoc, append-nil}
use cfw.Prelude.{
  ℕ, zero, suc, ◌+◌, ◌%◌, ◌^◌, ◌-◌, ◌≤◌, ◌<◌, ◌≡◌, refl, ap, sym, ◌∙◌, inl, inr, Bool, true, false,
  none, some, List, [], ◌∷◌, ◌++◌, length, length-append, leb, if◌then◌else◌, arith, Bool-cases,
}
use cfw.Buffers.{rest_of, front_of, ArrayQueue, pop_queue}
use cfw.Buffers.DoubleBuffer.{
  make_room, DoubleBuffer, store, drain_turn, drain_turns, drain_writer_to_reader,
}

-- The last elements of a list, at most a number of them.
abbrev pub keep_last {ℓ} : {A : Type ℓ} → ℕ → List A → List A
keep_last n [] = []
keep_last n (x ∷ xs) = let rest = keep_last n xs in if leb (length xs + 1) n then x ∷ xs else rest

module _ {A : Type 0} where
  keep_last-short : (n : ℕ) (xs : List A) → length xs ≤ n → keep_last n xs ≡ xs
  keep_last-short n [] h = refl
  keep_last-short n (x ∷ xs) h = let e : leb (length xs + 1) n ≡ true = ground arith in rw e refl

  keep_last-append :
      (n : ℕ) (xs ys : List A) → keep_last n (keep_last n xs ++ ys) ≡ keep_last n (xs ++ ys)
  keep_last-append n [] ys = refl
  keep_last-append n (x ∷ xs) ys = elim (Bool-cases (leb (length xs + 1) n)) [
    | inl short ↦ rw short refl
    | inr long ↦
        let e : leb (length (xs ++ ys) + 1) n ≡ false = ground (arith, long, length-append xs ys) in
        rw (long, e) (keep_last-append n xs ys)
  ]

  -- One element more than fits.
  keep_last-full :
      (n : ℕ) (xs : List A) (v : A)
      → length xs ≡ n
      → 1 ≤ n
      → keep_last n (xs ++ v ∷ []) ≡ rest_of xs ++ v ∷ []
  keep_last-full n [] v e h = absurd (omega (arith, e, h))
  keep_last-full n (x ∷ xs) v e h =
      let long : leb (length (xs ++ v ∷ []) + 1) n ≡ false =
        ground (arith, e, length-append xs (v ∷ [])) in
      rw long (keep_last-short n (xs ++ v ∷ []) (omega (arith, e, length-append xs (v ∷ []))))

  length-rest : (xs : List A) → length (rest_of xs) ≡ length xs - 1
  length-rest [] = refl
  length-rest (x ∷ xs) = omega arith

  make_room_spare : (fuel n : ℕ) (xs : List A) → length xs < n → make_room fuel n xs ≡ (xs, 0)
  unfolding make_room
  make_room_spare zero n xs h = refl
  make_room_spare (suc fuel) n xs h = let e : leb n (length xs) ≡ false = ground arith in rw e refl

  make_room_full :
      (n : ℕ) (xs : List A) → length xs ≡ n → 1 ≤ n → make_room (length xs) n xs ≡ (rest_of xs, 1)
  unfolding make_room
  make_room_full n [] e h = absurd (omega (arith, e, h))
  make_room_full n (x ∷ xs) e h =
      let full : leb n (length (x ∷ xs)) ≡ true = ground (arith, e) in
      rw (full, make_room_spare (length xs) n xs (omega (arith, e))) refl

module _ {A : Type 0} (array : ArrayQueue A) where
  open array use {elements, len, pop, pop_result, pop_elements, len_elements}

  abbrev pub waiting : DoubleBuffer array → List A
  waiting b = elements b.write_queue.inner

  -- A buffer that keeps what is read within its capacity, with a count that fits its word.
  pub record IsBuffer (b : DoubleBuffer array) : Type 0 where
    pub within : length b.storage ≤ b.storage_capacity
    pub positive : 1 ≤ b.storage_capacity
    pub drops_lt : b.drops < 2 ^ 64

  abbrev one_if : Bool → ℕ
  one_if t = if t then 1 else 0

  make_room_lem :
      (n : ℕ) (xs : List A) (v : A)
      → length xs ≤ n
      → 1 ≤ n
      → ((make_room (length xs) n xs).0 ++ v ∷ [] ≡ keep_last n (xs ++ v ∷ []))
        × ((make_room (length xs) n xs).1 ≡ length (xs ++ v ∷ []) - n)
  make_room_lem n xs v h p = elim (Bool-cases (leb n (length xs))) [
    | inl full ↦
        let e : length xs ≡ n = ground (arith, full) in
        rw (make_room_full n xs e p)
          (sym (keep_last-full n xs v e p), ground (arith, e, length-append xs (v ∷ [])))
    | inr spare ↦
        let lt : length xs < n = ground (arith, spare) in
        rw (make_room_spare (length xs) n xs lt) (
          sym (keep_last-short n (xs ++ v ∷ []) (ground (arith, lt, length-append xs (v ∷ [])))),
          ground (arith, lt, length-append xs (v ∷ [])),
        )
  ]

  pub length-keep_last :
      (n : ℕ) (xs : List A) → length (keep_last n xs) + (length xs - n) ≡ length xs
  length-keep_last n [] = omega arith
  length-keep_last n (x ∷ xs) = ground (arith, length-keep_last n xs)

  keep_last-le : (n : ℕ) (xs : List A) → length (keep_last n xs) ≤ n
  keep_last-le n [] = omega arith
  keep_last-le n (x ∷ xs) = ground (arith, keep_last-le n xs)

  pub record Stores (b b' : DoubleBuffer array) (v : A) : Type 0 where
    pub queue_eq : b'.write_queue ≡ b.write_queue
    pub capacity_eq : b'.storage_capacity ≡ b.storage_capacity
    pub storage_eq : b'.storage ≡ keep_last b.storage_capacity (b.storage ++ v ∷ [])
    pub drops_eq : b'.drops ≡ (b.drops + (length b.storage + 1 - b.storage_capacity)) % 2 ^ 64

  store_lem : (b : DoubleBuffer array) (v : A) → IsBuffer b → Stores b (store array v b) v
  unfolding store
  store_lem b v i =
      let (kept, turns) = make_room_lem b.storage_capacity b.storage v i.within i.positive in
      record {
        queue_eq = refl;
        capacity_eq = refl;
        storage_eq = kept;
        drops_eq = omega (arith, turns, length-append b.storage (v ∷ []));
      }

  -- The turn of a drain that finds an element.
  pub turn_lem :
      (b : DoubleBuffer array) (v : A) (q : List A)
      → IsBuffer b
      → waiting b ≡ v ∷ q
      → IsBuffer (drain_turn array b)
        × (waiting (drain_turn array b) ≡ q)
        × ((drain_turn array b).storage_capacity ≡ b.storage_capacity)
        × ((drain_turn array b).storage ≡ keep_last b.storage_capacity (b.storage ++ v ∷ []))
        × ((drain_turn array b).drops
            ≡ (b.drops + (length b.storage + 1 - b.storage_capacity)) % 2 ^ 64)
        × ((drain_turn array b).write_queue.dropped ≡ b.write_queue.dropped)
  unfolding drain_turn pop_queue
  turn_lem b v q i e =
      let queue = record b.write_queue { inner = (pop b.write_queue.inner).1 } in
      let b1 = record b { write_queue = queue } in
      let out : (pop b.write_queue.inner).0 ≡ some v =
        pop_result b.write_queue.inner ∙ ap front_of e in
      let left : elements (pop b.write_queue.inner).1 ≡ q =
        pop_elements b.write_queue.inner ∙ ap rest_of e in
      let st =
        store_lem b1 v
          (record { within = i.within; positive = i.positive; drops_lt = i.drops_lt }) in
      rw out (
        record {
          within =
              rw (st.storage_eq, st.capacity_eq)
                (keep_last-le b.storage_capacity (b.storage ++ v ∷ []));
          positive = rw st.capacity_eq i.positive;
          drops_lt = omega (arith, st.drops_eq);
        },
        rw st.queue_eq left,
        st.capacity_eq,
        st.storage_eq,
        st.drops_eq,
        ap (λ w. w.dropped) st.queue_eq,
      )

  pub turns_lem :
      (q : List A) (b : DoubleBuffer array)
      → IsBuffer b
      → waiting b ≡ q
      → IsBuffer (drain_turns array (length q) b)
        × (waiting (drain_turns array (length q) b) ≡ [])
        × ((drain_turns array (length q) b).storage ≡ keep_last b.storage_capacity (b.storage ++ q))
        × ((drain_turns array (length q) b).drops
            ≡ (b.drops + (length b.storage + length q - b.storage_capacity)) % 2 ^ 64)
  unfolding drain_turns
  turns_lem [] b i e = (
    i,
    e,
    sym (
        ap (keep_last b.storage_capacity) (append-nil b.storage)
        ∙ keep_last-short b.storage_capacity b.storage i.within),
    omega (arith, i.within, i.drops_lt),
  )
  turns_lem (v ∷ q) b i e =
      let (i1, left, cap, kept, count, _) = turn_lem b v q i e in
      let (i2, done, all, counts) = turns_lem q (drain_turn array b) i1 left in
      (
        i2,
        done,
        all
            ∙ ap (λ n. keep_last n ((drain_turn array b).storage ++ q)) cap
            ∙ ap (λ l. keep_last b.storage_capacity (l ++ q)) kept
            ∙ keep_last-append b.storage_capacity (b.storage ++ v ∷ []) q
            ∙ ap (keep_last b.storage_capacity) (append_assoc b.storage (v ∷ []) q),
        omega (
          arith,
          counts,
          count,
          cap,
          i.within,
          ap (λ l. length l) kept,
          length-keep_last b.storage_capacity (b.storage ++ v ∷ []),
          length-append b.storage (v ∷ []),
        ),
      )

  -- A drain that no publisher writes into empties the queue and appends it to the buffer, of which
  -- it keeps the last elements, as many as the buffer's capacity; as many as are over that capacity
  -- are added to the count of drops, which wraps at 2^64. The condition is that the buffer has a
  -- place and is within its capacity, and that its count is below 2^64.
  pub drain_writer_to_reader_lem :
      (b : DoubleBuffer array)
      → IsBuffer b
      → IsBuffer (drain_writer_to_reader array b)
        × (waiting (drain_writer_to_reader array b) ≡ [])
        × ((drain_writer_to_reader array b).storage
            ≡ keep_last b.storage_capacity (b.storage ++ waiting b))
        × ((drain_writer_to_reader array b).drops
            ≡ (b.drops + (length b.storage + length (waiting b) - b.storage_capacity)) % 2 ^ 64)
  unfolding drain_writer_to_reader
  drain_writer_to_reader_lem b i =
      rw (len_elements b.write_queue.inner) (turns_lem (waiting b) b i refl)

  -- The turn of a drain that finds nothing, since the queue has been emptied by another.
  pub empty_turn :
      (b : DoubleBuffer array)
      → waiting b ≡ []
      → (waiting (drain_turn array b) ≡ [])
        × ((drain_turn array b).storage ≡ b.storage)
        × ((drain_turn array b).storage_capacity ≡ b.storage_capacity)
        × ((drain_turn array b).drops ≡ b.drops)
        × ((drain_turn array b).write_queue.dropped ≡ b.write_queue.dropped)
  unfolding drain_turn pop_queue
  empty_turn b e =
      let out : (pop b.write_queue.inner).0 ≡ none =
        pop_result b.write_queue.inner ∙ ap front_of e in
      let left : elements (pop b.write_queue.inner).1 ≡ [] =
        pop_elements b.write_queue.inner ∙ ap rest_of e in
      rw out (left, refl, refl, refl, refl)
