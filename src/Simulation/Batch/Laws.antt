-- ===== src/Simulation/Batch/Laws.antt =====
-- callback_execution.rs: a batch gives the same answer with any number of workers.
use mathlib.Core.List.{append_assoc, append-nil}
use cfw.Prelude.{
  ℕ, zero, suc, ◌+◌, ◌%◌, ◌≤◌, ◌<◌, ◌≡◌, ◌≢◌, min, refl, ap, sym, subst, ◌∙◌, true, Bool-cases, inl,
  inr, some, List, [], ◌∷◌, ◌++◌, map, length, length-replicate, replicate, leb, All, All-append,
  All-map, arith, get_elem?,
}
use cfw.Prelude.Result.{Result, ok}
use cfw.Sort.{TotalOrder, IsSorted, sort, insert, sort_sorted, sort-move_left}
use cfw.Simulation.{BatchFailure}
use cfw.Simulation.Batch.{
  Placed, BatchError, by_position, concat, push_at, deal, run_placed, run_chunks, collect_one,
  collect, run_prepared_batch,
}

by_position-TotalOrder : {A : Type 0} → TotalOrder (by_position {A = A})
by_position-TotalOrder = record { total = λ a b. ground arith; trans = λ a b c. ground arith }

mod_lt : (a n : ℕ) → 0 < n → a % n < n
mod_lt a n h = omega arith

module _ {A : Type 0} where
  abbrev number : ℕ → List A → List (Placed A)
  number n [] = []
  number n (a ∷ es) = record { position = n; value = a } ∷ number (n + 1) es

  abbrev IsAt : List A → Placed A → Type 0
  IsAt jobs x = get_elem? jobs x.position ≡ some x.value

  IsAt-antisym :
      (jobs : List A) (a b : Placed A)
      → IsAt jobs a
      → IsAt jobs b
      → by_position a b ≡ true
      → by_position b a ≡ true
      → a ≡ b
  IsAt-antisym jobs a b p q h k =
      let same : a.position ≡ b.position = ground arith in ground (arith, ap (get_elem? jobs) same)

  number-IsAt :
      (jobs es : List A) (n : ℕ)
      → ((i : ℕ) → get_elem? jobs (n + i) ≡ get_elem? es i)
      → All (IsAt jobs) (number n es)
  number-IsAt jobs [] n at = tt
  number-IsAt jobs (a ∷ es) n at =
      let shift : (i : ℕ) → get_elem? jobs (n + (i + 1)) ≡ get_elem? es i = λ i.
        let next : suc i ≡ i + 1 = omega arith in
        subst (λ k. get_elem? jobs (n + k) ≡ get_elem? es i) next (at (suc i)) in
      (
        subst (λ k. get_elem? jobs k ≡ some a) (omega arith) (at 0),
        number-IsAt jobs es (n + 1)
            (λ i. subst (λ k. get_elem? jobs k ≡ get_elem? es i) (omega arith) (shift i)),
      )

  number-Above : (n m : ℕ) (es : List A) → n ≤ m → All (λ x. n ≤ x.position) (number m es)
  number-Above n m [] le = tt
  number-Above n m (a ∷ es) le = (le, number-Above n (m + 1) es (omega arith))

  number-IsSorted : (n : ℕ) (es : List A) → IsSorted by_position (number n es)
  number-IsSorted n [] = tt
  number-IsSorted n (a ∷ es) = (
    All-map (λ x h. ground arith) (number (n + 1) es)
        (number-Above (n + 1) (n + 1) es (omega arith)),
    number-IsSorted (n + 1) es,
  )

  -- Where a push puts its element.
  push_at_lem :
      (i : ℕ) (x : Placed A) (chunks : List (List (Placed A)))
      → i < length chunks
      → (pre : List (Placed A)) × (post : List (Placed A)) × (concat chunks ≡ pre ++ post)
        × (concat (push_at i x chunks) ≡ pre ++ x ∷ post)
  push_at_lem i x [] lt = elim lt [ ]
  push_at_lem zero x (chunk ∷ chunks) lt = (chunk, concat chunks, refl, rw append_assoc)
  push_at_lem (suc i) x (chunk ∷ chunks) lt =
      let (pre, post, before, after) = push_at_lem i x chunks (omega arith) in
      (chunk ++ pre, post, rw (before, append_assoc), rw (after, append_assoc))

  length-push_at :
      (i : ℕ) (x : Placed A) (chunks : List (List (Placed A)))
      → length (push_at i x chunks) ≡ length chunks
  length-push_at i x [] = refl
  length-push_at zero x (chunk ∷ chunks) = refl
  length-push_at (suc i) x (chunk ∷ chunks) = ground (arith, length-push_at i x chunks)

  All-left :
      (P : Placed A → Type 0) (xs ys : List (Placed A)) → All P (xs ++ ys) → All P xs × All P ys
  All-left P [] ys a = (tt, a)
  All-left P (x ∷ xs) ys (p, a) = let (l, r) = All-left P xs ys a in ((p, l), r)

  -- Dealing round robin and sorting by position is sorting the jobs es they came.
  deal-sort :
      (all : List A) (count position : ℕ) (jobs : List A) (chunks : List (List (Placed A)))
      → 0 < count
      → length chunks ≡ count
      → All (IsAt all) (concat chunks)
      → All (IsAt all) (number position jobs)
      → sort by_position (concat (deal count position jobs chunks))
        ≡ sort by_position (concat chunks ++ number position jobs)
  unfolding deal
  deal-sort all count position [] chunks pos len a b = rw append-nil
  deal-sort all count position (job ∷ jobs) chunks pos len a b =
      let x : Placed A = record { position = position; value = job } in
      let turn = mod_lt position count pos in
      let (pre, post, before, after) =
        push_at_lem (position % count) x chunks (omega (arith, len)) in
      let (front, back) = All-left (IsAt all) pre post (subst (All (IsAt all)) before a) in
      let placed =
        subst (All (IsAt all)) (sym after)
          (All-append (IsAt all) pre (x ∷ post) front (b.0, back)) in
      deal-sort all count (position + 1) jobs (push_at (position % count) x chunks) pos
        (length-push_at (position % count) x chunks ∙ len) placed b.1
      ∙ rw (after, before)
          (sort-move_left by_position by_position-TotalOrder (IsAt all) (IsAt-antisym all) pre post
            x (number (position + 1) jobs) front back b.0)

  concat-replicate : (n : ℕ) → concat {A = A} (replicate n []) ≡ []
  concat-replicate zero = refl
  concat-replicate (suc n) = concat-replicate n

module _ {Job Done : Type 0} (run : Job → Result BatchFailure Done) where
  -- The bodies one after the other, up to the first that fails.
  unfoldable pub run_in_order : ℕ → List Job → Result BatchError (List Done)
  run_in_order position [] = ok []
  run_in_order position (job ∷ jobs) =
      collect_one run position (run job) (run_in_order (position + 1) jobs)

  collect-number :
      (position : ℕ) (jobs : List Job)
      → collect run (map (run_placed run) (number position jobs)) ≡ run_in_order position jobs
  unfolding run_in_order
  collect-number position [] = refl
  collect-number position (job ∷ jobs) =
      ap (collect_one run position (run job)) (collect-number (position + 1) jobs)

  map-append :
      (xs ys : List (Placed Job))
      → map (run_placed run) (xs ++ ys) ≡ map (run_placed run) xs ++ map (run_placed run) ys
  map-append [] ys = refl
  map-append (x ∷ xs) ys = ap (λ l. run_placed run x ∷ l) (map-append xs ys)

  run_chunks-concat :
      (chunks : List (List (Placed Job)))
      → run_chunks run chunks ≡ map (run_placed run) (concat chunks)
  run_chunks-concat [] = refl
  run_chunks-concat (c ∷ chunks) =
      rw (run_chunks-concat chunks) (sym (map-append c (concat chunks)))

  insert-map :
      (x : Placed Job) (l : List (Placed Job))
      → insert by_position (run_placed run x) (map (run_placed run) l)
        ≡ map (run_placed run) (insert by_position x l)
  unfolding insert
  insert-map x [] = refl
  insert-map x (y ∷ l) = elim (Bool-cases (leb x.position y.position)) [
    | inl e ↦ rw e refl
    | inr e ↦ rw e (ap (λ m. run_placed run y ∷ m) (insert-map x l))
  ]

  sort-map :
      (l : List (Placed Job))
      → sort by_position (map (run_placed run) l) ≡ map (run_placed run) (sort by_position l)
  unfolding sort
  sort-map [] = refl
  sort-map (x ∷ l) = rw (sort-map l) (insert-map x (sort by_position l))

  -- For every positive number of workers, running a batch in parallel chunks gives the results of
  -- the bodies in the order of the batch or the failure of the first that fails, exactly as running
  -- them one after the other does: the number of workers cannot be observed.
  pub run_prepared_batch_lem :
      (prepared : List Job) (workers : ℕ)
      → workers ≢ 0
      → run_prepared_batch run prepared workers ≡ run_in_order 0 prepared
  unfolding run_prepared_batch run_in_order
  run_prepared_batch_lem [] workers ne = refl
  run_prepared_batch_lem (job ∷ jobs) workers ne =
      let all = job ∷ jobs in
      let count = min workers (length all) in
      let chunks = deal count 0 all (replicate count []) in
      let placed = number-IsAt all all 0 (λ i. ap (get_elem? all) (omega arith)) in
      let dealt =
        deal-sort all count 0 all (replicate count []) (ground arith) (length-replicate count [])
          (subst (All (IsAt all)) (sym (concat-replicate count)) tt) placed in
      let in_order : sort by_position (concat chunks) ≡ number 0 all =
        dealt
        ∙ rw (concat-replicate count) (
            sort_sorted by_position by_position-TotalOrder (number 0 all)
              (number-IsSorted 0 all)) in
      ap (λ l. collect run (sort by_position l)) (run_chunks-concat chunks)
      ∙ ap (collect run) (sort-map (concat chunks))
      ∙ ap (λ l. collect run (map (run_placed run) l)) in_order
      ∙ collect-number 0 all
