-- ===== src/SortedLog/External.antt =====
-- sorted_log_stream.rs: the external sort yields the sort of its whole input, for every batch size.
use mathlib.Core.List.{append_assoc, append-nil}
use cfw.Prelude.{
  ℕ, ◌≡◌, refl, ap, ◌∙◌, ◌⊎◌, inl, inr, true, Option, none, some, List, [], ◌∷◌, ◌++◌, All,
  All-append, arith, Bool-cases, length, get_elem?, ◌==◌,
}
use cfw.Sort.{TotalOrder, sort, merge-sort, sort-append_comm}
use cfw.SortedLog.{
  OwnedLogEntry, RunEntry, key_le, TempRun, spill, merge_runs, add_run, collapse, close_chunk,
  sort_loop, sort_run,
}

pub key_le-TotalOrder : TotalOrder key_le
key_le-TotalOrder = record { total = λ a b. ground arith; trans = λ a b c. ground arith }

-- Sequence numbers name entries: two run entries of one log that tie are equal.
abbrev pub IsFrom : List OwnedLogEntry → RunEntry → Type 0
IsFrom log e = get_elem? log e.sequence ≡ some e.entry

IsFrom-antisym :
    (log : List OwnedLogEntry) (a b : RunEntry)
    → IsFrom log a
    → IsFrom log b
    → key_le a b ≡ true
    → key_le b a ≡ true
    → a ≡ b
IsFrom-antisym log a b p q h k =
    let same : a.sequence ≡ b.sequence = ground arith in ground (arith, ap (get_elem? log) same)

module _ (log : List OwnedLogEntry) where
  -- What the levels hold, the oldest run last in the list of levels and first in the entries.
  abbrev Holds : List (Option TempRun) → List RunEntry → Type 0
  Holds [] es = es ≡ []
  Holds (none ∷ levels) es = Holds levels es
  Holds (some run ∷ levels) es =
      (old : List RunEntry) × (new : List RunEntry) × (es ≡ old ++ new)
      × (run ≡ sort key_le new)
      × All (IsFrom log) new
      × All (IsFrom log) old
      × Holds levels old

  merge_sorts :
      (xs ys : List RunEntry)
      → merge_runs (sort key_le xs) (sort key_le ys) ≡ sort key_le (xs ++ ys)
  unfolding merge_runs
  merge_sorts xs ys = merge-sort key_le key_le-TotalOrder xs ys

  add_run-Holds :
      (levels : List (Option TempRun)) (old new : List RunEntry)
      → All (IsFrom log) old
      → All (IsFrom log) new
      → Holds levels old
      → Holds (add_run levels (sort key_le new)) (old ++ new)
  unfolding add_run
  add_run-Holds [] old new a b h = (old, new, refl, refl, b, a, h)
  add_run-Holds (none ∷ levels) old new a b h = (old, new, refl, refl, b, a, h)
  add_run-Holds (some previous ∷ levels) old new a b (o, n, e, r, an, ao, h) =
      rw (r, e, append_assoc, merge_sorts n new)
        (add_run-Holds levels o (n ++ new) ao (All-append (IsFrom log) n new an b) h)

  swap_last :
      (done old new : List RunEntry)
      → All (IsFrom log) old
      → All (IsFrom log) new
      → sort key_le ((done ++ new) ++ old) ≡ sort key_le (done ++ (old ++ new))
  swap_last done old new a b =
      rw (append_assoc, ← merge_sorts done (new ++ old), ← merge_sorts done (old ++ new))
        (ap (merge_runs (sort key_le done))
          (sort-append_comm key_le key_le-TotalOrder (IsFrom log) (IsFrom-antisym log) new old b a))

  collapse_onto :
      (levels : List (Option TempRun)) (done old : List RunEntry)
      → Holds levels old
      → collapse (some (sort key_le done)) levels ≡ some (sort key_le (done ++ old))
  unfolding collapse
  collapse_onto [] done old h = rw (h, append-nil)
  collapse_onto (none ∷ levels) done old h = collapse_onto levels done old h
  collapse_onto (some run ∷ levels) done old (o, n, e, r, an, ao, h) =
      rw (r, e, merge_sorts done n)
        (collapse_onto levels (done ++ n) o h ∙ ap some (swap_last done o n ao an))

  collapse_all :
      (levels : List (Option TempRun)) (old : List RunEntry)
      → Holds levels old
      → ((old ≡ []) × (collapse none levels ≡ none))
        ⊎ (collapse none levels ≡ some (sort key_le old))
  unfolding collapse
  collapse_all [] old h = inl (h, refl)
  collapse_all (none ∷ levels) old h = collapse_all levels old h
  collapse_all (some run ∷ levels) old (o, n, e, r, an, ao, h) = inr (
      rw (r, e)
        (collapse_onto levels n o h
          ∙ ap some (
              sort-append_comm key_le key_le-TotalOrder (IsFrom log) (IsFrom-antisym log) n o an
                ao)))

  close_chunk-Holds :
      (levels : List (Option TempRun)) (old chunk : List RunEntry)
      → All (IsFrom log) old
      → All (IsFrom log) chunk
      → Holds levels old
      → Holds (close_chunk levels chunk) (old ++ chunk)
  unfolding spill add_run
  close_chunk-Holds levels old [] a b h = rw append-nil h
  close_chunk-Holds levels old (e ∷ chunk) a b h = add_run-Holds levels old (e ∷ chunk) a b h

  regroup :
      (old chunk : List RunEntry) (e : RunEntry) (input : List RunEntry)
      → (old ++ (chunk ++ e ∷ [])) ++ input ≡ old ++ (chunk ++ e ∷ input)
  regroup old chunk e input = rw (append_assoc, append_assoc)

  sort_loop_lem :
      (batch_size : ℕ) (levels : List (Option TempRun)) (old chunk input : List RunEntry)
      → All (IsFrom log) old
      → All (IsFrom log) chunk
      → All (IsFrom log) input
      → Holds levels old
      → ((old ++ (chunk ++ input) ≡ []) × (sort_loop batch_size levels chunk input ≡ none))
        ⊎ (sort_loop batch_size levels chunk input ≡ some (sort key_le (old ++ (chunk ++ input))))
  unfolding sort_loop spill
  sort_loop_lem batch_size levels old chunk [] a b c h = rw (append-nil chunk) (
      collapse_all (close_chunk levels chunk) (old ++ chunk)
        (close_chunk-Holds levels old chunk a b h))
  sort_loop_lem batch_size levels old chunk (e ∷ input) a b c h =
      let grown = All-append (IsFrom log) chunk (e ∷ []) b (c.0, tt) in
      elim (Bool-cases (length (chunk ++ e ∷ []) == batch_size)) [
        | inl full ↦
            rw (full, ← regroup old chunk e input)
              (sort_loop_lem batch_size (add_run levels (sort key_le (chunk ++ e ∷ [])))
                (old ++ (chunk ++ e ∷ [])) [] input
                (All-append (IsFrom log) old (chunk ++ e ∷ []) a grown) tt c.1
                (add_run-Holds levels old (chunk ++ e ∷ []) a grown h))
        | inr more ↦
            rw (more, ← append_assoc chunk (e ∷ []) input)
              (sort_loop_lem batch_size levels old (chunk ++ e ∷ []) input a grown c.1 h)
      ]

  -- For entries that are named by their sequence numbers, and any batch size, the external sort
  -- fails on the empty input only and otherwise yields the stable sort of its input by time and
  -- sequence number.
  pub sort_run_lem :
      (input : List RunEntry) (batch_size : ℕ)
      → All (IsFrom log) input
      → ((input ≡ []) × (sort_run input batch_size ≡ none))
        ⊎ (sort_run input batch_size ≡ some (sort key_le input))
  unfolding sort_run
  sort_run_lem input batch_size a = sort_loop_lem batch_size [] [] [] input tt tt a refl
