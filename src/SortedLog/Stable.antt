-- ===== src/SortedLog/Stable.antt =====
-- sorted_log_stream.rs: what `from_reader` reads back is the stable sort of the log by time.
use cfw.Prelude.{
  ℕ, suc, ◌+◌, ◌≤◌, ◌≡◌, refl, ap, subst, ◌∙◌, inl, inr, some, List, [], ◌∷◌, ◌++◌, map, All, arith,
  Bool-cases, length, get_elem?,
}
use cfw.Sort.{insert, sort, All-sort}
use cfw.SortedLog.{OwnedLogEntry, RunEntry, TempRun, key_le}
use cfw.SortedLog.External.{key_le-TotalOrder, IsFrom}
use cfw.SortedLog.Scan.{entry_le}

-- The snapshot of a log: its messages with their numbers.
abbrev pub number : ℕ → List OwnedLogEntry → TempRun
number n [] = []
number n (e ∷ es) = record { sequence = n; entry = e } ∷ number (n + 1) es

pub number-append :
    (n : ℕ) (es : List OwnedLogEntry) (e : OwnedLogEntry)
    → number n (es ++ e ∷ []) ≡ number n es ++ record { sequence = n + length es; entry = e } ∷ []
number-append n [] e = ground arith
number-append n (x ∷ es) e = rw (number-append (n + 1) es e) (ground arith)

get_elem?-number :
    (log es : List OwnedLogEntry) (n : ℕ)
    → ((i : ℕ) → get_elem? log (n + i) ≡ get_elem? es i)
    → All (IsFrom log) (number n es)
get_elem?-number log [] n at = tt
get_elem?-number log (e ∷ es) n at =
    let shift : (i : ℕ) → get_elem? log (n + (i + 1)) ≡ get_elem? es i = λ i.
      let next : suc i ≡ i + 1 = omega arith in
      subst (λ k. get_elem? log (n + k) ≡ get_elem? es i) next (at (suc i)) in
    (
      subst (λ k. get_elem? log k ≡ some e) (omega arith) (at 0),
      get_elem?-number log es (n + 1)
          (λ i. subst (λ k. get_elem? log k ≡ get_elem? es i) (omega arith) (shift i)),
    )

pub number-IsFrom : (log : List OwnedLogEntry) → All (IsFrom log) (number 0 log)
number-IsFrom log = get_elem?-number log log 0 (λ i. ap (get_elem? log) (omega arith))

-- Numbers that grow keep equal times in their order.
abbrev Above : ℕ → RunEntry → Type 0
Above n row = n ≤ row.sequence

number-Above : (n m : ℕ) (es : List OwnedLogEntry) → n ≤ m → All (Above n) (number m es)
number-Above n m [] le = tt
number-Above n m (e ∷ es) le = (le, number-Above n (m + 1) es (omega arith))

key_le-Above :
    (n : ℕ) (e : OwnedLogEntry) (row : RunEntry)
    → Above (n + 1) row
    → key_le (record { sequence = n; entry = e }) row ≡ entry_le e row.entry
key_le-Above n e row above = ground arith

map-insert :
    (n : ℕ) (e : OwnedLogEntry) (rows : List RunEntry)
    → All (Above (n + 1)) rows
    → map RunEntry.entry (insert key_le (record { sequence = n; entry = e }) rows)
      ≡ insert entry_le e (map RunEntry.entry rows)
unfolding insert
map-insert n e [] a = refl
map-insert n e (row ∷ rows) a = elim (Bool-cases (entry_le e row.entry)) [
  | inl le ↦ rw (key_le-Above n e row a.0, le)
  | inr gt ↦ rw (key_le-Above n e row a.0, gt) (ap (λ l. row.entry ∷ l) (map-insert n e rows a.1))
]

pub map-sort :
    (n : ℕ) (es : List OwnedLogEntry)
    → map RunEntry.entry (sort key_le (number n es)) ≡ sort entry_le es
unfolding sort
map-sort n [] = refl
map-sort n (e ∷ es) =
    map-insert n e (sort key_le (number (n + 1) es)) (
      All-sort key_le key_le-TotalOrder (Above (n + 1)) (number (n + 1) es)
        (number-Above (n + 1) (n + 1) es (omega arith)))
    ∙ ap (insert entry_le e) (map-sort (n + 1) es)
