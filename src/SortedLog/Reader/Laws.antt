-- ===== src/SortedLog/Reader/Laws.antt =====
-- sorted_log_stream.rs: reading entries one by one and by time, seen as operations on the list of
-- what is left.
use cfw.Prelude.{
  ℕ, zero, suc, ◌+◌, ◌≤◌, ◌<◌, ◌≡◌, refl, inl, inr, false, Option, none, some, List, [], ◌∷◌, ◌++◌,
  length, if◌then◌else◌, arith, Bool-cases, sym, ap, ◌∙◌,
}
use mathlib.Core.List.{append_assoc, append-nil}
use cfw.Prelude.Result.{ok, err}
use cfw.Time.{FrameworkTime, time_le}
use cfw.SortedLog.{OwnedLogEntry, RunEntry, time_of}
use cfw.SortedLog.Reader.{
  Source, empty, memory, file, SortedLogStreamReader, poisoned, read_source, settle_advance,
  advance, peek_time, time_of_peeked, next_entry, push_next, read_loop, read_until, source_length,
}

-- The entries that a source still yields.
abbrev pub decoded : List (Option RunEntry) → List OwnedLogEntry
decoded [] = []
decoded (none ∷ lines) = decoded lines
decoded (some row ∷ lines) = row.entry ∷ decoded lines

abbrev pub entries_of : Source → List OwnedLogEntry
entries_of empty = []
entries_of (memory es) = es
entries_of (file lines) = decoded lines

abbrev pub Decodes : List (Option RunEntry) → Type 0
Decodes [] = Unit {0}
Decodes (none ∷ lines) = ⊥
Decodes (some row ∷ lines) = Decodes lines

abbrev pub IsReadable : Source → Type 0
IsReadable empty = Unit {0}
IsReadable (memory es) = Unit {0}
IsReadable (file lines) = Decodes lines

-- What is left to read.
abbrev left_of : Option OwnedLogEntry → List OwnedLogEntry → List OwnedLogEntry
left_of none es = []
left_of (some e) es = e ∷ es

abbrev pub remaining : SortedLogStreamReader → List OwnedLogEntry
remaining r = left_of r.peeked (entries_of r.source)

pub record IsHealthy (r : SortedLogStreamReader) : Type 0 where
  pub not_failed : r.failed ≡ false
  pub readable : IsReadable r.source
  pub aligned : r.peeked ≡ none → entries_of r.source ≡ []

abbrev pub head_of : List OwnedLogEntry → Option OwnedLogEntry
head_of [] = none
head_of (e ∷ es) = some e

abbrev pub rest_of : List OwnedLogEntry → List OwnedLogEntry
rest_of [] = []
rest_of (e ∷ es) = es

read_source_lem :
    (s : Source)
    → IsReadable s
    → (s' : Source) × (read_source s ≡ (ok (head_of (entries_of s)), s'))
      × (entries_of s' ≡ rest_of (entries_of s))
      × IsReadable s'
unfolding read_source
read_source_lem empty h = (empty, refl, refl, tt)
read_source_lem (memory []) h = (memory [], refl, refl, tt)
read_source_lem (memory (e ∷ es)) h = (memory es, refl, refl, tt)
read_source_lem (file []) h = (file [], refl, refl, tt)
read_source_lem (file (none ∷ lines)) h = elim h [ ]
read_source_lem (file (some row ∷ lines)) h = (file lines, refl, refl, h)

left_of-head : (es : List OwnedLogEntry) → left_of (head_of es) (rest_of es) ≡ es
left_of-head [] = refl
left_of-head (e ∷ es) = refl

head_none : (es : List OwnedLogEntry) → head_of es ≡ none → rest_of es ≡ []
head_none [] e = refl
head_none (x ∷ es) e = cc

-- `advance` loads the next entry of a source that decodes.
pub advance_lem :
    (r : SortedLogStreamReader)
    → r.failed ≡ false
    → IsReadable r.source
    → (r' : SortedLogStreamReader) × (advance r ≡ (ok tt, r'))
      × (remaining r' ≡ entries_of r.source)
      × IsHealthy r'
      × (r'.entry_count ≡ r.entry_count)
unfolding advance settle_advance
advance_lem r f h =
    let (s', e, tail, readable) = read_source_lem r.source h in
    (
      record r { source = s'; peeked = head_of (entries_of r.source) },
      rw (e, settle_advance),
      rw tail (left_of-head (entries_of r.source)),
      record {
        not_failed = f;
        readable = readable;
        aligned = λ p. tail ∙ head_none (entries_of r.source) p;
      },
      refl,
    )

left_none :
    (p : Option OwnedLogEntry) (es : List OwnedLogEntry)
    → (p ≡ none → es ≡ [])
    → (head_of (left_of p es) ≡ p) × (rest_of (left_of p es) ≡ es)
left_none none es h = (refl, sym (h refl))
left_none (some e) es h = (refl, refl)

-- A healthy reader gives its entries in order, one at each call, and nothing after the last; the
-- reader that it leaves is healthy and has the rest to give.
pub next_entry_lem :
    (r : SortedLogStreamReader)
    → IsHealthy r
    → (r' : SortedLogStreamReader) × (next_entry r ≡ (ok (head_of (remaining r)), r'))
      × (remaining r' ≡ rest_of (remaining r))
      × IsHealthy r'
unfolding next_entry
next_entry_lem r h =
    let (r', e, left, healthy, _) =
      advance_lem (record r { peeked = none }) h.not_failed h.readable in
    let (first, others) = left_none r.peeked (entries_of r.source) h.aligned in
    (r', ground (arith, e, first), left ∙ sym others, healthy)

-- The entries up to a time, and those from the first later one on.
abbrev pub due_prefix : FrameworkTime → List OwnedLogEntry → List OwnedLogEntry
due_prefix time [] = []
due_prefix time (e ∷ es) = if time_le (time_of e) time then e ∷ due_prefix time es else []

abbrev pub after_due : FrameworkTime → List OwnedLogEntry → List OwnedLogEntry
after_due time [] = []
after_due time (e ∷ es) = if time_le (time_of e) time then after_due time es else e ∷ es

peek_time_lem :
    (r : SortedLogStreamReader) → IsHealthy r → peek_time r ≡ time_of_peeked (head_of (remaining r))
unfolding peek_time
peek_time_lem r h = rw (left_none r.peeked (entries_of r.source) h.aligned).0

read_loop_lem :
    (fuel : ℕ) (time : FrameworkTime) (batch es : List OwnedLogEntry) (r : SortedLogStreamReader)
    → IsHealthy r
    → remaining r ≡ es
    → length es < fuel
    → (r' : SortedLogStreamReader) × (read_loop fuel time batch r
        ≡ some (ok (batch ++ due_prefix time es, time_of_peeked (head_of (after_due time es))), r'))
      × (remaining r' ≡ after_due time es)
      × IsHealthy r'
unfolding read_loop push_next
read_loop_lem zero time batch es r h e lt = elim lt [ ]
read_loop_lem (suc fuel) time batch [] r h e lt =
    let next : peek_time r ≡ none = peek_time_lem r h ∙ ap (λ l. time_of_peeked (head_of l)) e in
    (r, rw (next, read_loop, next, append-nil) refl, e, h)
read_loop_lem (suc fuel) time batch (x ∷ es) r h e lt =
    let next : peek_time r ≡ some (time_of x) =
      peek_time_lem r h ∙ ap (λ l. time_of_peeked (head_of l)) e in
    elim (Bool-cases (time_le (time_of x) time)) [
      | inl due ↦
          let (r', step, left, healthy) = next_entry_lem r h in
          let (r'', loop, left', healthy') =
            read_loop_lem fuel time (batch ++ x ∷ []) es r' healthy (left ∙ ap rest_of e)
              (omega arith) in
          (
            r'',
            rw (next, read_loop, due, step, e, push_next) (loop ∙ rw append_assoc),
            rw due left',
            healthy',
          )
      | inr later ↦ (r, rw (next, read_loop, later, next, append-nil), rw later e, h)
    ]

length-decoded : (lines : List (Option RunEntry)) → length (decoded lines) ≤ length lines
length-decoded [] = ground arith
length-decoded (none ∷ lines) = ground (arith, length-decoded lines)
length-decoded (some row ∷ lines) = ground (arith, length-decoded lines)

length-entries_of : (s : Source) → length (entries_of s) ≤ source_length s
length-entries_of empty = ground arith
length-entries_of (memory es) = ground arith
length-entries_of (file lines) = length-decoded lines

length-left_of :
    (p : Option OwnedLogEntry) (es : List OwnedLogEntry) → length (left_of p es) ≤ length es + 1
length-left_of none es = ground arith
length-left_of (some e) es = ground arith

-- The loops over a reader turn at most once for every entry left, and once more.
pub length-remaining :
    (r : SortedLogStreamReader) → length (remaining r) < source_length r.source + 2
length-remaining r =
    omega (arith, length-left_of r.peeked (entries_of r.source), length-entries_of r.source)

open_read :
    (time : FrameworkTime) (r : SortedLogStreamReader)
    → r.failed ≡ false
    → read_until time r ≡ read_loop (source_length r.source + 2) time [] r
unfolding read_until
open_read time r f =
    ap
      (λ failed.
        if failed then some (err poisoned, r) else read_loop (source_length r.source + 2) time [] r)
      f

-- For a healthy reader, reading up to a time ends; it returns the entries left whose times are not
-- later, up to the first that is later, together with the time of that one, and leaves the reader
-- healthy with exactly the others, so that no entry is lost or given twice.
pub read_until_lem :
    (time : FrameworkTime) (r : SortedLogStreamReader)
    → IsHealthy r
    → (r' : SortedLogStreamReader) × (read_until time r
        ≡ some (
          ok (
            due_prefix time (remaining r),
            time_of_peeked (head_of (after_due time (remaining r))),
          ),
          r',
        ))
      × (remaining r' ≡ after_due time (remaining r))
      × IsHealthy r'
unfolding read_until
read_until_lem time r h =
    let (r', loop, left, healthy) =
      read_loop_lem (source_length r.source + 2) time [] (remaining r) r h refl
        (length-remaining r) in
    (r', open_read time r h.not_failed ∙ loop, left, healthy)
