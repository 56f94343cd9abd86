-- ===== src/SortedLog/FromReader.antt =====
-- sorted_log_stream.rs: what a reader made by `from_reader` gives back.
use Prim.Native.String.{String}
use cfw.Prelude.{
  Bool, ℕ, ◌≡◌, ◌≢◌, refl, ap, sym, ◌∙◌, ◌⊎◌, inl, inr, false, Option, none, some, List, [], ◌∷◌,
  map, arith, Bool-cases, length, ◌==◌,
}
use cfw.Prelude.Result.{Result, ok, err, ◌>>=◌}
use cfw.Sort.{sort, sort_sorted}
use cfw.SortedLog.{OwnedLogEntry, RunEntry, TempRun, key_le}
use cfw.SortedLog.External.{key_le-TotalOrder, sort_run_lem}
use cfw.SortedLog.Reader.{
  LogReadError, Source, memory, file, empty, SortedLogStreamReader, initialize, with_first_time,
  peek_time,
}
use cfw.SortedLog.Reader.Laws.{
  decoded, entries_of, Decodes, IsReadable, remaining, IsHealthy, advance_lem,
}
use cfw.SortedLog.Stable.{number, number-IsFrom, map-sort}
use cfw.SortedLog.Scanned.{IsScanOf, start-IsScanOf, messages, scan-Ends}
use cfw.SortedLog.Scan.{
  Row, Scan, start, in_order, scan, choose_run, choose_source, from_reader, entry_le, validate_all,
  check_artifacts, from_entries,
}

Decodes-map :
    (run : TempRun) → Decodes (map some run) × (decoded (map some run) ≡ map RunEntry.entry run)
Decodes-map [] = (tt, refl)
Decodes-map (row ∷ run) = let (d, e) = Decodes-map run in (d, ap (λ l. row.entry ∷ l) e)

-- `initialize` succeeds on a source that decodes, and gives back all of it.
initialize_lem :
    (source : Source) (channels : List String) (artifacts : List (String × List ℕ)) (count : ℕ)
    → IsReadable source
    → (r : SortedLogStreamReader) × (initialize source channels artifacts count ≡ ok r)
      × (remaining r ≡ entries_of source)
      × IsHealthy r
      × (r.entry_count ≡ count)
unfolding initialize peek_time
initialize_lem source channels artifacts count h =
    let fresh : SortedLogStreamReader = record {
      source = source;
      channels = channels;
      artifacts = artifacts;
      entry_count = count;
      first_time = none;
      peeked = none;
      failed = false;
    } in
    let (r, e, left, healthy, kept) = advance_lem fresh refl h in
    (
      record r { first_time = peek_time r },
      ap with_first_time e,
      left,
      record {
        not_failed = healthy.not_failed;
        readable = healthy.readable;
        aligned = healthy.aligned;
      },
      kept,
    )

length-zero : (es : List OwnedLogEntry) → length es ≡ 0 → es ≡ []
length-zero [] e = refl
length-zero (x ∷ es) e = ground arith

number_nil : (es : List OwnedLogEntry) → number 0 es ≡ [] → length es ≡ 0
number_nil [] e = refl
number_nil (x ∷ es) e = cc

choose_run_lem :
    (s : Scan) (seen : List OwnedLogEntry) (batch : ℕ)
    → IsScanOf s seen
    → length seen ≢ 0
    → choose_run s batch ≡ some (sort key_le (number 0 seen))
choose_run_lem s seen batch i ne = elim (Bool-cases s.sorted) [
  | inl in_order ↦
      rw (in_order, ← i.snapshot_eq)
        (ap some (sym (sort_sorted key_le key_le-TotalOrder s.snapshot (i.in_sequence in_order).0)))
  | inr mixed ↦
      rw (mixed, i.snapshot_eq)
        (elim (sort_run_lem seen (number 0 seen) batch (number-IsFrom seen)) [
          | inl (nothing, failed) ↦ elim (ne (number_nil seen nothing)) [ ]
          | inr sorts ↦ sorts
        ])
]

-- The source that the scan ends with yields the messages in the order of their times.
choose_source_lem :
    (s : Scan) (seen : List OwnedLogEntry) (batch : ℕ)
    → IsScanOf s seen
    → (source : Source) × (choose_source s batch ≡ ok source)
      × IsReadable source
      × (entries_of source ≡ sort entry_le seen)
unfolding choose_source
choose_source_lem s seen batch i = elim (Bool-cases (s.count == 0)) [
  | inl zero_count ↦
      (empty, rw zero_count refl, tt, rw (length-zero seen (ground (arith, i.count_eq))) refl)
  | inr positive ↦
      let run = sort key_le (number 0 seen) in
      let (readable, same) = Decodes-map run in
      (
        file (map some run),
        rw (positive, choose_run_lem s seen batch i (ground (arith, i.count_eq))) refl,
        readable,
        same ∙ map-sort 0 seen,
      )
]

module _ {Value : Type 0} (from_str : String → Option (Row Value))
    (to_vec : Value → Option (List ℕ)) where
  -- For a positive batch size: reading a log either fails with the error at which the scan of its
  -- lines stops, or gives a healthy reader that holds all the messages of the log and no other,
  -- sorted by time with equal times in the order of the lines. The sort itself never fails.
  pub from_reader_lem :
      (lines : List String) (sort_batch_size : ℕ)
      → sort_batch_size ≢ 0
      → ((e : LogReadError) × (scan from_str to_vec start lines ≡ err e)
          × (from_reader from_str to_vec lines sort_batch_size ≡ err e))
        ⊎ ((r : SortedLogStreamReader) × (from_reader from_str to_vec lines sort_batch_size ≡ ok r)
            × (remaining r ≡ sort entry_le (messages from_str lines))
            × IsHealthy r
            × (r.entry_count ≡ length (messages from_str lines)))
  unfolding from_reader
  from_reader_lem lines batch ne =
      let positive : (batch == 0) ≡ false = ground arith in
      elim (scan-Ends from_str to_vec start [] lines start-IsScanOf) [
        | inl (e, bad) ↦ inl (e, bad, rw (positive, bad) refl)
        | inr (s, good, i) ↦ inr (
            let (source, chosen, readable, all) =
              choose_source_lem s (messages from_str lines) batch i in
            let (r, made, left, healthy, kept) =
              initialize_lem source s.channels s.artifacts s.count readable in
            (
              r,
              rw (positive, good)
                  (ap (λ c. c >>= λ src. initialize src s.channels s.artifacts s.count) chosen
                    ∙ made),
              left ∙ all,
              healthy,
              kept ∙ i.count_eq,
            ))
      ]

-- The fixture constructor either fails, with the error of the check of the entries or of the check
-- of the artifacts, or gives a healthy reader that holds all its entries and no other, sorted by
-- time with equal times in their order.
pub from_entries_lem :
    (from_slice : List ℕ → Bool) (entries : List OwnedLogEntry) (artifacts : List (String × List ℕ))
    → ((e : LogReadError) × ((validate_all entries [] ≡ err e)
          ⊎ (check_artifacts from_slice artifacts ≡ err e))
        × (from_entries from_slice entries artifacts ≡ err e))
      ⊎ ((r : SortedLogStreamReader) × (from_entries from_slice entries artifacts ≡ ok r)
          × (remaining r ≡ sort entry_le entries)
          × IsHealthy r
          × (r.entry_count ≡ length entries))
unfolding from_entries
from_entries_lem from_slice entries artifacts =
    go (validate_all entries []) refl (check_artifacts from_slice artifacts) refl
  where
    Ended : Result LogReadError SortedLogStreamReader → Type 0
    Ended result =
        ((e : LogReadError) × ((validate_all entries [] ≡ err e)
            ⊎ (check_artifacts from_slice artifacts ≡ err e))
          × (result ≡ err e))
        ⊎ ((r : SortedLogStreamReader) × (result ≡ ok r)
            × (remaining r ≡ sort entry_le entries)
            × IsHealthy r
            × (r.entry_count ≡ length entries))

    go :
        (checked : Result LogReadError (List String))
        → validate_all entries [] ≡ checked
        → (valued : Result LogReadError (Unit {0})) → check_artifacts from_slice artifacts ≡ valued
        → Ended (
            checked >>= λ channels. valued >>= λ done.
            initialize (memory (sort entry_le entries)) channels artifacts (length entries))
    go (err e) c valued v = inl (e, inl c, refl)
    go (ok channels) c (err e) v = inl (e, inr v, refl)
    go (ok channels) c (ok done) v =
        inr (initialize_lem (memory (sort entry_le entries)) channels artifacts (length entries) tt)
