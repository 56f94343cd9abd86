-- ===== src/SortedLog/Reader.antt =====
-- sorted_log_stream.rs, `SortedLogStreamReader`: the cursor over a sorted log. A line of a sorted
-- run that does not decode is `none`.
pub mod Laws
pub mod Failed
use Prim.Native.String.{String}
use cfw.Prelude.{
  ℕ, zero, suc, ◌+◌, Bool, true, false, Option, none, some, List, [], ◌∷◌, ◌++◌, length, ◌==◌,
  if◌then◌else◌,
}
use cfw.Prelude.Result.{Result, ok, err, ◌>>=◌, ◌>>◌}
use cfw.Time.{FrameworkTime, time_le}
use cfw.SortedLog.{OwnedLogEntry, RunEntry, time_of}

-- The texts of `LogReadError::Invalid`.
pub data Reason : Type 0 where
  zero_batch_size too_many_entries empty_sort_input empty_channel_name : Reason
  duplicate_artifact : String → ℕ → Reason
  invalid_timestamp : String → Reason
  bad_artifact : String → Reason

pub data LogReadError : Type 0 where
  json : ℕ → LogReadError
  corrupt_run : LogReadError
  invalid : Reason → LogReadError
  poisoned : LogReadError

pub data Source : Type 0 where
  empty : Source
  memory : List OwnedLogEntry → Source
  file : List (Option RunEntry) → Source

pub record SortedLogStreamReader : Type 0 where
  pub source : Source
  pub channels : List String
  pub artifacts : List (String × List ℕ)
  pub entry_count : ℕ
  pub first_time : Option FrameworkTime
  pub peeked : Option OwnedLogEntry
  pub failed : Bool

-- One read of the source: what it yields, and the source after it.
unfoldable pub read_source : Source → Result LogReadError (Option OwnedLogEntry) × Source
read_source empty = (ok none, empty)
read_source (memory []) = (ok none, memory [])
read_source (memory (e ∷ es)) = (ok (some e), memory es)
read_source (file []) = (ok none, file [])
read_source (file (none ∷ lines)) = (err corrupt_run, file lines)
read_source (file (some row ∷ lines)) = (ok (some row.entry), file lines)

unfoldable pub settle_advance :
    SortedLogStreamReader
    → Result LogReadError (Option OwnedLogEntry) × Source
    → Result LogReadError (Unit {0}) × SortedLogStreamReader
settle_advance r (ok entry, source) = (ok tt, record r { source = source; peeked = entry })
settle_advance r (err e, source) = (err e, record r { source = source; failed = true })

unfoldable pub advance :
    SortedLogStreamReader → Result LogReadError (Unit {0}) × SortedLogStreamReader
unfolding read_source settle_advance
advance r = settle_advance r (read_source r.source)

abbrev pub time_of_peeked : Option OwnedLogEntry → Option FrameworkTime
time_of_peeked none = none
time_of_peeked (some e) = some (time_of e)

unfoldable pub peek_time : SortedLogStreamReader → Option FrameworkTime
peek_time r = time_of_peeked r.peeked

unfoldable pub with_first_time :
    Result LogReadError (Unit {0}) × SortedLogStreamReader
    → Result LogReadError SortedLogStreamReader
unfolding peek_time
with_first_time (ok done, r) = ok (record r { first_time = peek_time r })
with_first_time (err e, r) = err e

unfoldable pub initialize :
    Source → List String → List (String × List ℕ) → ℕ → Result LogReadError SortedLogStreamReader
unfolding advance with_first_time
initialize source channels artifacts entry_count = with_first_time (
    advance (record {
      source = source;
      channels = channels;
      artifacts = artifacts;
      entry_count = entry_count;
      first_time = none;
      peeked = none;
      failed = false;
    }))

unfoldable pub next_entry :
    SortedLogStreamReader → Result LogReadError (Option OwnedLogEntry) × SortedLogStreamReader
unfolding advance
next_entry r =
    if r.failed
    then (err poisoned, r)
    else let (result, after) = advance (record r { peeked = none }) in
      ((do result; ok r.peeked), after)

abbrev pub is_due : FrameworkTime → Option FrameworkTime → Bool
is_due time none = false
is_due time (some next) = time_le next time

-- How often the loop of `read_until` can turn.
abbrev pub source_length : Source → ℕ
source_length empty = 0
source_length (memory es) = length es
source_length (file lines) = length lines

abbrev Batch : Type 0
Batch = Result LogReadError (List OwnedLogEntry × Option FrameworkTime)

unfoldable pub push_next :
    List OwnedLogEntry
    → Result LogReadError (Option OwnedLogEntry)
    → (List OwnedLogEntry → Option (Batch × SortedLogStreamReader))
    → SortedLogStreamReader
    → Option (Batch × SortedLogStreamReader)
push_next batch (ok (some e)) again r = again (batch ++ e ∷ [])
push_next batch (ok none) again r = none
push_next batch (err e) again r = some (err e, r)

-- The loop of `read_until`; `none` stands for fuel that ran out, or an `unwrap` of nothing.
unfoldable pub read_loop :
    ℕ
    → FrameworkTime
    → List OwnedLogEntry
    → SortedLogStreamReader
    → Option (Batch × SortedLogStreamReader)
unfolding peek_time next_entry push_next
read_loop zero time batch r = none
read_loop (suc fuel) time batch r = elim (is_due time (peek_time r)) [
  | true ↦
      let (result, after) = next_entry r in
      push_next batch result (λ grown. read_loop fuel time grown after) after
  | false ↦ some (ok (batch, peek_time r), r)
]

unfoldable pub read_until :
    FrameworkTime → SortedLogStreamReader → Option (Batch × SortedLogStreamReader)
unfolding read_loop
read_until time r =
    if r.failed then some (err poisoned, r) else read_loop (source_length r.source + 2) time [] r
