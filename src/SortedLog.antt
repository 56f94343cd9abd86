-- ===== src/SortedLog.antt =====
-- logging/src/sorted_log_stream.rs: the external merge sort. A temporary file is the sequence of
-- the entries that were written to it; its encoding by serde_json, its path and its deletion are
-- left out, and so are failures of the file system.
pub mod External
pub mod FromReader
pub mod Scanned
pub mod Reader
pub mod Scan
pub mod Stable
mod Tests
use Prim.Native.String.{String}
use cfw.Prelude.{
  ℕ, Bool, ◌&&◌, ◌||◌, Option, none, some, List, [], ◌∷◌, ◌++◌, length, leb, ◌==◌, if◌then◌else◌,
}
use cfw.Sort.{sort, merge}
use cfw.Time.{FrameworkTime, time_le, time_lt}

pub record MessageHeader : Type 0 where
  pub published_at : FrameworkTime
  pub publisher_index : ℕ
  pub batch_index : ℕ

pub record OwnedLogEntry : Type 0 where
  pub header : MessageHeader
  pub channel_name : String
  pub serialized_body : List ℕ

pub record RunEntry : Type 0 where
  pub sequence : ℕ
  pub entry : OwnedLogEntry

abbrev pub time_of : OwnedLogEntry → FrameworkTime
time_of e = e.header.published_at

-- `a.key() <= b.key()`, on pairs of a time and a sequence number.
abbrev pub key_le : RunEntry → RunEntry → Bool
key_le a b =
    time_lt (time_of a.entry) (time_of b.entry)
    || (time_le (time_of a.entry) (time_of b.entry) && leb a.sequence b.sequence)

abbrev pub TempRun : Type 0
TempRun = List RunEntry

unfoldable pub spill : List RunEntry → TempRun
unfolding sort
spill chunk = sort key_le chunk

unfoldable pub merge_runs : TempRun → TempRun → TempRun
unfolding merge
merge_runs left right = merge key_le left right

unfoldable pub add_run : List (Option TempRun) → TempRun → List (Option TempRun)
unfolding merge_runs
add_run [] run = some run ∷ []
add_run (none ∷ levels) run = some run ∷ levels
add_run (some previous ∷ levels) run = none ∷ add_run levels (merge_runs previous run)

-- The last loop of `sort_run`, over the levels from the first.
unfoldable pub collapse : Option TempRun → List (Option TempRun) → Option TempRun
unfolding merge_runs
collapse result [] = result
collapse result (none ∷ levels) = collapse result levels
collapse none (some run ∷ levels) = collapse (some run) levels
collapse (some previous) (some run ∷ levels) = collapse (some (merge_runs previous run)) levels

abbrev close_chunk : List (Option TempRun) → List RunEntry → List (Option TempRun)
unfolding add_run spill
close_chunk levels [] = levels
close_chunk levels (e ∷ chunk) = add_run levels (spill (e ∷ chunk))

unfoldable pub sort_loop :
    ℕ → List (Option TempRun) → List RunEntry → List RunEntry → Option TempRun
unfolding add_run spill collapse
sort_loop batch_size levels chunk [] = collapse none (close_chunk levels chunk)
sort_loop batch_size levels chunk (e ∷ input) =
    let grown = chunk ++ e ∷ [] in
    let full = length grown == batch_size in
    sort_loop batch_size (if full then add_run levels (spill grown) else levels)
      (if full then [] else grown) input

-- `none` is the error on an empty input.
unfoldable pub sort_run : TempRun → ℕ → Option TempRun
unfolding sort_loop
sort_run input batch_size = sort_loop batch_size [] [] input
