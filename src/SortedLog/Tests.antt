-- ===== src/SortedLog/Tests.antt =====
-- sorted_log_stream.rs: runs of the model, and the theorems at inputs that meet their hypotheses.
use Prim.Native.String.{String}
use text.Mathlib.Text.{◌==◌ as ◌≐◌}
use cfw.Prelude.{
  ℕ, ◌≡◌, ◌⊎◌, inl, refl, Option, none, some, true, false, List, [], ◌∷◌, if◌then◌else◌, arith,
  length, All,
}
use cfw.Prelude.Int.{pos}
use cfw.Prelude.Result.{ok, err}
use cfw.Sort.{sort, insert}
use cfw.Time.{from_nanos}
use cfw.SortedLog.{OwnedLogEntry, RunEntry, key_le, sort_run}
use cfw.SortedLog.External.{IsFrom, sort_run_lem}
use cfw.SortedLog.Reader.{
  LogReadError, corrupt_run, file, memory, SortedLogStreamReader, next_entry, read_until,
}
use cfw.SortedLog.Reader.Laws.{remaining, IsHealthy, next_entry_lem, read_until_lem}
use cfw.SortedLog.Reader.Failed.{IsPoisoned, failed_forever}
use cfw.SortedLog.Scan.{
  Row, artifact, message, start, scan, from_reader, entry_le, validate_all, check_artifacts,
  from_entries,
}
use cfw.SortedLog.Scanned.{messages}
use cfw.SortedLog.FromReader.{from_reader_lem, from_entries_lem}

abbrev entry_at : ℕ → String → OwnedLogEntry
entry_at ns name = record {
  header = record { published_at = from_nanos (pos ns); publisher_index = 0; batch_index = 0 };
  channel_name = name;
  serialized_body = [];
}

-- A log of three messages out of order, an artifact, and a blank line.
abbrev from_str : String → Option (Row ℕ)
from_str line =
    if line ≐ "three"
    then some (message (entry_at 3 "a"))
    else if line ≐ "one"
    then some (message (entry_at 1 "b"))
    else if line ≐ "meta"
    then some (artifact "tables" 7)
    else none

abbrev to_vec : ℕ → Option (List ℕ)
to_vec n = some (n ∷ [])

abbrev lines : List String
lines = "three" ∷ " " ∷ "one" ∷ "meta" ∷ "three" ∷ []

abbrev three_entries : List OwnedLogEntry
three_entries = entry_at 3 "a" ∷ entry_at 1 "b" ∷ entry_at 3 "c" ∷ []

abbrev rows : List RunEntry
rows =
    record { sequence = 0; entry = entry_at 3 "a" }
    ∷ record { sequence = 1; entry = entry_at 1 "b" }
    ∷ record { sequence = 2; entry = entry_at 3 "c" }
    ∷ []

sort_runs : sort entry_le three_entries ≡ entry_at 1 "b" ∷ entry_at 3 "a" ∷ entry_at 3 "c" ∷ []
unfolding sort insert
sort_runs = refl

abbrev reader : SortedLogStreamReader
reader = record {
  source = memory (entry_at 3 "a" ∷ entry_at 5 "c" ∷ []);
  channels = "a" ∷ [];
  artifacts = [];
  entry_count = 3;
  first_time = some (from_nanos (pos 1));
  peeked = some (entry_at 1 "b");
  failed = false;
}

reader-IsHealthy : IsHealthy reader
reader-IsHealthy = record { not_failed = refl; readable = tt; aligned = λ e. ground (arith, e) }

rows-IsFrom : All (IsFrom three_entries) rows
rows-IsFrom = (refl, (refl, (refl, tt)))

sort_run_example :
    ((rows ≡ []) × (sort_run rows 2 ≡ none)) ⊎ (sort_run rows 2 ≡ some (sort key_le rows))
sort_run_example = sort_run_lem three_entries rows 2 rows-IsFrom

next_entry_example :
    (r' : SortedLogStreamReader) × (next_entry reader ≡ (ok (some (entry_at 1 "b")), r'))
    × (remaining r' ≡ entry_at 3 "a" ∷ entry_at 5 "c" ∷ [])
    × IsHealthy r'
next_entry_example = next_entry_lem reader reader-IsHealthy

read_until_example :
    (r' : SortedLogStreamReader) × (read_until (from_nanos (pos 3)) reader
      ≡ some (ok (entry_at 1 "b" ∷ entry_at 3 "a" ∷ [], some (from_nanos (pos 5))), r'))
    × (remaining r' ≡ entry_at 5 "c" ∷ [])
    × IsHealthy r'
read_until_example = read_until_lem (from_nanos (pos 3)) reader reader-IsHealthy

-- A line of a sorted run that does not decode.
abbrev corrupt : SortedLogStreamReader
corrupt = record reader { source = file (none ∷ []) }

corrupt_fails :
    next_entry corrupt
    ≡ (err corrupt_run, record corrupt { source = file []; peeked = none; failed = true })
unfolding next_entry
corrupt_fails = refl

failed_forever_example :
    IsPoisoned (record corrupt { source = file []; peeked = none; failed = true })
failed_forever_example =
    failed_forever (from_nanos (pos 3)) corrupt
      (record corrupt { source = file []; peeked = none; failed = true }) corrupt_run
      (inl corrupt_fails)

from_reader_example :
    ((e : LogReadError) × (scan from_str to_vec start lines ≡ err e)
      × (from_reader from_str to_vec lines 2 ≡ err e))
    ⊎ ((r : SortedLogStreamReader) × (from_reader from_str to_vec lines 2 ≡ ok r)
        × (remaining r ≡ sort entry_le (messages from_str lines))
        × IsHealthy r
        × (r.entry_count ≡ length (messages from_str lines)))
from_reader_example = from_reader_lem from_str to_vec lines 2 (λ e. ground (arith, e))

from_entries_example :
    ((e : LogReadError) × ((validate_all three_entries [] ≡ err e)
        ⊎ (check_artifacts (λ body. true) [] ≡ err e))
      × (from_entries (λ body. true) three_entries [] ≡ err e))
    ⊎ ((r : SortedLogStreamReader) × (from_entries (λ body. true) three_entries [] ≡ ok r)
        × (remaining r ≡ sort entry_le three_entries)
        × IsHealthy r
        × (r.entry_count ≡ length three_entries))
from_entries_example = from_entries_lem (λ body. true) three_entries []
