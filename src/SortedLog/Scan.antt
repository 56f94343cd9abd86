-- ===== src/SortedLog/Scan.antt =====
-- sorted_log_stream.rs, the two constructors of `SortedLogStreamReader`. A log is the sequence of
-- its lines. serde_json is a parameter: `from_str` parses a line as a row, `to_vec` prints a value,
-- and `from_slice` tells whether bytes hold a value.
use Prim.Native.Char.{code}
use Prim.Native.String.{String}
use text.Mathlib.Text.{◌==◌ as ◌≐◌}
use cfw.Prelude.{
  ℕ, ◌+◌, ◌%◌, ◌^◌, Bool, true, false, not, ◌&&◌, ◌||◌, Option, none, some, List, [], ◌∷◌, ◌++◌,
  length, leb, ◌==◌, ltb, if◌then◌else◌, map,
}
use cfw.Prelude.Result.{Result, ok, err, ◌>>=◌, ◌>>◌}
use cfw.Sort.{sort}
use cfw.Time.{FrameworkTime, time_le, invalid}
use cfw.SortedLog.{OwnedLogEntry, TempRun, time_of, sort_run}
use cfw.SortedLog.Reader.{
  LogReadError, json, zero_batch_size, too_many_entries, empty_sort_input, empty_channel_name,
  duplicate_artifact, invalid_timestamp, bad_artifact, Source, empty, memory, file,
  SortedLogStreamReader, initialize,
}

pub data Row (Value : Type 0) : Type 0 where
  artifact : String → Value → Row Value
  message : OwnedLogEntry → Row Value

-- `char::is_whitespace`: the ranges of the characters of Unicode's White_Space.
abbrev white_space : List (ℕ × ℕ)
white_space =
    (9, 13)
    ∷ (32, 32)
    ∷ (133, 133)
    ∷ (160, 160)
    ∷ (5760, 5760)
    ∷ (8192, 8202)
    ∷ (8232, 8233)
    ∷ (8239, 8239)
    ∷ (8287, 8287)
    ∷ (12288, 12288)
    ∷ []

abbrev in_any : ℕ → List (ℕ × ℕ) → Bool
in_any c [] = false
in_any c ((first, last) ∷ ranges) = (leb first c && leb c last) || in_any c ranges

abbrev is_whitespace : ℕ → Bool
is_whitespace c = in_any c white_space

-- `line.trim().is_empty()`.
abbrev pub is_blank : String → Bool
is_blank String.[] = true
is_blank (String.◌∷◌ c s) = is_whitespace (code c) && is_blank s

-- The sets and maps of texts, as lists without repetition.
abbrev pub insert_channel : String → List String → List String
insert_channel name [] = name ∷ []
insert_channel name (c ∷ cs) = if c ≐ name then c ∷ cs else c ∷ insert_channel name cs

abbrev pub contains_key : String → List (String × List ℕ) → Bool
contains_key name [] = false
contains_key name ((k, v) ∷ m) = (k ≐ name) || contains_key name m

abbrev pub insert_artifact : String → List ℕ → List (String × List ℕ) → List (String × List ℕ)
insert_artifact name body [] = (name, body) ∷ []
insert_artifact name body ((k, v) ∷ m) =
    if k ≐ name then (k, body) ∷ m else (k, v) ∷ insert_artifact name body m

abbrev pub recording_incompleteness : String
recording_incompleteness = "recording_incompleteness"

abbrev pub is_empty_text : String → Bool
is_empty_text String.[] = true
is_empty_text (String.◌∷◌ c s) = false

abbrev pub time_eq : FrameworkTime → FrameworkTime → Bool
time_eq a b = time_le a b && time_le b a

unfoldable pub validate : OwnedLogEntry → Result LogReadError (Unit {0})
validate entry =
    if time_eq (time_of entry) invalid
    then err (LogReadError.invalid (invalid_timestamp entry.channel_name))
    else if is_empty_text entry.channel_name
    then err (LogReadError.invalid empty_channel_name)
    else ok tt

-- The variables of the loop of `from_reader`.
pub record Scan : Type 0 where
  pub channels : List String
  pub artifacts : List (String × List ℕ)
  pub count : ℕ
  pub line_number : ℕ
  pub snapshot : TempRun
  pub sorted : Bool
  pub previous : Option FrameworkTime

abbrev pub start : Scan
start = record {
  channels = [];
  artifacts = [];
  count = 0;
  line_number = 0;
  snapshot = [];
  sorted = true;
  previous = none;
}

abbrev pub in_order : Option FrameworkTime → FrameworkTime → Bool
in_order none time = true
in_order (some last) time = time_le last time

unfoldable pub push_message : Scan → OwnedLogEntry → Scan
push_message s entry = record s {
  channels = insert_channel entry.channel_name s.channels;
  sorted = s.sorted && in_order s.previous (time_of entry);
  previous = some (time_of entry);
  snapshot = s.snapshot ++ record { sequence = s.count; entry = entry } ∷ [];
  count = s.count + 1;
}

-- The arm of the loop for a message.
unfoldable pub scan_message : Scan → OwnedLogEntry → Result LogReadError Scan
unfolding validate push_message
scan_message s entry = do
  validate entry
  if ltb (s.count + 1) (2 ^ 64)
      then ok (push_message s entry)
      else err (LogReadError.invalid too_many_entries)

-- `entry.header.published_at`, the key that `from_entries` sorts by.
abbrev pub entry_le : OwnedLogEntry → OwnedLogEntry → Bool
entry_le a b = time_le (time_of a) (time_of b)

abbrev pub choose_run : Scan → ℕ → Option TempRun
choose_run s sort_batch_size =
    if s.sorted then some s.snapshot else sort_run s.snapshot sort_batch_size

-- What follows the loop: the source that is read from.
unfoldable pub choose_source : Scan → ℕ → Result LogReadError Source
unfolding sort_run
choose_source s sort_batch_size =
    if s.count == 0 then ok empty else elim (choose_run s sort_batch_size) [
      | none ↦ err (LogReadError.invalid empty_sort_input)
      | some run ↦ ok (file (map some run))
    ]

module _ {Value : Type 0} (from_str : String → Option (Row Value))
    (to_vec : Value → Option (List ℕ)) where
  -- The arm of the loop for an artifact.
  unfoldable pub scan_artifact : Scan → String → Value → Result LogReadError Scan
  scan_artifact s name value =
      if contains_key name s.artifacts && not (name ≐ recording_incompleteness)
      then err (LogReadError.invalid (duplicate_artifact name s.line_number))
      else elim (to_vec value) [
        | none ↦ err (json s.line_number)
        | some body ↦ ok (record s { artifacts = insert_artifact name body s.artifacts })
      ]

  unfoldable pub scan_row : Scan → Option (Row Value) → Result LogReadError Scan
  unfolding scan_artifact scan_message
  scan_row s none = err (json s.line_number)
  scan_row s (some (artifact name value)) = scan_artifact s name value
  scan_row s (some (message entry)) = scan_message s entry

  -- One turn of the loop.
  unfoldable pub scan_line : Scan → String → Result LogReadError Scan
  unfolding scan_row
  scan_line s line =
      let counted : Scan = record s { line_number = (s.line_number + 1) % 2 ^ 64 } in
      if is_blank line then ok counted else scan_row counted (from_str line)

  unfoldable pub scan : Scan → List String → Result LogReadError Scan
  unfolding scan_line
  scan s [] = ok s
  scan s (line ∷ lines) = scan_line s line >>= λ s'. scan s' lines

  unfoldable pub from_reader : List String → ℕ → Result LogReadError SortedLogStreamReader
  unfolding scan choose_source initialize
  from_reader lines sort_batch_size =
      if sort_batch_size == 0 then err (LogReadError.invalid zero_batch_size) else do
        s ← scan start lines
        source ← choose_source s sort_batch_size
        initialize source s.channels s.artifacts s.count

unfoldable pub validate_all : List OwnedLogEntry → List String → Result LogReadError (List String)
unfolding validate
validate_all [] channels = ok channels
validate_all (entry ∷ entries) channels =
    validate entry >> validate_all entries (insert_channel entry.channel_name channels)

module _ (from_slice : List ℕ → Bool) where
  abbrev pub check_artifacts : List (String × List ℕ) → Result LogReadError (Unit {0})
  check_artifacts [] = ok tt
  check_artifacts ((name, body) ∷ m) =
      if from_slice body then check_artifacts m else err (LogReadError.invalid (bad_artifact name))

  unfoldable pub from_entries :
      List OwnedLogEntry → List (String × List ℕ) → Result LogReadError SortedLogStreamReader
  unfolding validate_all sort initialize
  from_entries entries artifacts = do
    channels ← validate_all entries []
    check_artifacts artifacts
    initialize (memory (sort entry_le entries)) channels artifacts (length entries)
