-- ===== src/SortedLog/Scanned.antt =====
-- sorted_log_stream.rs: what the loop of `from_reader` keeps: the messages of the lines, their number, and
-- whether they are sorted.
use mathlib.Core.List.{append_assoc, append-nil}
use Prim.Native.String.{String}
use text.Mathlib.Text.{◌==◌ as ◌≐◌}
use cfw.Prelude.{
  ℕ, ◌+◌, ◌%◌, ◌^◌, ◌<◌, ◌≡◌, refl, subst, ◌⊎◌, inl, inr, true, ◌&&◌, Option, none, some, List, [],
  ◌∷◌, ◌++◌, if◌then◌else◌, All, All-append, All-map, arith, Bool-cases, length, length-append, ltb,
  not,
}
use cfw.Prelude.Result.{Result, ok, err}
use cfw.Sort.{IsSorted}
use cfw.Time.{FrameworkTime, time_le, invalid}
use cfw.SortedLog.{OwnedLogEntry, RunEntry, time_of, key_le}
use cfw.SortedLog.Reader.{
  LogReadError, json, too_many_entries, empty_channel_name, duplicate_artifact, invalid_timestamp,
}
use cfw.SortedLog.Stable.{number, number-append}
use cfw.SortedLog.Scan.{
  Row, artifact, message, Scan, start, is_blank, in_order, scan_message, scan_artifact, scan_row,
  scan_line, scan, validate, time_eq, is_empty_text, contains_key, insert_artifact,
  recording_incompleteness, push_message,
}

-- The messages among the lines of a log.
module _ {Value : Type 0} (from_str : String → Option (Row Value)) where
  abbrev pub message_of : Option (Row Value) → List OwnedLogEntry
  message_of none = []
  message_of (some (artifact name value)) = []
  message_of (some (message entry)) = entry ∷ []

  abbrev pub message_at : String → List OwnedLogEntry
  message_at line = if is_blank line then [] else message_of (from_str line)

  abbrev pub messages : List String → List OwnedLogEntry
  messages [] = []
  messages (line ∷ lines) = message_at line ++ messages lines

-- What the loop keeps: the messages seen, in their order, and whether they are sorted.
abbrev pub Before : Option FrameworkTime → ℕ → RunEntry → Type 0
Before none count row = ⊥
Before (some last) count row = (time_le (time_of row.entry) last ≡ true) × (row.sequence < count)

pub record IsScanOf (s : Scan) (seen : List OwnedLogEntry) : Type 0 where
  pub snapshot_eq : s.snapshot ≡ number 0 seen
  pub count_eq : s.count ≡ length seen
  pub in_sequence :
      s.sorted ≡ true → IsSorted key_le s.snapshot × All (Before s.previous s.count) s.snapshot

pub start-IsScanOf : IsScanOf start []
start-IsScanOf = record { snapshot_eq = refl; count_eq = refl; in_sequence = λ _. (tt, tt) }

append-IsSorted :
    (rows : List RunEntry) (row : RunEntry)
    → IsSorted key_le rows
    → All (λ r. key_le r row ≡ true) rows
    → IsSorted key_le (rows ++ row ∷ [])
append-IsSorted [] row s a = (tt, tt)
append-IsSorted (r ∷ rows) row s a = (
  All-append (λ y. key_le r y ≡ true) rows (row ∷ []) s.0 (a.0, tt),
  append-IsSorted rows row s.1 a.1,
)

Before-key_le :
    (previous : Option FrameworkTime) (row new : RunEntry)
    → in_order previous (time_of new.entry) ≡ true
    → Before previous new.sequence row
    → (key_le row new ≡ true) × Before (some (time_of new.entry)) (new.sequence + 1) row
Before-key_le none row new o b = elim b [ ]
Before-key_le (some last) row new o b = (ground arith, (ground arith, omega arith))

push_message-IsScanOf :
    (s : Scan) (seen : List OwnedLogEntry) (entry : OwnedLogEntry)
    → IsScanOf s seen
    → IsScanOf (push_message s entry) (seen ++ entry ∷ [])
unfolding push_message
push_message-IsScanOf s seen entry i =
    let new : RunEntry = record { sequence = s.count; entry = entry } in
    record {
      snapshot_eq =
          rw (i.snapshot_eq, i.count_eq, number-append 0 seen entry) (ground (arith, i.count_eq));
      count_eq = rw (i.count_eq) (ground (arith, length-append seen (entry ∷ [])));
      in_sequence = λ e.
          let order : in_order s.previous (time_of entry) ≡ true = ground arith in
          let (sorted, before) = i.in_sequence (ground arith) in
          let next =
            All-map (λ row b. Before-key_le s.previous row new order b) s.snapshot before in
          (
            append-IsSorted s.snapshot new sorted (All-map (λ row b. b.0) s.snapshot next),
            All-append (Before (some (time_of entry)) (s.count + 1)) s.snapshot (new ∷ [])
                (All-map (λ row b. b.1) s.snapshot next) ((ground arith, omega arith), tt),
          );
    }

validate_cases :
    (entry : OwnedLogEntry)
    → ((e : LogReadError) × (validate entry ≡ err e)) ⊎ (validate entry ≡ ok tt)
unfolding validate
validate_cases entry = elim (Bool-cases (time_eq (time_of entry) invalid)) [
  | inl bad ↦ inl (LogReadError.invalid (invalid_timestamp entry.channel_name), rw bad refl)
  | inr good ↦ elim (Bool-cases (is_empty_text entry.channel_name)) [
    | inl nameless ↦ inl (LogReadError.invalid empty_channel_name, rw (good, nameless) refl)
    | inr named ↦ inr (rw (good, named) refl)
  ]
]

module _ {Value : Type 0} (from_str : String → Option (Row Value))
    (to_vec : Value → Option (List ℕ)) where
  -- How a turn of the loop, or the whole of it, ends: with an error, or with the messages kept.
  abbrev pub Ends : Result LogReadError Scan → List OwnedLogEntry → Type 0
  Ends result seen =
      ((e : LogReadError) × (result ≡ err e)) ⊎ ((s : Scan) × (result ≡ ok s) × IsScanOf s seen)

  scan_message-Ends :
      (s : Scan) (seen : List OwnedLogEntry) (entry : OwnedLogEntry)
      → IsScanOf s seen
      → Ends (scan_message s entry) (seen ++ entry ∷ [])
  unfolding scan_message
  scan_message-Ends s seen entry i = elim (validate_cases entry) [
    | inl (e, bad) ↦ inl (e, rw bad refl)
    | inr good ↦ elim (Bool-cases (ltb (s.count + 1) (2 ^ 64))) [
      | inl fits ↦
          inr (push_message s entry, rw (good, fits) refl, push_message-IsScanOf s seen entry i)
      | inr full ↦ inl (LogReadError.invalid too_many_entries, rw (good, full) refl)
    ]
  ]

  scan_artifact-Ends :
      (s : Scan) (seen : List OwnedLogEntry) (name : String) (value : Value)
      → IsScanOf s seen
      → Ends (scan_artifact from_str to_vec s name value) seen
  unfolding scan_artifact
  scan_artifact-Ends s seen name value i =
      elim (Bool-cases (contains_key name s.artifacts && not (name ≐ recording_incompleteness))) [
        | inl twice ↦
            inl (LogReadError.invalid (duplicate_artifact name s.line_number), rw twice refl)
        | inr once ↦ rw once (store (to_vec value))
      ]
    where
      store :
          (body : Option (List ℕ))
          → Ends
              (elim body [
                | none ↦ err (json s.line_number)
                | some body ↦ ok (record s { artifacts = insert_artifact name body s.artifacts })
              ])
              seen
      store none = inl (json s.line_number, refl)
      store (some body) = inr (
        record s { artifacts = insert_artifact name body s.artifacts },
        refl,
        record { snapshot_eq = i.snapshot_eq; count_eq = i.count_eq; in_sequence = i.in_sequence },
      )

  scan_row-Ends :
      (s : Scan) (seen : List OwnedLogEntry) (row : Option (Row Value))
      → IsScanOf s seen
      → Ends (scan_row from_str to_vec s row) (seen ++ message_of from_str row)
  unfolding scan_row
  scan_row-Ends s seen none i = inl (json s.line_number, refl)
  scan_row-Ends s seen (some (artifact name value)) i =
      rw append-nil (scan_artifact-Ends s seen name value i)
  scan_row-Ends s seen (some (message entry)) i = scan_message-Ends s seen entry i

  scan_line-Ends :
      (s : Scan) (seen : List OwnedLogEntry) (line : String)
      → IsScanOf s seen
      → Ends (scan_line from_str to_vec s line) (seen ++ message_at from_str line)
  unfolding scan_line
  scan_line-Ends s seen line i =
      let counted : Scan = record s { line_number = (s.line_number + 1) % 2 ^ 64 } in
      let kept : IsScanOf counted seen = record {
        snapshot_eq = i.snapshot_eq;
        count_eq = i.count_eq;
        in_sequence = i.in_sequence;
      } in
      elim (Bool-cases (is_blank line)) [
        | inl blank ↦ rw (blank, append-nil) (inr (counted, refl, kept))
        | inr full ↦ rw full (scan_row-Ends counted seen (from_str line) kept)
      ]

  pub scan-Ends :
      (s : Scan) (seen : List OwnedLogEntry) (lines : List String)
      → IsScanOf s seen
      → Ends (scan from_str to_vec s lines) (seen ++ messages from_str lines)
  unfolding scan
  scan-Ends s seen [] i = rw append-nil (inr (s, refl, i))
  scan-Ends s seen (line ∷ lines) i = elim (scan_line-Ends s seen line i) [
    | inl (e, bad) ↦ inl (e, rw bad refl)
    | inr (s', good, i') ↦ rw good (
        subst (Ends (scan from_str to_vec s' lines))
          (append_assoc seen (message_at from_str line) (messages from_str lines))
          (scan-Ends s' (seen ++ message_at from_str line) lines i'))
  ]
