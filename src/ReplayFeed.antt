-- ===== src/ReplayFeed.antt =====
-- logging/src/replay_feed.rs: the entries of a sorted log as the inputs of a replay. What a source
-- does with a message and an executor with an event is a parameter: a step on a state `S` of the
-- world that may fail. `running` is the answer of the caller's function at each of its calls.
pub mod Inject
pub mod Advance
pub mod Serving
pub mod Covered
pub mod Laws
pub mod New
mod Tests
use Prim.Native.String.{String}
use text.Mathlib.Text.{◌==◌ as ◌≐◌}
use cfw.Prelude.{
  ℕ, zero, suc, ◌+◌, ltb, ◌==◌, Bool, true, false, not, ◌&&◌, ◌||◌, Option, none, some, List, [],
  ◌∷◌, if◌then◌else◌, is_some, contains, get_elem?, length,
}
use cfw.Prelude.Result.{Result, ok, err, ◌>>=◌, ◌>>◌, guard, or_err}
use cfw.Interner.{same_text}
use cfw.NameTables.{TableError, decode_intern_tables, validate_descriptor_tables}
use cfw.Schema.{
  execution_log_channel, iox2_event_record_channel, execution_log_descriptor_artifact,
  intern_tables_artifact, is_received, is_event, EndpointDescriptor, CallbackDescriptor,
  ExecutionDescriptor, Iox2EventRecord, Decoders, same_time,
}
use cfw.SortedLog.{OwnedLogEntry}
use cfw.SortedLog.Reader.{LogReadError, SortedLogStreamReader, next_entry, source_length}
use cfw.SortedLog.Scan.{recording_incompleteness}
use cfw.Time.{FrameworkTime, time_le}
use cfw.ExactReplay.{same_side, side}
use cfw.ExactReplay.Load.{artifact_of}

pub data Pending : Type 0 where
  message : OwnedLogEntry → Pending
  observed : String → String → Iox2EventRecord → Pending

abbrev pub time_of : Pending → FrameworkTime
time_of (message e) = e.header.published_at
time_of (observed callback channel event) = event.observed_at

pub data FeedError : Type 0 where
  reading : LogReadError → FeedError
  incomplete_recording failed_previously bad_record bad_descriptor no_descriptor : FeedError
  reserved_source duplicate_source no_source duplicate_callback duplicate_endpoint :
      String → FeedError
  tables : TableError → FeedError
  invalid_execution event_time_differs no_callback unknown_ordinal ambiguous_ordinal : FeedError
  source_failed event_failed : ℕ → FeedError
  panicked : FeedError

pub record ReplayFeed : Type 0 where
  pub reader : SortedLogStreamReader
  pub sources : List String
  pub descriptor : Option ExecutionDescriptor
  pub denied : List String
  pub pending : Option Pending
  pub exhausted : Bool
  pub failed : Bool
  pub last_time : Option FrameworkTime

abbrev pub next_time : ReplayFeed → Option FrameworkTime
next_time feed = elim feed.pending [ none ↦ none | some p ↦ some (time_of p) ]

abbrev callback_at : Option ExecutionDescriptor → ℕ → Option CallbackDescriptor
callback_at none index = none
callback_at (some d) index = get_elem? d.callbacks index

abbrev with_ordinal : ℕ → List EndpointDescriptor → List EndpointDescriptor
with_ordinal ordinal [] = []
with_ordinal ordinal (e ∷ es) =
    if is_received e.direction && e.ordinal == ordinal
    then e ∷ with_ordinal ordinal es
    else with_ordinal ordinal es

-- The endpoint that an event is addressed to.
abbrev addressed : List EndpointDescriptor → Result FeedError EndpointDescriptor
addressed [] = err unknown_ordinal
addressed (e ∷ []) = if is_event e.transport then ok e else err ambiguous_ordinal
addressed (e ∷ f ∷ es) = err ambiguous_ordinal

module _ (json : Decoders) (descriptor : Option ExecutionDescriptor) (denied : List String) where
  unfoldable pub check_execution : OwnedLogEntry → Result FeedError (Option Pending)
  check_execution entry = do
    r ← or_err (json.execution entry.serialized_body) bad_record
    d ← or_err descriptor no_descriptor
    guard
        (ltb r.callback_id (length d.callbacks)
          && same_time r.execution_time entry.header.published_at)
        invalid_execution
    ok none

  unfoldable pub check_event : OwnedLogEntry → Result FeedError (Option Pending)
  check_event entry = do
    event ← or_err (json.event entry.serialized_body) bad_record
    guard (same_time event.observed_at entry.header.published_at) event_time_differs
    callback ← or_err (callback_at descriptor event.callback_id) no_callback
    e ← addressed (with_ordinal event.iox2_event.ordinal callback.endpoints)
    ok (
        if contains same_text e.channel denied
        then none
        else some (observed callback.name e.channel event))

  -- What the loop of `advance` makes of an entry: an error, nothing, or the next input.
  unfoldable pub classify : OwnedLogEntry → Result FeedError (Option Pending)
  unfolding check_execution check_event
  classify entry =
      if contains same_text entry.channel_name denied
      then ok none
      else if entry.channel_name ≐ execution_log_channel
      then check_execution entry
      else if entry.channel_name ≐ iox2_event_record_channel
      then check_event entry
      else ok (some (message entry))

-- A result, the feed after it, and how often `running` has been called.
pub record Outcome (A : Type 0) : Type 0 where
  pub result : Result FeedError A
  pub feed : ReplayFeed
  pub calls : ℕ

abbrev done : {A : Type 0} → Result FeedError A → ReplayFeed → ℕ → Option (Outcome A)
done result feed calls = some (record { result = result; feed = feed; calls = calls })

module _ (json : Decoders) (running : ℕ → Bool) where
  -- What the loop of `advance` does with what it read; `again` is the next turn of the loop.
  unfoldable pub take_read :
      Result LogReadError (Option OwnedLogEntry)
      → ReplayFeed
      → ℕ
      → (ReplayFeed → Option (Outcome (Unit {0})))
      → Option (Outcome (Unit {0}))
  unfolding classify
  take_read (err e) feed calls again = done (err (reading e)) feed calls
  take_read (ok none) feed calls again = done (ok tt) (record feed { exhausted = true }) calls
  take_read (ok (some entry)) feed calls again =
      let seen = record feed { last_time = some entry.header.published_at } in
      elim (classify json feed.descriptor feed.denied entry) [
        | err e ↦ done (err e) seen calls
        | ok none ↦ again seen
        | ok (some p) ↦ done (ok tt) (record seen { pending = some p }) calls
      ]

  unfoldable pub advance_loop : ℕ → ReplayFeed → ℕ → Option (Outcome (Unit {0}))
  unfolding take_read next_entry
  advance_loop zero feed calls = none
  advance_loop (suc fuel) feed calls = elim (running calls) [
    | true ↦
        let (result, reader) = next_entry feed.reader in
        take_read result (record feed { reader = reader }) (calls + 1)
          (λ again. advance_loop fuel again (calls + 1))
    | false ↦ done (ok tt) feed (calls + 1)
  ]

  unfoldable pub advance : ReplayFeed → ℕ → Option (Outcome (Unit {0}))
  unfolding advance_loop
  advance feed calls =
      advance_loop (source_length feed.reader.source + 2) (record feed { pending = none }) calls
