-- ===== src/ReplayFeed/Inject.antt =====
-- replay_feed.rs, `new`, `inject_due` and `inject_due_while`. A source is the name of its channel.
use Prim.Native.String.{String}
use text.Mathlib.Text.{◌==◌ as ◌≐◌}
use cfw.Prelude.{
  ℕ, zero, suc, ◌+◌, Bool, true, false, not, ◌&&◌, ◌||◌, Option, none, some, List, [], ◌∷◌,
  if◌then◌else◌, is_some, contains,
}
use cfw.Prelude.Result.{Result, ok, err, ◌>>=◌, ◌>>◌, guard, or_err}
use cfw.Interner.{same_text}
use cfw.NameTables.{decode_intern_tables, validate_descriptor_tables}
use cfw.Schema.{
  execution_log_channel, iox2_event_record_channel, execution_log_descriptor_artifact,
  intern_tables_artifact, EndpointDescriptor, CallbackDescriptor, ExecutionDescriptor,
  Iox2EventRecord, Decoders,
}
use cfw.SortedLog.{OwnedLogEntry}
use cfw.SortedLog.Reader.{SortedLogStreamReader, source_length}
use cfw.SortedLog.Scan.{recording_incompleteness}
use cfw.Time.{FrameworkTime, time_le}
use cfw.ExactReplay.{same_side, side}
use cfw.ExactReplay.Load.{artifact_of, tables_err}
use cfw.ReplayFeed.{
  Pending, message, observed, time_of, FeedError, incomplete_recording, failed_previously,
  bad_descriptor, reserved_source, duplicate_source, no_source, duplicate_callback,
  duplicate_endpoint, tables, source_failed, event_failed, panicked, ReplayFeed, next_time, Outcome,
  advance,
}

abbrev pub is_reserved : String → Bool
is_reserved name = (name ≐ execution_log_channel) || (name ≐ iox2_event_record_channel)

-- The map of sources by their channels.
unfoldable pub collect_sources : List String → List String → Result FeedError (List String)
collect_sources [] map = ok map
collect_sources (name ∷ names) map = do
  guard (not (is_reserved name)) (reserved_source name)
  guard (not (contains same_text name map)) (duplicate_source name)
  collect_sources names (name ∷ map)

unfoldable pub check_channels :
    List String → List String → List String → Result FeedError (Unit {0})
check_channels sources denied [] = ok tt
check_channels sources denied (c ∷ cs) = do
  guard (is_reserved c || (contains same_text c denied || contains same_text c sources))
      (no_source c)
  check_channels sources denied cs

abbrev check_ordinals :
    String → List (Bool × ℕ) → List EndpointDescriptor → Result FeedError (Unit {0})
check_ordinals name seen [] = ok tt
check_ordinals name seen (e ∷ es) = do
  guard (not (contains same_side (side e) seen)) (duplicate_endpoint name)
  check_ordinals name (side e ∷ seen) es

abbrev check_names : List String → List CallbackDescriptor → Result FeedError (Unit {0})
check_names seen [] = ok tt
check_names seen (c ∷ cs) = do
  guard (not (contains same_text c.name seen)) (duplicate_callback c.name)
  check_ordinals c.name [] c.endpoints
  check_names (c.name ∷ seen) cs

unfoldable pub check_descriptor :
    Decoders → SortedLogStreamReader → Option ExecutionDescriptor → Result FeedError (Unit {0})
unfolding decode_intern_tables validate_descriptor_tables
check_descriptor json reader none = ok tt
check_descriptor json reader (some d) = do
  t ← tables_err tables (decode_intern_tables json (artifact_of reader intern_tables_artifact))
  tables_err tables (validate_descriptor_tables t d)
  check_names [] d.callbacks

-- `map(from_slice).transpose()?`.
abbrev pub read_descriptor :
    Decoders → Option (List ℕ) → Result FeedError (Option ExecutionDescriptor)
read_descriptor json none = ok none
read_descriptor json (some bytes) = do
  d ← or_err (json.descriptor bytes) bad_descriptor
  ok (some d)

abbrev pub always : ℕ → Bool
always calls = true

abbrev pub advanced : Option (Outcome (Unit {0})) → Option (Result FeedError ReplayFeed)
advanced none = none
advanced (some o) = some (o.result >> ok o.feed)

unfoldable pub prepare :
    Decoders → SortedLogStreamReader → List String → List String → Result FeedError ReplayFeed
unfolding collect_sources check_channels check_descriptor
prepare json reader sources denied = do
  guard (not (is_some (artifact_of reader recording_incompleteness))) incomplete_recording
  map ← collect_sources sources []
  check_channels map denied reader.channels
  d ← read_descriptor json (artifact_of reader execution_log_descriptor_artifact)
  check_descriptor json reader d
  ok (record {
    reader = reader;
    sources = map;
    descriptor = d;
    denied = denied;
    pending = none;
    exhausted = false;
    failed = false;
    last_time = none;
  })

-- `ReplayFeed::new`; `none` means that fuel ran out.
unfoldable pub new :
    Decoders
    → SortedLogStreamReader
    → List String
    → List String
    → Option (Result FeedError ReplayFeed)
unfolding prepare advance
new json reader sources denied = elim (prepare json reader sources denied) [
  | err e ↦ some (err e)
  | ok feed ↦ advanced (advance json always feed 0)
]

abbrev pub due : FrameworkTime → Option Pending → Option Pending
due time none = none
due time (some p) = if time_le (time_of p) time then some p else none

module _ {S : Type 0} (inject : OwnedLogEntry → S → Result ℕ S)
    (event : String → String → Iox2EventRecord → S → Result ℕ S) where
  abbrev failed_as : (ℕ → FeedError) → Result ℕ S → Result FeedError S
  failed_as f (ok s) = ok s
  failed_as f (err e) = err (f e)

  -- A message without a source is `unwrap` of nothing, which unwinds; here it is an error like others.
  -- `new` refuses a log with a channel of data that has neither a source nor a denial.
  unfoldable pub deliver : List String → Pending → S → Result FeedError S
  deliver sources (message e) s =
      if contains same_text e.channel_name sources
      then failed_as source_failed (inject e s)
      else err panicked
  deliver sources (observed callback channel x) s =
      failed_as event_failed (event callback channel x s)

  -- How a call ends.
  pub record Injection : Type 0 where
    pub result : Result FeedError (Option FrameworkTime)
    pub feed : ReplayFeed
    pub world : S

  abbrev fails : FeedError → ReplayFeed → S → Option Injection
  fails e feed s = some (record { result = err e; feed = record feed { failed = true }; world = s })

  abbrev pub stops : ReplayFeed → S → Option Injection
  stops feed s = some (record { result = ok (next_time feed); feed = feed; world = s })

  -- What follows a call of `advance`.
  abbrev pub after_advance :
      Option (Outcome (Unit {0})) → S → (ReplayFeed → ℕ → Option Injection) → Option Injection
  after_advance none s again = none
  after_advance (some o) s again = elim o.result [
    | err e ↦ fails e o.feed s
    | ok x ↦ again o.feed o.calls
  ]

  module _ (json : Decoders) (running : ℕ → Bool) (time : FrameworkTime) where
    unfoldable pub inject_loop : ℕ → ReplayFeed → ℕ → S → Option Injection
    unfolding deliver advance
    inject_loop zero feed calls s = none
    inject_loop (suc fuel) feed calls s = elim (due time feed.pending) [
      | none ↦ stops feed s
      | some p ↦ elim (running calls) [
        | false ↦ stops feed s
        | true ↦ elim (deliver feed.sources p s) [
          | err e ↦ fails e (record feed { pending = none }) s
          | ok world ↦
              after_advance (advance json running feed (calls + 1)) world
                (λ next more. inject_loop fuel next more world)
        ]
      ]
    ]

    unfoldable pub inject_due_while : ReplayFeed → S → Option Injection
    unfolding inject_loop advance
    inject_due_while feed s =
        let fuel = source_length feed.reader.source + 3 in
        if feed.failed
        then some (record { result = err failed_previously; feed = feed; world = s })
        else if not (is_some feed.pending) && not feed.exhausted
        then after_advance (advance json running feed 0) s
            (λ next more. inject_loop fuel next more s)
        else inject_loop fuel feed 0 s
