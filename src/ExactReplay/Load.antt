-- ===== src/ExactReplay/Load.antt =====
-- replay_log.rs: `push`, `finish` and `from_sorted`. `sort_by_key` is the stable
-- sort; a loop over a reader has fuel, and `none` means that it ran out.
use Prim.Native.String.{String}
use text.Mathlib.Text.{◌==◌ as ◌≐◌}
use cfw.Prelude.{
  ℕ, zero, suc, ◌+◌, ◌^◌, ltb, ◌==◌, Bool, true, false, not, ◌&&◌, Option, none, some, List, [],
  ◌∷◌, ◌++◌, map, if◌then◌else◌, is_some, contains, length,
}
use cfw.Prelude.Result.{Result, ok, err, ◌>>=◌, ◌>>◌, guard, or_err}
use cfw.Interner.{same_text, same_id, get, put}
use cfw.NameTables.{decode_intern_tables, validate_descriptor_tables}
use cfw.Schema.{
  execution_log_channel, iox2_event_record_channel, execution_log_descriptor_artifact,
  intern_tables_artifact, received, published, is_event, is_committed, EndpointDescriptor,
  ExecutionDescriptor, ExecutionRecord, Iox2EventRecord, LoggedMessage, LoggedIox2Event, Decoders,
  same_time,
}
use cfw.Sort.{sort}
use cfw.SortedLog.{MessageHeader, OwnedLogEntry}
use cfw.SortedLog.Reader.{LogReadError, source_length, SortedLogStreamReader, next_entry}
use cfw.SortedLog.Scan.{recording_incompleteness}
use cfw.Time.{invalid, time_le}
use cfw.ExactReplay.{
  Reason, incomplete_recording, tables, reading, invalid_timestamp, bad_record,
  execution_time_differs, event_time_differs, not_event_endpoint, not_logged, ambiguous_payload,
  ambiguous_publication, not_committed, unknown_callback, invalid_reference, header_differs,
  batch_overflow, input_event_not_event, Identity, same_identity, ReplayLog, descriptor, endpoint,
}

abbrev pub has_payload : Identity → List (Identity × List ℕ) → Bool
has_payload key payloads = contains same_identity key (map (λ p. p.0) payloads)

unfoldable pub push_execution :
    ReplayLog → MessageHeader → ExecutionRecord → Result Reason ReplayLog
push_execution log header r = do
  guard (same_time r.execution_time header.published_at) execution_time_differs
  ok (record log { executions = log.executions ++ r ∷ [] })

unfoldable pub push_event : ReplayLog → MessageHeader → Iox2EventRecord → Result Reason ReplayLog
unfolding endpoint
push_event log header event = do
  guard (same_time event.observed_at header.published_at) event_time_differs
  e ← endpoint log.descriptor event.callback_id received event.iox2_event.ordinal true
  guard (is_event e.transport) not_event_endpoint
  ok log

unfoldable pub push_payload : ReplayLog → String → MessageHeader → List ℕ → Result Reason ReplayLog
push_payload log channel header bytes = do
  guard (contains same_text channel log.logged) (not_logged channel)
  guard (not (has_payload (channel, header) log.payloads)) (ambiguous_payload channel)
  ok (record log { payloads = ((channel, header), bytes) ∷ log.payloads })

unfoldable pub push :
    Decoders → ReplayLog → String → MessageHeader → List ℕ → Result Reason ReplayLog
unfolding push_execution push_event push_payload
push json log channel header bytes = do
  guard (not (same_time header.published_at invalid)) invalid_timestamp
  if channel ≐ execution_log_channel
      then (or_err (json.execution bytes) bad_record >>= λ r. push_execution log header r)
      else if channel ≐ iox2_event_record_channel
      then (or_err (json.event bytes) bad_record >>= λ e. push_event log header e)
      else push_payload log channel header bytes

-- What `finish` keeps while it looks at the messages of one record: the publications so far, and
-- the next batch index of every ordinal.
pub record Progress : Type 0 where
  pub produced : List Identity
  pub batch_indices : List (ℕ × ℕ)

abbrev pub or_zero : Option ℕ → ℕ
or_zero none = 0
or_zero (some n) = n

abbrev pub next_index : ℕ → List (ℕ × ℕ) → ℕ
next_index ordinal indices = or_zero (get same_id ordinal indices)

abbrev pub is_index : Option ℕ → ℕ → Bool
is_index none n = false
is_index (some m) n = m == n

abbrev pub follows : ExecutionRecord → EndpointDescriptor → LoggedMessage → ℕ → Bool
follows r e m next =
    is_index e.publisher_index m.header.publisher_index
    && (m.header.batch_index == next && same_time m.header.published_at r.execution_time)

unfoldable pub check_output :
    ExecutionRecord → EndpointDescriptor → LoggedMessage → Progress → Result Reason Progress
check_output r e m p = do
  guard (not (contains same_identity (e.channel, m.header) p.produced))
      (ambiguous_publication e.channel)
  let next = next_index m.ordinal p.batch_indices
  guard (follows r e m next) header_differs
  guard (ltb (next + 1) (2 ^ 32)) batch_overflow
  ok (record {
    produced = (e.channel, m.header) ∷ p.produced;
    batch_indices = put same_id m.ordinal (next + 1) p.batch_indices;
  })

module _ (d : ExecutionDescriptor) (r : ExecutionRecord) where
  unfoldable pub check_inputs : List LoggedMessage → Result Reason (Unit {0})
  unfolding endpoint
  check_inputs [] = ok tt
  check_inputs (m ∷ ms) = do
    e ← endpoint d r.callback_id received m.ordinal false
    guard (not (same_time m.header.published_at invalid)) invalid_reference
    check_inputs ms

  unfoldable pub check_outputs : List LoggedMessage → Progress → Result Reason Progress
  unfolding endpoint check_output
  check_outputs [] p = ok p
  check_outputs (m ∷ ms) p = do
    e ← endpoint d r.callback_id published m.ordinal false
    guard (not (same_time m.header.published_at invalid)) invalid_reference
    grown ← check_output r e m p
    check_outputs ms grown

  unfoldable pub check_input_events : List LoggedIox2Event → Result Reason (Unit {0})
  unfolding endpoint
  check_input_events [] = ok tt
  check_input_events (event ∷ events) = do
    e ← endpoint d r.callback_id received event.ordinal true
    guard (is_event e.transport) input_event_not_event
    check_input_events events

  unfoldable pub check_output_events : List LoggedIox2Event → Result Reason (Unit {0})
  unfolding endpoint
  check_output_events [] = ok tt
  check_output_events (event ∷ events) = do
    e ← endpoint d r.callback_id published event.ordinal true
    check_output_events events

  -- The body of the loop of `finish`; the result is the publications so far.
  unfoldable pub check_record : List Identity → Result Reason (List Identity)
  unfolding check_inputs check_outputs check_input_events check_output_events
  check_record produced = do
    guard (is_committed r.outcome) not_committed
    guard (ltb r.callback_id (length d.callbacks)) unknown_callback
    check_inputs r.inputs
    p ← check_outputs r.outputs (record { produced = produced; batch_indices = [] })
    check_input_events r.iox2_events
    check_output_events r.output_iox2_events
    ok p.produced

unfoldable pub check_records :
    ExecutionDescriptor → List ExecutionRecord → List Identity → Result Reason (Unit {0})
unfolding check_record
check_records d [] produced = ok tt
check_records d (r ∷ rs) produced = do grown ← check_record d r produced; check_records d rs grown

abbrev pub earlier : ExecutionRecord → ExecutionRecord → Bool
earlier a b = time_le a.execution_time b.execution_time

unfoldable pub finish : ReplayLog → Result Reason ReplayLog
unfolding check_records sort
finish log = do
  let sorted = sort earlier log.executions
  check_records log.descriptor sorted []
  ok (record log { executions = sorted })

abbrev pub artifact_of : SortedLogStreamReader → String → Option (List ℕ)
artifact_of r name = get same_text name r.artifacts

abbrev pub tables_err {ℓ κ} :
    {E : Type ℓ} {F : Type ℓ} {A : Type κ} → (E → F) → Result E A → Result F A
tables_err f (ok a) = ok a
tables_err f (err e) = err (f e)

unfoldable pub open_log : Decoders → SortedLogStreamReader → Result Reason ReplayLog
unfolding descriptor decode_intern_tables validate_descriptor_tables
open_log json reader = do
  guard (not (is_some (artifact_of reader recording_incompleteness))) incomplete_recording
  log ← descriptor json (artifact_of reader execution_log_descriptor_artifact)
  t ← tables_err tables (decode_intern_tables json (artifact_of reader intern_tables_artifact))
  tables_err tables (validate_descriptor_tables t log.descriptor)
  ok (record log { intern_tables = t })

-- What the loop does with one read of the reader.
unfoldable pub take_entry :
    Decoders
    → ReplayLog
    → Result LogReadError (Option OwnedLogEntry)
    → (ReplayLog → Option (Result Reason ReplayLog))
    → Option (Result Reason ReplayLog)
take_entry json log (err e) again = some (err (reading e))
take_entry json log (ok none) again = some (ok log)
take_entry json log (ok (some e)) again =
    elim (push json log e.channel_name e.header e.serialized_body) [
      | err x ↦ some (err x)
      | ok grown ↦ again grown
    ]

unfoldable pub read_all :
    Decoders → ℕ → ReplayLog → SortedLogStreamReader → Option (Result Reason ReplayLog)
unfolding next_entry take_entry push
read_all json zero log reader = none
read_all json (suc fuel) log reader =
    let (result, after) = next_entry reader in
    take_entry json log result (λ grown. read_all json fuel grown after)

abbrev pub and_finish : Option (Result Reason ReplayLog) → Option (Result Reason ReplayLog)
unfolding finish
and_finish none = none
and_finish (some result) = some (result >>= finish)

unfoldable pub from_sorted : Decoders → SortedLogStreamReader → Option (Result Reason ReplayLog)
unfolding open_log read_all finish
from_sorted json reader = elim (open_log json reader) [
  | err e ↦ some (err e)
  | ok log ↦ and_finish (read_all json (source_length reader.source + 2) log reader)
]
