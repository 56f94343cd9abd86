-- ===== src/ExactReplay.antt =====
-- exact_replay_executor/src/replay_log.rs: the trace that an exact replay follows, with the checks
-- that a recorded log has to pass. A `BTreeMap` of payloads and the sets are the lists of their
-- entries.
pub mod Load
pub mod Trace
mod Tests
pub mod Contents
pub mod FromSorted
pub mod Reading
pub mod Descriptor
pub mod Finish
use Prim.Native.String.{String}
use text.Mathlib.Text.{◌==◌ as ◌≐◌}
use cfw.Prelude.{
  ℕ, ◌==◌, Bool, true, false, not, ◌&&◌, ◌||◌, Option, none, some, List, [], ◌∷◌, if◌then◌else◌,
  is_some, contains, get_elem?,
}
use cfw.Prelude.Result.{Result, ok, err, ◌>>=◌, ◌>>◌, guard, or_err}
use cfw.Interner.{same_text, new}
use cfw.NameTables.{TableError}
use cfw.Schema.{
  InternTables, is_full, Direction, is_published, is_received, same_direction, is_native, is_event,
  EndpointDescriptor, CallbackDescriptor, ExecutionDescriptor, ExecutionRecord, Decoders,
  same_header,
}
use cfw.SortedLog.{MessageHeader}
use cfw.SortedLog.Reader.{LogReadError}

-- The texts of `ExactReplayStepError::InvalidLog`.
pub data Reason : Type 0 where
  incomplete_recording descriptor_required bad_descriptor duplicate_callback : Reason
  not_fully_recorded duplicate_ordinal duplicate_publisher : String → Reason
  publisher_index_misplaced : Reason
  tables : TableError → Reason
  reading : LogReadError → Reason
  invalid_timestamp bad_record execution_time_differs event_time_differs not_event_endpoint : Reason
  not_logged ambiguous_payload ambiguous_publication : String → Reason
  not_committed unknown_callback invalid_reference header_differs batch_overflow : Reason
  unknown_endpoint : Direction → ℕ → ℕ → Reason
  input_event_not_event : Reason

abbrev pub Identity : Type 0
Identity = String × MessageHeader

abbrev pub same_identity : Identity → Identity → Bool
same_identity (a, h) (b, k) = (a ≐ b) && same_header h k

pub record ReplayLog : Type 0 where
  pub intern_tables : InternTables
  pub descriptor : ExecutionDescriptor
  pub executions : List ExecutionRecord
  pub payloads : List (Identity × List ℕ)
  pub logged : List String

-- A set of `(channel, index)`, and one of `(received, ordinal)`.
abbrev pub same_place : String × ℕ → String × ℕ → Bool
same_place (a, i) (b, j) = (a ≐ b) && i == j

abbrev pub same_bool : Bool → Bool → Bool
same_bool true b = b
same_bool false b = not b

abbrev pub same_side : Bool × ℕ → Bool × ℕ → Bool
same_side (a, i) (b, j) = same_bool a b && i == j

abbrev pub side : EndpointDescriptor → Bool × ℕ
side e = (is_received e.direction, e.ordinal)

abbrev pub is_data_output : EndpointDescriptor → Bool
is_data_output e = is_published e.direction && not (is_event e.transport)

-- `if let Some(index) = … && !publishers.insert(…)`.
unfoldable pub add_publisher :
    String → Option ℕ → List (String × ℕ) → Result Reason (List (String × ℕ))
add_publisher channel none publishers = ok publishers
add_publisher channel (some index) publishers = do
  guard (not (contains same_place (channel, index) publishers)) (duplicate_publisher channel)
  ok ((channel, index) ∷ publishers)

unfoldable pub check_endpoints :
    String
    → List EndpointDescriptor
    → List (Bool × ℕ)
    → List (String × ℕ)
    → Result Reason (List (String × ℕ))
unfolding add_publisher
check_endpoints name [] endpoints publishers = ok publishers
check_endpoints name (e ∷ es) endpoints publishers = do
  guard (same_bool (is_data_output e) (is_some e.publisher_index)) publisher_index_misplaced
  grown ← add_publisher e.channel e.publisher_index publishers
  guard (not (contains same_side (side e) endpoints)) (duplicate_ordinal name)
  check_endpoints name es (side e ∷ endpoints) grown

unfoldable pub check_callbacks :
    List CallbackDescriptor → List String → List (String × ℕ) → Result Reason (Unit {0})
unfolding check_endpoints
check_callbacks [] names publishers = ok tt
check_callbacks (c ∷ cs) names publishers = do
  guard (is_full c.mode) (not_fully_recorded c.name)
  guard (not (contains same_text c.name names)) duplicate_callback
  grown ← check_endpoints c.name c.endpoints [] publishers
  check_callbacks cs (c.name ∷ names) grown

-- `ReplayLog::descriptor`.
unfoldable pub descriptor : Decoders → Option (List ℕ) → Result Reason ReplayLog
unfolding check_callbacks
descriptor json bytes = do
  found ← or_err bytes descriptor_required
  read ← or_err (json.descriptor found) bad_descriptor
  check_callbacks read.callbacks [] []
  ok (record {
    intern_tables = record { channels = new; callbacks = new };
    descriptor = read;
    executions = [];
    payloads = [];
    logged = read.logged_channels;
  })

-- The test of `find` in `endpoint`.
abbrev pub is_wanted : Direction → ℕ → Bool → EndpointDescriptor → Bool
is_wanted direction ordinal event e =
    same_direction e.direction direction
    && (e.ordinal == ordinal
        && (if event then not (is_native e.transport) else not (is_event e.transport)))

abbrev pub find {ℓ} : {A : Type ℓ} → (A → Bool) → List A → Option A
find test [] = none
find test (x ∷ xs) = if test x then some x else find test xs

unfoldable pub endpoint_of :
    Option CallbackDescriptor → Direction → ℕ → Bool → Option EndpointDescriptor
endpoint_of none direction ordinal event = none
endpoint_of (some c) direction ordinal event = find (is_wanted direction ordinal event) c.endpoints

unfoldable pub endpoint :
    ExecutionDescriptor → ℕ → Direction → ℕ → Bool → Result Reason EndpointDescriptor
unfolding endpoint_of
endpoint descriptor callback direction ordinal event =
    or_err (endpoint_of (get_elem? descriptor.callbacks callback) direction ordinal event)
      (unknown_endpoint direction ordinal callback)
