-- ===== src/Schema.antt =====
-- task/src/execution_log_schema.rs: what a recorded execution log holds. A vector of fixed capacity
-- is the list of its entries.
use Prim.Native.String.{String}
use cfw.Prelude.{ℕ, ◌==◌, Bool, true, false, ◌&&◌, Option, none, some, List}
use cfw.Prelude.Int.{leb_ℤ}
use cfw.Interner.{StringInterner, put, same_text, get}
use cfw.SortedLog.{MessageHeader}
use cfw.Time.{FrameworkTime}

abbrev pub execution_log_channel : String
execution_log_channel = "execution_log"

abbrev pub iox2_event_record_channel : String
iox2_event_record_channel = "iox2_event_records"

abbrev pub execution_log_descriptor_artifact : String
execution_log_descriptor_artifact = "execution_log_descriptor"

abbrev pub intern_tables_artifact : String
intern_tables_artifact = "intern_tables"

-- The derived equality of times and headers.
abbrev pub same_time : FrameworkTime → FrameworkTime → Bool
same_time a b = leb_ℤ a.nanoseconds b.nanoseconds && leb_ℤ b.nanoseconds a.nanoseconds

abbrev pub same_header : MessageHeader → MessageHeader → Bool
same_header a b =
    same_time a.published_at b.published_at
    && (a.publisher_index == b.publisher_index && a.batch_index == b.batch_index)

pub record InternTables : Type 0 where
  pub channels : StringInterner
  pub callbacks : StringInterner

pub data ExecutionLogMode : Type 0 where
  off duration_only full : ExecutionLogMode

abbrev pub is_full : ExecutionLogMode → Bool
is_full full = true
is_full _ = false

pub record ExecutionLogModes : Type 0 where
  pub default_mode : ExecutionLogMode
  pub callbacks : List (String × ExecutionLogMode)

abbrev pub unwrap_or : ExecutionLogMode → Option ExecutionLogMode → ExecutionLogMode
unwrap_or default none = default
unwrap_or default (some mode) = mode

unfoldable pub with_callback : ExecutionLogModes → String → ExecutionLogMode → ExecutionLogModes
with_callback modes name mode = record modes { callbacks = put same_text name mode modes.callbacks }

unfoldable pub mode_for : ExecutionLogModes → String → ExecutionLogMode
mode_for modes name = unwrap_or modes.default_mode (get same_text name modes.callbacks)

pub data Direction : Type 0 where
  received published : Direction

pub data Transport : Type 0 where
  native iox2_data iox2_event : Transport

abbrev pub is_published : Direction → Bool
is_published received = false
is_published published = true

abbrev pub is_received : Direction → Bool
is_received received = true
is_received published = false

abbrev pub same_direction : Direction → Direction → Bool
same_direction received d = is_received d
same_direction published d = is_published d

abbrev pub is_native : Transport → Bool
is_native native = true
is_native _ = false

abbrev pub is_event : Transport → Bool
is_event iox2_event = true
is_event _ = false

pub record EndpointDescriptor : Type 0 where
  pub ordinal : ℕ
  pub channel : String
  pub direction : Direction
  pub transport : Transport
  pub payload_type : String
  pub publisher_index : Option ℕ

pub record CallbackDescriptor : Type 0 where
  pub name : String
  pub mode : ExecutionLogMode
  pub endpoints : List EndpointDescriptor

pub record ExecutionDescriptor : Type 0 where
  pub callbacks : List CallbackDescriptor
  pub logged_channels : List String

pub record LoggedMessage : Type 0 where
  pub ordinal : ℕ
  pub header : MessageHeader

pub record LoggedIox2Event : Type 0 where
  pub ordinal : ℕ
  pub event_id : ℕ
  pub count : ℕ

pub record Iox2EventRecord : Type 0 where
  pub callback_id : ℕ
  pub observed_at : FrameworkTime
  pub iox2_event : LoggedIox2Event

-- The errors of iceoryx2 are known by a number.
pub data LoanError : Type 0 where
  loan_capacity_reached arena_exhausted pending_batch_not_empty : LoanError
  iox2_cannot_send_to_native : LoanError
  iox2_loan iox2_send : ℕ → LoanError

pub data Outcome : Type 0 where
  committed body_panicked cancelled commit_panicked : Outcome
  body_error : LoanError → Outcome

abbrev pub is_committed : Outcome → Bool
is_committed committed = true
is_committed _ = false

pub record ExecutionRecord : Type 0 where
  pub callback_id : ℕ
  pub execution_time : FrameworkTime
  pub body_duration_ns : ℕ
  pub inputs : List LoggedMessage
  pub iox2_events : List LoggedIox2Event
  pub output_iox2_events : List LoggedIox2Event
  pub outputs : List LoggedMessage
  pub outcome : Outcome
  pub truncated : ℕ

-- serde_json, where it reads the values of a recorded log: the bytes of each either hold such a
-- value or do not. A name table is written as its names.
pub record Decoders : Type 0 where
  pub descriptor : List ℕ → Option ExecutionDescriptor
  pub tables : List ℕ → Option (List String × List String)
  pub execution : List ℕ → Option ExecutionRecord
  pub event : List ℕ → Option Iox2EventRecord
