-- ===== src/ExactReplay/Tests.antt =====
-- replay_log.rs: runs of the model, and the theorems at inputs that meet their hypotheses.
use cfw.Prelude.{ℕ, ◌≡◌, ◌↔◌, refl, false, none, some, List, [], ◌∷◌, map, NoRepeat, All, arith}
use cfw.Prelude.Int.{pos}
use cfw.Prelude.Result.{ok, err, ◌>>=◌}
use cfw.Interner.{same_text}
use cfw.Schema.{
  execution_log_descriptor_artifact, intern_tables_artifact, full, published, received, native,
  EndpointDescriptor, ExecutionDescriptor, committed, ExecutionRecord, Decoders, InternTables,
}
use cfw.Sort.{sort}
use cfw.SortedLog.{MessageHeader, OwnedLogEntry}
use cfw.SortedLog.Reader.{memory, SortedLogStreamReader}
use cfw.SortedLog.Reader.Laws.{remaining, IsHealthy}
use cfw.Time.{from_nanos}
use cfw.ExactReplay.{ReplayLog, ambiguous_publication, check_callbacks, same_place}
use cfw.ExactReplay.Load.{earlier, finish, open_log, from_sorted}
use cfw.ExactReplay.Trace.{IsTrace}
use cfw.ExactReplay.Descriptor.{IsRecorded, all_places, check_callbacks_iff}
use cfw.ExactReplay.Finish.{finish_iff}
use cfw.ExactReplay.Reading.{push_entries}
use cfw.ExactReplay.FromSorted.{IsExactLog, from_sorted_total, from_sorted-IsExactLog}

abbrev at : ℕ → MessageHeader
at ns = record { published_at = from_nanos (pos ns); publisher_index = 0; batch_index = 0 }

-- A callback that reads one channel and writes another.
abbrev input : EndpointDescriptor
input = record {
  ordinal = 0;
  channel = "in";
  direction = received;
  transport = native;
  payload_type = "u64";
  publisher_index = none;
}

abbrev output : EndpointDescriptor
output = record {
  ordinal = 0;
  channel = "out";
  direction = published;
  transport = native;
  payload_type = "u64";
  publisher_index = some 0;
}

abbrev layout : ExecutionDescriptor
layout = record {
  callbacks = record { name = "work"; mode = full; endpoints = input ∷ output ∷ [] } ∷ [];
  logged_channels = "in" ∷ [];
}

abbrev execution : ℕ → ExecutionRecord
execution ns = record {
  callback_id = 0;
  execution_time = from_nanos (pos ns);
  body_duration_ns = 1;
  inputs = record { ordinal = 0; header = at 3 } ∷ [];
  iox2_events = [];
  output_iox2_events = [];
  outputs = record { ordinal = 0; header = at ns } ∷ [];
  outcome = committed;
  truncated = 0;
}

-- A body of one number says which value it holds.
abbrev first : List ℕ → ℕ
first [] = 0
first (n ∷ ns) = n

abbrev json : Decoders
json = record {
  descriptor = λ body. some layout;
  tables = λ body. some ("in" ∷ "out" ∷ [], "work" ∷ []);
  execution = λ body. some (execution (first body));
  event = λ body. none;
}

abbrev reader_of : List OwnedLogEntry → SortedLogStreamReader
reader_of es = record {
  source = memory es;
  channels = [];
  artifacts = (execution_log_descriptor_artifact, []) ∷ (intern_tables_artifact, []) ∷ [];
  entry_count = 3;
  first_time = none;
  peeked = some (record { header = at 3; channel_name = "in"; serialized_body = 1 ∷ [] });
  failed = false;
}

abbrev executed : ℕ → OwnedLogEntry
executed ns = record { header = at ns; channel_name = "execution_log"; serialized_body = ns ∷ [] }

abbrev reader : SortedLogStreamReader
reader = reader_of (executed 4 ∷ executed 5 ∷ [])

abbrev tables_read : InternTables
tables_read = record {
  channels = record {
    id_to_data = (0, "in") ∷ (1, "out") ∷ [];
    data_to_id = ("in", 0) ∷ ("out", 1) ∷ [];
  };
  callbacks = record { id_to_data = (0, "work") ∷ []; data_to_id = ("work", 0) ∷ [] };
}

abbrev log : ReplayLog
log = record {
  intern_tables = tables_read;
  descriptor = layout;
  executions = execution 4 ∷ execution 5 ∷ [];
  payloads = (("in", at 3), 1 ∷ []) ∷ [];
  logged = "in" ∷ [];
}

loads : from_sorted json reader ≡ some (ok log)
unfolding from_sorted
loads = refl

-- An output that repeats an identity is refused.
repeats :
    from_sorted json (reader_of (executed 4 ∷ executed 4 ∷ []))
    ≡ some (err (ambiguous_publication "out"))
unfolding from_sorted
repeats = refl

reader-IsHealthy : IsHealthy reader
reader-IsHealthy = record { not_failed = refl; readable = tt; aligned = λ e. cc }

from_sorted_total_example :
    from_sorted json reader
    ≡ some (
        open_log json reader >>= λ l.
        push_entries json l (remaining reader) >>= λ full. finish full)
from_sorted_total_example = from_sorted_total json reader reader-IsHealthy

from_sorted-IsExactLog_example : IsExactLog json reader log
from_sorted-IsExactLog_example = from_sorted-IsExactLog json reader log reader-IsHealthy loads

finish_example :
    (finish log ≡ ok (record log { executions = sort earlier log.executions }))
    ↔ IsTrace log.descriptor (sort earlier log.executions)
finish_example = finish_iff log (omega arith)

check_callbacks_example : (check_callbacks layout.callbacks [] [] ≡ ok tt) ↔ (
    All IsRecorded layout.callbacks
    × NoRepeat same_text [] (map (λ c. c.name) layout.callbacks)
    × NoRepeat same_place [] (all_places layout.callbacks))
check_callbacks_example = check_callbacks_iff layout
