-- ===== src/ReplayFeed/Tests.antt =====
-- replay_feed.rs: runs of the model, and the theorems at inputs that meet their hypotheses.
use Prim.Native.String.{String}
use cfw.Prelude.{ℕ, ◌≡◌, ◌⊎◌, refl, Bool, false, true, none, some, List, [], ◌∷◌, ◌++◌}
use cfw.Prelude.Int.{pos}
use cfw.Prelude.Result.{Result, ok, err}
use cfw.Schema.{Iox2EventRecord, Decoders}
use cfw.SortedLog.{OwnedLogEntry}
use cfw.SortedLog.Reader.{memory, SortedLogStreamReader}
use cfw.SortedLog.Reader.Laws.{IsHealthy}
use cfw.Time.{FrameworkTime, from_nanos}
use cfw.ReplayFeed.{message, FeedError, source_failed, failed_previously, ReplayFeed}
use cfw.ReplayFeed.Inject.{new, Injection, inject_due_while}
use cfw.ReplayFeed.Advance.{IsFeed}
use cfw.ReplayFeed.Serving.{Ended}
use cfw.ReplayFeed.Laws.{inject_due_while_lem}
use cfw.ReplayFeed.New.{IsFresh, new_lem, inject_failed_forever}

abbrev entry : ℕ → String → OwnedLogEntry
entry ns name = record {
  header = record { published_at = from_nanos (pos ns); publisher_index = 0; batch_index = 0 };
  channel_name = name;
  serialized_body = [];
}

abbrev json : Decoders
json = record {
  descriptor = λ body. none;
  tables = λ body. none;
  execution = λ body. none;
  event = λ body. none;
}

abbrev reader : SortedLogStreamReader
reader = record {
  source = memory (entry 4 "denied" ∷ entry 5 "in" ∷ entry 9 "in" ∷ []);
  channels = "in" ∷ "denied" ∷ [];
  artifacts = [];
  entry_count = 4;
  first_time = some (from_nanos (pos 3));
  peeked = some (entry 3 "in");
  failed = false;
}

-- The feed that `new` makes of the reader, with the first message pending.
abbrev feed : ReplayFeed
feed = record {
  reader = record reader {
    source = memory (entry 5 "in" ∷ entry 9 "in" ∷ []);
    peeked = some (entry 4 "denied");
  };
  sources = "in" ∷ [];
  descriptor = none;
  denied = "denied" ∷ [];
  pending = some (message (entry 3 "in"));
  exhausted = false;
  failed = false;
  last_time = some (from_nanos (pos 3));
}

made : new json reader ("in" ∷ []) ("denied" ∷ []) ≡ some (ok feed)
unfolding new
made = refl

-- A world of the messages that were published.
abbrev publish : OwnedLogEntry → List OwnedLogEntry → Result ℕ (List OwnedLogEntry)
publish e world = ok (world ++ e ∷ [])

abbrev refuse : OwnedLogEntry → List OwnedLogEntry → Result ℕ (List OwnedLogEntry)
refuse e world = err 7

abbrev notify :
    String → String → Iox2EventRecord → List OwnedLogEntry → Result ℕ (List OwnedLogEntry)
notify callback channel event world = ok world

abbrev never_stop : ℕ → Bool
never_stop calls = true

abbrev at_5 : FrameworkTime
at_5 = from_nanos (pos 5)

abbrev after : ReplayFeed
after = record feed {
  reader = record reader { source = memory []; peeked = none };
  pending = some (message (entry 9 "in"));
  last_time = some (from_nanos (pos 9));
}

injects :
    inject_due_while publish notify json never_stop at_5 feed []
    ≡ some (record {
      result = ok (some (from_nanos (pos 9)));
      feed = after;
      world = entry 3 "in" ∷ entry 5 "in" ∷ [];
    })
unfolding inject_due_while
injects = refl

reader-IsHealthy : IsHealthy reader
reader-IsHealthy = record { not_failed = refl; readable = tt; aligned = λ e. cc }

feed-IsFeed : IsFeed json feed
feed-IsFeed = record {
  healthy = record { not_failed = refl; readable = tt; aligned = λ e. cc };
  at_end = λ e. cc;
}

new_example :
    ((e : FeedError) × (new json reader ("in" ∷ []) ("denied" ∷ []) ≡ some (err e)))
    ⊎ ((f : ReplayFeed) × (new json reader ("in" ∷ []) ("denied" ∷ []) ≡ some (ok f))
        × IsFresh json reader ("in" ∷ []) ("denied" ∷ []) f)
new_example = new_lem json reader ("in" ∷ []) ("denied" ∷ []) reader-IsHealthy

inject_due_while_example :
    (i : Injection publish notify) × (inject_due_while publish notify json never_stop at_5 feed []
      ≡ some i)
    × Ended publish notify json never_stop at_5 feed [] i
inject_due_while_example =
    inject_due_while_lem publish notify json never_stop at_5 feed [] feed-IsFeed refl

abbrev stuck : ReplayFeed
stuck = record feed { pending = none; failed = true }

refuses :
    inject_due_while refuse notify json never_stop at_5 feed []
    ≡ some (record { result = err (source_failed 7); feed = stuck; world = [] })
unfolding inject_due_while
refuses = refl

inject_failed_forever_example :
    inject_due_while refuse notify json never_stop at_5 stuck (entry 1 "x" ∷ [])
    ≡ some (record { result = err failed_previously; feed = stuck; world = entry 1 "x" ∷ [] })
inject_failed_forever_example =
    inject_failed_forever refuse notify json never_stop at_5 feed []
      (record { result = err (source_failed 7); feed = stuck; world = [] }) (source_failed 7)
      feed-IsFeed refl refuses refl json never_stop at_5 (entry 1 "x" ∷ [])
