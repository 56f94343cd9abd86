-- ===== src/ExactReplay/Reading.antt =====
-- replay_log.rs, `from_sorted`: what a log that was read holds of the entries of its reader.
use cfw.Prelude.{ℕ, zero, suc, ◌<◌, ◌≡◌, refl, ap, ◌∙◌, some, List, [], ◌∷◌, length, arith}
use cfw.Prelude.Result.{Result, ok, err, ◌>>=◌}
use cfw.Schema.{Decoders}
use cfw.SortedLog.{OwnedLogEntry}
use cfw.SortedLog.Reader.{SortedLogStreamReader}
use cfw.SortedLog.Reader.Laws.{remaining, IsHealthy, rest_of, next_entry_lem}
use cfw.ExactReplay.{Reason, ReplayLog}
use cfw.ExactReplay.Load.{push, take_entry, read_all}

module _ (json : Decoders) where
  -- Entries pushed one after the other.
  abbrev pub push_entries : ReplayLog → List OwnedLogEntry → Result Reason ReplayLog
  push_entries log [] = ok log
  push_entries log (e ∷ es) =
      push json log e.channel_name e.header e.serialized_body >>= λ grown. push_entries grown es

  pub read_all_lem :
      (fuel : ℕ) (log : ReplayLog) (es : List OwnedLogEntry) (reader : SortedLogStreamReader)
      → IsHealthy reader
      → remaining reader ≡ es
      → length es < fuel
      → read_all json fuel log reader ≡ some (push_entries log es)
  unfolding read_all take_entry
  read_all_lem zero log es reader h e lt = elim lt [ ]
  read_all_lem (suc fuel) log [] reader h e lt =
      let (after, step, left, healthy) = next_entry_lem reader h in rw (step, e, take_entry) refl
  read_all_lem (suc fuel) log (x ∷ es) reader h e lt =
      let (after, step, left, healthy) = next_entry_lem reader h in
      let again = λ (grown : ReplayLog).
        read_all_lem fuel grown es after healthy (left ∙ ap rest_of e) (omega arith) in
      rw (step, e, take_entry)
        (pushed (push json log x.channel_name x.header x.serialized_body) again)
    where
      pushed :
          (result : Result Reason ReplayLog)
          → ((grown : ReplayLog)
              → read_all json fuel grown (next_entry_lem reader h).0 ≡ some (push_entries grown es))
          → (elim result [
            | err x ↦ some (err x)
            | ok grown ↦ read_all json fuel grown (next_entry_lem reader h).0
          ])
            ≡ some (result >>= λ grown. push_entries grown es)
      pushed (err x) again = refl
      pushed (ok grown) again = again grown
