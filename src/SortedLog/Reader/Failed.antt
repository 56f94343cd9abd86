-- ===== src/SortedLog/Reader/Failed.antt =====
-- sorted_log_stream.rs: a reader after a call that gave an error.
use cfw.Prelude.{
  ℕ, zero, suc, ◌+◌, ◌≡◌, refl, subst, ◌⊎◌, inl, inr, Bool, true, false, Option, none, some, List,
  [], ◌∷◌, ◌++◌, if◌then◌else◌, arith,
}
use cfw.Prelude.Result.{Result, ok, err, ◌>>◌}
use cfw.Time.{FrameworkTime}
use cfw.SortedLog.{OwnedLogEntry}
use cfw.SortedLog.Reader.{
  Source, SortedLogStreamReader, LogReadError, poisoned, read_source, settle_advance, advance,
  peek_time, is_due, next_entry, push_next, read_loop, read_until, source_length, Batch,
}

-- A reader that fails every call and stays as it is.
abbrev pub IsPoisoned : SortedLogStreamReader → Type 0
IsPoisoned r =
    (next_entry r ≡ (err poisoned, r))
    × ((time : FrameworkTime) → read_until time r ≡ some (err poisoned, r))

refuses_again : (r : SortedLogStreamReader) → r.failed ≡ true → IsPoisoned r
unfolding next_entry read_until
refuses_again r f = (ground (arith, f), λ time. ground (arith, f))

-- An answer that is an error comes with a reader whose flag is set.
abbrev Flags : {R : Type 0} → Result LogReadError R × SortedLogStreamReader → Type 0
Flags (ok x, r) = Unit {0}
Flags (err e, r) = r.failed ≡ true

abbrev FlagsIfEnded : {R : Type 0} → Option (Result LogReadError R × SortedLogStreamReader) → Type 0
FlagsIfEnded none = Unit {0}
FlagsIfEnded (some x) = Flags x

if-Flags :
    {R : Type 0} (r : SortedLogStreamReader) (x y : Result LogReadError R × SortedLogStreamReader)
    (b : Bool)
    → (b ≡ true → Flags x)
    → Flags y
    → Flags (if b then x else y)
if-Flags r x y true h k = h refl
if-Flags r x y false h k = k

settle_advance-Flags :
    (r : SortedLogStreamReader) (x : Result LogReadError (Option OwnedLogEntry) × Source)
    → Flags (settle_advance r x)
unfolding settle_advance
settle_advance-Flags r (ok entry, source) = tt
settle_advance-Flags r (err d, source) = refl

then-Flags :
    {Q : Type 0} (x : Result LogReadError (Unit {0}) × SortedLogStreamReader) (q : Q)
    → Flags x
    → Flags ((x.0 >> ok q), x.1)
then-Flags (ok a, r) q h = tt
then-Flags (err e, r) q h = h

next_entry-Flags : (r : SortedLogStreamReader) → Flags (next_entry r)
unfolding next_entry advance
next_entry-Flags r =
    if-Flags r _ _ r.failed (λ f. f)
      (then-Flags (settle_advance (record r { peeked = none }) (read_source r.source)) r.peeked
        (settle_advance-Flags (record r { peeked = none }) (read_source r.source)))

push_next-Flags :
    (batch : List OwnedLogEntry) (x : Result LogReadError (Option OwnedLogEntry))
    (again : List OwnedLogEntry → Option (Batch × SortedLogStreamReader))
    (r : SortedLogStreamReader)
    → Flags (x, r)
    → ((grown : List OwnedLogEntry) → FlagsIfEnded (again grown))
    → FlagsIfEnded (push_next batch x again r)
unfolding push_next
push_next-Flags batch (ok (some e)) again r h k = k (batch ++ e ∷ [])
push_next-Flags batch (ok none) again r h k = tt
push_next-Flags batch (err e) again r h k = h

read_loop-Flags :
    (fuel : ℕ) (time : FrameworkTime) (batch : List OwnedLogEntry) (r : SortedLogStreamReader)
    → FlagsIfEnded (read_loop fuel time batch r)
unfolding read_loop
read_loop-Flags zero time batch r = tt
read_loop-Flags (suc fuel) time batch r = turn (is_due time (peek_time r)) _ (
    push_next-Flags batch (next_entry r).0 _ (next_entry r).1 (next_entry-Flags r)
      (λ grown. read_loop-Flags fuel time grown (next_entry r).1))
  where
    turn :
        (b : Bool) (x : Option (Batch × SortedLogStreamReader))
        → FlagsIfEnded x
        → FlagsIfEnded {R = List OwnedLogEntry × Option FrameworkTime}
            (elim b [ true ↦ x | false ↦ some (ok (batch, peek_time r), r) ])
    turn true x h = h
    turn false x h = tt

read_until-Flags :
    (time : FrameworkTime) (r : SortedLogStreamReader) → FlagsIfEnded (read_until time r)
unfolding read_until
read_until-Flags time r = start r.failed (λ f. f)
  where
    start :
        (b : Bool)
        → (b ≡ true → r.failed ≡ true)
        → FlagsIfEnded
            (if b then some (err poisoned, r) else read_loop (source_length r.source + 2) time [] r)
    start true h = h refl
    start false h = read_loop-Flags (source_length r.source + 2) time [] r

-- After a call of either kind that gave an error, from any reader, no call ever gives an entry again:
-- each fails, whatever its kind and its time, and leaves the reader as it is.
pub failed_forever :
    (time : FrameworkTime) (r r' : SortedLogStreamReader) (e : LogReadError)
    → (next_entry r ≡ (err e, r')) ⊎ (read_until time r ≡ some (err e, r'))
    → IsPoisoned r'
failed_forever time r r' e (inl h) = refuses_again r' (subst Flags h (next_entry-Flags r))
failed_forever time r r' e (inr h) =
    refuses_again r' (subst FlagsIfEnded h (read_until-Flags time r))
