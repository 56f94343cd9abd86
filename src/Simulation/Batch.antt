-- ===== src/Simulation/Batch.antt =====
-- simulation_executor/src/callback_execution.rs, `run_prepared_batch`: the bodies of a batch run in
-- chunks, one thread for each. A body owns its callback, so what it does depends on no other body,
-- and running it is a function of the job. With one worker the only chunk runs on the caller's thread.
pub mod Laws
use cfw.Prelude.{
  ℕ, zero, suc, ◌+◌, ◌%◌, min, Bool, Option, List, [], ◌∷◌, ◌++◌, map, length, replicate, leb,
}
use cfw.Prelude.Result.{Result, ok, err, ◌>>=◌}
use cfw.Sort.{sort}
use cfw.Simulation.{BatchFailure}

pub record Placed (A : Type 0) : Type 0 where
  pub position : ℕ
  pub value : A

-- `BatchError`.
pub record BatchError : Type 0 where
  pub failed_at : ℕ
  pub failure : BatchFailure

module _ {A : Type 0} where
  abbrev pub by_position : Placed A → Placed A → Bool
  by_position a b = leb a.position b.position

  abbrev pub concat : List (List (Placed A)) → List (Placed A)
  concat [] = []
  concat (chunk ∷ chunks) = chunk ++ concat chunks

  -- `chunks[i].push(x)`.
  abbrev pub push_at : ℕ → Placed A → List (List (Placed A)) → List (List (Placed A))
  push_at i x [] = []
  push_at zero x (chunk ∷ chunks) = (chunk ++ x ∷ []) ∷ chunks
  push_at (suc i) x (chunk ∷ chunks) = chunk ∷ push_at i x chunks

  unfoldable pub deal : ℕ → ℕ → List A → List (List (Placed A)) → List (List (Placed A))
  deal count position [] chunks = chunks
  deal count position (job ∷ jobs) chunks =
      deal count (position + 1) jobs
        (push_at (position % count) (record { position = position; value = job }) chunks)

module _ {Job Done : Type 0} (run : Job → Result BatchFailure Done) where
  abbrev pub run_placed : Placed Job → Placed (Result BatchFailure Done)
  run_placed job = record { position = job.position; value = run job.value }

  abbrev pub run_chunks : List (List (Placed Job)) → List (Placed (Result BatchFailure Done))
  run_chunks [] = []
  run_chunks (jobs ∷ chunks) = map run_placed jobs ++ run_chunks chunks

  abbrev pub collect_one :
      ℕ → Result BatchFailure Done → Result BatchError (List Done) → Result BatchError (List Done)
  collect_one position (err failure) rest = err (record { failed_at = position; failure = failure })
  collect_one position (ok done) rest = rest >>= λ finished. ok (done ∷ finished)

  abbrev pub collect : List (Placed (Result BatchFailure Done)) → Result BatchError (List Done)
  collect [] = ok []
  collect (result ∷ results) = collect_one result.position result.value (collect results)

  unfoldable pub run_prepared_batch : List Job → ℕ → Result BatchError (List Done)
  unfolding deal sort
  run_prepared_batch [] workers = ok []
  run_prepared_batch (job ∷ prepared) workers =
      let count = min workers (length (job ∷ prepared)) in
      let chunks = deal count 0 (job ∷ prepared) (replicate count []) in
      collect (sort by_position (run_chunks chunks))
