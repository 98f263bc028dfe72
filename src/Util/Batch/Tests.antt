-- ===== src/Util/Batch/Tests.antt =====
-- Runs of `BatchWork` of util/worker.go.
use mitum.Prelude.{◌≡◌, refl, Bool, false, some, [], ◌∷◌}
use mitum.Util.Batch.{
  BatchCall, prepares, works, batch_work, batches, one_batch, end_of, and_then, jobs,
}
use mitum.Util.Batch.Covers.{Covers}

abbrev nothing_fails : BatchCall → Bool
nothing_fails c = false

-- Five indices, at most two of them at a time
five_by_two :
    batch_work nothing_fails 5 5 2
    ≡ some (record {
      calls =
          prepares 1
          ∷ works 0 1
          ∷ works 1 1
          ∷ prepares 3
          ∷ works 2 3
          ∷ works 3 3
          ∷ prepares 4
          ∷ works 4 4
          ∷ [];
      failed = false;
    })
unfolding batch_work batches one_batch end_of and_then jobs
five_by_two = refl
