-- ===== src/Util/Batch.antt =====
-- util/worker.go, `BatchWork`: work on so many indices, some of them at a time.
pub mod Covers
pub mod Tests
use mitum.Prelude.{
  ℕ, zero, suc, ◌+◌, ◌-◌, Bool, true, false, Option, none, some, List, [], ◌∷◌, ◌++◌, ltb, leb,
  ◌==◌, if◌then◌else◌, any,
}

-- A call of `pref`, with the last index of a batch, or of `f`, with an index and the last of its batch
pub data BatchCall : Type 0 where
  prepares : ℕ → BatchCall
  works : ℕ → ℕ → BatchCall

-- What was called, the indices of a batch being worked on at the same time; and whether there is an error
pub record Worked : Type 0 where
  pub calls : List BatchCall
  pub failed : Bool

-- `f` for so many indices from the first on
unfoldable pub jobs : ℕ → ℕ → ℕ → List BatchCall
jobs first zero last = []
jobs first (suc n) last = works first last ∷ jobs (suc first) n last

module _ (fails : BatchCall → Bool) where
  -- One batch, up to the end
  unfoldable pub one_batch : ℕ → ℕ → Worked
  one_batch first end =
      if fails (prepares (end - 1))
      then record { calls = prepares (end - 1) ∷ []; failed = true }
      else record {
        calls = prepares (end - 1) ∷ jobs first (end - first) (end - 1);
        failed = any fails (jobs first (end - first) (end - 1));
      }

  unfoldable pub end_of : ℕ → ℕ → ℕ → ℕ
  end_of size limit i = if ltb size (i + limit) then size else i + limit

  unfoldable pub and_then : Worked → Option Worked → Option Worked
  and_then w rest =
      if w.failed
      then some w
      else elim rest [ none ↦ none | some r ↦ some (record r { calls = w.calls ++ r.calls }) ]

  -- The loop over the batches, of which `none` is that the fuel did not suffice
  unfoldable pub batches : ℕ → ℕ → ℕ → ℕ → Option Worked
  batches zero size limit i = none
  batches (suc fuel) size limit i =
      let rest = batches fuel size limit (i + limit) in
      if end_of size limit i == size
      then some (one_batch i size)
      else and_then (one_batch i (end_of size limit i)) rest

  -- `BatchWork`; a size below one is an error.
  unfoldable pub batch_work : ℕ → ℕ → ℕ → Option Worked
  batch_work fuel size limit =
      if ltb size 1
      then some (record { calls = []; failed = true })
      else if leb size limit
      then some (one_batch 0 size)
      else batches fuel size limit 0
