-- ===== src/Util/Batch/Covers.antt =====
-- util/worker.go, `BatchWork`: every index is worked on once.
use mitum.Prelude.{ℕ, zero, suc, ◌≡◌, Bool, false, Option, some, List, [], ◌∷◌}
use mitum.Util.Batch.{BatchCall, prepares, works, Worked}

-- The indices that are worked on, in the order of the batches
pub worked_on : List BatchCall → List ℕ
worked_on [] = []
worked_on (prepares n ∷ xs) = worked_on xs
worked_on (works i n ∷ xs) = i ∷ worked_on xs

-- So many numbers, from the first on
unfoldable pub from_to : ℕ → ℕ → List ℕ
from_to i zero = []
from_to i (suc n) = i ∷ from_to (suc i) n

module _ (fails : BatchCall → Bool) (fine : (c : BatchCall) → fails c ≡ false) where
  -- What is left comes to its end.
  abbrev pub Covers : Option Worked → ℕ → ℕ → Type 0
  Covers o i n =
      (w : Worked) × (o ≡ some w) × (w.failed ≡ false) × (worked_on w.calls ≡ from_to i n)
