-- ===== src/Isaac/Operation.antt =====
-- isaac/operation: how the members of the suffrage change, and isaac/suffrage_state.go, the state
-- that the operations read.
pub mod Join
pub mod Slices
pub mod Disjoin
pub mod Merge
pub mod Candidates
use mitum.Prelude.{
  ℕ, ◌+◌, Bool, true, false, not, Option, none, some, List, [], ◌∷◌, ltb, ltb_ℤ, leb_ℤ,
  if◌then◌else◌, Text, text_eq, keep_if, any,
}
use mitum.Base.Point.{Height}
use mitum.Base.Threshold.{Threshold, of_uint, mul, div, max_threshold}
use mitum.Isaac.Suffrage.{Node, Suffrage, exists_publickey, len}
use mitum.Isaac.Voteproof.{NodeSign}

-- `SuffrageNodeStateValue`
pub record SuffrageNode : Type 0 where
  pub member : Node
  pub start : Height

-- `SuffrageCandidateStateValue`
pub record Candidate : Type 0 where
  pub node : Node
  pub start : Height
  pub deadline : Height

-- What a constraint function, and what a processor answers: no reason against an operation, a
-- reason, or an error.
pub data Outcome : Type 0 where
  accepted refused fails : Outcome

-- `FilterCandidates`
filter_candidates : Height → List Candidate → List Candidate
filter_candidates height candidates = keep_if (λ i. leb_ℤ height i.deadline) candidates

-- `LastCandidatesFromState`; no state is no candidate.
unfoldable pub last_candidates : Height → Option (List Candidate) → List Candidate
unfolding filter_candidates
last_candidates height none = []
last_candidates height (some nodes) = filter_candidates height nodes

-- The signs of members by their own keys
count_signs : Suffrage → List NodeSign → ℕ
unfolding exists_publickey
count_signs suf [] = 0
count_signs suf (s ∷ signs) =
    let rest = count_signs suf signs in
    if exists_publickey suf s.node s.signer then 1 + rest else rest

-- base/sign.go, `CheckFactSignsBySuffrage`, of a suffrage that is not empty
unfoldable pub check_fact_signs : Suffrage → Threshold → List NodeSign → Bool
unfolding count_signs of_uint mul div max_threshold len
check_fact_signs suf threshold signs =
    not (
      ltb (mul (div (of_uint (count_signs suf signs)) (of_uint (len suf))) max_threshold) threshold)

-- util/slice.go, `Filter2Slices`, of values by the addresses that go
unfoldable pub filter_2_slices : {A : Type 0} → (A → Text) → List Text → List A → List A
filter_2_slices address gone [] = []
filter_2_slices address gone (x ∷ xs) =
    let rest = filter_2_slices address gone xs in
    if any (text_eq (address x)) gone then rest else x ∷ rest
