-- ===== src/Isaac/Operation/Candidates/Tests.antt =====
-- Runs of isaac/operation/suffrage_candidate_processor.go.
use mitum.Prelude.{ℕ, ◌≡◌, refl, Option, some, List, [], ◌∷◌, pos, text_eq, lookup, insert}
use mitum.Isaac.Suffrage.{Node}
use mitum.Isaac.Operation.{
  SuffrageNode, Candidate, Outcome, accepted, refused, last_candidates, filter_2_slices,
}
use mitum.Isaac.Operation.Join.{by_candidate}
use mitum.Isaac.Operation.Candidates.{
  CandidateProcessor, new_candidate_processor, pre_process_candidate, CandidatesMerger,
  close_candidates,
}
use mitum.Isaac.Operation.Candidates.Once.{new_candidate_processor-Unexpired, candidate_once}
use mitum.Isaac.Operation.Candidates.Next.{IsCandidateOrder}

abbrev node : ℕ → Node
node k = record { address = k ∷ []; publickey = k ∷ k ∷ [] }

abbrev candidate : ℕ → Candidate
candidate k = record { node = node k; start = pos 5; deadline = pos 50 }

abbrev members : Option (List SuffrageNode)
members = some (record { member = node 1; start = pos 0 } ∷ [])

abbrev known : Option (List Candidate)
known = some (candidate 2 ∷ [])

abbrev processor : CandidateProcessor
processor = new_candidate_processor (pos 33) members known (pos 10)

abbrev any_node : Node → Outcome
any_node n = accepted

is_new :
    pre_process_candidate any_node processor (node 3)
    ≡ (record processor { preprocessed = (3 ∷ []) ∷ [] }, accepted)
unfolding pre_process_candidate new_candidate_processor last_candidates by_candidate text_eq lookup
    insert
is_new = refl

candidate_once_example :
    pre_process_candidate any_node (record processor { preprocessed = (3 ∷ []) ∷ [] }) (node 3)
    ≡ (record processor { preprocessed = (3 ∷ []) ∷ [] }, refused)
candidate_once_example =
    candidate_once any_node any_node processor (record processor { preprocessed = (3 ∷ []) ∷ [] })
      (node 3) (node 3) accepted (new_candidate_processor-Unexpired (pos 33) members known (pos 10))
      is_new refl

abbrev changes : CandidatesMerger
changes = record {
  existings = candidate 2 ∷ candidate 4 ∷ [];
  added = candidate 3 ∷ [];
  removes = (2 ∷ []) ∷ [];
}

abbrev as_is : List Candidate → List Candidate
as_is cs = cs

as_is-IsCandidateOrder : IsCandidateOrder as_is
as_is-IsCandidateOrder = record { same = λ a cs. refl }

closed : close_candidates as_is changes ≡ some (candidate 4 ∷ candidate 3 ∷ [])
unfolding close_candidates filter_2_slices text_eq
closed = refl
