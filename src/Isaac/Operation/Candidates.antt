-- ===== src/Isaac/Operation/Candidates.antt =====
-- isaac/operation/suffrage_candidate_processor.go: a node becomes a candidate.
pub mod Once
pub mod Next
mod Tests
use mitum.Prelude.{
  ℕ, ◌+◌, ◌+ℤ◌, pos, wrap64, Bool, true, false, not, ◌&&◌, Option, none, some, List, [], ◌∷◌, ◌++◌,
  leb_ℤ, if◌then◌else◌, Text, text_eq, lookup, insert, any, is_nil, is_some, map,
}
use mitum.Base.Point.{Height}
use mitum.Isaac.Suffrage.{Node}
use mitum.Isaac.Operation.{
  SuffrageNode, Candidate, Outcome, accepted, refused, fails, last_candidates, filter_2_slices,
}
use mitum.Isaac.Operation.Join.{by_candidate}

-- The fact of a candidate operation is the node that it names.
pub record CandidateProcessor : Type 0 where
  pub at_height : Height
  pub existings : List (Text × Candidate)
  pub suffrages : List (Text × Node)
  pub preprocessed : List Text
  pub startheight : Height
  pub deadlineheight : Height

by_node : List (Text × Node) → List SuffrageNode → List (Text × Node)
by_node m [] = m
by_node m (n ∷ ns) = by_node (insert n.member.address n.member m) ns

suffrages_of : Option (List SuffrageNode) → List (Text × Node)
unfolding by_node
suffrages_of none = []
suffrages_of (some ns) = by_node [] ns

-- `NewSuffrageCandidateProcessor`; without the state of a suffrage there is no member.
unfoldable pub new_candidate_processor :
    Height → Option (List SuffrageNode) → Option (List Candidate) → Height → CandidateProcessor
unfolding suffrages_of
new_candidate_processor height ns cs lifespan = record {
  at_height = height;
  existings = by_candidate [] (last_candidates height cs);
  suffrages = suffrages_of ns;
  preprocessed = [];
  startheight = wrap64 (height +ℤ pos 1);
  deadlineheight = wrap64 (wrap64 (height +ℤ pos 1) +ℤ lifespan);
}

note : CandidateProcessor → Text → CandidateProcessor
note p a = record p { preprocessed = a ∷ p.preprocessed }

-- What the record of an earlier candidacy says: the processor, and whether to go on
after_record : CandidateProcessor → Text → Option Candidate → CandidateProcessor × Bool
unfolding note
after_record p a none = (note p a, true)
after_record p a (some record_of) =
    if leb_ℤ p.at_height record_of.deadline then (note p a, false) else (p, true)

by_constraint : Outcome → CandidateProcessor × Bool → CandidateProcessor × Outcome
by_constraint o (p, true) = (p, o)
by_constraint o (p, false) = (p, refused)

-- `PreProcess`
unfoldable pub pre_process_candidate :
    (Node → Outcome) → CandidateProcessor → Node → CandidateProcessor × Outcome
unfolding after_record by_constraint
pre_process_candidate constraint p fact =
    if any (text_eq fact.address) p.preprocessed
    then (p, refused)
    else if is_some (lookup fact.address p.suffrages)
    then (p, refused)
    else by_constraint (constraint fact)
        (after_record p fact.address (lookup fact.address p.existings))

-- `Process`
pub process_new_candidate :
    (Node → Outcome) → CandidateProcessor → Node → Option Candidate × Outcome
process_new_candidate constraint p fact = elim (constraint fact) [
  | accepted ↦
      (some (record { node = fact; start = p.startheight; deadline = p.deadlineheight }), accepted)
  | refused ↦ (none, refused)
  | fails ↦ (none, fails)
]

-- `SuffrageCandidatesStateValueMerger`
pub record CandidatesMerger : Type 0 where
  pub existings : List Candidate
  pub added : List Candidate
  pub removes : List Text

pub data CandidatesChange : Type 0 where
  add_candidates : List Candidate → CandidatesChange
  remove_candidates : List Text → CandidatesChange
  unknown : CandidatesChange

-- `Merge`; `none` is an error.
pub merge_candidates : CandidatesMerger → CandidatesChange → Option CandidatesMerger
merge_candidates s (add_candidates nodes) = some (record s { added = s.added ++ nodes })
merge_candidates s (remove_candidates nodes) = some (record s { removes = s.removes ++ nodes })
merge_candidates s unknown = none

abbrev pub candidate_addresses : List Candidate → List Text
candidate_addresses cs = map (λ c. c.node.address) cs

-- `closeValue`; `sort` is `sort.Slice` by the address.
unfoldable pub close_candidates :
    (List Candidate → List Candidate) → CandidatesMerger → Option (List Candidate)
close_candidates sort s =
    if is_nil s.removes && is_nil s.added
    then none
    else some (
        filter_2_slices (λ c. c.node.address) (candidate_addresses s.added)
          (filter_2_slices (λ c. c.node.address) s.removes s.existings)
        ++ sort s.added)
