-- ===== src/Isaac/Operation/Join.antt =====
-- isaac/operation/suffrage_join_processor.go: a candidate joins the suffrage.
pub mod Accepted
pub mod Runs
pub mod Made
use mitum.Prelude.{
  ℕ, Bool, true, false, not, Option, none, some, List, [], ◌∷◌, ltb_ℤ, eqb_ℤ, if◌then◌else◌, Text,
  text_eq, lookup, insert, any, is_nil,
}
use mitum.Base.Point.{Height}
use mitum.Base.Threshold.{Threshold}
use mitum.Isaac.Suffrage.{Node, Suffrage, Result, ok, err, new_suffrage, exists}
use mitum.Isaac.Voteproof.{NodeSign}
use mitum.Isaac.Operation.{
  SuffrageNode, Candidate, Outcome, accepted, refused, fails, last_candidates, check_fact_signs,
}

-- A join operation, with the candidate and the start of its fact
pub record Join : Type 0 where
  pub candidate : Text
  pub fact_start : Height
  pub signs : List NodeSign

pub record JoinProcessor : Type 0 where
  pub at_height : Height
  pub suffrage : Suffrage
  pub candidates : List (Text × Candidate)
  pub preprocessed : List Text
  pub threshold : Threshold

unfoldable pub by_candidate : List (Text × Candidate) → List Candidate → List (Text × Candidate)
by_candidate m [] = m
by_candidate m (c ∷ cs) = by_candidate (insert c.node.address c m) cs

unfoldable pub members_of : List SuffrageNode → List (Option Node)
members_of [] = []
members_of (n ∷ ns) = some n.member ∷ members_of ns

-- `NewSuffrageJoinProcessor`: `none` is an error, and the states are those of the suffrage and of the
-- candidates.
unfoldable pub new_join_processor :
    Height → Threshold → Option (List SuffrageNode) → Option (List Candidate) → Option JoinProcessor
unfolding by_candidate members_of
new_join_processor height threshold none cs = none
new_join_processor height threshold (some ns) cs = elim (new_suffrage (members_of ns)) [
  | err e ↦ none
  | ok suf ↦ some (record {
    at_height = height;
    suffrage = suf;
    candidates = by_candidate [] (last_candidates height cs);
    preprocessed = [];
    threshold = threshold;
  })
]

-- `findCandidateFromSigns`
pub find_candidate_from_signs : Text → List NodeSign → Option NodeSign
find_candidate_from_signs candidate [] = none
find_candidate_from_signs candidate (s ∷ signs) =
    if text_eq s.node candidate then some s else find_candidate_from_signs candidate signs

signed_with_key : Option NodeSign → Candidate → Bool
signed_with_key none info = false
signed_with_key (some s) info = text_eq s.signer info.node.publickey

-- What is asked of the operation when its candidate is known, before the constraint
pub fits : JoinProcessor → Join → Candidate → Bool
unfolding find_candidate_from_signs signed_with_key
fits p op info =
    if not (eqb_ℤ op.fact_start info.start)
    then false
    else if ltb_ℤ info.deadline p.at_height
    then false
    else signed_with_key (find_candidate_from_signs op.candidate op.signs) info

-- What follows the constraint
conclude_join : JoinProcessor → Join → Candidate → Outcome → JoinProcessor × Outcome
conclude_join p op info fails = (p, fails)
conclude_join p op info refused = (p, refused)
conclude_join p op info accepted =
    if check_fact_signs p.suffrage p.threshold op.signs
    then (record p { preprocessed = info.node.address ∷ p.preprocessed }, accepted)
    else (p, refused)

with_candidate :
    (Join → Outcome) → JoinProcessor → Join → Option Candidate → JoinProcessor × Outcome
unfolding fits conclude_join
with_candidate constraint p op none = (p, refused)
with_candidate constraint p op (some info) =
    if fits p op info then conclude_join p op info (constraint op) else (p, refused)

-- `PreProcess`
unfoldable pub pre_process_join : (Join → Outcome) → JoinProcessor → Join → JoinProcessor × Outcome
unfolding with_candidate
pre_process_join constraint p op =
    if is_nil p.candidates
    then (p, refused)
    else if any (text_eq op.candidate) p.preprocessed
    then (p, refused)
    else if exists p.suffrage op.candidate
    then (p, refused)
    else with_candidate constraint p op (lookup op.candidate p.candidates)

-- `Process`: the candidate that goes and the member that comes; `panicked` is a nil dereference.
pub data Processed : Type 0 where
  joins : Text → Node → Processed
  unprocessed : Outcome → Processed
  panicked : Processed

process_candidate : Option Candidate → Processed
process_candidate none = panicked
process_candidate (some c) = joins c.node.address c.node

unfoldable pub process_join : (Join → Outcome) → JoinProcessor → Join → Processed
unfolding process_candidate
process_join constraint p op = elim (constraint op) [
  | accepted ↦ process_candidate (lookup op.candidate p.candidates)
  | refused ↦ unprocessed refused
  | fails ↦ unprocessed fails
]
