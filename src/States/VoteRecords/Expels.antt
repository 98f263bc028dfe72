-- ===== src/States/VoteRecords/Expels.antt =====
-- isaac/states/ballotbox.go: the votes with the expelled nodes left out.
pub mod Facts
use mitum.Prelude.{
  ℕ, Bool, true, false, not, ◌||◌, Option, none, some, List, [], ◌∷◌, ltb, leb, if◌then◌else◌,
  length, Text, text_eq, lookup, insert, values, any, is_some, is_nil, keep_if, map,
}
use mitum.Base.Vote.{VoteResult, not_yet, draw, majority, Entry}
use mitum.Base.Threshold.{Threshold, threshold_of, vote_result_of, default_threshold, max_threshold}
use mitum.Isaac.Voteproof.{SignFact, BallotFact, ExpelOperation, ExpelFact}
use mitum.Isaac.Suffrage.{Suffrage, len, sub_uint}

-- base/ballot.go, `CountBallotSignFacts`: the hashes of the facts, and the fact of each hash.
unfoldable pub hashes : List SignFact → List Text
hashes [] = []
hashes (sf ∷ sfs) = sf.fact.hash ∷ hashes sfs

unfoldable pub facts_into : List (Text × BallotFact) → List SignFact → List (Text × BallotFact)
facts_into m [] = m
facts_into m (sf ∷ sfs) = facts_into (insert sf.fact.hash sf.fact m) sfs

unfoldable pub facts_by_hash : List SignFact → List (Text × BallotFact)
unfolding facts_into
facts_by_hash sfs = facts_into [] sfs

-- One of the `[3]interface{}`
pub record Part : Type 0 where
  pub facts : List ExpelFact
  pub sign_facts : List SignFact
  pub expels : List ExpelOperation

pub is_of : Text → List ExpelOperation → Bool
is_of node expels = any (λ op. text_eq op.expel_fact.node node) expels

-- `extractExpelsFromBallot`
unfoldable pub extract_expels_from_ballot : Text → List ExpelOperation → List SignFact → Option Part
unfolding is_of
extract_expels_from_ballot local expels sfs =
    if is_nil expels
    then none
    else if is_of local expels
    then none
    else some (record {
      facts = map (λ op. op.expel_fact) expels;
      sign_facts = keep_if (λ j. not (is_of j.node expels)) sfs;
      expels = expels;
    })

expels_at : Text → List (Text × List ExpelOperation) → List ExpelOperation
expels_at k m = elim (lookup k m) [ none ↦ [] | some l ↦ l ]

-- One round of the loop that fills `mw`
gather :
    Text
    → List (Text × List ExpelOperation)
    → List SignFact
    → Text × SignFact
    → List (Text × Part)
    → List (Text × Part)
unfolding expels_at
gather local expels sfs (i, signfact) mw =
    if is_nil (expels_at i expels)
    then mw
    else if is_some (lookup signfact.fact.hash mw)
    then mw
    else elim (extract_expels_from_ballot local (expels_at i expels) sfs) [
      | none ↦ mw
      | some p ↦ insert signfact.fact.hash p mw
    ]

pub gather_all :
    Text
    → List (Text × List ExpelOperation)
    → List SignFact
    → List (Text × SignFact)
    → List (Text × Part)
    → List (Text × Part)
unfolding gather
gather_all local expels sfs [] mw = mw
gather_all local expels sfs (e ∷ signfacts) mw =
    gather_all local expels sfs signfacts (gather local expels sfs e mw)

-- `sort.Slice`, the part with the most expels first; it leaves the order of parts with as many open.
place : Part → List Part → List Part
place p [] = p ∷ []
place p (q ∷ qs) = if ltb (length p.facts) (length q.facts) then q ∷ place p qs else p ∷ q ∷ qs

sort_parts : List Part → List Part
unfolding place
sort_parts [] = []
sort_parts (p ∷ ps) = place p (sort_parts ps)

-- `sortBallotSignFactsByExpels`
unfoldable pub sort_ballot_sign_facts_by_expels :
    Text → List (Text × SignFact) → List (Text × List ExpelOperation) → List Part
unfolding gather_all sort_parts
sort_ballot_sign_facts_by_expels local signfacts expels =
    sort_parts (values (gather_all local expels (values signfacts) signfacts []))

-- The threshold and the quorum of a part
pub part_quorum : Suffrage → Threshold → Part → Threshold × ℕ
part_quorum suf threshold p =
    if ltb (sub_uint (len suf) (threshold_of default_threshold (len suf))) (length p.facts)
    then (max_threshold, sub_uint (len suf) (length p.facts))
    else (threshold, len suf)

-- What one part is counted to: `none` goes on with the next part, `some none` is a draw.
majority_in : VoteResult × Text → List SignFact → Option (Option BallotFact)
majority_in (draw, key) sfs = some none
majority_in (majority, key) sfs = some (lookup key (facts_by_hash sfs))
majority_in (not_yet, key) sfs = none

module _ (order : List Entry → List Entry) where
  pub count_part : Suffrage → Threshold → Part → Option (Option BallotFact)
  unfolding majority_in
  count_part suf threshold p =
      let (t, quorum) = part_quorum suf threshold p in
      if ltb (length (hashes p.sign_facts)) (threshold_of t quorum)
      then none
      else majority_in (vote_result_of order t quorum (hashes p.sign_facts)) p.sign_facts

  -- The four results of `countWithExpels`; in place of the last three, `none` is the nil fact.
  count_parts : Suffrage → Threshold → List Part → Bool × Option (Part × BallotFact)
  unfolding count_part
  count_parts suf threshold [] = (true, none)
  count_parts suf threshold (p ∷ ps) = elim (count_part suf threshold p) [
    | none ↦ count_parts suf threshold ps
    | some none ↦ (true, none)
    | some (some fact) ↦ (true, some (p, fact))
  ]

  unfoldable pub count_with_expels :
      Text
      → Suffrage
      → Threshold
      → List (Text × SignFact)
      → List (Text × List ExpelOperation)
      → Bool × Option (Part × BallotFact)
  unfolding count_parts
  count_with_expels local suf threshold voted expels =
      let sorted = sort_ballot_sign_facts_by_expels local voted expels in
      if is_nil sorted then (false, none) else count_parts suf threshold sorted
