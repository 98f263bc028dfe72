-- ===== src/States/VoteRecords/Count/Tests.antt =====
-- Runs of the counting of isaac/states/ballotbox.go.
use mitum.Prelude.{
  ◌≡◌, ◌≤◌, ◌<◌, ◌^◌, ◌&&◌, not, refl, true, false, ℕ, none, some, List, [], ◌∷◌, Text, text_eq,
  lookup, insert, values, pos, arith,
}
use mitum.Base.Point.{new_point}
use mitum.Base.StagePoint.{StagePoint, Stage, init, accept, new_stage_point, stage_eq}
use mitum.Base.Vote.{Entry, draw, majority, result_eq, capped, find_vote_result}
use mitum.Base.Vote.Count.{votes_for}
use mitum.Base.Vote.Best.{IsRange}
use mitum.Base.Threshold.{default_threshold, threshold_of, vote_result_of}
use mitum.Isaac.Voteproof.{BallotFact, accept_fact, SignFact, Voteproof, accept_voteproof}
use mitum.Isaac.Suffrage.{Node, Suffrage, len, exists, exists_publickey}
use mitum.Isaac.LastVoteproofs.{returns}
use mitum.States.VoteRecords.{VoteRecords, Env, found, new_vote_records, cleared}
use mitum.States.VoteRecords.Expels.{
  hashes, facts_by_hash, count_with_expels, sort_ballot_sign_facts_by_expels,
}
use mitum.States.VoteRecords.Count.{
  new_voteproof, finish_with, by_result, by_expels, count_from_voted, hold,
}
use mitum.States.VoteRecords.Count.Plain.{count_from_voted_majority}
use mitum.States.VoteRecords.Count.Valid.{is_empty_fact, count_from_voted-valid}
use mitum.Isaac.VoteproofValid.{is_valid_voteproof_with_suffrage, are_members}
use mitum.States.VoteRecords.Count.Hold.{stale_hold}

abbrev name : ℕ → Text
name n = n ∷ []

abbrev node : ℕ → Node
node n = record { address = name n; publickey = name n }

abbrev four : Suffrage
four = record {
  m = (name 1, node 1) ∷ (name 2, node 2) ∷ (name 3, node 3) ∷ (name 4, node 4) ∷ [];
  ns = node 1 ∷ node 2 ∷ node 3 ∷ node 4 ∷ [];
}

abbrev at : Stage → StagePoint
at s = new_stage_point (new_point (pos 33) 0) s

abbrev fact : BallotFact
fact = record {
  kind = accept_fact;
  hash = name 9;
  point = at accept;
  proposal = name 8;
  block = name 7;
}

abbrev vote_of : ℕ → SignFact
vote_of n = record { node = name n; signer = name n; fact = fact }

abbrev three_votes : VoteRecords
three_votes = record {
  ballots = [];
  voted = (name 1, vote_of 1) ∷ (name 2, vote_of 2) ∷ (name 3, vote_of 3) ∷ [];
  expels = [];
  vps = [];
  vp = none;
  count_after = none;
  sp = at accept;
  last_threshold = 0;
  isc = false;
}

abbrev agreed : Voteproof
agreed = record {
  kind = accept_voteproof;
  finished = true;
  majority_fact = some fact;
  sign_facts = vote_of 1 ∷ vote_of 2 ∷ vote_of 3 ∷ [];
  point = at accept;
  threshold = default_threshold;
  expels = [];
}

abbrev in_order : List Entry → List Entry
in_order m = m

in_order-IsRange : IsRange in_order
in_order-IsRange = record { same = λ m e. (λ h. h, λ h. h) }

-- Three votes of four nodes agree.
three_of_four_agree :
    count_from_voted in_order [] default_threshold four 5 100 three_votes
    ≡ returns (record three_votes { vp = some agreed }, some agreed)
unfolding count_from_voted by_expels by_result finish_with new_voteproof vote_result_of
    find_vote_result count_with_expels sort_ballot_sign_facts_by_expels facts_by_hash hashes len
    stage_eq text_eq lookup insert default_threshold
three_of_four_agree = refl

count_from_voted_majority_example :
    capped (len four) (threshold_of default_threshold (len four))
    ≤ votes_for (name 9) (hashes (values three_votes.voted))
unfolding len
count_from_voted_majority_example =
    count_from_voted_majority in_order [] default_threshold four 5 100 three_votes
      (record three_votes { vp = some agreed }) agreed fact in_order-IsRange (omega arith) refl
      three_of_four_agree refl

four_small : len four < 2 ^ 64
unfolding len
four_small = omega arith

signed_by_members : are_members four (values three_votes.voted) ≡ true
unfolding are_members exists exists_publickey lookup text_eq
signed_by_members = refl

count_from_voted-valid_example :
    is_valid_voteproof_with_suffrage in_order agreed four
    ≡ not (
        result_eq
          (vote_result_of in_order default_threshold
            (len four)
            (hashes (values three_votes.voted))).0
          majority
        && is_empty_fact (
            lookup
              (vote_result_of in_order default_threshold
                (len four)
                (hashes (values three_votes.voted))).1
              (facts_by_hash (values three_votes.voted))))
count_from_voted-valid_example =
    count_from_voted-valid in_order in_order in_order-IsRange in_order-IsRange four four_small []
      default_threshold 5 100 three_votes (record three_votes { vp = some agreed }) agreed refl
      signed_by_members three_of_four_agree

abbrev env : Env
env = record { get_suffrage = λ h. found four; is_valid_voteproof = λ vp suf. true }

abbrev init_votes : VoteRecords
init_votes = record three_votes { sp = at init }

abbrev once_held : VoteRecords
once_held = record init_votes { count_after = some 90 }

stale_hold_example :
    (by_result
        (new_vote_records (cleared once_held) (at init) false)
        true
        []
        default_threshold
        5
        100
        (draw, [])
      ≡ finish_with
          (new_vote_records (cleared once_held) (at init) false)
          (new_voteproof (at init) [] none default_threshold []))
    × (by_result
          (record (new_vote_records (cleared once_held) (at init) false) { count_after = none })
          true
          []
          default_threshold
          5
          100
          (draw, [])
        ≡ returns (
          hold
              (record (new_vote_records (cleared once_held) (at init) false) { count_after = none })
              100
              default_threshold,
          none,
        ))
stale_hold_example =
    stale_hold [] default_threshold 5 [] once_held (at init) false 90 100 refl refl (omega arith)
