-- ===== src/Isaac/VoteproofValid/Tests.antt =====
-- Two voteproofs of four nodes, each with three of them.
use mitum.Prelude.{
  ℕ, ◌+◌, ◌^◌, ◌≡◌, ◌<◌, refl, true, some, List, [], ◌∷◌, Text, text_eq, lookup, insert, pos, times,
  arith,
}
use mitum.Base.Point.{new_point}
use mitum.Base.StagePoint.{StagePoint, accept, new_stage_point, can_vote, is_valid, stage_point_eq}
use mitum.Base.Vote.{Entry, find_vote_result}
use mitum.Base.Threshold.{default_threshold, threshold_of, threshold_is_valid, vote_result_of}
use mitum.Isaac.Voteproof.{
  BallotFact, accept_fact, SignFact, Voteproof, accept_voteproof, vote_result,
}
use mitum.Isaac.Suffrage.{Node, Suffrage, len, exists, exists_publickey, by_address, is_duplicated}
use mitum.Isaac.Suffrage.Expels.{IsBuilt}
use mitum.States.VoteRecords.Expels.{hashes, facts_by_hash}
use mitum.Isaac.VoteproofValid.{
  Valid, is_valid_voteproof, is_valid_voteproof_with_suffrage, with_expels_of, with_sign_facts,
  is_valid_in_suffrage, agrees, are_members, is_stuck, expels_of_kind,
}
use mitum.Isaac.VoteproofValid.Quorum.{
  voters, IsPlain, IsMajority, threshold_in, valid_voteproofs_overlap,
}

abbrev name : ℕ → Text
name n = n ∷ []

abbrev node : ℕ → Node
node n = record { address = name n; publickey = name n }

abbrev four : Suffrage
four = record {
  m = (name 1, node 1) ∷ (name 2, node 2) ∷ (name 3, node 3) ∷ (name 4, node 4) ∷ [];
  ns = node 1 ∷ node 2 ∷ node 3 ∷ node 4 ∷ [];
}

abbrev at : StagePoint
at = new_stage_point (new_point (pos 33) 0) accept

abbrev fact : ℕ → BallotFact
fact n = record { kind = accept_fact; hash = name n; point = at; proposal = name 8; block = name n }

abbrev vote_of : ℕ → ℕ → SignFact
vote_of n f = record { node = name n; signer = name n; fact = fact f }

abbrev agreed_by : ℕ → List SignFact → Voteproof
agreed_by f sfs = record {
  kind = accept_voteproof;
  finished = true;
  majority_fact = some (fact f);
  sign_facts = sfs;
  point = at;
  threshold = default_threshold;
  expels = [];
}

-- Nodes 2 and 3 sign both.
abbrev one_proof : Voteproof
one_proof = agreed_by 6 (vote_of 1 6 ∷ vote_of 2 6 ∷ vote_of 3 6 ∷ [])

abbrev other_proof : Voteproof
other_proof = agreed_by 7 (vote_of 2 7 ∷ vote_of 3 7 ∷ vote_of 4 7 ∷ [])

abbrev all_valid : Valid
all_valid = record { has_id = λ vp. true; fact = λ f. true; sign_fact = λ sf. true }

abbrev in_order : List Entry → List Entry
in_order m = m

four_small : len four < 2 ^ 64
unfolding len
four_small = omega arith

four-IsBuilt : IsBuilt four
unfolding by_address insert text_eq
four-IsBuilt = refl

accept-IsPlain : (f : ℕ) (sfs : List SignFact) → IsPlain (agreed_by f sfs)
unfolding expels_of_kind is_stuck
accept-IsPlain f sfs = record { no_expels = refl; not_stuck = refl }

one_proof_valid : is_valid_voteproof all_valid one_proof ≡ true
unfolding is_valid_voteproof can_vote vote_result is_duplicated text_eq is_valid threshold_is_valid
    default_threshold stage_point_eq
one_proof_valid = refl

one_proof_in_suffrage : is_valid_voteproof_with_suffrage in_order one_proof four ≡ true
unfolding is_valid_voteproof_with_suffrage with_expels_of with_sign_facts is_valid_in_suffrage
    agrees vote_result text_eq default_threshold expels_of_kind is_stuck are_members exists
    exists_publickey vote_result_of find_vote_result hashes facts_by_hash len insert lookup
one_proof_in_suffrage = refl

other_proof_valid : is_valid_voteproof all_valid other_proof ≡ true
unfolding is_valid_voteproof can_vote vote_result is_duplicated text_eq is_valid threshold_is_valid
    default_threshold stage_point_eq
other_proof_valid = refl

other_proof_in_suffrage : is_valid_voteproof_with_suffrage in_order other_proof four ≡ true
unfolding is_valid_voteproof_with_suffrage with_expels_of with_sign_facts is_valid_in_suffrage
    agrees vote_result text_eq default_threshold expels_of_kind is_stuck are_members exists
    exists_publickey vote_result_of find_vote_result hashes facts_by_hash len insert lookup
other_proof_in_suffrage = refl

one_proof-IsMajority : IsMajority all_valid four four_small in_order one_proof (fact 6)
one_proof-IsMajority = (
  record { same = λ m e. (λ h. h, λ h. h) },
  accept-IsPlain 6 one_proof.sign_facts,
  one_proof_valid,
  one_proof_in_suffrage,
  refl,
)

other_proof-IsMajority : IsMajority all_valid four four_small in_order other_proof (fact 7)
other_proof-IsMajority = (
  record { same = λ m e. (λ h. h, λ h. h) },
  accept-IsPlain 7 other_proof.sign_facts,
  other_proof_valid,
  other_proof_in_suffrage,
  refl,
)

more :
    len four
    < threshold_in all_valid four four_small one_proof
      + threshold_in all_valid four four_small other_proof
unfolding len threshold_of default_threshold
more = omega arith

valid_voteproofs_overlap_example :
    (a : Text) × (exists four a ≡ true)
    × (0 < times a (voters (name 6) one_proof.sign_facts))
    × (0 < times a (voters (name 7) other_proof.sign_facts))
valid_voteproofs_overlap_example =
    valid_voteproofs_overlap all_valid four four_small in_order in_order one_proof other_proof
      (fact 6) (fact 7) four-IsBuilt one_proof-IsMajority other_proof-IsMajority more
