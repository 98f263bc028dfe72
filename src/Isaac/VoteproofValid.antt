-- ===== src/Isaac/VoteproofValid.antt =====
-- base/voteproof_isvalid.go, isaac/voteproof_isvalid.go: whether a voteproof is valid, by itself
-- and in a suffrage.
pub mod Quorum
pub mod Tests
use mitum.Prelude.{
  ℕ, ◌+◌, Bool, true, false, not, ◌==◌, Option, none, some, List, [], ◌∷◌, map, if◌then◌else◌,
  length, is_nil, is_some, Text, text_eq, lookup, all, any,
}
use mitum.Base.StagePoint.{StagePoint, can_vote, is_valid, stage_point_eq}
use mitum.Base.Vote.{VoteResult, not_yet, draw, majority, result_eq, Entry}
use mitum.Base.Threshold.{Threshold, threshold_is_valid, max_threshold, vote_result_of}
use mitum.Isaac.Voteproof.{
  BallotFact, SignFact, ExpelOperation, Voteproof, VoteproofKind, init_voteproof, init_expel,
  init_stuck, accept_voteproof, accept_expel, accept_stuck, vote_result,
}
use mitum.Isaac.Suffrage.{
  Suffrage, Result, ok, err, exists, exists_publickey, len, is_duplicated, new_suffrage_with_expels,
  is_valid_expel_with_suffrage,
}
use mitum.States.VoteRecords.Expels.{hashes, facts_by_hash}

-- What is valid by itself: whether a voteproof has an id, and the facts and the signed facts of
-- the network
pub record Valid : Type 0 where
  pub has_id : Voteproof → Bool
  pub fact : BallotFact → Bool
  pub sign_fact : SignFact → Bool

abbrev pub sign_nodes : List SignFact → List Text
sign_nodes sfs = map (λ sf. sf.node) sfs

-- `isValidFactInVoteproof`
unfoldable pub is_valid_fact_in_voteproof : Voteproof → BallotFact → Bool
is_valid_fact_in_voteproof vp fact = stage_point_eq vp.point fact.point

-- `isValidVoteproofVoteResult`; a draw with a majority cannot be.
unfoldable pub is_valid_vote_result : Valid → Voteproof → Bool
unfolding result_eq is_valid_fact_in_voteproof
is_valid_vote_result v vp =
    if result_eq (vote_result vp) draw
    then not (is_some vp.majority_fact)
    else elim vp.majority_fact [
      | none ↦ false
      | some fact ↦ if v.fact fact then is_valid_fact_in_voteproof vp fact else false
    ]

-- `isValidVoteproofSignFacts`
unfoldable pub is_valid_sign_facts : Valid → Voteproof → Bool
unfolding is_valid_fact_in_voteproof
is_valid_sign_facts v vp =
    if all (λ sf. if v.sign_fact sf then is_valid_fact_in_voteproof vp sf.fact else false)
      vp.sign_facts
    then elim vp.majority_fact [
      | none ↦ true
      | some fact ↦ any (λ sf. text_eq sf.fact.hash fact.hash) vp.sign_facts
    ]
    else false

-- `IsValidVoteproof`; the result is one of the three.
unfoldable pub is_valid_voteproof : Valid → Voteproof → Bool
unfolding is_valid_vote_result is_valid_sign_facts result_eq
is_valid_voteproof v vp =
    if not (v.has_id vp)
    then false
    else if not (can_vote vp.point.stage)
    then false
    else if result_eq (vote_result vp) not_yet
    then false
    else if is_nil vp.sign_facts
    then false
    else if is_duplicated [] (sign_nodes vp.sign_facts)
    then false
    else if not (is_valid vp.point)
    then false
    else if not (threshold_is_valid vp.threshold)
    then false
    else if is_valid_vote_result v vp
    then is_valid_sign_facts v vp
    else false

unfoldable pub is_stuck : VoteproofKind → Bool
is_stuck init_stuck = true
is_stuck accept_stuck = true
is_stuck k = false

-- `base.HasExpels`
unfoldable pub expels_of_kind : VoteproofKind → List ExpelOperation → List ExpelOperation
expels_of_kind init_voteproof expels = []
expels_of_kind accept_voteproof expels = []
expels_of_kind k expels = expels

-- The loop over the signers
unfoldable pub are_members : Suffrage → List SignFact → Bool
are_members suf sfs =
    all (λ sf. if exists suf sf.node then exists_publickey suf sf.node sf.signer else false) sfs

same_fact : Option BallotFact → Option BallotFact → Bool
same_fact (some fact) (some counted) = text_eq fact.hash counted.hash
same_fact _ _ = false

-- The switch over the result that is counted; the key of a majority is one of the hashes.
unfoldable pub agrees : Voteproof → VoteResult × Text → Bool
unfolding same_fact result_eq
agrees vp (result, key) =
    if not (result_eq result (vote_result vp))
    then false
    else if result_eq result draw
    then not (is_some vp.majority_fact)
    else if result_eq result majority
    then same_fact vp.majority_fact (lookup key (facts_by_hash vp.sign_facts))
    else true

module _ (order : List Entry → List Entry) where
  -- `base.IsValidVoteproofWithSuffrage`
  unfoldable pub is_valid_in_suffrage : Voteproof → Suffrage → Threshold → Bool
  is_valid_in_suffrage vp suf th =
      if not (are_members suf vp.sign_facts)
      then false
      else if is_stuck vp.kind
      then true
      else agrees vp (vote_result_of order th (len suf) (hashes vp.sign_facts))

  -- What a stuck voteproof wants, and the rest
  unfoldable pub with_sign_facts :
      Voteproof → Suffrage → Suffrage → Threshold → List ExpelOperation → Bool
  with_sign_facts vp suf rsuf th expels =
      if is_stuck vp.kind
      then (if len suf == length vp.sign_facts + length expels
          then is_valid_in_suffrage vp rsuf th
          else false)
      else is_valid_in_suffrage vp rsuf th

  unfoldable pub with_reduced : Voteproof → Suffrage → List ExpelOperation → Result Suffrage → Bool
  with_reduced vp suf expels (err e) = false
  with_reduced vp suf expels (ok rsuf) = with_sign_facts vp suf rsuf max_threshold expels

  unfoldable pub with_expels_of : Voteproof → Suffrage → List ExpelOperation → Bool
  with_expels_of vp suf [] = with_sign_facts vp suf suf vp.threshold []
  with_expels_of vp suf (op ∷ ops) =
      if all (λ e. is_valid_expel_with_suffrage vp.point.h e suf) (op ∷ ops)
      then with_reduced vp suf (op ∷ ops) (new_suffrage_with_expels suf vp.threshold (op ∷ ops))
      else false

  -- `isaac.IsValidVoteproofWithSuffrage`, of a voteproof that is not nil
  unfoldable pub is_valid_voteproof_with_suffrage : Voteproof → Suffrage → Bool
  is_valid_voteproof_with_suffrage vp suf = with_expels_of vp suf (expels_of_kind vp.kind vp.expels)
