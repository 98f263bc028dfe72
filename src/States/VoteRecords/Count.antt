-- ===== src/States/VoteRecords/Count.antt =====
-- isaac/states/ballotbox.go: counting the votes of a stage point into a voteproof.
pub mod Counting
pub mod Plain
pub mod Hold
pub mod Confirm
pub mod Valid
mod Tests
use mitum.Prelude.{
  ℕ, ◌+◌, Bool, true, false, not, ◌&&◌, ◌||◌, Option, none, some, List, [], ◌∷◌, ◌++◌, ltb,
  if◌then◌else◌, Text, lookup, values, is_some, is_nil,
}
use mitum.Base.StagePoint.{
  Stage, init, accept, unknown, other, is_zero, stage_eq, new_stage_point, StagePoint,
}
use mitum.Base.Vote.{VoteResult, not_yet, draw, majority, Entry}
use mitum.Base.Threshold.{Threshold, vote_result_of}
use mitum.Isaac.Voteproof.{
  SignFact, BallotFact, ExpelOperation, Voteproof, VoteproofKind, init_voteproof, init_expel,
  accept_voteproof, accept_expel, set_majority, finish,
}
use mitum.Isaac.Suffrage.{Suffrage, len}
use mitum.Isaac.LastPoint.{LastPoint, before}
use mitum.Isaac.LastVoteproofs.{Outcome, returns, panics}
use mitum.States.VoteRecords.Expels.{hashes, facts_by_hash, Part, count_with_expels}
use mitum.States.VoteRecords.{
  Lookup, failed, missing, found, Env, VoteRecords, suffrage_of, count_from_ballots,
  voteproof_from_ballot, is_new_with_confirm,
}

blank : VoteproofKind → StagePoint → Voteproof
blank k p = record {
  kind = k;
  finished = false;
  majority_fact = none;
  sign_facts = [];
  point = p;
  threshold = 0;
  expels = [];
}

fill :
    VoteproofKind
    → StagePoint
    → List SignFact
    → Option BallotFact
    → Threshold
    → List ExpelOperation
    → Voteproof
unfolding blank set_majority finish
fill k p sfs fact threshold expels =
    finish (record (set_majority (record (blank k p) { sign_facts = sfs }) fact) {
      threshold = threshold;
      expels = expels;
    })

-- `newVoteproof`: an unknown stage panics.
unfoldable pub new_voteproof :
    StagePoint
    → List SignFact
    → Option BallotFact
    → Threshold
    → List ExpelOperation
    → Outcome Voteproof
unfolding fill
new_voteproof sp sfs fact threshold expels =
    if stage_eq sp.stage init && not (is_nil expels)
    then returns (fill init_expel (new_stage_point sp.point init) sfs fact threshold expels)
    else if stage_eq sp.stage init
    then returns (fill init_voteproof (new_stage_point sp.point init) sfs fact threshold [])
    else if stage_eq sp.stage accept && not (is_nil expels)
    then returns (fill accept_expel (new_stage_point sp.point accept) sfs fact threshold expels)
    else if stage_eq sp.stage accept
    then returns (fill accept_voteproof (new_stage_point sp.point accept) sfs fact threshold [])
    else panics

-- `append` of a voteproof, if there is one
unfoldable pub or_none : Option Voteproof → List Voteproof
or_none none = []
or_none (some vp) = vp ∷ []

-- The new records and the voteproof, if there is one.
abbrev pub Counted : Type 0
Counted = Outcome (VoteRecords × Option Voteproof)

unfoldable pub finish_with : VoteRecords → Outcome Voteproof → Counted
finish_with vr panics = panics
finish_with vr (returns vp) = returns (record vr { vp = some vp }, some vp)

-- `vr.countAfter.IsZero() || time.Now().Before(vr.countAfter.Add(countAfter))`
unfoldable pub holds_back : Option ℕ → ℕ → ℕ → Bool
holds_back none now wait = true
holds_back (some t) now wait = ltb now (t + wait)

pub hold : VoteRecords → ℕ → Threshold → VoteRecords
hold vr now threshold = record vr { count_after = some now; last_threshold = threshold }

-- The switch over the result of the vote.
unfoldable pub by_result :
    VoteRecords → Bool → List SignFact → Threshold → ℕ → ℕ → VoteResult × Text → Counted
unfolding hold
by_result vr expels_not_yet sfs threshold wait now (draw, key) =
    if (expels_not_yet && stage_eq vr.sp.stage init) && holds_back vr.count_after now wait
    then returns (hold vr now threshold, none)
    else finish_with vr (new_voteproof vr.sp sfs none threshold [])
by_result vr expels_not_yet sfs threshold wait now (majority, key) =
    finish_with vr (new_voteproof vr.sp sfs (lookup key (facts_by_hash sfs)) threshold [])
by_result vr expels_not_yet sfs threshold wait now (not_yet, key) = returns (vr, none)

module _ (order : List Entry → List Entry) where
  -- The first switch of `countFromVoted`: a majority without the expelled nodes comes first.
  unfoldable pub by_expels :
      Threshold → Suffrage → ℕ → ℕ → VoteRecords → Bool × Option (Part × BallotFact) → Counted
  by_expels threshold suf wait now vr (expels_found, some (part, fact)) =
      finish_with vr (new_voteproof vr.sp part.sign_facts (some fact) threshold part.expels)
  by_expels threshold suf wait now vr (expels_found, none) =
      by_result vr expels_found (values vr.voted) threshold wait now
        (vote_result_of order threshold (len suf) (hashes (values vr.voted)))

  -- `countFromVoted`
  unfoldable pub count_from_voted : Text → Threshold → Suffrage → ℕ → ℕ → VoteRecords → Counted
  count_from_voted local threshold suf wait now vr =
      if is_nil vr.voted
      then returns (vr, none)
      else by_expels threshold suf wait now vr
          (count_with_expels order local suf threshold vr.voted vr.expels)

  -- `vr.countAfter = time.Time{}` when there is a voteproof
  unfoldable pub end_count : Option Voteproof → Counted → Outcome (VoteRecords × List Voteproof)
  end_count first panics = panics
  end_count first (returns (vr, none)) = returns (vr, or_none first)
  end_count first (returns (vr, some vp)) =
      returns (record vr { count_after = none }, or_none first ++ vp ∷ [])

  unfoldable pub by_suffrage :
      Lookup
      → Option Voteproof
      → Text
      → Threshold
      → ℕ
      → ℕ
      → VoteRecords
      → Outcome (VoteRecords × List Voteproof)
  by_suffrage failed first local threshold wait now vr = returns (vr, or_none first)
  by_suffrage missing first local threshold wait now vr = returns (vr, or_none first)
  by_suffrage (found suf) first local threshold wait now vr = end_count first (
      count_from_voted local threshold suf wait now
        (if is_nil vr.ballots then vr else count_from_ballots vr suf))

  -- `count`
  unfoldable pub count :
      Env
      → Text
      → LastPoint
      → Threshold
      → ℕ
      → ℕ
      → VoteRecords
      → Outcome (VoteRecords × List Voteproof)
  count env local last threshold wait now vr =
      if is_zero vr.sp
      then returns (vr, [])
      else if not (before last vr.sp vr.isc)
      then returns (vr, [])
      else if is_some vr.vp
      then returns (vr, [])
      else if is_nil vr.voted && is_nil vr.ballots
      then returns (vr, [])
      else by_suffrage (suffrage_of env vr)
          (voteproof_from_ballot env vr last threshold (is_new_with_confirm vr.isc)) local threshold
          wait now vr

  -- `countHolded`
  pub count_holded :
      Env → Text → LastPoint → ℕ → ℕ → VoteRecords → Outcome (VoteRecords × List Voteproof)
  count_holded env local last wait now vr = elim vr.count_after [
    | none ↦ returns (vr, [])
    | some t ↦
        if ltb now (t + wait)
        then returns (vr, [])
        else count env local last vr.last_threshold wait now vr
  ]
