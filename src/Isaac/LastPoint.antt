-- ===== src/Isaac/LastPoint.antt =====
-- isaac/lastpoint.go: the last point that a node has reached, and what is newer than it.
pub mod Newer
mod Tests
use mitum.Prelude.{
  Bool, true, false, not, ◌&&◌, Option, none, some, Ordering, ltb_ℤ, eqb_ℤ, if◌then◌else◌,
}
use mitum.Base.Point.{point_eq, genesis_point}
use mitum.Base.StagePoint.{
  StagePoint, Stage, init, stage_eq, stage_compare, compare, is_zero, new_stage_point, other,
}
use mitum.Base.Vote.{majority, result_eq}
use mitum.Isaac.Voteproof.{BallotFact, Voteproof, vote_result, is_suffrage_confirm_ballot_fact}

pub record LastPoint : Type 0 where
  pub stage_point : StagePoint
  pub open stage_point use *
  pub is_majority : Bool
  pub is_suffrage_confirm : Bool

-- The Go zero value: the height is 0 and the stage is empty.
abbrev pub unset : LastPoint
unset = record {
  stage_point = new_stage_point genesis_point (other "");
  is_majority = false;
  is_suffrage_confirm = false;
}

-- `none` is an error.
unfoldable pub new_last_point : StagePoint → Bool → Bool → Option LastPoint
unfolding stage_eq
new_last_point p is_majority is_suffrage_confirm =
    if is_suffrage_confirm && not (stage_eq p.stage init)
    then none
    else some (record {
      stage_point = p;
      is_majority = is_majority;
      is_suffrage_confirm = is_suffrage_confirm;
    })

unfoldable pub new_last_point_from_voteproof : Voteproof → Option LastPoint
unfolding new_last_point is_suffrage_confirm_ballot_fact vote_result result_eq
new_last_point_from_voteproof vp =
    new_last_point vp.point (result_eq (vote_result vp) majority)
      (is_suffrage_confirm_ballot_fact vp.majority_fact)

-- `c >= 0`, `c > 0` and `c < 0` of a comparison
abbrev pub at_least : Ordering → Bool
at_least Ordering.lt = false
at_least Ordering.eq = true
at_least Ordering.gt = true

abbrev pub above : Ordering → Bool
above Ordering.gt = true
above _ = false

abbrev pub below : Ordering → Bool
below Ordering.lt = true
below _ = false

before_same_point : LastPoint → StagePoint → Bool → Bool
before_same_point l p confirm =
    if confirm
    then not l.is_suffrage_confirm
    else if not l.is_majority
    then false
    else if stage_eq p.stage l.stage
    then false
    else true

before_not_same_point : LastPoint → StagePoint → Bool → Bool
before_not_same_point l p confirm =
    if l.is_majority && below (stage_compare p.stage l.stage)
    then false
    else if above (compare p l.stage_point)
    then true
    else if confirm && not l.is_majority
    then true
    else false

unfoldable pub before : LastPoint → StagePoint → Bool → Bool
unfolding before_same_point before_not_same_point is_zero point_eq compare stage_compare stage_eq
before l p confirm =
    if is_zero l.stage_point
    then true
    else if not (eqb_ℤ p.h l.h)
    then ltb_ℤ l.h p.h
    else if point_eq p.point l.point && at_least (stage_compare p.stage l.stage)
    then before_same_point l p confirm
    else before_not_same_point l p confirm

unfoldable pub is_new_voteproof_by_point : LastPoint → StagePoint → Bool → Bool → Bool
unfolding before
is_new_voteproof_by_point last p is_majority confirm =
    if before last p confirm
    then true
    else not last.is_majority
      && is_majority
      && point_eq p.point last.point
      && at_least (stage_compare p.stage last.stage)

unfoldable pub is_new_voteproof : LastPoint → Voteproof → Bool
unfolding is_new_voteproof_by_point vote_result result_eq is_suffrage_confirm_ballot_fact
is_new_voteproof last vp =
    is_new_voteproof_by_point last vp.point (result_eq (vote_result vp) majority)
      (is_suffrage_confirm_ballot_fact vp.majority_fact)

unfoldable pub is_new_ballot : LastPoint → StagePoint → Bool → Bool
unfolding before
is_new_ballot last p confirm = before last p confirm
