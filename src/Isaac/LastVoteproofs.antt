-- ===== src/Isaac/LastVoteproofs.antt =====
-- isaac/last_voteproofs.go: the last voteproofs of a node, and the handler that takes new ones in.
pub mod Kept
pub mod Safety
mod Tests
use mitum.Prelude.{
  is_some, Bool, true, false, not, ◌&&◌, ◌||◌, Option, none, some, Ordering, ℤ, pos, ◌+ℤ◌, ◌-ℤ◌,
  eqb_ℤ, wrap64, if◌then◌else◌, Text,
}
use mitum.Base.Point.{Point, point_eq, point_compare}
use mitum.Base.StagePoint.{StagePoint, Stage, init, accept, unknown, other, stage_eq}
use mitum.Base.Vote.{majority, result_eq}
use mitum.Isaac.Voteproof.{BallotFact, Voteproof, vote_result, is_init_fact, is_init_voteproof}
use mitum.Isaac.LastPoint.{LastPoint, new_last_point_from_voteproof, is_new_voteproof, at_least}

-- A type assertion that fails panics.
pub data Outcome {ℓ} (A : Type ℓ) : Type ℓ where
  returns : A → Outcome A
  panics : Outcome A

pub record LastVoteproofs : Type 0 where
  pub ivp : Option Voteproof
  pub avp : Option Voteproof
  pub mvp : Option Voteproof

abbrev pub no_voteproofs : LastVoteproofs
no_voteproofs = record { ivp = none; avp = none; mvp = none }

unfoldable pub find_last_voteproofs : Option Voteproof → Option Voteproof → Option Voteproof
unfolding point_compare
find_last_voteproofs none avp = avp
find_last_voteproofs (some ivp) none = some ivp
find_last_voteproofs (some ivp) (some avp) =
    if at_least (point_compare avp.point.point ivp.point.point) then some avp else some ivp

-- `Cap`
unfoldable pub cap : LastVoteproofs → Option Voteproof
unfolding find_last_voteproofs
cap l = find_last_voteproofs l.ivp l.avp

block_of : Bool → Option BallotFact → Outcome (Option Text)
unfolding is_init_fact
block_of of_init none = panics
block_of of_init (some fact) =
    if (if of_init then is_init_fact fact.kind else not (is_init_fact fact.kind))
    then returns (some fact.block)
    else panics

-- `none` is the nil hash.
by_stage : Stage → Voteproof → Voteproof → Outcome (Option Text)
unfolding block_of
by_stage init mvp vp =
    if not (eqb_ℤ mvp.point.h vp.point.h) then returns none else block_of true mvp.majority_fact
by_stage accept mvp vp =
    if not (eqb_ℤ mvp.point.h (wrap64 (vp.point.h -ℤ pos 1)))
    then returns none
    else block_of false mvp.majority_fact
by_stage unknown mvp vp = returns none
by_stage (other s) mvp vp = returns none

unfoldable pub previous_block_for_next_round : LastVoteproofs → Voteproof → Outcome (Option Text)
unfolding by_stage
previous_block_for_next_round l vp = elim l.mvp [
  | none ↦ returns none
  | some mvp ↦ by_stage mvp.point.stage mvp vp
]

is_new_after : Option LastPoint → Voteproof → Bool
is_new_after none vp = false
is_new_after (some last) vp = is_new_voteproof last vp

-- `IsNew` of the value and of the handler
unfoldable pub is_new : LastVoteproofs → Voteproof → Bool
unfolding is_new_after
is_new l vp = elim (cap l) [
  | none ↦ true
  | some lvp ↦ is_new_after (new_last_point_from_voteproof lvp) vp
]

pub or_else : Option Voteproof → Voteproof → Option Voteproof
or_else none vp = some vp
or_else (some old) vp = some old

pub or_empty : Option LastVoteproofs → LastVoteproofs
or_empty none = no_voteproofs
or_empty (some l) = l

-- The LRU cache of the handler is a third-party one; its key is the text of the stage point.
pub record Cache : Type 1 where
  pub State : Type 0
  pub get : State → StagePoint → Option LastVoteproofs
  pub put : State → StagePoint → LastVoteproofs → State

module _ (c : Cache) where
  pub record Handler : Type 0 where
    pub cache : c.State
    pub last : LastVoteproofs

  abbrev pub Answer : Type 0
  Answer = Outcome (Handler × Bool)

  set_majority_voteproof : Voteproof → LastVoteproofs → LastVoteproofs
  set_majority_voteproof vp l =
      if result_eq (vote_result vp) majority then record l { mvp = some vp } else l

  -- The end of `Set` and of `ForceSetLast`: `lvps` is what the handler held before.
  finish_set : Handler → LastVoteproofs → Voteproof → LastVoteproofs → Handler
  unfolding set_majority_voteproof
  finish_set l lvps vp next = record {
    cache = if is_some (cap lvps) then c.put l.cache vp.point lvps else l.cache;
    last = set_majority_voteproof vp next;
  }

  -- The switch over the stage in `Set`
  pub store : Handler → Stage → Voteproof → Answer
  unfolding finish_set
  store l init vp =
      if is_init_voteproof vp.kind
      then returns (finish_set l l.last vp (record l.last { ivp = some vp }), true)
      else panics
  store l accept vp =
      if not (is_init_voteproof vp.kind)
      then returns (finish_set l l.last vp (record l.last { avp = some vp }), true)
      else panics
  store l unknown vp = returns (l, false)
  store l (other s) vp = returns (l, false)

  -- The two switches of `fillMissing`: whether it fills, for an INIT and for an ACCEPT voteproof.
  pub fills_init : LastVoteproofs → StagePoint → Voteproof → Bool
  unfolding stage_eq point_eq
  fills_init cached lp vp =
      not (is_some cached.ivp)
      && stage_eq lp.stage accept
      && stage_eq vp.point.stage init
      && point_eq lp.point vp.point.point

  pub fills_accept : LastVoteproofs → StagePoint → Voteproof → Bool
  unfolding stage_eq
  fills_accept cached lp vp =
      not (is_some cached.avp)
      && stage_eq lp.stage init
      && stage_eq vp.point.stage accept
      && eqb_ℤ lp.h (wrap64 (vp.point.h +ℤ pos 1))

  finish_fill : Handler → StagePoint → Voteproof → LastVoteproofs → LastVoteproofs → Handler
  finish_fill l lp vp cached last = record {
    cache = c.put l.cache lp (
        if not (is_some cached.mvp) && result_eq (vote_result vp) majority
        then record cached { mvp = some vp }
        else cached);
    last = last;
  }

  -- The second switch asks for an INIT last point where the first asks for an ACCEPT one, so that at
  -- most one of them fills.
  pub fill_from : Handler → LastVoteproofs → StagePoint → Voteproof → Answer
  unfolding or_else finish_fill
  fill_from l cached lp vp =
      if fills_init cached lp vp
      then (if is_init_voteproof vp.kind
          then returns (
            finish_fill l lp vp (record cached { ivp = some vp })
                (record l.last { ivp = or_else l.last.ivp vp }),
            true,
          )
          else panics)
      else if fills_accept cached lp vp
      then (if not (is_init_voteproof vp.kind)
          then returns (
            finish_fill l lp vp (record cached { avp = some vp })
                (record l.last { avp = or_else l.last.avp vp }),
            true,
          )
          else panics)
      else returns (l, false)

  pub fill_missing : Handler → Voteproof → Voteproof → Answer
  fill_missing l lvp vp = fill_from l (or_empty (c.get l.cache lvp.point)) lvp.point vp

  -- The two tests at the head of `Set`
  pub refuses_first : LastVoteproofs → Voteproof → Bool
  unfolding stage_eq
  refuses_first l vp =
      not (is_some l.ivp)
      && not (is_some l.avp)
      && (not (stage_eq vp.point.stage init) || not (is_some vp.majority_fact))

  pub refuses_other_round : LastVoteproofs → Voteproof → Bool
  unfolding cap point_eq
  refuses_other_round l vp =
      is_some l.ivp
      && not (is_some l.avp)
      && elim (cap l) [ none ↦ false | some lvp ↦ not (point_eq lvp.point.point vp.point.point) ]

  pub set_after : Option LastPoint → Handler → Voteproof → Voteproof → Answer
  set_after none l lvp vp = returns (l, false)
  set_after (some lp) l lvp vp =
      if is_new_voteproof lp vp then store l vp.point.stage vp else fill_missing l lvp vp

  pub set : Handler → Voteproof → Answer
  set l vp =
      if refuses_first l.last vp
      then returns (l, false)
      else if refuses_other_round l.last vp
      then returns (l, false)
      else elim (cap l.last) [
        | none ↦ store l vp.point.stage vp
        | some lvp ↦ set_after (new_last_point_from_voteproof lvp) l lvp vp
      ]

  -- `x != nil && x.Point().Point.Compare(vp.Point().Point) >= 0`, or `> 0`
  stands_at_least : Option Voteproof → Voteproof → Bool
  unfolding point_compare
  stands_at_least none vp = false
  stands_at_least (some x) vp = at_least (point_compare x.point.point vp.point.point)

  stands_above : Option Voteproof → Voteproof → Bool
  unfolding point_compare
  stands_above none vp = false
  stands_above (some x) vp = not (at_least (point_compare vp.point.point x.point.point))

  pub force_next : Stage → LastVoteproofs → Voteproof → Outcome LastVoteproofs
  force_next init last vp =
      if is_init_voteproof vp.kind
      then returns (
          if stands_at_least last.avp vp
          then record { ivp = some vp; avp = none; mvp = none }
          else record last { ivp = some vp })
      else panics
  force_next accept last vp =
      if not (is_init_voteproof vp.kind)
      then returns (
          if stands_above last.ivp vp
          then record { ivp = none; avp = some vp; mvp = none }
          else record last { avp = some vp })
      else panics
  force_next unknown last vp = returns last
  force_next (other s) last vp = returns last

  pub force_set_last : Handler → Voteproof → Answer
  unfolding finish_set
  force_set_last l vp = elim (force_next vp.point.stage l.last vp) [
    | panics ↦ panics
    | returns next ↦ returns (finish_set l l.last vp next, true)
  ]
