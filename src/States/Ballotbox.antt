-- ===== src/States/Ballotbox.antt =====
-- isaac/states/ballotbox.go: `Ballotbox`, the records of all stage points that are still open.
pub mod Ballots
pub mod Clean
pub mod Removed
use mitum.Prelude.{
  ℕ, ◌+◌, Bool, true, false, not, ◌&&◌, ◌||◌, ◌==◌, Option, none, some, List, [], ◌∷◌, ◌++◌,
  if◌then◌else◌, Ordering, Text, is_some, is_nil, keep_if,
}
use mitum.Base.StagePoint.{StagePoint, compare, decrease, is_zero, stage_point_eq, zero_stage_point}
use mitum.Base.Vote.{Entry}
use mitum.Base.Threshold.{Threshold}
use mitum.Isaac.Voteproof.{SignFact, ExpelOperation, Voteproof, is_suffrage_confirm_ballot_fact}
use mitum.Isaac.LastPoint.{
  LastPoint, unset, before, above, is_new_ballot, is_new_voteproof, new_last_point_from_voteproof,
}
use mitum.Isaac.LastVoteproofs.{Outcome, returns, panics}
use mitum.States.VoteRecords.{
  Env, VoteRecords, Answer, answer, vote_error, vote, new_vote_records, cleared, is_finished,
  is_new_with_confirm, voteproof_from_ballots,
}
use mitum.States.VoteRecords.Count.{count, count_holded}

-- The key of a record: the text of its stage point, with a prefix. Different stage points have
-- different texts.
pub data Prefix : Type 0 where
  plain sf sign : Prefix

pub record RecordKey : Type 0 where
  pub prefix : Prefix
  pub of_point : StagePoint

unfoldable pub prefix_eq : Prefix → Prefix → Bool
prefix_eq plain plain = true
prefix_eq sf sf = true
prefix_eq sign sign = true
prefix_eq _ _ = false

unfoldable pub key_eq : RecordKey → RecordKey → Bool
unfolding prefix_eq stage_point_eq
key_eq k j = prefix_eq k.prefix j.prefix && stage_point_eq k.of_point j.of_point

-- `voterecords` and `newVoterecords`
abbrev pub key_of : StagePoint → Bool → RecordKey
key_of p isc = record { prefix = if isc then sf else plain; of_point = p }

-- `clean`
abbrev pub removed_key_of : StagePoint → Bool → RecordKey
removed_key_of p isc = record { prefix = if isc then sign else plain; of_point = p }

-- The sharded map from keys to pointers
unfoldable pub value : RecordKey → List (RecordKey × ℕ) → Option ℕ
value k [] = none
value k ((j, i) ∷ m) = if key_eq j k then some i else value k m

unfoldable pub remove_value : RecordKey → List (RecordKey × ℕ) → List (RecordKey × ℕ)
remove_value k [] = []
remove_value k ((j, i) ∷ m) = if key_eq j k then remove_value k m else (j, i) ∷ remove_value k m

-- A `*voterecords` is a number, and `heap` is what it points to. `vpch` is what was sent, and
-- `pool` is what was put into `voterecordsPool`.
pub record Ballotbox : Type 0 where
  pub vrs : List (RecordKey × ℕ)
  pub heap : ℕ → VoteRecords
  pub next : ℕ
  pub lsp : Option LastPoint
  pub lvp : Option Voteproof
  pub vpch : List Voteproof
  pub removed : List ℕ
  pub pool : List ℕ

unfoldable pub write : Ballotbox → ℕ → VoteRecords → Ballotbox
write box i vr = record box { heap = λ j. if j == i then vr else box.heap j }

unfoldable pub last_point : Ballotbox → LastPoint
last_point box = elim box.lsp [ none ↦ unset | some last ↦ last ]

-- `isNewBallot`
unfoldable pub takes_ballot : Ballotbox → StagePoint → Bool → Bool
unfolding is_new_ballot
takes_ballot box point isc = elim box.lsp [ none ↦ true | some last ↦ is_new_ballot last point isc ]

unfoldable pub set_last_point : Ballotbox → LastPoint → Ballotbox × Bool
unfolding last_point before
set_last_point box point =
    if before (last_point box) point.stage_point point.is_suffrage_confirm
    then (record box { lsp = some point }, true)
    else (box, false)

unfoldable pub set_last_point_from_voteproof : Ballotbox → Voteproof → Ballotbox × Bool
unfolding new_last_point_from_voteproof set_last_point
set_last_point_from_voteproof box vp = elim (new_last_point_from_voteproof vp) [
  | none ↦ (box, false)
  | some point ↦ set_last_point box point
]

-- `newVoteproof` of the box
pub send : Ballotbox → List Voteproof → Ballotbox
send box [] = box
send box (vp ∷ vps) = send (record box { lvp = some vp; vpch = box.vpch ++ vp ∷ [] }) vps

-- `voterecordsPoolPut` of the removed records
pub put_all : Ballotbox → List ℕ → Ballotbox
unfolding write cleared
put_all box [] = box
put_all box (i ∷ is) =
    put_all (record (write box i (cleared (box.heap i))) { pool = box.pool ++ i ∷ [] }) is

-- `vr.stagepoint().Compare(stagepoint) <= 0`
pub is_left_behind : VoteRecords → StagePoint → Bool
unfolding compare
is_left_behind vr limit = not (above (compare vr.sp limit))

pub left_behind : (ℕ → VoteRecords) → StagePoint → List (RecordKey × ℕ) → List ℕ
unfolding is_left_behind
left_behind heap limit [] = []
left_behind heap limit ((k, i) ∷ m) =
    let rest = left_behind heap limit m in if is_left_behind (heap i) limit then i ∷ rest else rest

pub remove_all : (ℕ → VoteRecords) → List ℕ → List (RecordKey × ℕ) → List (RecordKey × ℕ)
unfolding remove_value
remove_all heap [] m = m
remove_all heap (i ∷ is) m =
    remove_all heap is (remove_value (removed_key_of (heap i).sp (heap i).isc) m)

-- Three rounds below the last point
unfoldable pub limit_of : LastPoint → StagePoint
unfolding decrease
limit_of last = decrease (decrease (decrease last.stage_point))

pub remove_left_behind : Ballotbox → LastPoint → Ballotbox
unfolding limit_of left_behind remove_all
remove_left_behind box last =
    if is_zero last.stage_point || is_zero (limit_of last)
    then record box { removed = [] }
    else let gone = left_behind box.heap (limit_of last) box.vrs in
      record box { removed = gone; vrs = remove_all box.heap gone box.vrs }

unfoldable pub clean : Ballotbox → Ballotbox
unfolding put_all remove_left_behind last_point
clean box = remove_left_behind (put_all box box.removed) (last_point box)
