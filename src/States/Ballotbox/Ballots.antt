-- ===== src/States/Ballotbox/Ballots.antt =====
-- isaac/states/ballotbox.go: voting in the box and counting its records.
pub mod Found
pub mod Sent
pub mod New
pub mod Once
mod Tests
use mitum.Prelude.{
  ℕ, ◌+◌, Bool, true, false, not, ◌&&◌, ◌||◌, ◌==◌, Option, none, some, List, [], ◌∷◌, ◌++◌,
  if◌then◌else◌, Ordering, Text, is_some, is_nil, keep_if, any, map,
}
use mitum.Base.StagePoint.{StagePoint, compare, is_zero, stage_point_eq, zero_stage_point}
use mitum.Base.Vote.{Entry}
use mitum.Base.Threshold.{Threshold}
use mitum.Isaac.Voteproof.{SignFact, ExpelOperation, Voteproof, is_suffrage_confirm_ballot_fact}
use mitum.Isaac.LastPoint.{LastPoint, above, below, is_new_voteproof}
use mitum.Isaac.LastVoteproofs.{Outcome, returns, panics}
use mitum.States.VoteRecords.{
  Env, VoteRecords, Answer, answer, vote_error, vote, new_vote_records, is_finished,
  is_new_with_confirm, voteproof_from_ballots,
}
use mitum.States.VoteRecords.Count.{count, count_holded}
use mitum.States.Ballotbox.{
  Ballotbox, key_of, value, RecordKey, write, last_point, takes_ballot,
  set_last_point_from_voteproof, send, clean,
}

-- `new(voterecords)`
abbrev pub blank_records : VoteRecords
blank_records = record {
  ballots = [];
  voted = [];
  expels = [];
  vps = [];
  vp = none;
  count_after = none;
  sp = zero_stage_point;
  last_threshold = 0;
  isc = false;
}

-- One of the items of the pool is taken out of it.
pub taken_out : ℕ → List ℕ → List ℕ
taken_out i [] = []
taken_out i (j ∷ js) = if j == i then js else j ∷ taken_out i js

-- The function that a vote leaves to be called
pub data Deferred : Type 0 where
  nothing : Deferred
  check_voteproof : ℕ → Voteproof → Deferred
  count_records : ℕ → Deferred

pub data Voted : Type 0 where
  voted_as : Bool → Deferred → Voted
  failed_vote : Voted

deferred_of : ℕ → Option Voteproof → Bool → Deferred
deferred_of i vp true = count_records i
deferred_of i none false = nothing
deferred_of i (some vp) false = check_voteproof i vp

pub voted_of : ℕ → Option Voteproof → Answer → Voted
unfolding deferred_of
voted_of i vp vote_error = failed_vote
voted_of i vp (answer in_voteproof validated) = voted_as in_voteproof (deferred_of i vp validated)

-- `newVoterecords`, with what the pool gave
pub allocated : Option ℕ → Ballotbox → StagePoint → Bool → Ballotbox × ℕ
unfolding write taken_out new_vote_records
allocated none box p isc = (
  record (write box box.next (new_vote_records blank_records p isc)) { next = box.next + 1 },
  box.next,
)
allocated (some i) box p isc =
    (record (write box i (new_vote_records (box.heap i) p isc)) { pool = taken_out i box.pool }, i)

pub set_value : RecordKey → Ballotbox × ℕ → Ballotbox × ℕ
set_value k (box, i) = (record box { vrs = (k, i) ∷ box.vrs }, i)

-- `Get` of the pool takes any of its items, or makes a new one: `pick` is the choice of this run.
module _ (pick : List ℕ → Option ℕ) where
  pub found_or_made : Option ℕ → Ballotbox → StagePoint → Bool → Ballotbox × ℕ
  unfolding allocated set_value
  found_or_made (some i) box p isc = (box, i)
  found_or_made none box p isc = set_value (key_of p isc) (allocated (pick box.pool) box p isc)

  -- `newVoterecords` of the box
  pub new_voterecords : Ballotbox → StagePoint → Bool → Ballotbox × ℕ
  unfolding found_or_made value
  new_voterecords box p isc = found_or_made (value (key_of p isc) box.vrs) box p isc

  vote_in :
      Env → SignFact → Option Voteproof → List ExpelOperation → Ballotbox × ℕ → Ballotbox × Voted
  unfolding write last_point
  vote_in env signfact vp expels (box, i) =
      let (vr, given) = vote env (box.heap i) signfact vp expels (last_point box) in
      (write box i vr, voted_of i vp given)

  -- `vote`
  pub box_vote :
      Env → Ballotbox → SignFact → Option Voteproof → List ExpelOperation → Ballotbox × Voted
  unfolding takes_ballot vote_in new_voterecords
  box_vote env box signfact vp expels =
      let isc = is_suffrage_confirm_ballot_fact (some signfact.fact) in
      if not (takes_ballot box signfact.fact.point isc)
      then (box, voted_as false nothing)
      else vote_in env signfact vp expels (new_voterecords box signfact.fact.point isc)

-- The deferred function of a vote with a voteproof that was not validated
pub check_deferred : Env → Threshold → Ballotbox → ℕ → Voteproof → Ballotbox × List Voteproof
unfolding voteproof_from_ballots last_point send
check_deferred env threshold box i vp =
    if voteproof_from_ballots env (box.heap i) is_new_voteproof vp (last_point box) threshold
    then (send box (vp ∷ []), vp ∷ [])
    else (box, [])

-- What of the voteproofs is still new
pub filtered : Ballotbox → Bool → List Voteproof → List Voteproof
unfolding is_new_with_confirm
filtered box isc vps = elim box.lsp [
  | none ↦ vps
  | some last ↦ keep_if (λ vp. is_new_with_confirm isc last vp) vps
]

last_of : Voteproof → List Voteproof → Voteproof
last_of vp [] = vp
last_of vp (w ∷ vps) = last_of w vps

pub finish_count : Ballotbox → List Voteproof → Ballotbox
unfolding last_of set_last_point_from_voteproof send clean
finish_count box [] = clean box
finish_count box (vp ∷ vps) =
    clean (send (set_last_point_from_voteproof box (last_of vp vps)).0 (vp ∷ vps))

pub after_count :
    Ballotbox → ℕ → Outcome (VoteRecords × List Voteproof) → Outcome (Ballotbox × List Voteproof)
unfolding write
after_count box i panics = panics
after_count box i (returns (vr, [])) = returns (write box i vr, [])
after_count box i (returns (vr, vp ∷ vps)) =
    let written = write box i vr in
    let new = filtered written vr.isc (vp ∷ vps) in returns (finish_count written new, new)

-- `countVoterecords`
pub count_voterecords :
    (List Entry → List Entry)
    → Env
    → Text
    → Threshold
    → ℕ
    → ℕ
    → Ballotbox
    → ℕ
    → Outcome (Ballotbox × List Voteproof)
unfolding takes_ballot last_point
count_voterecords order env local threshold wait now box i =
    if not (takes_ballot box (box.heap i).sp (box.heap i).isc)
    then returns (box, [])
    else after_count box i (count order env local (last_point box) threshold wait now (box.heap i))

-- Whether `unfinishedVoterecords` takes a record
pub is_unfinished : Ballotbox → LastPoint → List StagePoint → VoteRecords → Bool
unfolding is_finished stage_point_eq
is_unfinished box last removed vr =
    if any (λ p. stage_point_eq p vr.sp) removed
    then false
    else if is_finished vr
    then false
    else not (not (is_zero last.stage_point) && not (above (compare vr.sp last.stage_point)))

place_record : (ℕ → VoteRecords) → ℕ → List ℕ → List ℕ
unfolding compare
place_record heap i [] = i ∷ []
place_record heap i (j ∷ js) =
    let rest = place_record heap i js in
    if below (compare (heap j).sp (heap i).sp) then j ∷ rest else i ∷ j ∷ js

unfinished_in : Ballotbox → List StagePoint → List (RecordKey × ℕ) → List ℕ
unfolding is_unfinished place_record last_point
unfinished_in box removed [] = []
unfinished_in box removed ((k, i) ∷ m) =
    let rest = unfinished_in box removed m in
    if is_unfinished box (last_point box) removed (box.heap i)
    then place_record box.heap i rest
    else rest

-- `unfinishedVoterecords`. Points that compare equal stay in the order of the map, which `sort.Slice`
-- leaves open.
unfoldable pub unfinished_voterecords : Ballotbox → List ℕ
unfolding unfinished_in
unfinished_voterecords box = unfinished_in box (map (λ i. (box.heap i).sp) box.removed) box.vrs

hold_counted : Ballotbox → ℕ → Outcome (VoteRecords × List Voteproof) → Outcome Ballotbox
unfolding write send
hold_counted box i panics = panics
hold_counted box i (returns (vr, vps)) = returns (send (write box i vr) vps)

count_holded_all :
    (List Entry → List Entry)
    → Env
    → Text
    → LastPoint
    → ℕ
    → ℕ
    → List ℕ
    → Ballotbox
    → Outcome Ballotbox
unfolding hold_counted
count_holded_all order env local last wait now [] box = returns box
count_holded_all order env local last wait now (i ∷ is) box =
    elim (hold_counted box i (count_holded order env local last wait now (box.heap i))) [
      | panics ↦ panics
      | returns box' ↦ count_holded_all order env local last wait now is box'
    ]

-- `countHoldeds`
pub count_holdeds : (List Entry → List Entry) → Env → Text → ℕ → ℕ → Ballotbox → Outcome Ballotbox
unfolding count_holded_all unfinished_voterecords last_point
count_holdeds order env local wait now box =
    count_holded_all order env local (last_point box) wait now (unfinished_voterecords box) box
