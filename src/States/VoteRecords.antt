-- ===== src/States/VoteRecords.antt =====
-- isaac/states/ballotbox.go: `voterecords`, the votes of one stage point.
pub mod Expels
pub mod Count
pub mod Voting
mod Tests
use mitum.Prelude.{
  ℕ, zero, suc, ◌+◌, Bool, true, false, not, ◌&&◌, ◌||◌, Option, none, some, List, [], ◌∷◌, ◌++◌,
  ltb, if◌then◌else◌, Text, text_eq, lookup, insert, values, any, all, is_some, is_nil, keep_if,
}
use mitum.Base.Point.{Height, height_safe_prev}
use mitum.Base.StagePoint.{
  StagePoint, Stage, init, accept, unknown, other, is_zero, zero_stage_point,
}
use mitum.Base.Threshold.{Threshold}
use mitum.Isaac.Voteproof.{
  SignFact, BallotFact, ExpelOperation, Voteproof, VoteproofKind, init_voteproof, init_expel,
  init_stuck, accept_voteproof, accept_expel, accept_stuck, set_majority, finish,
}
use mitum.Isaac.Suffrage.{Suffrage, exists_publickey, is_valid_expel_with_suffrage}
use mitum.Isaac.LastPoint.{LastPoint, before, is_new_voteproof}

-- What `getSuffrage` answers for a height.
pub data Lookup : Type 0 where
  failed missing : Lookup
  found : Suffrage → Lookup

-- The functions that the records are made with. `learnExpels` hands the expels to the suffrage
-- voting and its error is ignored, so it does not appear.
pub record Env : Type 0 where
  pub get_suffrage : Height → Lookup
  pub is_valid_voteproof : Voteproof → Suffrage → Bool

-- A zero time is `none`; a time is a number of nanoseconds.
pub record VoteRecords : Type 0 where
  pub ballots : List (Text × SignFact)
  pub voted : List (Text × SignFact)
  pub expels : List (Text × List ExpelOperation)
  pub vps : List (Text × Voteproof)
  pub vp : Option Voteproof
  pub count_after : Option ℕ
  pub sp : StagePoint
  pub last_threshold : Threshold
  pub isc : Bool

-- `newVoterecords` sets these fields of a record from the pool; the time and the threshold of
-- a held draw stay.
unfoldable pub new_vote_records : VoteRecords → StagePoint → Bool → VoteRecords
new_vote_records vr stage_point is_suffrage_confirm = record vr {
  ballots = [];
  voted = [];
  expels = [];
  vps = [];
  vp = none;
  sp = stage_point;
  isc = is_suffrage_confirm;
}

-- `voterecordsPoolPut`, up to the call of the pool
unfoldable pub cleared : VoteRecords → VoteRecords
cleared vr = record vr { ballots = []; voted = []; expels = []; vps = []; sp = zero_stage_point }

unfoldable pub is_finished : VoteRecords → Bool
is_finished vr = is_some vr.vp

unfoldable pub is_voted : VoteRecords → Text → Bool
unfolding lookup
is_voted vr node =
    if is_some (lookup node vr.vps)
    then true
    else if is_some (lookup node vr.ballots)
    then true
    else if is_some (lookup node vr.voted)
    then true
    else false

unfoldable pub suffrage_of : Env → VoteRecords → Lookup
unfolding height_safe_prev
suffrage_of env vr = env.get_suffrage (height_safe_prev vr.sp.h)

-- `voted`, `validated` and the error of `vote`
pub data Answer : Type 0 where
  answer : Bool → Bool → Answer
  vote_error : Answer

-- The two maps that are written before the suffrage is asked for
unfoldable pub noted : VoteRecords → Text → Option Voteproof → List ExpelOperation → VoteRecords
unfolding insert
noted vr node vp expels = record vr {
  vps = elim vp [ none ↦ vr.vps | some p ↦ insert node p vr.vps ];
  expels = if is_nil expels then vr.expels else insert node expels vr.expels;
}

unfoldable pub put_by : Lookup → VoteRecords → SignFact → VoteRecords × Answer
unfolding insert
put_by failed vr signfact = (vr, vote_error)
put_by missing vr signfact =
    (record vr { ballots = insert signfact.node signfact vr.ballots }, answer true false)
put_by (found suf) vr signfact =
    (record vr { voted = insert signfact.node signfact vr.voted }, answer true true)

unfoldable pub vote :
    Env
    → VoteRecords
    → SignFact
    → Option Voteproof
    → List ExpelOperation
    → LastPoint
    → VoteRecords × Answer
vote env vr signfact vp expels last =
    if is_zero vr.sp
    then (vr, answer false false)
    else if not (before last vr.sp vr.isc)
    then (vr, answer false false)
    else if is_some vr.vp
    then (vr, answer false false)
    else if is_voted vr signfact.node
    then (vr, answer false false)
    else put_by (suffrage_of env vr) (noted vr signfact.node vp expels) signfact

expels_of : Option (List ExpelOperation) → List ExpelOperation
expels_of none = []
expels_of (some l) = l

unfoldable pub is_valid_ballot : VoteRecords → SignFact → Suffrage → Bool
unfolding expels_of exists_publickey is_valid_expel_with_suffrage lookup
is_valid_ballot vr signfact suf =
    if not (exists_publickey suf signfact.node signfact.signer)
    then false
    else all (λ e. is_valid_expel_with_suffrage signfact.fact.point.h e suf)
        (expels_of (lookup signfact.node vr.expels))

pub move_valid :
    VoteRecords
    → Suffrage
    → List (Text × SignFact)
    → List (Text × SignFact)
    → List (Text × SignFact)
move_valid vr suf [] voted = voted
move_valid vr suf ((k, sf) ∷ ballots) voted =
    move_valid vr suf ballots (if is_valid_ballot vr sf suf then insert sf.node sf voted else voted)

pub count_from_ballots : VoteRecords → Suffrage → VoteRecords
count_from_ballots vr suf = record vr {
  voted = move_valid vr suf vr.ballots vr.voted;
  ballots = [];
}

-- `isNewVoteproofWithSuffrageConfirmFunc`
unfoldable pub is_new_with_confirm : Bool → LastPoint → Voteproof → Bool
unfolding is_new_voteproof
is_new_with_confirm isc last vp = is_new_voteproof last vp || (isc && not last.is_majority)

valid_by : Env → Voteproof → Lookup → Bool
valid_by env vp failed = false
valid_by env vp missing = false
valid_by env vp (found suf) = env.is_valid_voteproof vp suf

unfoldable pub voteproof_from_ballots :
    Env → VoteRecords → (LastPoint → Voteproof → Bool) → Voteproof → LastPoint → Threshold → Bool
unfolding is_finished valid_by height_safe_prev
voteproof_from_ballots env vr filter vp last threshold =
    if is_finished vr
    then false
    else if not (filter last vp)
    then false
    else if ltb vp.threshold threshold
    then false
    else valid_by env vp (env.get_suffrage (height_safe_prev vp.point.h))

first_from :
    Env
    → VoteRecords
    → (LastPoint → Voteproof → Bool)
    → LastPoint
    → Threshold
    → List (Text × Voteproof)
    → Option Voteproof
unfolding voteproof_from_ballots
first_from env vr filter last threshold [] = none
first_from env vr filter last threshold ((k, vp) ∷ vps) =
    if voteproof_from_ballots env vr filter vp last threshold
    then some vp
    else first_from env vr filter last threshold vps

unfoldable pub voteproof_from_ballot :
    Env → VoteRecords → LastPoint → Threshold → (LastPoint → Voteproof → Bool) → Option Voteproof
unfolding first_from is_finished
voteproof_from_ballot env vr last threshold filter =
    if is_finished vr then none else first_from env vr filter last threshold vr.vps
