-- ===== src/Isaac/Voteproof.antt =====
-- isaac/ballot_fact.go, isaac/voteproof.go: ballot facts and voteproofs, as far as the consensus
-- reads them. A hash, an address and a public key are their text.
use mitum.Prelude.{ℕ, Bool, true, false, Option, none, some, List, if◌then◌else◌, Text}
use mitum.Base.Point.{Height}
use mitum.Base.StagePoint.{StagePoint}
use mitum.Base.Vote.{VoteResult, not_yet, draw, majority}

-- The dynamic type of a ballot fact.
pub data FactKind : Type 0 where
  init_fact suffrage_confirm empty_proposal accept_fact empty_operations not_processed : FactKind

-- `block` is the previous block of an INIT fact and the new block of an ACCEPT fact.
pub record BallotFact : Type 0 where
  pub kind : FactKind
  pub hash : Text
  pub point : StagePoint
  pub proposal : Text
  pub block : Text

-- The facts that implement `base.INITBallotFact`; the others implement `base.ACCEPTBallotFact`.
unfoldable pub is_init_fact : FactKind → Bool
is_init_fact init_fact = true
is_init_fact suffrage_confirm = true
is_init_fact empty_proposal = true
is_init_fact _ = false

is_confirm_kind : FactKind → Bool
is_confirm_kind suffrage_confirm = true
is_confirm_kind _ = false

-- `none` is the nil fact.
unfoldable pub is_suffrage_confirm_ballot_fact : Option BallotFact → Bool
unfolding is_confirm_kind
is_suffrage_confirm_ballot_fact none = false
is_suffrage_confirm_ballot_fact (some fact) = is_confirm_kind fact.kind

pub record SignFact : Type 0 where
  pub node : Text
  pub signer : Text
  pub fact : BallotFact

pub record ExpelFact : Type 0 where
  pub hash : Text
  pub node : Text
  pub expel_start : Height
  pub expel_end : Height

pub record NodeSign : Type 0 where
  pub node : Text
  pub signer : Text

pub record ExpelOperation : Type 0 where
  pub hash : Text
  pub expel_fact : ExpelFact
  pub node_signs : List NodeSign

-- The dynamic type of a voteproof.
pub data VoteproofKind : Type 0 where
  init_voteproof init_expel init_stuck accept_voteproof accept_expel accept_stuck : VoteproofKind

-- A threshold is a float64, and is carried as its bit pattern.
pub record Voteproof : Type 0 where
  pub kind : VoteproofKind
  pub finished : Bool
  pub majority_fact : Option BallotFact
  pub sign_facts : List SignFact
  pub point : StagePoint
  pub threshold : ℕ
  pub expels : List ExpelOperation

-- The voteproofs that implement `base.INITVoteproof`; the others implement `base.ACCEPTVoteproof`.
unfoldable pub is_init_voteproof : VoteproofKind → Bool
is_init_voteproof init_voteproof = true
is_init_voteproof init_expel = true
is_init_voteproof init_stuck = true
is_init_voteproof _ = false

some_or_draw : Option BallotFact → VoteResult
some_or_draw none = draw
some_or_draw (some fact) = majority

-- `Result`
unfoldable pub vote_result : Voteproof → VoteResult
unfolding some_or_draw
vote_result vp = if vp.finished then some_or_draw vp.majority_fact else not_yet

unfoldable pub is_empty_kind : FactKind → Bool
is_empty_kind empty_proposal = true
is_empty_kind empty_operations = true
is_empty_kind _ = false

-- `SetMajority`: an empty proposal and an empty block never become the majority.
unfoldable pub set_majority : Voteproof → Option BallotFact → Voteproof
unfolding is_empty_kind
set_majority vp none = record vp { majority_fact = none }
set_majority vp (some fact) =
    if is_empty_kind fact.kind then vp else record vp { majority_fact = some fact }

unfoldable pub finish : Voteproof → Voteproof
finish vp = record vp { finished = true }
