-- ===== src/States/VoteRecords/Tests.antt =====
-- Runs of voting, isaac/states/ballotbox.go.
use mitum.Prelude.{◌≡◌, refl, true, false, ℕ, none, [], ◌∷◌, Text, text_eq, lookup, insert, pos}
use mitum.Base.Point.{new_point}
use mitum.Base.StagePoint.{accept, new_stage_point, StagePoint, is_zero}
use mitum.Isaac.Voteproof.{accept_fact, SignFact}
use mitum.Isaac.Suffrage.{Suffrage}
use mitum.Isaac.LastPoint.{LastPoint, before}
use mitum.States.VoteRecords.{
  Env, VoteRecords, found, answer, vote, put_by, noted, is_voted, suffrage_of,
}

abbrev name : ℕ → Text
name n = n ∷ []

abbrev one_node : Suffrage
one_node = record {
  m = (name 1, record { address = name 1; publickey = name 2 }) ∷ [];
  ns = record { address = name 1; publickey = name 2 } ∷ [];
}

abbrev env : Env
env = record { get_suffrage = λ h. found one_node; is_valid_voteproof = λ vp suf. true }

abbrev at : ℕ → StagePoint
at r = new_stage_point (new_point (pos 33) r) accept

abbrev vote_at : ℕ → SignFact
vote_at r = record {
  node = name 1;
  signer = name 2;
  fact = record { kind = accept_fact; hash = name 9; point = at r; proposal = []; block = [] };
}

abbrev empty_records : VoteRecords
empty_records = record {
  ballots = [];
  voted = [];
  expels = [];
  vps = [];
  vp = none;
  count_after = none;
  sp = at 4;
  last_threshold = 0;
  isc = false;
}

abbrev one_vote : VoteRecords
one_vote = record empty_records { voted = (name 1, vote_at 4) ∷ [] }

abbrev last : LastPoint
last = record { stage_point = at 3; is_majority = true; is_suffrage_confirm = false }

first_vote : vote env empty_records (vote_at 4) none [] last ≡ (one_vote, answer true true)
unfolding vote put_by noted is_voted suffrage_of lookup insert text_eq before is_zero
first_vote = refl

second_vote : vote env one_vote (vote_at 4) none [] last ≡ (one_vote, answer false false)
unfolding vote put_by noted is_voted suffrage_of lookup insert text_eq before is_zero
second_vote = refl
