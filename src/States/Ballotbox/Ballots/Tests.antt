-- ===== src/States/Ballotbox/Ballots/Tests.antt =====
-- Runs of the ballotbox, isaac/states/ballotbox.go.
use mitum.Prelude.{
  arith, all, ◌≡◌, refl, true, false, ℕ, Option, none, some, List, [], ◌∷◌, ◌++◌, if◌then◌else◌,
  text_eq, lookup, insert, pos,
}
use mitum.Base.Point.{new_point}
use mitum.Base.StagePoint.{
  stage_is_valid, StagePoint, accept, new_stage_point, is_zero, stage_eq, compare,
}
use mitum.Base.Vote.{Entry, find_vote_result}
use mitum.Base.Threshold.{default_threshold, vote_result_of}
use mitum.Isaac.Voteproof.{
  is_suffrage_confirm_ballot_fact, SignFact, Voteproof, BallotFact, accept_fact, accept_voteproof,
}
use mitum.Isaac.Suffrage.{Suffrage, len}
use mitum.Isaac.LastPoint.{LastPoint, above, before}
use mitum.Isaac.LastVoteproofs.{returns}
use mitum.States.VoteRecords.{
  VoteRecords, Env, found, voteproof_from_ballot, suffrage_of, is_new_with_confirm, vote, put_by,
  noted, is_voted,
}
use mitum.States.VoteRecords.Expels.{
  hashes, facts_by_hash, count_with_expels, sort_ballot_sign_facts_by_expels,
}
use mitum.States.VoteRecords.Count.{
  or_none, count, by_suffrage, end_count, count_from_voted, by_expels, by_result, finish_with,
  new_voteproof,
}
use mitum.States.Ballotbox.{
  Ballotbox, key_of, key_eq, value, last_point, limit_of, takes_ballot, put_all, write, clean,
}
use mitum.States.Ballotbox.Clean.{clean-keeps_confirm}
use mitum.States.Ballotbox.Removed.{three_below, clean-value}
use mitum.States.Ballotbox.Ballots.{
  blank_records, new_voterecords, count_voterecords, after_count, finish_count, filtered, box_vote,
  vote_in, voted_of,
}
use mitum.States.Ballotbox.Ballots.Once.{is_taken, box_vote_once}
use mitum.States.Ballotbox.Ballots.New.{count_voterecords-new}
use mitum.States.Ballotbox.Ballots.Sent.{NotLower, count_voterecords-sends}

abbrev at : ℕ → StagePoint
at r = new_stage_point (new_point (pos 33) r) accept

abbrev empty_box : Ballotbox
empty_box = record {
  vrs = [];
  heap = λ i. blank_records;
  next = 0;
  lsp = none;
  lvp = none;
  vpch = [];
  removed = [];
  pool = [];
}

-- The pool gives back the item that was put in first.
abbrev first_item : List ℕ → Option ℕ
first_item [] = none
first_item (i ∷ is) = some i

abbrev two_records : Ballotbox
two_records =
    (new_voterecords first_item (new_voterecords first_item empty_box (at 1) true).0 (at 1) false).0

abbrev reached : LastPoint
reached = record { stage_point = at 9; is_majority = true; is_suffrage_confirm = false }

abbrev made_box : Ballotbox
made_box = (new_voterecords first_item empty_box (at 1) false).0

abbrev later_box : Ballotbox
later_box = record two_records { lsp = some reached }

-- The records of the confirm stay under their key, and are to be put into the pool.
confirm_stays :
    (value (key_of (at 1) true) (clean later_box).vrs ≡ some 0)
    × (value (key_of (at 1) false) (clean later_box).vrs ≡ none)
    × ((clean later_box).removed ≡ 1 ∷ 0 ∷ [])
unfolding clean value key_eq new_voterecords limit_of compare is_zero
confirm_stays = (refl, refl, refl)

abbrev cleaned_twice : Ballotbox
cleaned_twice = clean (clean later_box)

-- After a second cleaning, records from the pool are those that the confirm still stands for.
confirm_is_shared :
    (value (key_of (at 1) true) cleaned_twice.vrs ≡ some 0)
    × ((new_voterecords (λ l. some 0) cleaned_twice (at 10) false).1 ≡ 0)
unfolding clean value key_eq new_voterecords limit_of compare is_zero
confirm_is_shared = (refl, refl)

clean-keeps_confirm_example :
    value (key_of (at 1) true) (clean later_box).vrs ≡ value (key_of (at 1) true) later_box.vrs
clean-keeps_confirm_example = clean-keeps_confirm later_box (at 1)

clean-value_example : value (key_of (at 1) false) (clean later_box).vrs ≡ (
    if above (compare (at 1) (three_below 33 (last_point later_box).r (last_point later_box).stage))
    then value (key_of (at 1) false) later_box.vrs
    else none)
unfolding put_all new_voterecords last_point value key_eq stage_is_valid
clean-value_example = clean-value later_box (at 1) 33 (refl, (refl, tt)) refl (omega arith) refl

first_made : new_voterecords first_item empty_box (at 1) false ≡ (made_box, 0)
unfolding new_voterecords value key_eq
first_made = refl

abbrev one_node : Suffrage
one_node = record {
  m = (1 ∷ [], record { address = 1 ∷ []; publickey = 2 ∷ [] }) ∷ [];
  ns = record { address = 1 ∷ []; publickey = 2 ∷ [] } ∷ [];
}

abbrev env : Env
env = record { get_suffrage = λ h. found one_node; is_valid_voteproof = λ vp suf. true }

abbrev fact : BallotFact
fact = record { kind = accept_fact; hash = 9 ∷ []; point = at 1; proposal = []; block = [] }

abbrev one_vote : VoteRecords
one_vote = record blank_records {
  voted = (1 ∷ [], record { node = 1 ∷ []; signer = 2 ∷ []; fact = fact }) ∷ [];
  sp = at 1;
}

abbrev agreed : Voteproof
agreed = record {
  kind = accept_voteproof;
  finished = true;
  majority_fact = some fact;
  sign_facts = record { node = 1 ∷ []; signer = 2 ∷ []; fact = fact } ∷ [];
  point = at 1;
  threshold = default_threshold;
  expels = [];
}

abbrev ready_box : Ballotbox
ready_box = record empty_box {
  vrs = (key_of (at 1) false, 0) ∷ [];
  heap = λ i. one_vote;
  next = 1;
  lsp = some (record { stage_point = at 0; is_majority = true; is_suffrage_confirm = false });
}

abbrev counted_box : Ballotbox
counted_box = finish_count (write ready_box 0 (record one_vote { vp = some agreed })) (agreed ∷ [])

abbrev in_order : List Entry → List Entry
in_order m = m

-- The one vote of the one node is counted to a majority, and sent.
one_counted :
    count_voterecords in_order env [] default_threshold 5 100 ready_box 0
    ≡ returns (counted_box, agreed ∷ [])
unfolding or_none count_voterecords after_count takes_ballot before is_zero count by_suffrage
    end_count count_from_voted by_expels by_result finish_with new_voteproof vote_result_of
    find_vote_result count_with_expels sort_ballot_sign_facts_by_expels facts_by_hash hashes len
    stage_eq text_eq lookup insert default_threshold suffrage_of voteproof_from_ballot last_point
    filtered
one_counted = refl

count_voterecords-sends_example :
    (counted_box.vpch ≡ [] ++ agreed ∷ []) × NotLower ready_box counted_box
count_voterecords-sends_example =
    count_voterecords-sends in_order env [] default_threshold 5 100 ready_box counted_box 0
      (agreed ∷ []) one_counted

count_voterecords-new_example :
    all
      (λ vp.
        is_new_with_confirm false
          (record { stage_point = at 0; is_majority = true; is_suffrage_confirm = false })
          vp)
      (agreed ∷ [])
    ≡ true
count_voterecords-new_example =
    count_voterecords-new in_order env [] default_threshold 5 100 ready_box counted_box 0
      (agreed ∷ []) (record { stage_point = at 0; is_majority = true; is_suffrage_confirm = false })
      refl one_counted

abbrev a_vote : SignFact
a_vote = record { node = 1 ∷ []; signer = 2 ∷ []; fact = fact }

abbrev other_vote : SignFact
other_vote = record a_vote { fact = record fact { hash = 8 ∷ [] } }

box_vote_once_example :
    is_taken
      (box_vote first_item env
        (box_vote first_item env empty_box a_vote none []).0
        other_vote
        none
        []).1
    ≡ false
unfolding is_suffrage_confirm_ballot_fact box_vote vote_in vote put_by noted is_voted suffrage_of
    lookup insert text_eq before is_zero takes_ballot new_voterecords last_point voted_of value
box_vote_once_example =
    box_vote_once first_item first_item env empty_box a_vote other_vote none none [] [] refl refl
      refl refl
