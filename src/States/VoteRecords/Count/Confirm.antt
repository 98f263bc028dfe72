-- ===== src/States/VoteRecords/Count/Confirm.antt =====
-- isaac/states/ballotbox.go: counting does not change whether the records are of a suffrage confirm.
use mitum.Prelude.{
  ℕ, ◌≡◌, refl, Bool, true, false, ◌&&◌, Option, none, some, List, [], Text, lookup, values,
  is_some, is_nil, if◌then◌else◌, Bool-cases, inl, inr,
}
use mitum.Base.StagePoint.{init, is_zero, stage_eq}
use mitum.Base.Vote.{VoteResult, not_yet, draw, majority, Entry}
use mitum.Base.Threshold.{Threshold}
use mitum.Isaac.Voteproof.{SignFact, BallotFact, Voteproof}
use mitum.Isaac.Suffrage.{Suffrage}
use mitum.Isaac.LastPoint.{LastPoint, before}
use mitum.Isaac.LastVoteproofs.{Outcome, returns, panics}
use mitum.States.VoteRecords.{
  Lookup, failed, missing, found, Env, VoteRecords, count_from_ballots, suffrage_of,
}
use mitum.States.VoteRecords.Expels.{Part, count_with_expels, facts_by_hash}
use mitum.States.VoteRecords.Count.{
  Counted, new_voteproof, finish_with, hold, holds_back, by_result, by_expels, count_from_voted,
  count, end_count, by_suffrage,
}

-- Whether what counting leaves is of a suffrage confirm; a panic leaves nothing.
abbrev pub left_confirm : {A : Type 0} → Bool → Outcome (VoteRecords × A) → Bool
left_confirm isc panics = isc
left_confirm isc (returns (vr, a)) = vr.isc

finish_with-confirm :
    (vr : VoteRecords) (o : Outcome Voteproof) → left_confirm vr.isc (finish_with vr o) ≡ vr.isc
unfolding finish_with
finish_with-confirm vr panics = refl
finish_with-confirm vr (returns vp) = refl

module _ (wait now : ℕ) (threshold : Threshold) where
  by_result-confirm :
      (vr : VoteRecords) (e : Bool) (sfs : List SignFact) (r : VoteResult × Text)
      → left_confirm vr.isc (by_result vr e sfs threshold wait now r) ≡ vr.isc
  unfolding by_result hold
  by_result-confirm vr e sfs (draw, key) =
      elim (Bool-cases ((e && stage_eq vr.sp.stage init) && holds_back vr.count_after now wait)) [
        | inl held ↦ rw held refl
        | inr free ↦ rw free (finish_with-confirm vr (new_voteproof vr.sp sfs none threshold []))
      ]
  by_result-confirm vr e sfs (majority, key) =
      finish_with-confirm vr (new_voteproof vr.sp sfs (lookup key (facts_by_hash sfs)) threshold [])
  by_result-confirm vr e sfs (not_yet, key) = refl

  module _ (order : List Entry → List Entry) (suf : Suffrage) (local : Text) where
    by_expels-confirm :
        (vr : VoteRecords) (r : Bool × Option (Part × BallotFact))
        → left_confirm vr.isc (by_expels order threshold suf wait now vr r) ≡ vr.isc
    unfolding by_expels
    by_expels-confirm vr (e, some (part, fact)) =
        finish_with-confirm vr
          (new_voteproof vr.sp part.sign_facts (some fact) threshold part.expels)
    by_expels-confirm vr (e, none) = by_result-confirm vr e (values vr.voted) _

    count_from_voted-confirm :
        (vr : VoteRecords)
        → left_confirm vr.isc (count_from_voted order local threshold suf wait now vr) ≡ vr.isc
    unfolding count_from_voted
    count_from_voted-confirm vr = elim (Bool-cases (is_nil vr.voted)) [
      | inl e ↦ rw e refl
      | inr e ↦
          rw e
            (by_expels-confirm vr (count_with_expels order local suf threshold vr.voted vr.expels))
    ]

end_count-confirm :
    (order : List Entry → List Entry) (first : Option Voteproof) (isc : Bool) (c : Counted)
    → left_confirm isc c ≡ isc
    → left_confirm isc (end_count order first c) ≡ isc
unfolding end_count
end_count-confirm order first isc panics h = refl
end_count-confirm order first isc (returns (vr, none)) h = h
end_count-confirm order first isc (returns (vr, some vp)) h = h

module _ (order : List Entry → List Entry) (env : Env) (local : Text) (last : LastPoint)
    (threshold : Threshold) (wait now : ℕ) where
  by_suffrage-confirm :
      (l : Lookup) (first : Option Voteproof) (vr : VoteRecords)
      → left_confirm vr.isc (by_suffrage order l first local threshold wait now vr) ≡ vr.isc
  unfolding by_suffrage
  by_suffrage-confirm failed first vr = refl
  by_suffrage-confirm missing first vr = refl
  by_suffrage-confirm (found suf) first vr = moved (is_nil vr.ballots)
    where
      counted : VoteRecords → Counted
      counted x = count_from_voted order local threshold suf wait now x

      moved :
          (b : Bool)
          → left_confirm vr.isc
              (end_count order first (counted (if b then vr else count_from_ballots vr suf)))
            ≡ vr.isc
      moved true =
          end_count-confirm order first vr.isc (counted vr)
            (count_from_voted-confirm wait now threshold order suf local vr)
      moved false = end_count-confirm order first vr.isc (counted (count_from_ballots vr suf)) (
          unfold count_from_ballots in
          count_from_voted-confirm wait now threshold order suf local (count_from_ballots vr suf))

  pub count-confirm :
      (vr : VoteRecords)
      → left_confirm vr.isc (count order env local last threshold wait now vr) ≡ vr.isc
  unfolding count
  count-confirm vr = elim (Bool-cases (is_zero vr.sp)) [
    | inl z ↦ rw z refl
    | inr z ↦ elim (Bool-cases (before last vr.sp vr.isc)) [
      | inr b ↦ rw (z, b) refl
      | inl b ↦ elim (Bool-cases (is_some vr.vp)) [
        | inl f ↦ rw (z, b, f) refl
        | inr f ↦ elim (Bool-cases (is_nil vr.voted && is_nil vr.ballots)) [
          | inl n ↦ rw (z, b, f, n) refl
          | inr n ↦ rw (z, b, f, n) (by_suffrage-confirm (suffrage_of env vr) _ vr)
        ]
      ]
    ]
  ]
