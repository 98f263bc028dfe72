-- ===== src/States/VoteRecords/Count/Counting.antt =====
-- What counting the votes of a stage point gives.
use mitum.Prelude.{
  ℕ, ◌≡◌, refl, Bool, true, false, ◌&&◌, Option, none, some, List, [], Text, lookup, values,
  is_some, is_nil, if◌then◌else◌, Bool-cases, inl, inr, arith,
}
use mitum.Base.StagePoint.{StagePoint, init, is_zero, stage_eq}
use mitum.Base.Vote.{VoteResult, not_yet, draw, majority, Entry}
use mitum.Base.Threshold.{Threshold}
use mitum.Isaac.Voteproof.{SignFact, BallotFact, Voteproof, ExpelOperation}
use mitum.Isaac.Suffrage.{Suffrage}
use mitum.Isaac.LastPoint.{LastPoint, before}
use mitum.Isaac.LastVoteproofs.{Outcome, returns, panics}
use mitum.States.VoteRecords.{
  Lookup, failed, missing, found, Env, VoteRecords, count_from_ballots, suffrage_of,
}
use mitum.States.VoteRecords.Expels.{facts_by_hash, count_with_expels, Part}
use mitum.States.VoteRecords.Count.{
  Counted, new_voteproof, finish_with, holds_back, by_result, by_expels, count_from_voted, count,
  end_count, by_suffrage,
}

abbrev pub counts_panic {ℓ} : {A : Type ℓ} → Outcome A → Bool
counts_panic panics = true
counts_panic (returns a) = false

new_voteproof-runs :
    (sp : StagePoint) (sfs : List SignFact) (fact : Option BallotFact) (t : Threshold)
    (expels : List ExpelOperation)
    → is_zero sp ≡ false
    → counts_panic (new_voteproof sp sfs fact t expels) ≡ false
unfolding new_voteproof is_zero stage_eq
new_voteproof-runs sp sfs fact t expels h = ground arith

finish_with-runs :
    (vr : VoteRecords) (o : Outcome Voteproof)
    → counts_panic o ≡ false
    → counts_panic (finish_with vr o) ≡ false
unfolding finish_with
finish_with-runs vr panics h = cc
finish_with-runs vr (returns vp) h = refl

module _ (wait now : ℕ) (threshold : Threshold) where
  by_result-runs :
      (vr : VoteRecords) (e : Bool) (sfs : List SignFact) (r : VoteResult × Text)
      → is_zero vr.sp ≡ false
      → counts_panic (by_result vr e sfs threshold wait now r) ≡ false
  unfolding by_result
  by_result-runs vr e sfs (draw, key) h =
      elim (Bool-cases ((e && stage_eq vr.sp.stage init) && holds_back vr.count_after now wait)) [
        | inl held ↦ rw held refl
        | inr free ↦
            rw free (finish_with-runs vr _ (new_voteproof-runs vr.sp sfs none threshold [] h))
      ]
  by_result-runs vr e sfs (majority, key) h =
      finish_with-runs vr _
        (new_voteproof-runs vr.sp sfs (lookup key (facts_by_hash sfs)) threshold [] h)
  by_result-runs vr e sfs (not_yet, key) h = refl

  module _ (order : List Entry → List Entry) (suf : Suffrage) (local : Text) where
    by_expels-runs :
        (vr : VoteRecords) (r : Bool × Option (Part × BallotFact))
        → is_zero vr.sp ≡ false
        → counts_panic (by_expels order threshold suf wait now vr r) ≡ false
    unfolding by_expels
    by_expels-runs vr (e, some (part, fact)) h =
        finish_with-runs vr _
          (new_voteproof-runs vr.sp part.sign_facts (some fact) threshold part.expels h)
    by_expels-runs vr (e, none) h = by_result-runs vr e (values vr.voted) _ h

    count_from_voted-runs :
        (vr : VoteRecords)
        → is_zero vr.sp ≡ false
        → counts_panic (count_from_voted order local threshold suf wait now vr) ≡ false
    unfolding count_from_voted
    count_from_voted-runs vr h = elim (Bool-cases (is_nil vr.voted)) [
      | inl e ↦ rw e refl
      | inr e ↦
          rw e
            (by_expels-runs vr (count_with_expels order local suf threshold vr.voted vr.expels) h)
    ]

end_count-runs :
    (order : List Entry → List Entry) (first : Option Voteproof) (c : Counted)
    → counts_panic c ≡ false
    → counts_panic (end_count order first c) ≡ false
unfolding end_count
end_count-runs order first panics h = cc
end_count-runs order first (returns (vr, none)) h = refl
end_count-runs order first (returns (vr, some vp)) h = refl

module _ (order : List Entry → List Entry) (env : Env) (local : Text) (last : LastPoint)
    (threshold : Threshold) (wait now : ℕ) where
  by_suffrage-runs :
      (l : Lookup) (first : Option Voteproof) (vr : VoteRecords)
      → is_zero vr.sp ≡ false
      → counts_panic (by_suffrage order l first local threshold wait now vr) ≡ false
  unfolding by_suffrage
  by_suffrage-runs failed first vr h = refl
  by_suffrage-runs missing first vr h = refl
  by_suffrage-runs (found suf) first vr h =
      end_count-runs order first _
        (count_from_voted-runs wait now threshold order suf local _ (moved (is_nil vr.ballots)))
    where
      moved : (b : Bool) → is_zero (if b then vr else count_from_ballots vr suf).sp ≡ false
      moved true = h
      moved false = unfold count_from_ballots in h

  -- Counting a stage point never panics: a point whose stage has no voteproof is not counted.
  pub count-runs :
      (vr : VoteRecords) → counts_panic (count order env local last threshold wait now vr) ≡ false
  unfolding count
  count-runs vr = elim (Bool-cases (is_zero vr.sp)) [
    | inl z ↦ rw z refl
    | inr z ↦ elim (Bool-cases (before last vr.sp vr.isc)) [
      | inr b ↦ rw (z, b) refl
      | inl b ↦ elim (Bool-cases (is_some vr.vp)) [
        | inl f ↦ rw (z, b, f) refl
        | inr f ↦ elim (Bool-cases (is_nil vr.voted && is_nil vr.ballots)) [
          | inl n ↦ rw (z, b, f, n) refl
          | inr n ↦ rw (z, b, f, n) (by_suffrage-runs (suffrage_of env vr) _ vr z)
        ]
      ]
    ]
  ]
