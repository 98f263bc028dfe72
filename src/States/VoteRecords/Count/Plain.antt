-- ===== src/States/VoteRecords/Count/Plain.antt =====
-- isaac/states/ballotbox.go, `countFromVoted`: what is counted when no ballot brought expels.
use mitum.Prelude.{
  ℕ, ◌^◌, ◌≡◌, ◌≢◌, ◌≤◌, ◌<◌, ◌∙◌, sym, ap, refl, subst, false, Option, none, some, List, [], ◌∷◌,
  Text, lookup, values, is_nil, Bool-cases, inl, inr, arith,
}
use mitum.Base.Point.{Point}
use mitum.Base.StagePoint.{
  init, stage_eq, StagePoint, Stage, accept, unknown, other, new_stage_point,
}
use mitum.Base.Vote.{VoteResult, not_yet, draw, majority, Entry, capped}
use mitum.Base.Vote.Count.{votes_for}
use mitum.Base.Vote.Best.{IsRange}
use mitum.Base.Vote.Result.{find_vote_result_lem}
use mitum.Base.Threshold.{Threshold, vote_result_of, threshold_of}
use mitum.Isaac.Voteproof.{VoteproofKind, SignFact, BallotFact, Voteproof, set_majority, finish}
use mitum.Isaac.Suffrage.{Suffrage, len}
use mitum.Isaac.LastVoteproofs.{Outcome, returns, panics}
use mitum.States.VoteRecords.{VoteRecords}
use mitum.States.VoteRecords.Expels.{hashes, facts_by_hash, count_with_expels}
use mitum.States.VoteRecords.Expels.Facts.{count_with_expels-nil, facts_by_hash-hash}
use mitum.States.VoteRecords.Count.{
  new_voteproof, fill, finish_with, by_result, by_expels, count_from_voted, Counted,
}

-- What a finished voteproof without expels is made of.
fill-made :
    (k : VoteproofKind) (sp : StagePoint) (sfs : List SignFact) (fact : Option BallotFact)
    (t : Threshold)
    → ((fill k sp sfs fact t []).sign_facts ≡ sfs)
      × ((fill k sp sfs fact t []).point ≡ sp)
      × ((fill k sp sfs fact t []).threshold ≡ t)
      × ((f : BallotFact) → (fill k sp sfs fact t []).majority_fact ≡ some f → fact ≡ some f)
unfolding fill set_majority finish
fill-made k sp sfs none t = (refl, refl, refl, λ f e. e)
fill-made k sp sfs (some fact) t = (ground arith, ground arith, refl, λ f e. ground arith)

abbrev IsMadeOf : StagePoint → List SignFact → Option BallotFact → Threshold → Voteproof → Type 0
IsMadeOf sp sfs fact t vp =
    (vp.sign_facts ≡ sfs)
    × (vp.point ≡ sp)
    × (vp.threshold ≡ t)
    × ((f : BallotFact) → vp.majority_fact ≡ some f → fact ≡ some f)

returns_eq : {A : Type 0} {x y : A} → returns x ≡ returns y → x ≡ y
returns_eq e = cc

new_voteproof-IsMadeOf :
    (sp : StagePoint) (sfs : List SignFact) (fact : Option BallotFact) (t : Threshold)
    (vp : Voteproof)
    → new_voteproof sp sfs fact t [] ≡ returns vp
    → IsMadeOf sp sfs fact t vp
unfolding new_voteproof stage_eq
new_voteproof-IsMadeOf sp sfs fact t vp h = of_stage sp.stage sp.point h
  where
    of_stage :
        (s : Stage) (p : Point)
        → new_voteproof (new_stage_point p s) sfs fact t [] ≡ returns vp
        → IsMadeOf (new_stage_point p s) sfs fact t vp
    of_stage init p e =
        subst (IsMadeOf (new_stage_point p init) sfs fact t) (returns_eq e) (fill-made _ _ _ _ _)
    of_stage accept p e =
        subst (IsMadeOf (new_stage_point p accept) sfs fact t) (returns_eq e) (fill-made _ _ _ _ _)
    of_stage unknown p e = cc
    of_stage (other o) p e = cc

pub finish_with-made :
    (vr vr' : VoteRecords) (o : Outcome Voteproof) (vp : Voteproof)
    → finish_with vr o ≡ returns (vr', some vp)
    → (o ≡ returns vp) × (vr'.vp ≡ some vp)
unfolding finish_with
finish_with-made vr vr' panics vp h = cc
finish_with-made vr vr' (returns w) vp h = (ground arith, ground arith)

module _ (vr vr' : VoteRecords) (sfs : List SignFact) (threshold : Threshold) (wait now : ℕ)
    (vp : Voteproof) where
  -- A draw is not held where no ballot brought expels.
  by_result-made :
      (r : VoteResult × Text)
      → by_result vr false sfs threshold wait now r ≡ returns (vr', some vp)
      → (vr'.vp ≡ some vp)
        × (vp.sign_facts ≡ sfs)
        × (vp.point ≡ vr.sp)
        × (vp.threshold ≡ threshold)
        × ((f : BallotFact) → vp.majority_fact ≡ some f → (r.0 ≡ majority) × (f.hash ≡ r.1))
  unfolding by_result
  by_result-made (not_yet, key) h = absurd (none_some (outcome_eq h))
    where
      outcome_eq : {a b : VoteRecords × Option Voteproof} → returns a ≡ returns b → a.1 ≡ b.1
      outcome_eq e = cc

      none_some : none ≢ some vp
      none_some e = cc
  by_result-made (draw, key) h =
      let (made, kept) = finish_with-made vr vr' _ vp h in
      let (a, b, c, d) = new_voteproof-IsMadeOf vr.sp sfs none threshold vp made in
      (kept, a, b, c, λ f e. absurd (none_some f (d f e)))
    where
      none_some : (f : BallotFact) → none ≢ some f
      none_some f e = cc
  by_result-made (majority, key) h =
      let (made, kept) = finish_with-made vr vr' _ vp h in
      let (a, b, c, d) =
        new_voteproof-IsMadeOf vr.sp sfs (lookup key (facts_by_hash sfs)) threshold vp made in
      (kept, a, b, c, λ f e. (refl, facts_by_hash-hash key sfs f (d f e)))

pub hashes_voted :
    (voted : List (Text × SignFact)) → is_nil voted ≡ false → hashes (values voted) ≢ []
unfolding hashes
hashes_voted [] h = cc
hashes_voted ((k, sf) ∷ voted) h = hashes_cons sf (values voted)
  where
    hashes_cons : (x : SignFact) (l : List SignFact) → hashes (x ∷ l) ≢ []
    hashes_cons x l e = cc

-- What wins has enough votes.
pub vote_result_of-wins :
    (order : List Entry → List Entry) (t : Threshold) (quorum : ℕ) (s : List Text)
    → IsRange order
    → quorum < 2 ^ 64
    → s ≢ []
    → (vote_result_of order t quorum s).0 ≡ majority
    → capped quorum (threshold_of t quorum) ≤ votes_for (vote_result_of order t quorum s).1 s
unfolding vote_result_of
vote_result_of-wins order t quorum s range small some_vote won =
    ((find_vote_result_lem order quorum (threshold_of t quorum) s range small some_vote).wins won).0

-- Counting without expels comes down to the result of the vote.
pub by_result-counted :
    (order : List Entry → List Entry) (local : Text) (threshold : Threshold) (suf : Suffrage)
    (wait now : ℕ) (vr vr' : VoteRecords) (vp : Voteproof)
    → vr.expels ≡ []
    → count_from_voted order local threshold suf wait now vr ≡ returns (vr', some vp)
    → (is_nil vr.voted ≡ false)
      × (by_result vr false
            (values vr.voted)
            threshold
            wait
            now
            (vote_result_of order threshold (len suf) (hashes (values vr.voted)))
          ≡ returns (vr', some vp))
unfolding count_from_voted by_expels
by_result-counted order local threshold suf wait now vr vr' vp plain h =
    elim (Bool-cases (is_nil vr.voted)) [
      | inl e ↦ absurd (no_voteproof _ refl (rw e at h))
      | inr e ↦
          let h1 : by_expels order threshold suf wait now vr
                (count_with_expels order local suf threshold vr.voted vr.expels)
              ≡ returns (vr', some vp) =
            rw e at h in
          (e, sym (ap (by_expels order threshold suf wait now vr) none_counted) ∙ h1)
    ]
  where
    none_counted : count_with_expels order local suf threshold vr.voted vr.expels ≡ (false, none)
    none_counted =
        ap (count_with_expels order local suf threshold vr.voted) plain
        ∙ count_with_expels-nil order local suf threshold vr.voted

    no_voteproof : (x : Counted) → x ≡ returns (vr, none) → x ≢ returns (vr', some vp)
    no_voteproof x e e' = cc

counted_plain :
    (order : List Entry → List Entry) (local : Text) (threshold : Threshold) (suf : Suffrage)
    (wait now : ℕ) (vr vr' : VoteRecords) (vp : Voteproof)
    → IsRange order
    → len suf < 2 ^ 64
    → vr.expels ≡ []
    → count_from_voted order local threshold suf wait now vr ≡ returns (vr', some vp)
    → (vr'.vp ≡ some vp)
      × (vp.sign_facts ≡ values vr.voted)
      × (vp.point ≡ vr.sp)
      × (vp.threshold ≡ threshold)
      × ((f : BallotFact)
          → vp.majority_fact ≡ some f
          → capped (len suf) (threshold_of threshold (len suf))
            ≤ votes_for f.hash (hashes (values vr.voted)))
counted_plain order local threshold suf wait now vr vr' vp range small plain h =
    let (some_voted, e) = by_result-counted order local threshold suf wait now vr vr' vp plain h in
    let (kept, a, b, c, d) = by_result-made vr vr' sfs threshold wait now vp result e in
    (
      kept,
      a,
      b,
      c,
      λ f m.
          subst
            (λ k. capped (len suf) (threshold_of threshold (len suf)) ≤ votes_for k (hashes sfs))
            (sym (d f m).1)
            (vote_result_of-wins order threshold (len suf) (hashes sfs) range small
              (hashes_voted vr.voted some_voted) (d f m).0),
    )
  where
    sfs : List SignFact
    sfs = values vr.voted

    result : VoteResult × Text
    result = vote_result_of order threshold (len suf) (hashes sfs)

-- When no ballot brought expels, a voteproof that counting gives is remembered by the records. It
-- is of the point of the records, of the votes that were checked and of the threshold.
pub count_from_voted_plain :
    (order : List Entry → List Entry) (local : Text) (threshold : Threshold) (suf : Suffrage)
    (wait now : ℕ) (vr vr' : VoteRecords) (vp : Voteproof)
    → IsRange order
    → len suf < 2 ^ 64
    → vr.expels ≡ []
    → count_from_voted order local threshold suf wait now vr ≡ returns (vr', some vp)
    → (vr'.vp ≡ some vp)
      × (vp.sign_facts ≡ values vr.voted)
      × (vp.point ≡ vr.sp)
      × (vp.threshold ≡ threshold)
count_from_voted_plain order local threshold suf wait now vr vr' vp range small plain h =
    let (kept, a, b, c, d) =
      counted_plain order local threshold suf wait now vr vr' vp range small plain h in
    (kept, a, b, c)

-- When no ballot brought expels and counting gives a voteproof with a majority fact, at least as
-- many of the votes that were checked are for that fact as the threshold asks of the suffrage.
pub count_from_voted_majority :
    (order : List Entry → List Entry) (local : Text) (threshold : Threshold) (suf : Suffrage)
    (wait now : ℕ) (vr vr' : VoteRecords) (vp : Voteproof) (f : BallotFact)
    → IsRange order
    → len suf < 2 ^ 64
    → vr.expels ≡ []
    → count_from_voted order local threshold suf wait now vr ≡ returns (vr', some vp)
    → vp.majority_fact ≡ some f
    → capped (len suf) (threshold_of threshold (len suf))
      ≤ votes_for f.hash (hashes (values vr.voted))
count_from_voted_majority order local threshold suf wait now vr vr' vp f range small plain h m =
    let (kept, a, b, c, d) =
      counted_plain order local threshold suf wait now vr vr' vp range small plain h in
    d f m
