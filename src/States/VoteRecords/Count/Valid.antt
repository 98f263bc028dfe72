-- ===== src/States/VoteRecords/Count/Valid.antt =====
-- isaac/states/ballotbox.go, base/voteproof_isvalid.go: whether a voteproof that was counted is
-- valid in the suffrage.
use mitum.Prelude.{
  ℕ, ◌^◌, ◌≤◌, ◌<◌, ◌≡◌, ◌≢◌, ◌∙◌, sym, ap, refl, subst, Bool, true, false, not, ◌&&◌, Option, none,
  some, List, [], ◌∷◌, if◌then◌else◌, Text, text_eq_refl, lookup, insert, lookup-insert, values,
  is_some, Bool-cases, ◌⊎◌, inl, inr, arith,
}
use mitum.Base.Point.{Point}
use mitum.Base.StagePoint.{
  StagePoint, Stage, init, accept, unknown, other, stage_eq, new_stage_point,
}
use mitum.Base.Vote.{VoteResult, not_yet, draw, majority, result_eq, Entry}
use mitum.Base.Vote.Count.{votes_for}
use mitum.Base.Vote.Best.{IsRange}
use mitum.Base.Vote.Result.{find_vote_result_order, find_vote_result_lem}
use mitum.Base.Threshold.{Threshold, threshold_of, vote_result_of}
use mitum.Isaac.Voteproof.{
  SignFact, BallotFact, Voteproof, init_voteproof, accept_voteproof, set_majority, finish,
  is_empty_kind, vote_result,
}
use mitum.Isaac.Suffrage.{Suffrage, len}
use mitum.Isaac.VoteproofValid.{
  is_valid_voteproof_with_suffrage, with_expels_of, with_sign_facts, is_valid_in_suffrage, agrees,
  are_members, is_stuck, expels_of_kind,
}
use mitum.Isaac.LastVoteproofs.{returns}
use mitum.States.VoteRecords.{VoteRecords}
use mitum.States.VoteRecords.Expels.{hashes, facts_by_hash, facts_into}
use mitum.States.VoteRecords.Count.{Counted, fill, new_voteproof, by_result, count_from_voted}
use mitum.States.VoteRecords.Count.Plain.{finish_with-made, hashes_voted, by_result-counted}

-- A fact that is never the majority of a voteproof
abbrev pub is_empty_fact : Option BallotFact → Bool
is_empty_fact none = false
is_empty_fact (some fact) = is_empty_kind fact.kind

-- The fact that a voteproof takes for its majority
abbrev taken : Option BallotFact → Option BallotFact
taken none = none
taken (some fact) = if is_empty_kind fact.kind then none else some fact

abbrev IsFilled : List SignFact → Option BallotFact → Threshold → Voteproof → Type 0
IsFilled sfs fact t vp =
    (vp.sign_facts ≡ sfs)
    × (vp.threshold ≡ t)
    × (vp.finished ≡ true)
    × (vp.majority_fact ≡ taken fact)
    × (expels_of_kind vp.kind vp.expels ≡ [])
    × (is_stuck vp.kind ≡ false)

fill_init-IsFilled :
    (sp : StagePoint) (sfs : List SignFact) (fact : Option BallotFact) (t : Threshold)
    → IsFilled sfs fact t (fill init_voteproof sp sfs fact t [])
unfolding fill set_majority finish expels_of_kind is_stuck
fill_init-IsFilled sp sfs none t = (refl, refl, refl, refl, refl, refl)
fill_init-IsFilled sp sfs (some fact) t = elim (Bool-cases (is_empty_kind fact.kind)) [
  | inl e ↦ rw e (refl, refl, refl, refl, refl, refl)
  | inr e ↦ rw e (refl, refl, refl, refl, refl, refl)
]

fill_accept-IsFilled :
    (sp : StagePoint) (sfs : List SignFact) (fact : Option BallotFact) (t : Threshold)
    → IsFilled sfs fact t (fill accept_voteproof sp sfs fact t [])
unfolding fill set_majority finish expels_of_kind is_stuck
fill_accept-IsFilled sp sfs none t = (refl, refl, refl, refl, refl, refl)
fill_accept-IsFilled sp sfs (some fact) t = elim (Bool-cases (is_empty_kind fact.kind)) [
  | inl e ↦ rw e (refl, refl, refl, refl, refl, refl)
  | inr e ↦ rw e (refl, refl, refl, refl, refl, refl)
]

returned : {x y : Voteproof} → returns x ≡ returns y → x ≡ y
returned e = cc

new_voteproof-IsFilled :
    (sp : StagePoint) (sfs : List SignFact) (fact : Option BallotFact) (t : Threshold)
    (vp : Voteproof)
    → new_voteproof sp sfs fact t [] ≡ returns vp
    → IsFilled sfs fact t vp
unfolding new_voteproof stage_eq
new_voteproof-IsFilled sp sfs fact t vp h = of_stage sp.stage sp.point h
  where
    of_stage :
        (s : Stage) (p : Point)
        → new_voteproof (new_stage_point p s) sfs fact t [] ≡ returns vp
        → IsFilled sfs fact t vp
    of_stage init p e = subst (IsFilled sfs fact t) (returned e) (fill_init-IsFilled _ sfs fact t)
    of_stage accept p e =
        subst (IsFilled sfs fact t) (returned e) (fill_accept-IsFilled _ sfs fact t)
    of_stage unknown p e = cc
    of_stage (other o) p e = cc

-- A hash that is voted for has a fact.
facts_into-some :
    (key : Text) (sfs : List SignFact) (m : List (Text × BallotFact))
    → (0 < votes_for key (hashes sfs)) ⊎ (is_some (lookup key m) ≡ true)
    → is_some (lookup key (facts_into m sfs)) ≡ true
unfolding facts_into hashes
facts_into-some key [] m (inl h) = absurd (omega arith)
facts_into-some key [] m (inr h) = h
facts_into-some key (sf ∷ sfs) m h =
    facts_into-some key sfs (insert sf.fact.hash sf.fact m) (next h)
  where
    next :
        (0 < votes_for key (sf.fact.hash ∷ hashes sfs)) ⊎ (is_some (lookup key m) ≡ true)
        → (0 < votes_for key (hashes sfs))
          ⊎ (is_some (lookup key (insert sf.fact.hash sf.fact m)) ≡ true)
    next k = ground (arith, lookup-insert sf.fact.hash key sf.fact m)

-- The key of a majority is the hash of a fact.
majority_fact_found :
    (order : List Entry → List Entry) (t : Threshold) (quorum : ℕ) (sfs : List SignFact)
    (key : Text)
    → IsRange order
    → quorum < 2 ^ 64
    → hashes sfs ≢ []
    → vote_result_of order t quorum (hashes sfs) ≡ (majority, key)
    → is_some (lookup key (facts_by_hash sfs)) ≡ true
unfolding vote_result_of facts_by_hash
majority_fact_found order t quorum sfs key range small some_vote won = facts_into-some key sfs [] (
    inl (
      voted_for (hashes sfs) some_vote (λ k.
        subst (λ x. votes_for k (hashes sfs) ≤ votes_for x (hashes sfs)) (ap (λ r. r.1) won)
          (((find_vote_result_lem order quorum (threshold_of t quorum) (hashes sfs) range small
                some_vote).wins
              (ap (λ r. r.0) won)).1
            k))))
  where
    voted_for :
        (s : List Text)
        → s ≢ []
        → ((k : Text) → votes_for k s ≤ votes_for key s)
        → 0 < votes_for key s
    voted_for [] h f = absurd (h refl)
    voted_for (v ∷ s) h f = ground (arith, f v, text_eq_refl v)

-- What is counted agrees with the voteproof that is made of it, unless that is of an empty fact.
agrees-made :
    (vp : Voteproof) (sfs : List SignFact) (t : Threshold) (r : VoteResult) (key : Text)
    → IsFilled sfs (if result_eq r majority then lookup key (facts_by_hash sfs) else none) t vp
    → (r ≢ not_yet)
    → (r ≡ majority → is_some (lookup key (facts_by_hash sfs)) ≡ true)
    → agrees vp (r, key)
      ≡ not (result_eq r majority && is_empty_fact (lookup key (facts_by_hash sfs)))
unfolding agrees result_eq vote_result
agrees-made vp sfs t not_yet key filled counted found = absurd (counted refl)
agrees-made vp sfs t draw key (a, b, c, d, e, f) counted found = ground arith
agrees-made vp sfs t majority key (a, b, c, d, e, f) counted found =
    by_fact (lookup key (facts_by_hash sfs)) (ap (λ l. lookup key (facts_by_hash l)) a) d
      (found refl)
  where
    nothing : vp.majority_fact ≡ none → agrees vp (majority, key) ≡ false
    nothing m = ground arith

    the_fact :
        (g : BallotFact)
        → lookup key (facts_by_hash vp.sign_facts) ≡ some g
        → vp.majority_fact ≡ some g
        → agrees vp (majority, key) ≡ true
    the_fact g l m = ground (arith, text_eq_refl g.hash)

    by_fact :
        (o : Option BallotFact)
        → lookup key (facts_by_hash vp.sign_facts) ≡ o
        → vp.majority_fact ≡ taken o
        → is_some o ≡ true
        → agrees vp (majority, key) ≡ not (is_empty_fact o)
    by_fact none l m h = absurd (ground arith)
    by_fact (some g) l m h = elim (Bool-cases (is_empty_kind g.kind)) [
      | inl n ↦ rw n (nothing (rw n at m))
      | inr n ↦ rw n (the_fact g l (rw n at m))
    ]

module _ (order order' : List Entry → List Entry) (range : IsRange order) (range' : IsRange order')
    (suf : Suffrage) (small : len suf < 2 ^ 64) where
  any_order :
      (t : Threshold) (s : List Text)
      → vote_result_of order' t (len suf) s ≡ vote_result_of order t (len suf) s
  unfolding vote_result_of
  any_order t s =
      find_vote_result_order order' order (len suf) (threshold_of t (len suf)) s range' range

  plain_valid :
      (vp : Voteproof)
      → is_stuck vp.kind ≡ false
      → are_members suf vp.sign_facts ≡ true
      → with_expels_of order' vp suf []
        ≡ agrees vp (vote_result_of order' vp.threshold (len suf) (hashes vp.sign_facts))
  unfolding with_expels_of with_sign_facts is_valid_in_suffrage
  plain_valid vp f members = ground arith

  filled-valid :
      (vp : Voteproof) (sfs : List SignFact) (t : Threshold) (r : VoteResult) (key : Text)
      → vote_result_of order t (len suf) (hashes sfs) ≡ (r, key)
      → are_members suf sfs ≡ true
      → hashes sfs ≢ []
      → IsFilled sfs (if result_eq r majority then lookup key (facts_by_hash sfs) else none) t vp
      → (r ≢ not_yet)
      → is_valid_voteproof_with_suffrage order' vp suf
        ≡ not (result_eq r majority && is_empty_fact (lookup key (facts_by_hash sfs)))
  unfolding is_valid_voteproof_with_suffrage
  filled-valid vp sfs t r key e members some_voted filled counted =
      ap (with_expels_of order' vp suf) no_expels
      ∙ plain_valid vp not_stuck (subst (λ l. are_members suf l ≡ true) (sym signed) members)
      ∙ ap (agrees vp) same_result
      ∙ agrees-made vp sfs t r key filled counted (λ won.
        majority_fact_found order t (len suf) sfs key range small some_voted
          (e ∙ ap (λ x. (x, key)) won))
    where
      signed : vp.sign_facts ≡ sfs
      signed = filled.0

      no_expels : expels_of_kind vp.kind vp.expels ≡ []
      no_expels = filled.4

      not_stuck : is_stuck vp.kind ≡ false
      not_stuck = filled.5

      same_result : vote_result_of order' vp.threshold (len suf) (hashes vp.sign_facts) ≡ (r, key)
      same_result =
          ap (λ x. vote_result_of order' x (len suf) (hashes vp.sign_facts)) filled.1
          ∙ ap (λ l. vote_result_of order' t (len suf) (hashes l)) signed
          ∙ any_order t (hashes sfs)
          ∙ e

  -- A voteproof that counting gives where no ballot brought expels, from votes of members of the
  -- suffrage, is valid in the suffrage, unless the most voted fact won and is of an empty proposal or of an
  -- empty block; then it is not.
  pub count_from_voted-valid :
      (local : Text) (threshold : Threshold) (wait now : ℕ) (vr vr' : VoteRecords) (vp : Voteproof)
      → vr.expels ≡ []
      → are_members suf (values vr.voted) ≡ true
      → count_from_voted order local threshold suf wait now vr ≡ returns (vr', some vp)
      → (let (r, key) = vote_result_of order threshold (len suf) (hashes (values vr.voted)) in
          is_valid_voteproof_with_suffrage order' vp suf
          ≡ not (
              result_eq r majority && is_empty_fact (lookup key (facts_by_hash (values vr.voted)))))
  unfolding by_result result_eq
  count_from_voted-valid local threshold wait now vr vr' vp plain members h =
      (let (some_voted, e) =
          by_result-counted order local threshold suf wait now vr vr' vp plain h in
        by_r (vote_result_of order threshold (len suf) (hashes sfs)).0
          (vote_result_of order threshold (len suf) (hashes sfs)).1 refl
          (hashes_voted vr.voted some_voted) e)
    where
      sfs : List SignFact
      sfs = values vr.voted

      by_r :
          (r : VoteResult) (key : Text)
          → vote_result_of order threshold (len suf) (hashes sfs) ≡ (r, key)
          → hashes sfs ≢ []
          → by_result vr false sfs threshold wait now (r, key) ≡ returns (vr', some vp)
          → is_valid_voteproof_with_suffrage order' vp suf
            ≡ not (result_eq r majority && is_empty_fact (lookup key (facts_by_hash sfs)))
      by_r not_yet key e s b = absurd (no_voteproof _ refl b)
        where
          no_voteproof : (x : Counted) → x ≡ returns (vr, none) → x ≢ returns (vr', some vp)
          no_voteproof x h k = cc
      by_r draw key e s b =
          filled-valid vp sfs threshold draw key e members s
            (new_voteproof-IsFilled vr.sp sfs none threshold vp (finish_with-made vr vr' _ vp b).0)
            (λ x. cc)
      by_r majority key e s b =
          filled-valid vp sfs threshold majority key e members s
            (new_voteproof-IsFilled vr.sp sfs (lookup key (facts_by_hash sfs)) threshold vp
              (finish_with-made vr vr' _ vp b).0)
            (λ x. cc)
