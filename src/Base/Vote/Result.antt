-- ===== src/Base/Vote/Result.antt =====
-- What the result of a vote says of the votes that were cast, and of those still to come.
use mitum.Prelude.{
  ℕ, suc, ◌+◌, ◌^◌, ◌≡◌, ◌≢◌, ◌≤◌, ◌<◌, refl, sym, subst, ◌∙◌, ◌==◌, false, List, [], ◌∷◌, ◌++◌,
  length, Text, text_eq_iff, arith,
}
use mitum.Base.Vote.{
  VoteResult, draw, majority, Entry, Top, capped, remaining, conclude, find_vote_result,
}
use mitum.Base.Vote.Count.{votes_for}
use mitum.Base.Vote.Best.{IsRange, IsTop, seen, visit_all-IsTop, IsTop-unique, votes_pos}

pub votes-le-length : (k : Text) (s : List Text) → votes_for k s ≤ length s
votes-le-length k [] = omega arith
votes-le-length k (v ∷ s) = ground (arith, votes-le-length k s)

pub votes-append :
    (k : Text) (s t : List Text) → votes_for k (s ++ t) ≡ votes_for k s + votes_for k t
votes-append k [] t = omega arith
votes-append k (v ∷ s) t = omega (arith, votes-append k s t)

-- Two texts share no vote.
pub votes_disjoint : (j k : Text) (s : List Text) → j ≢ k → votes_for j s + votes_for k s ≤ length s
votes_disjoint j k [] h = omega arith
votes_disjoint j k (v ∷ s) h =
    ground (arith, votes_disjoint j k s h, text_eq_iff v j, text_eq_iff v k)

conclude_cong :
    (th remain : ℕ) (t u : Top)
    → t.max_count ≡ u.max_count
    → t.mhs ≡ u.mhs
    → conclude th remain t ≡ conclude th remain u
unfolding conclude
conclude_cong th remain t u p q = simp (p, q)

suc_ne_zero : (n : ℕ) → (suc n == 0) ≡ false
suc_ne_zero n = ground arith

module _ (order : List Entry → List Entry) (range : IsRange order) where
  pub find-cons :
      (quorum threshold : ℕ) (v : Text) (s : List Text)
      → find_vote_result order quorum threshold (v ∷ s)
        ≡ conclude
            (capped quorum threshold)
            (remaining quorum (length (v ∷ s)))
            (seen order range v s)
  unfolding find_vote_result
  find-cons quorum threshold v s = rw (suc_ne_zero (length s))

-- The result does not depend on the order in which the map of counts is visited.
pub find_vote_result_order :
    (f g : List Entry → List Entry) (quorum threshold : ℕ) (s : List Text)
    → IsRange f
    → IsRange g
    → find_vote_result f quorum threshold s ≡ find_vote_result g quorum threshold s
unfolding find_vote_result
find_vote_result_order f g quorum threshold [] rf rg = refl
find_vote_result_order f g quorum threshold (v ∷ s) rf rg =
    let a = visit_all-IsTop f rf v s in
    let b = visit_all-IsTop g rg v s in
    let (m, h) =
      IsTop-unique (v ∷ s) (seen f rf v s) (seen g rg v s) (omega (arith, a.most v, votes_pos v s))
        a b in
    find-cons f rf quorum threshold v s
    ∙ conclude_cong (capped quorum threshold) (remaining quorum (length (v ∷ s))) (seen f rf v s)
        (seen g rg v s) m h
    ∙ sym (find-cons g rg quorum threshold v s)

-- The result in terms of the votes: `th` is the threshold, at most the quorum.
pub record IsResult (quorum th : ℕ) (s : List Text) (r : VoteResult) (key : Text) : Type 0 where
  pub wins : r ≡ majority → (th ≤ votes_for key s) × ((k : Text) → votes_for k s ≤ votes_for key s)
  pub won : (k : Text) → th ≤ votes_for k s → r ≡ majority
  pub ties : r ≡ draw → (k : Text) → votes_for k s + remaining quorum (length s) < th
  pub tied : ((k : Text) → votes_for k s + remaining quorum (length s) < th) → r ≡ draw

module _ (quorum th : ℕ) (s : List Text) (t : Top) (top : IsTop s t) (small : quorum < 2 ^ 64)
    (low : th ≤ quorum) where
  abbrev verdict : VoteResult
  verdict = (conclude th (remaining quorum (length s)) t).0

  no_wrap : remaining quorum (length s) ≢ 0 → t.max_count + remaining quorum (length s) < 2 ^ 64
  no_wrap h = ground (arith, votes-le-length t.mhs s, top.reached)

  conclude_wins :
      verdict ≡ majority
      → (th ≤ t.max_count) × ((conclude th (remaining quorum (length s)) t).1 ≡ t.mhs)
  unfolding conclude
  conclude_wins h = ground arith

  conclude_won : th ≤ t.max_count → verdict ≡ majority
  unfolding conclude
  conclude_won h = ground arith

  conclude_ties : verdict ≡ draw → t.max_count + remaining quorum (length s) < th
  unfolding conclude
  conclude_ties h = ground (arith, no_wrap)

  pub conclude_tied : t.max_count + remaining quorum (length s) < th → verdict ≡ draw
  unfolding conclude
  conclude_tied h = ground arith

  conclude-IsResult : IsResult quorum th s verdict (conclude th (remaining quorum (length s)) t).1
  conclude-IsResult = record {
    wins = λ h.
        let (enough, key) = conclude_wins h in
        rw key (omega (arith, top.reached), λ k. omega (arith, top.reached, top.most k));
    won = λ k h. conclude_won (omega (arith, top.most k));
    ties = λ h k. omega (arith, conclude_ties h, top.most k);
    tied = λ h. conclude_tied (omega (arith, h t.mhs, top.reached));
  }

-- For one vote or more, the result is majority exactly when some text has as many votes as the
-- threshold (no more than the quorum), and then its key has the most votes; it is draw exactly when
-- no text could reach the threshold even with all the votes that are missing from the quorum.
pub find_vote_result_lem :
    (order : List Entry → List Entry) (quorum threshold : ℕ) (s : List Text)
    → IsRange order
    → quorum < 2 ^ 64
    → s ≢ []
    → IsResult quorum
        (capped quorum threshold)
        s
        (find_vote_result order quorum threshold s).0
        (find_vote_result order quorum threshold s).1
find_vote_result_lem order quorum threshold [] range small some_vote = absurd (some_vote refl)
find_vote_result_lem order quorum threshold (v ∷ s) range small some_vote =
    subst (λ (x : VoteResult × Text). IsResult quorum (capped quorum threshold) (v ∷ s) x.0 x.1)
      (sym (find-cons order range quorum threshold v s))
      (conclude-IsResult quorum (capped quorum threshold) (v ∷ s) (seen order range v s)
        (visit_all-IsTop order range v s) small (ground arith))
