-- ===== src/Base/Vote/Future.antt =====
-- What the result of a vote says of the votes that are still to come.
use mitum.Prelude.{
  ℕ, zero, suc, ◌+◌, ◌*◌, ◌^◌, ◌≡◌, ◌≢◌, ◌≤◌, ◌<◌, refl, ap, subst, List, [], ◌∷◌, ◌++◌, ltb,
  ltb→lt, length, length-append, Text, text_eq, text_eq_iff, arith, Bool-cases, inl, inr,
}
use mitum.Base.Vote.{
  VoteResult, not_yet, draw, majority, Entry, Top, capped, remaining, find_vote_result,
}
use mitum.Base.Vote.Count.{votes_for}
use mitum.Base.Vote.Best.{IsRange, seen, visit_all-IsTop}
use mitum.Base.Vote.Result.{
  IsResult, votes-le-length, votes-append, votes_disjoint, find-cons, conclude_tied,
  find_vote_result_lem,
}

ne_nil_append : (s t : List Text) → s ≢ [] → s ++ t ≢ []
ne_nil_append [] t h = absurd (h refl)
ne_nil_append (v ∷ s) t h = λ e. cc

-- With a threshold of more than half of the quorum, a majority stays the majority, for the same
-- text, when further votes come in up to the quorum.
pub majority_stable :
    (order : List Entry → List Entry) (quorum threshold : ℕ) (s t : List Text) (key : Text)
    → IsRange order
    → quorum < 2 ^ 64
    → s ≢ []
    → quorum < 2 * capped quorum threshold
    → length (s ++ t) ≤ quorum
    → find_vote_result order quorum threshold s ≡ (majority, key)
    → find_vote_result order quorum threshold (s ++ t) ≡ (majority, key)
majority_stable order quorum threshold s t key range small some_vote half room won =
    same (find_vote_result order quorum threshold (s ++ t)) result key
      (omega (arith, votes-append key s t, votes))
  where
    th : ℕ
    th = capped quorum threshold

    before : IsResult quorum th s majority key
    before =
        subst (λ (x : VoteResult × Text). IsResult quorum th s x.0 x.1) won
          (find_vote_result_lem order quorum threshold s range small some_vote)

    votes : th ≤ votes_for key s
    votes = (before.wins refl).0

    result :
        IsResult quorum th
          (s ++ t)
          (find_vote_result order quorum threshold (s ++ t)).0
          (find_vote_result order quorum threshold (s ++ t)).1
    result =
        find_vote_result_lem order quorum threshold (s ++ t) range small
          (ne_nil_append s t some_vote)

    same :
        (x : VoteResult × Text)
        → IsResult quorum th (s ++ t) x.0 x.1
        → (k : Text) → th ≤ votes_for k (s ++ t)
        → x ≡ (majority, k)
    same (r, k') res k enough = elim (Bool-cases (text_eq k' k)) [
      | inl e ↦ cc (res.won k enough, (text_eq_iff k' k).0 e)
      | inr e ↦ absurd (
          omega (
            arith,
            votes_disjoint k' k (s ++ t) (λ p. cc ((text_eq_iff k' k).1 p)),
            (res.wins (res.won k enough)).0,
          ))
    ]

-- A draw stays a draw when further votes come in up to the quorum.
pub draw_final :
    (order : List Entry → List Entry) (quorum threshold : ℕ) (s t : List Text)
    → IsRange order
    → quorum < 2 ^ 64
    → s ≢ []
    → length (s ++ t) ≤ quorum
    → (find_vote_result order quorum threshold s).0 ≡ draw
    → (find_vote_result order quorum threshold (s ++ t)).0 ≡ draw
draw_final order quorum threshold s t range small some_vote room drawn =
    (find_vote_result_lem order quorum threshold (s ++ t) range small
        (ne_nil_append s t some_vote)).tied
      λ k. ground (
        arith,
        (find_vote_result_lem order quorum threshold s range small some_vote).ties drawn k,
        votes-append k s t,
        votes-le-length k t,
        length-append s t,
      )

abbrev pub repeat : ℕ → Text → List Text
repeat zero k = []
repeat (suc n) k = k ∷ repeat n k

length-repeat : (n : ℕ) (k : Text) → length (repeat n k) ≡ n
length-repeat zero k = refl
length-repeat (suc n) k = ap suc (length-repeat n k)

votes-repeat : (n : ℕ) (k : Text) → votes_for k (repeat n k) ≡ n
votes-repeat zero k = refl
votes-repeat (suc n) k = ground (arith, votes-repeat n k, text_eq_iff k k)

-- While the result is not yet decided, and the threshold is no more than the quorum, some further
-- votes up to the quorum would make it a majority.
pub not_yet_open :
    (order : List Entry → List Entry) (quorum threshold : ℕ) (s : List Text)
    → IsRange order
    → quorum < 2 ^ 64
    → s ≢ []
    → length s ≤ quorum
    → (find_vote_result order quorum threshold s).0 ≡ not_yet
    → (t : List Text) × (length (s ++ t) ≤ quorum)
      × ((find_vote_result order quorum threshold (s ++ t)).0 ≡ majority)
not_yet_open order quorum threshold [] range small some_vote room open_vote =
    absurd (some_vote refl)
not_yet_open order quorum threshold (v ∷ s) range small some_vote room open_vote =
    (more, fits, majority_then)
  where
    all : List Text
    all = v ∷ s

    th : ℕ
    th = capped quorum threshold

    top : Top
    top = seen order range v s

    missing : ℕ
    missing = remaining quorum (length all)

    more : List Text
    more = repeat missing top.mhs

    fits : length (all ++ more) ≤ quorum
    fits = ground (arith, length-append all more, length-repeat missing top.mhs)

    enough : th ≤ top.max_count + missing
    enough = elim (Bool-cases (ltb (top.max_count + missing) th)) [
      | inr f ↦ ground arith
      | inl f ↦ cc (
        open_vote,
        ap (λ (x : VoteResult × Text). x.0) (find-cons order range quorum threshold v s),
        conclude_tied quorum th all top (visit_all-IsTop order range v s) small (ground arith)
            (ltb→lt (top.max_count + missing) th f),
      )
    ]

    majority_then : (find_vote_result order quorum threshold (all ++ more)).0 ≡ majority
    majority_then =
        (find_vote_result_lem order quorum threshold (all ++ more) range small (λ e. cc)).won
          top.mhs
          (omega (
            arith,
            enough,
            votes-append top.mhs all more,
            votes-repeat missing top.mhs,
            (visit_all-IsTop order range v s).reached,
          ))
