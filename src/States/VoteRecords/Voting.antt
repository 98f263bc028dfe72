-- ===== src/States/VoteRecords/Voting.antt =====
-- What a vote does to the records of its stage point.
use mitum.Prelude.{
  ◌≡◌, ◌≢◌, ◌⊎◌, ◌∙◌, sym, refl, Bool, true, false, not, ◌&&◌, Option, some, List, Text, text_eq,
  text_eq_iff, lookup, insert, lookup-insert, is_some, if◌then◌else◌, Bool-cases, inl, inr, arith,
}
use mitum.Base.StagePoint.{is_zero}
use mitum.Isaac.Voteproof.{SignFact, Voteproof, ExpelOperation}
use mitum.Isaac.LastPoint.{LastPoint, before}
use mitum.States.VoteRecords.{
  Lookup, failed, missing, found, Env, VoteRecords, answer, vote, put_by, noted, is_voted,
  suffrage_of,
}

-- Whether a node has voted is seen in the votes, checked or not, and in the voteproofs of ballots.
voted_by_vote :
    (vr : VoteRecords) (node : Text)
    → (is_some (lookup node vr.voted) ≡ true) ⊎ (is_some (lookup node vr.ballots) ≡ true)
    → is_voted vr node ≡ true
unfolding is_voted
voted_by_vote vr node h = ground arith

module _ (env : Env) (vr : VoteRecords) (sf : SignFact) (vp : Option Voteproof)
    (expels : List ExpelOperation) (last : LastPoint) where
  data VoteCase : Type 0 where
    not_taken : vote env vr sf vp expels last ≡ (vr, answer false false) → VoteCase
    taken :
        is_voted vr sf.node ≡ false
        → vote env vr sf vp expels last
          ≡ put_by (suffrage_of env vr) (noted vr sf.node vp expels) sf
        → VoteCase

  vote-cases : VoteCase
  unfolding vote
  vote-cases = elim (Bool-cases (is_zero vr.sp)) [
    | inl z ↦ not_taken (rw z refl)
    | inr z ↦ elim (Bool-cases (before last vr.sp vr.isc)) [
      | inr b ↦ not_taken (rw (z, b) refl)
      | inl b ↦ elim (Bool-cases (is_some vr.vp)) [
        | inl f ↦ not_taken (rw (z, b, f) refl)
        | inr f ↦ elim (Bool-cases (is_voted vr sf.node)) [
          | inl v ↦ not_taken (rw (z, b, f, v) refl)
          | inr v ↦ taken v (rw (z, b, f, v) refl)
        ]
      ]
    ]
  ]

  put_by-refused :
      (l : Lookup) (n vr' : VoteRecords) (b : Bool) → put_by l n sf ≢ (vr', answer false b)
  unfolding put_by
  put_by-refused failed n vr' b e = cc
  put_by-refused missing n vr' b e = ground arith
  put_by-refused (found suf) n vr' b e = ground arith

  refused_same :
      (vr' : VoteRecords) (b : Bool)
      → VoteCase
      → vote env vr sf vp expels last ≡ (vr', answer false b)
      → vr' ≡ vr
  refused_same vr' b (not_taken e) h = cc
  refused_same vr' b (taken _ e) h =
      absurd (put_by-refused (suffrage_of env vr) (noted vr sf.node vp expels) vr' b (sym e ∙ h))

  -- What a vote that is taken has written
  put_by-taken :
      (l : Lookup) (vr' : VoteRecords) (validated : Bool)
      → put_by l (noted vr sf.node vp expels) sf ≡ (vr', answer true validated)
      → (vr'.voted ≡ (if validated then insert sf.node sf vr.voted else vr.voted))
        × (vr'.ballots ≡ (if validated then vr.ballots else insert sf.node sf vr.ballots))
        × (vr'.vp ≡ vr.vp)
  unfolding put_by noted
  put_by-taken failed vr' validated e = cc
  put_by-taken missing vr' validated e = ground arith
  put_by-taken (found suf) vr' validated e = ground arith

  vote-taken :
      (vr' : VoteRecords) (validated : Bool)
      → VoteCase
      → vote env vr sf vp expels last ≡ (vr', answer true validated)
      → (is_voted vr sf.node ≡ false)
        × (vr'.voted ≡ (if validated then insert sf.node sf vr.voted else vr.voted))
        × (vr'.ballots ≡ (if validated then vr.ballots else insert sf.node sf vr.ballots))
        × (vr'.vp ≡ vr.vp)
  vote-taken vr' validated (not_taken e) h = cc
  vote-taken vr' validated (taken v e) h =
      let (a, b, c) = put_by-taken (suffrage_of env vr) vr' validated (sym e ∙ h) in (v, a, b, c)

-- A vote that is not taken leaves the records as they were.
pub vote_refused :
    (env : Env) (vr vr' : VoteRecords) (sf : SignFact) (vp : Option Voteproof)
    (expels : List ExpelOperation) (last : LastPoint) (validated : Bool)
    → vote env vr sf vp expels last ≡ (vr', answer false validated)
    → vr' ≡ vr
vote_refused env vr vr' sf vp expels last validated =
    refused_same env vr sf vp expels last vr' validated (vote-cases env vr sf vp expels last)

-- A vote is taken of a node that has not voted; it is then found under the node, among the checked
-- votes where the suffrage is known and among the ballots where it is not, and the votes of all
-- other nodes are as they were.
pub vote_taken :
    (env : Env) (vr vr' : VoteRecords) (sf : SignFact) (vp : Option Voteproof)
    (expels : List ExpelOperation) (last : LastPoint) (validated : Bool) (j : Text)
    → vote env vr sf vp expels last ≡ (vr', answer true validated)
    → (is_voted vr sf.node ≡ false)
      × (lookup j vr'.voted
          ≡ (if text_eq sf.node j && validated then some sf else lookup j vr.voted))
      × (lookup j vr'.ballots
          ≡ (if text_eq sf.node j && not validated then some sf else lookup j vr.ballots))
vote_taken env vr vr' sf vp expels last true j h =
    let (v, a, b, c) =
      vote-taken env vr sf vp expels last vr' true (vote-cases env vr sf vp expels last) h in
    (v, ground (arith, lookup-insert sf.node j sf vr.voted), ground arith)
vote_taken env vr vr' sf vp expels last false j h =
    let (v, a, b, c) =
      vote-taken env vr sf vp expels last vr' false (vote-cases env vr sf vp expels last) h in
    (v, ground arith, ground (arith, lookup-insert sf.node j sf vr.ballots))

-- A node votes once: after a vote of it was taken, any other vote of it is refused.
pub vote_once :
    (env : Env) (vr vr' : VoteRecords) (sf sf' : SignFact) (vp vp' : Option Voteproof)
    (expels expels' : List ExpelOperation) (last last' : LastPoint) (validated : Bool)
    → vote env vr sf vp expels last ≡ (vr', answer true validated)
    → sf'.node ≡ sf.node
    → vote env vr' sf' vp' expels' last' ≡ (vr', answer false false)
vote_once env vr vr' sf sf' vp vp' expels expels' last last' validated h same =
    refuse (vote-cases env vr' sf' vp' expels' last')
  where
    has_voted :
        (b : Bool)
        → vote env vr sf vp expels last ≡ (vr', answer true b)
        → is_voted vr' sf.node ≡ true
    has_voted true e = voted_by_vote vr' sf.node (
        inl (
          ground (
            arith,
            (vote_taken env vr vr' sf vp expels last true sf.node e).1,
            text_eq_iff sf.node sf.node,
          )))
    has_voted false e = voted_by_vote vr' sf.node (
        inr (
          ground (
            arith,
            (vote_taken env vr vr' sf vp expels last false sf.node e).2,
            text_eq_iff sf.node sf.node,
          )))

    refuse :
        VoteCase env vr' sf' vp' expels' last'
        → vote env vr' sf' vp' expels' last' ≡ (vr', answer false false)
    refuse (not_taken e) = e
    refuse (taken v e) = cc (has_voted validated h, v, same)
