-- ===== src/States/Ballotbox/Ballots/Once.antt =====
-- isaac/states/ballotbox.go, `vote` of the box: a node does not vote twice at a point.
use mitum.Prelude.{
  ℕ, ◌≡◌, ◌∙◌, ap, sym, refl, subst, Bool, true, false, Option, some, List, Bool-cases, inl, inr,
  ◌==◌, arith,
}
use mitum.Base.StagePoint.{StagePoint}
use mitum.Isaac.Voteproof.{SignFact, Voteproof, ExpelOperation, is_suffrage_confirm_ballot_fact}
use mitum.Isaac.LastPoint.{LastPoint}
use mitum.States.VoteRecords.{Env, VoteRecords, Answer, answer, vote_error, vote}
use mitum.States.VoteRecords.Voting.{vote_once}
use mitum.States.Ballotbox.Clean.{key_eq_iff}
use mitum.States.Ballotbox.{RecordKey, Ballotbox, key_of, value, write, last_point, takes_ballot}
use mitum.States.Ballotbox.Ballots.{
  Voted, voted_as, failed_vote, voted_of, vote_in, box_vote, new_voterecords, found_or_made,
}
use mitum.States.Ballotbox.Ballots.Found.{new_voterecords-value}

-- Whether the vote was taken
abbrev pub is_taken : Voted → Bool
is_taken failed_vote = false
is_taken (voted_as b d) = b

voted_of-taken :
    (i : ℕ) (vp : Option Voteproof) (a : Answer)
    → is_taken (voted_of i vp a) ≡ true
    → (v : Bool) × (a ≡ answer true v)
unfolding voted_of
voted_of-taken i vp vote_error h = cc
voted_of-taken i vp (answer true v) h = (v, refl)
voted_of-taken i vp (answer false v) h = cc

pair_eq : (x : VoteRecords × Answer) (a : VoteRecords) (b : Answer) → x.0 ≡ a → x.1 ≡ b → x ≡ (a, b)
pair_eq (p, q) a b e f = cc

-- What was written is read, and writing what is there changes nothing.
written : (box : Ballotbox) (i : ℕ) (vr : VoteRecords) → (write box i vr).heap i ≡ vr
unfolding write
written box i vr = rw (self i) refl
  where
    self : (n : ℕ) → (n == n) ≡ true
    self n = ground arith

module _ (pick : List ℕ → Option ℕ) (env : Env) (sf : SignFact) (vp : Option Voteproof)
    (expels : List ExpelOperation) (made : Ballotbox) (i : ℕ) where
  abbrev given : VoteRecords × Answer
  given = vote env (made.heap i) sf vp expels (last_point made)

  vote_in-taken :
      is_taken (vote_in pick env sf vp expels (made, i)).1 ≡ true
      → (v : Bool) × (given ≡ ((vote_in pick env sf vp expels (made, i)).0.heap i, answer true v))
        × ((vote_in pick env sf vp expels (made, i)).0.vrs ≡ made.vrs)
  unfolding vote_in write
  vote_in-taken h =
      let (v, a) = voted_of-taken i vp given.1 h in
      (v, pair_eq given _ (answer true v) (sym (written made i given.0)) a, refl)

  vote_in-refused :
      (b : Bool)
      → given ≡ (made.heap i, answer false b)
      → is_taken (vote_in pick env sf vp expels (made, i)).1 ≡ false
  unfolding vote_in voted_of
  vote_in-refused b h = rw h refl

abbrev pub confirms : SignFact → Bool
confirms sf = is_suffrage_confirm_ballot_fact (some sf.fact)

module _ (env : Env) (sf : SignFact) (vp : Option Voteproof) (expels : List ExpelOperation) where
  -- The box has records of the point in which the node has voted.
  abbrev HasVoted : Ballotbox → Type 0
  HasVoted box =
      (i : ℕ) × (v : Bool) × (vr : VoteRecords) × (last : LastPoint) × (value
          (key_of sf.fact.point (confirms sf)) box.vrs
        ≡ some i)
      × (vote env vr sf vp expels last ≡ (box.heap i, answer true v))

  vote_in-HasVoted :
      (pick : List ℕ → Option ℕ) (made : Ballotbox) (i : ℕ)
      → value (key_of sf.fact.point (confirms sf)) made.vrs ≡ some i
      → is_taken (vote_in pick env sf vp expels (made, i)).1 ≡ true
      → HasVoted (vote_in pick env sf vp expels (made, i)).0
  vote_in-HasVoted pick made i at h =
      let (v, given, same) = vote_in-taken pick env sf vp expels made i h in
      (
        i,
        v,
        made.heap i,
        last_point made,
        ap (value (key_of sf.fact.point (confirms sf))) same ∙ at,
        given,
      )

  made_at :
      (pick : List ℕ → Option ℕ) (box : Ballotbox)
      → value
          (key_of sf.fact.point (confirms sf))
          (new_voterecords pick box sf.fact.point (confirms sf)).0.vrs
        ≡ some (new_voterecords pick box sf.fact.point (confirms sf)).1
  made_at pick box =
      let key : RecordKey = key_of sf.fact.point (confirms sf) in
      (new_voterecords-value pick pick box (new_voterecords pick box sf.fact.point (confirms sf)).0
        sf.fact.point (confirms sf) (new_voterecords pick box sf.fact.point (confirms sf)).1 key
        refl).0
      ∙ rw ((key_eq_iff key key).1 refl) refl

  box_vote-HasVoted :
      (pick : List ℕ → Option ℕ) (box : Ballotbox)
      → is_taken (box_vote pick env box sf vp expels).1 ≡ true
      → HasVoted (box_vote pick env box sf vp expels).0
  unfolding box_vote
  box_vote-HasVoted pick box h = elim (Bool-cases (takes_ballot box sf.fact.point (confirms sf))) [
    | inr old ↦ cc (rw old at h)
    | inl new ↦ rw new (
        vote_in-HasVoted pick (new_voterecords pick box sf.fact.point (confirms sf)).0
          (new_voterecords pick box sf.fact.point (confirms sf)).1 (made_at pick box) (rw new at h))
  ]

-- When the box has taken a vote, the next vote is not taken if it is of the same node at the same
-- point, and the one and the other are of a suffrage confirm or neither is.
pub box_vote_once :
    (pick pick' : List ℕ → Option ℕ) (env : Env) (box : Ballotbox) (sf sf' : SignFact)
    (vp vp' : Option Voteproof) (expels expels' : List ExpelOperation)
    → is_taken (box_vote pick env box sf vp expels).1 ≡ true
    → sf'.node ≡ sf.node
    → sf'.fact.point ≡ sf.fact.point
    → confirms sf' ≡ confirms sf
    → is_taken (box_vote pick' env (box_vote pick env box sf vp expels).0 sf' vp' expels').1 ≡ false
unfolding box_vote new_voterecords found_or_made
box_vote_once pick pick' env box sf sf' vp vp' expels expels' h node point kind =
    refused (box_vote pick env box sf vp expels).0 (box_vote-HasVoted env sf vp expels pick box h)
  where
    found_again :
        (b : Ballotbox) (i : ℕ) (q : StagePoint) (isc : Bool)
        → q ≡ sf.fact.point
        → isc ≡ confirms sf
        → value (key_of sf.fact.point (confirms sf)) b.vrs ≡ some i
        → new_voterecords pick' b q isc ≡ (b, i)
    found_again b i q isc e f at =
        ap (λ o. found_or_made pick' o b q isc)
          (ap (λ x. value (key_of x isc) b.vrs) e
            ∙ ap (λ x. value (key_of sf.fact.point x) b.vrs) f
            ∙ at)

    refused :
        (b : Ballotbox)
        → HasVoted env sf vp expels b
        → is_taken (box_vote pick' env b sf' vp' expels').1 ≡ false
    refused b (i, v, vr, last, at, voted) =
        elim (Bool-cases (takes_ballot b sf'.fact.point (confirms sf'))) [
          | inr old ↦ rw old refl
          | inl new ↦ rw new (
              subst (λ x. is_taken (vote_in pick' env sf' vp' expels' x).1 ≡ false)
                (sym (found_again b i sf'.fact.point (confirms sf') point kind at))
                (vote_in-refused pick' env sf' vp' expels' b i false (
                  vote_once env vr (b.heap i) sf sf' vp vp' expels expels' last (last_point b) v
                    voted node)))
        ]
