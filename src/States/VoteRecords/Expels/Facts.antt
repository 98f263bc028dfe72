-- ===== src/States/VoteRecords/Expels/Facts.antt =====
-- The facts that are voted for, and the parts without expels.
use mitum.Prelude.{
  ◌≡◌, ◌≢◌, refl, false, none, some, List, [], ◌∷◌, Text, text_eq, text_eq_iff, lookup, insert,
  lookup-insert, values, Bool-cases, inl, inr,
}
use mitum.Base.Vote.{Entry}
use mitum.Base.Threshold.{Threshold}
use mitum.Isaac.Voteproof.{SignFact, BallotFact}
use mitum.Isaac.Suffrage.{Suffrage}
use mitum.States.VoteRecords.Expels.{
  facts_by_hash, facts_into, count_with_expels, sort_ballot_sign_facts_by_expels, gather_all, Part,
}

gather_all-nil :
    (local : Text) (sfs : List SignFact) (signfacts : List (Text × SignFact))
    (mw : List (Text × Part))
    → gather_all local [] sfs signfacts mw ≡ mw
unfolding gather_all lookup
gather_all-nil local sfs [] mw = refl
gather_all-nil local sfs ((k, sf) ∷ signfacts) mw = gather_all-nil local sfs signfacts mw

pub count_with_expels-nil :
    (order : List Entry → List Entry) (local : Text) (suf : Suffrage) (threshold : Threshold)
    (voted : List (Text × SignFact))
    → count_with_expels order local suf threshold voted [] ≡ (false, none)
unfolding count_with_expels sort_ballot_sign_facts_by_expels
count_with_expels-nil order local suf threshold voted =
    rw (gather_all-nil local (values voted) voted []) refl

-- The fact of a hash has that hash.
facts_into-hash :
    (key : Text) (sfs : List SignFact) (m : List (Text × BallotFact)) (fact : BallotFact)
    → ((f : BallotFact) → lookup key m ≡ some f → f.hash ≡ key)
    → lookup key (facts_into m sfs) ≡ some fact
    → fact.hash ≡ key
unfolding facts_into
facts_into-hash key [] m fact inv h = inv fact h
facts_into-hash key (sf ∷ sfs) m fact inv h =
    facts_into-hash key sfs (insert sf.fact.hash sf.fact m) fact kept h
  where
    kept : (f : BallotFact) → lookup key (insert sf.fact.hash sf.fact m) ≡ some f → f.hash ≡ key
    kept f e = elim (Bool-cases (text_eq sf.fact.hash key)) [
      | inl same ↦
          let found : some sf.fact ≡ some f =
            (rw (lookup-insert sf.fact.hash key sf.fact m, same) at e) in
          cc ((text_eq_iff sf.fact.hash key).0 same, found)
      | inr differ ↦ inv f (rw (lookup-insert sf.fact.hash key sf.fact m, differ) at e)
    ]

pub facts_by_hash-hash :
    (key : Text) (sfs : List SignFact) (fact : BallotFact)
    → lookup key (facts_by_hash sfs) ≡ some fact
    → fact.hash ≡ key
unfolding facts_by_hash lookup
facts_by_hash-hash key sfs fact h = facts_into-hash key sfs [] fact (λ f e. absurd (empty f e)) h
  where
    empty : (f : BallotFact) → lookup key [] ≢ some f
    empty f e = cc
