-- ===== src/States/Ballotbox/Ballots/Found.antt =====
-- isaac/states/ballotbox.go, `newVoterecords` of the box: the records of a point are made once.
use mitum.Prelude.{
  ℕ, ◌≡◌, ◌∙◌, ap, sym, refl, subst, Bool, true, Option, none, some, List, if◌then◌else◌,
  Bool-cases, inl, inr, arith,
}
use mitum.Base.StagePoint.{StagePoint}
use mitum.States.Ballotbox.{RecordKey, key_eq, key_of, value, Ballotbox}
use mitum.States.Ballotbox.Clean.{key_eq_iff}
use mitum.States.Ballotbox.Ballots.{new_voterecords, found_or_made, set_value, allocated}

set_value-value :
    (k j : RecordKey) (x : Ballotbox × ℕ) (box : Ballotbox) (i : ℕ)
    → set_value k x ≡ (box, i)
    → value j box.vrs ≡ (if key_eq k j then some i else value j x.0.vrs)
unfolding set_value value
set_value-value k j (made, n) box i h = ground arith

allocated-vrs :
    (o : Option ℕ) (box : Ballotbox) (p : StagePoint) (isc : Bool)
    → (allocated o box p isc).0.vrs ≡ box.vrs
unfolding allocated
allocated-vrs none box p isc = refl
allocated-vrs (some i) box p isc = refl

module _ (pick : List ℕ → Option ℕ) (box box' : Ballotbox) (p : StagePoint) (isc : Bool)
    (i : ℕ) where
  found-value :
      (j : RecordKey) (o : Option ℕ)
      → value (key_of p isc) box.vrs ≡ o
      → found_or_made pick o box p isc ≡ (box', i)
      → value j box'.vrs ≡ (if key_eq (key_of p isc) j then some i else value j box.vrs)
  unfolding found_or_made
  found-value j (some n) e h = elim (Bool-cases (key_eq (key_of p isc) j)) [
    | inl same ↦
        let k : key_of p isc ≡ j = (key_eq_iff (key_of p isc) j).0 same in
        let at : value j box.vrs ≡ some n =
          subst (λ (x : RecordKey). value x box.vrs ≡ some n) k e in
        rw same
          (is_found (ap (λ (x : Ballotbox × ℕ). x.0) h) (ap (λ (x : Ballotbox × ℕ). x.1) h) at)
    | inr differ ↦ rw differ (ap (λ (x : Ballotbox × ℕ). value j x.0.vrs) (sym h))
  ]
    where
      is_found : {m : ℕ} → box ≡ box' → m ≡ i → value j box.vrs ≡ some m → value j box'.vrs ≡ some i
      is_found a b c = cc
  found-value j none e h =
      set_value-value (key_of p isc) j (allocated (pick box.pool) box p isc) box' i h
      ∙ rw (allocated-vrs (pick box.pool) box p isc) refl

-- The box makes the records of a key once: they are found under their key from then on, no other
-- key is touched, and asking for them again gives the same records and leaves the box as it is.
pub new_voterecords-value :
    (pick pick' : List ℕ → Option ℕ) (box box' : Ballotbox) (p : StagePoint) (isc : Bool) (i : ℕ)
    (j : RecordKey)
    → new_voterecords pick box p isc ≡ (box', i)
    → (value j box'.vrs ≡ (if key_eq (key_of p isc) j then some i else value j box.vrs))
      × (new_voterecords pick' box' p isc ≡ (box', i))
unfolding new_voterecords
new_voterecords-value pick pick' box box' p isc i j h =
    let at : (k : RecordKey)
        → value k box'.vrs ≡ (if key_eq (key_of p isc) k then some i else value k box.vrs) =
      λ k. found-value pick box box' p isc i k (value (key_of p isc) box.vrs) refl h in
    let self : key_eq (key_of p isc) (key_of p isc) ≡ true =
      (key_eq_iff (key_of p isc) (key_of p isc)).1 refl in
    let there : value (key_of p isc) box'.vrs ≡ some i = at (key_of p isc) ∙ rw self refl in
    (at j, ap (λ o. found_or_made pick' o box' p isc) there ∙ again)
  where
    again : found_or_made pick' (some i) box' p isc ≡ (box', i)
    again = unfold found_or_made in refl
