-- ===== src/States/Ballotbox/Ballots/New.antt =====
-- isaac/states/ballotbox.go, `countVoterecords`: what is sent is new.
use mitum.Prelude.{
  ℕ, ◌≡◌, refl, subst, Bool, true, some, List, [], ◌∷◌, Bool-cases, inl, inr, all, keep_if, Text,
}
use mitum.Base.Vote.{Entry}
use mitum.Base.Threshold.{Threshold}
use mitum.Isaac.Voteproof.{Voteproof}
use mitum.Isaac.LastPoint.{LastPoint}
use mitum.Isaac.LastVoteproofs.{Outcome, returns, panics}
use mitum.States.VoteRecords.{Env, VoteRecords, is_new_with_confirm}
use mitum.States.VoteRecords.Count.Confirm.{left_confirm, count-confirm}
use mitum.States.Ballotbox.{Ballotbox, last_point, takes_ballot, write}
use mitum.States.Ballotbox.Ballots.{filtered, after_count, count_voterecords}

all-keep_if : {A : Type 0} (p : A → Bool) (l : List A) → all p (keep_if p l) ≡ true
all-keep_if p [] = refl
all-keep_if p (x ∷ l) = elim (Bool-cases (p x)) [
  | inl e ↦ rw (e, e) (all-keep_if p l)
  | inr e ↦ rw e (all-keep_if p l)
]

filtered-new :
    (box : Ballotbox) (isc : Bool) (vps : List Voteproof) (last : LastPoint)
    → box.lsp ≡ some last
    → all (λ vp. is_new_with_confirm isc last vp) (filtered box isc vps) ≡ true
unfolding filtered
filtered-new box isc vps last e = rw e (all-keep_if (λ vp. is_new_with_confirm isc last vp) vps)

-- All that is answered is new after the last point.
abbrev AllNew : Bool → LastPoint → Ballotbox × List Voteproof → Type 0
AllNew isc last x = all (λ vp. is_new_with_confirm isc last vp) x.1 ≡ true

returned : {A : Type 0} {x y : A} → returns x ≡ returns y → x ≡ y
returned e = cc

after_count-AllNew :
    (box : Ballotbox) (i : ℕ) (isc : Bool) (o : Outcome (VoteRecords × List Voteproof))
    (x : Ballotbox × List Voteproof) (last : LastPoint)
    → box.lsp ≡ some last
    → left_confirm isc o ≡ isc
    → after_count box i o ≡ returns x
    → AllNew isc last x
unfolding after_count write
after_count-AllNew box i isc panics x last e same h = cc
after_count-AllNew box i isc (returns (vr, [])) x last e same h =
    subst (AllNew isc last) (returned h) refl
after_count-AllNew box i isc (returns (vr, vp ∷ vps)) x last e same h =
    subst (AllNew isc last) (returned h)
      (rw (← same) (filtered-new (write box i vr) vr.isc (vp ∷ vps) last e))

-- With a last point, counting the records of a point answers, and so sends, only voteproofs that
-- are new after that last point, the records of a suffrage confirm counting all as new after a
-- draw.
pub count_voterecords-new :
    (order : List Entry → List Entry) (env : Env) (local : Text) (threshold : Threshold)
    (wait now : ℕ) (box box' : Ballotbox) (i : ℕ) (vps : List Voteproof) (last : LastPoint)
    → box.lsp ≡ some last
    → count_voterecords order env local threshold wait now box i ≡ returns (box', vps)
    → all (λ vp. is_new_with_confirm (box.heap i).isc last vp) vps ≡ true
unfolding count_voterecords
count_voterecords-new order env local threshold wait now box box' i vps last e h =
    elim (Bool-cases (takes_ballot box (box.heap i).sp (box.heap i).isc)) [
      | inr old ↦ subst (AllNew (box.heap i).isc last) (returned (rw old at h)) refl
      | inl new ↦
          after_count-AllNew box i (box.heap i).isc _ (box', vps) last e
            (count-confirm order env local (last_point box) threshold wait now (box.heap i))
            (rw new at h)
    ]
