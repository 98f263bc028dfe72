-- ===== src/States/Ballotbox/Ballots/Sent.antt =====
-- isaac/states/ballotbox.go, `countVoterecords`: what is sent, and where the last point goes.
use mitum.Prelude.{
  ℕ, ◌≡◌, ◌∙◌, ap, sym, refl, subst, Bool, true, false, Option, none, some, List, [], ◌∷◌, ◌++◌,
  Bool-cases, ◌⊎◌, inl, inr, arith, ◌≤ℤ◌, Text,
}
use mitum.Base.StagePoint.{is_zero}
use mitum.Base.Vote.{Entry}
use mitum.Base.Threshold.{Threshold}
use mitum.Isaac.Voteproof.{Voteproof}
use mitum.Isaac.LastPoint.{LastPoint, before, new_last_point_from_voteproof}
use mitum.Isaac.LastPoint.Newer.{before-height}
use mitum.Isaac.LastVoteproofs.{Outcome, returns, panics}
use mitum.States.VoteRecords.{Env, VoteRecords}
use mitum.States.VoteRecords.Count.{count}
use mitum.States.VoteRecords.Count.Counting.{counts_panic, count-runs}
use mitum.States.Ballotbox.{
  Ballotbox, write, last_point, takes_ballot, set_last_point, set_last_point_from_voteproof, send,
  put_all, remove_left_behind, clean,
}
use mitum.States.Ballotbox.Ballots.{filtered, last_of, finish_count, after_count, count_voterecords}

-- What cleaning leaves alone
put_all-same :
    (is : List ℕ) (box : Ballotbox)
    → ((put_all box is).vpch ≡ box.vpch) × ((put_all box is).lsp ≡ box.lsp)
unfolding put_all write
put_all-same [] box = (refl, refl)
put_all-same (i ∷ is) box = put_all-same is _

remove_left_behind-same :
    (box : Ballotbox) (last : LastPoint)
    → ((remove_left_behind box last).vpch ≡ box.vpch)
      × ((remove_left_behind box last).lsp ≡ box.lsp)
unfolding remove_left_behind
remove_left_behind-same box last = ground arith

clean-same : (box : Ballotbox) → ((clean box).vpch ≡ box.vpch) × ((clean box).lsp ≡ box.lsp)
unfolding clean
clean-same box =
    let (a, b) = remove_left_behind-same (put_all box box.removed) (last_point box) in
    let (c, d) = put_all-same box.removed box in (a ∙ c, b ∙ d)

append_nil : (l : List Voteproof) → l ++ [] ≡ l
append_nil [] = refl
append_nil (x ∷ l) = ap (λ t. x ∷ t) (append_nil l)

append_assoc : (l m n : List Voteproof) → (l ++ m) ++ n ≡ l ++ (m ++ n)
append_assoc [] m n = refl
append_assoc (x ∷ l) m n = ap (λ t. x ∷ t) (append_assoc l m n)

send-sent :
    (vps : List Voteproof) (box : Ballotbox)
    → ((send box vps).vpch ≡ box.vpch ++ vps) × ((send box vps).lsp ≡ box.lsp)
unfolding send
send-sent [] box = (sym (append_nil box.vpch), refl)
send-sent (vp ∷ vps) box =
    let (a, b) = send-sent vps (record box { lvp = some vp; vpch = box.vpch ++ vp ∷ [] }) in
    (a ∙ append_assoc box.vpch (vp ∷ []) vps, b)

abbrev set_or_not : Ballotbox → Option LastPoint → Ballotbox × Bool
set_or_not box o = elim o [ none ↦ (box, false) | some point ↦ set_last_point box point ]

set_last-vpch :
    (box : Ballotbox) (vp : Voteproof) → (set_last_point_from_voteproof box vp).0.vpch ≡ box.vpch
unfolding set_last_point_from_voteproof set_last_point
set_last-vpch box vp = of (new_last_point_from_voteproof vp)
  where
    of : (o : Option LastPoint) → (set_or_not box o).0.vpch ≡ box.vpch
    of none = refl
    of (some point) = ground arith

-- The last point of a box is that of another, or it is not lower.
set_last_point-height :
    (box : Ballotbox) (point : LastPoint)
    → is_zero (last_point box).stage_point ≡ false
    → (last_point box).h ≤ℤ (last_point (set_last_point box point).0).h
unfolding set_last_point
set_last_point-height box point z =
    elim (Bool-cases (before (last_point box) point.stage_point point.is_suffrage_confirm)) [
      | inl newer ↦ rw newer (taken (last_point box) z newer)
      | inr old ↦ rw old (omega arith)
    ]
  where
    taken :
        (l : LastPoint)
        → is_zero l.stage_point ≡ false
        → before l point.stage_point point.is_suffrage_confirm ≡ true
        → l.h ≤ℤ (last_point (record box { lsp = some point })).h
    taken l z newer = before-height l point.stage_point point.is_suffrage_confirm z newer

set_last-height :
    (box : Ballotbox) (vp : Voteproof)
    → is_zero (last_point box).stage_point ≡ false
    → (last_point box).h ≤ℤ (last_point (set_last_point_from_voteproof box vp).0).h
unfolding set_last_point_from_voteproof
set_last-height box vp z = of (new_last_point_from_voteproof vp)
  where
    of : (o : Option LastPoint) → (last_point box).h ≤ℤ (last_point (set_or_not box o).0).h
    of none = omega arith
    of (some point) = set_last_point-height box point z

-- The last point is read from `lsp`.
last_point-same : (box box' : Ballotbox) → box'.lsp ≡ box.lsp → last_point box' ≡ last_point box
unfolding last_point
last_point-same box box' e = rw e refl

finish_count-sent :
    (box : Ballotbox) (vps : List Voteproof) → (finish_count box vps).vpch ≡ box.vpch ++ vps
unfolding finish_count
finish_count-sent box [] = (clean-same box).0 ∙ sym (append_nil box.vpch)
finish_count-sent box (vp ∷ vps) =
    let moved : Ballotbox = (set_last_point_from_voteproof box (last_of vp vps)).0 in
    (clean-same (send moved (vp ∷ vps))).0
    ∙ (send-sent (vp ∷ vps) moved).0
    ∙ ap (λ l. l ++ vp ∷ vps) (set_last-vpch box (last_of vp vps))

finish_count-height :
    (box : Ballotbox) (vps : List Voteproof)
    → is_zero (last_point box).stage_point ≡ false
    → (last_point box).h ≤ℤ (last_point (finish_count box vps)).h
unfolding finish_count
finish_count-height box [] z = rw (last_point-same box (clean box) (clean-same box).1) (omega arith)
finish_count-height box (vp ∷ vps) z =
    let moved : Ballotbox = (set_last_point_from_voteproof box (last_of vp vps)).0 in
    subst (λ (l : LastPoint). (last_point box).h ≤ℤ l.h)
      (sym (
        last_point-same moved (clean (send moved (vp ∷ vps)))
          ((clean-same (send moved (vp ∷ vps))).1 ∙ (send-sent (vp ∷ vps) moved).1)))
      (set_last-height box (last_of vp vps) z)

-- The box has no last point yet, or its height is not above that of another box.
abbrev pub NotLower : Ballotbox → Ballotbox → Type 0
NotLower box box' =
    (is_zero (last_point box).stage_point ≡ true) ⊎ ((last_point box).h ≤ℤ (last_point box').h)

-- A box that counting leaves, with what it answers
abbrev Sends : Ballotbox → Ballotbox × List Voteproof → Type 0
Sends box x = (x.0.vpch ≡ box.vpch ++ x.1) × NotLower box x.0

finish_count-NotLower :
    (box : Ballotbox) (vps : List Voteproof) → NotLower box (finish_count box vps)
finish_count-NotLower box vps = elim (Bool-cases (is_zero (last_point box).stage_point)) [
  | inl none_yet ↦ inl none_yet
  | inr z ↦ inr (finish_count-height box vps z)
]

returned : {A : Type 0} {x y : A} → returns x ≡ returns y → x ≡ y
returned e = cc

after_count-Sends :
    (box : Ballotbox) (i : ℕ) (o : Outcome (VoteRecords × List Voteproof))
    (x : Ballotbox × List Voteproof)
    → after_count box i o ≡ returns x
    → Sends box x
unfolding after_count last_point
after_count-Sends box i panics x h = cc
after_count-Sends box i (returns (vr, [])) x h =
    subst (Sends box) (returned h) (
      sym (append_nil box.vpch),
      inr (rw (last_point-same box (write box i vr) refl) (omega arith)),
    )
after_count-Sends box i (returns (vr, vp ∷ vps)) x h =
    let new : List Voteproof = filtered (write box i vr) vr.isc (vp ∷ vps) in
    subst (Sends box) (returned h)
      (finish_count-sent (write box i vr) new, finish_count-NotLower (write box i vr) new)

-- Counting the records of a point sends exactly the voteproofs that it answers, in their order, and
-- does not bring the last point of the box to a lower height, unless the box has no last point yet:
-- one whose height is below the genesis height or whose stage is not valid.
pub count_voterecords-sends :
    (order : List Entry → List Entry) (env : Env) (local : Text) (threshold : Threshold)
    (wait now : ℕ) (box box' : Ballotbox) (i : ℕ) (vps : List Voteproof)
    → count_voterecords order env local threshold wait now box i ≡ returns (box', vps)
    → (box'.vpch ≡ box.vpch ++ vps) × NotLower box box'
unfolding count_voterecords
count_voterecords-sends order env local threshold wait now box box' i vps h =
    elim (Bool-cases (takes_ballot box (box.heap i).sp (box.heap i).isc)) [
      | inr old ↦
          subst (Sends box) (returned (rw old at h)) (sym (append_nil box.vpch), inr (omega arith))
      | inl new ↦
          after_count-Sends box i
            (count order env local (last_point box) threshold wait now (box.heap i)) (box', vps)
            (rw new at h)
    ]

after_count-runs :
    (box : Ballotbox) (i : ℕ) (o : Outcome (VoteRecords × List Voteproof))
    → counts_panic o ≡ false
    → counts_panic (after_count box i o) ≡ false
unfolding after_count
after_count-runs box i panics h = cc
after_count-runs box i (returns (vr, [])) h = refl
after_count-runs box i (returns (vr, vp ∷ vps)) h = refl

-- Counting the records of a point in the box never panics.
pub count_voterecords-runs :
    (order : List Entry → List Entry) (env : Env) (local : Text) (threshold : Threshold)
    (wait now : ℕ) (box : Ballotbox) (i : ℕ)
    → counts_panic (count_voterecords order env local threshold wait now box i) ≡ false
unfolding count_voterecords
count_voterecords-runs order env local threshold wait now box i =
    elim (Bool-cases (takes_ballot box (box.heap i).sp (box.heap i).isc)) [
      | inr old ↦ rw old refl
      | inl new ↦ rw new (
          after_count-runs box i _
            (count-runs order env local (last_point box) threshold wait now (box.heap i)))
    ]
