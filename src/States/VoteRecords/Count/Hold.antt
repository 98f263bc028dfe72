-- ===== src/States/VoteRecords/Count/Hold.antt =====
-- isaac/states/ballotbox.go, `countFromVoted`: a draw of INIT ballots with expels is held.
use mitum.Prelude.{
  ℕ, ◌+◌, ◌≡◌, ◌≤◌, refl, Bool, true, false, ◌&&◌, none, some, List, [], Text, ltb, if◌then◌else◌,
  ◌⊎◌, inl, inr, Bool-cases, arith,
}
use mitum.Base.StagePoint.{StagePoint, init, stage_eq}
use mitum.Base.Vote.{draw}
use mitum.Base.Threshold.{Threshold}
use mitum.Isaac.Voteproof.{SignFact}
use mitum.Isaac.LastVoteproofs.{returns}
use mitum.States.VoteRecords.{VoteRecords, new_vote_records, cleared}
use mitum.States.VoteRecords.Count.{new_voteproof, finish_with, hold, holds_back, by_result}

false_right : (b : Bool) → (b && false) ≡ false
false_right b = ground arith

module _ (sfs : List SignFact) (threshold : Threshold) (wait : ℕ) (key : Text) where
  by_result-held :
      (vr : VoteRecords) (now : ℕ)
      → stage_eq vr.sp.stage init ≡ true
      → holds_back vr.count_after now wait ≡ true
      → by_result vr true sfs threshold wait now (draw, key) ≡ returns (hold vr now threshold, none)
  unfolding by_result
  by_result-held vr now i h = rw (i, h) refl

  by_result-finished :
      (vr : VoteRecords) (now : ℕ)
      → holds_back vr.count_after now wait ≡ false
      → by_result vr true sfs threshold wait now (draw, key)
        ≡ finish_with vr (new_voteproof vr.sp sfs none threshold [])
  unfolding by_result
  by_result-finished vr now h = rw (h, false_right (stage_eq vr.sp.stage init)) refl

  not_held_back : (t now : ℕ) → t + wait ≤ now → holds_back (some t) now wait ≡ false
  unfolding holds_back
  not_held_back t now h = ground arith

  -- A draw of an INIT point with expels not yet agreed on is held when it is counted first. Counted
  -- again it stays held before the waiting time is over, the time starting anew, and is finished
  -- as a draw after it.
  pub held_draw :
      (vr : VoteRecords) (now later : ℕ)
      → vr.sp.stage ≡ init
      → vr.count_after ≡ none
      → (by_result vr true sfs threshold wait now (draw, key)
          ≡ returns (hold vr now threshold, none))
        × (by_result (hold vr now threshold) true sfs threshold wait later (draw, key) ≡ (
            if ltb later (now + wait)
            then returns (hold vr later threshold, none)
            else finish_with (hold vr now threshold) (new_voteproof vr.sp sfs none threshold [])))
  unfolding hold holds_back stage_eq
  held_draw vr now later i n =
      (by_result-held vr now (rw i refl) (rw n refl), again (Bool-cases (ltb later (now + wait))))
    where
      again :
          (ltb later (now + wait) ≡ true) ⊎ (ltb later (now + wait) ≡ false)
          → by_result (hold vr now threshold) true sfs threshold wait later (draw, key) ≡ (
              if ltb later (now + wait)
              then returns (hold vr later threshold, none)
              else finish_with (hold vr now threshold) (new_voteproof vr.sp sfs none threshold []))
      again (inl h) = rw h (by_result-held (hold vr now threshold) later (rw i refl) h)
      again (inr h) = rw h (by_result-finished (hold vr now threshold) later h)

  -- Records that come back from the pool keep the time of a draw that they once held: when the
  -- waiting time is over since then, the first draw of the new point is finished at once, where
  -- records without that time hold it.
  pub stale_hold :
      (old : VoteRecords) (sp : StagePoint) (isc : Bool) (t now : ℕ)
      → sp.stage ≡ init
      → old.count_after ≡ some t
      → t + wait ≤ now
      → (by_result (new_vote_records (cleared old) sp isc) true sfs threshold wait now (draw, key)
          ≡ finish_with
              (new_vote_records (cleared old) sp isc)
              (new_voteproof sp sfs none threshold []))
        × (by_result
              (record (new_vote_records (cleared old) sp isc) { count_after = none })
              true
              sfs
              threshold
              wait
              now
              (draw, key)
            ≡ returns (
              hold
                  (record (new_vote_records (cleared old) sp isc) { count_after = none })
                  now
                  threshold,
              none,
            ))
  unfolding new_vote_records cleared holds_back stage_eq
  stale_hold old sp isc t now i held over = (
    by_result-finished (new_vote_records (cleared old) sp isc) now
        (rw held (not_held_back t now over)),
    by_result-held (record (new_vote_records (cleared old) sp isc) { count_after = none }) now
        (rw i refl) refl,
  )
