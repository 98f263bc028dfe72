-- ===== src/Isaac/LastVoteproofs/Tests.antt =====
-- Runs of isaac/last_voteproofs.go.
use mitum.Prelude.{ℕ, ◌≡◌, ◌≤ℤ◌, refl, true, false, Option, some, none, pos, [], if◌then◌else◌}
use mitum.Base.Point.{new_point, point_eq}
use mitum.Base.StagePoint.{
  StagePoint, Stage, init, accept, new_stage_point, is_zero, stage_point_eq, stage_eq,
}
use mitum.Base.Vote.{result_eq}
use mitum.Isaac.Voteproof.{
  Voteproof, VoteproofKind, init_fact, accept_fact, init_voteproof, accept_voteproof,
  is_init_voteproof, vote_result, FactKind,
}
use mitum.Isaac.LastPoint.{new_last_point_from_voteproof, is_new_voteproof}
use mitum.Isaac.LastVoteproofs.{
  returns, LastVoteproofs, no_voteproofs, cap, Cache, Handler, set, store, refuses_first,
  refuses_other_round, set_after, fill_missing, fill_from, fills_init, fills_accept, or_empty,
}
use mitum.Isaac.LastVoteproofs.Kept.{IsTyped, IsKept, does_panic, handler_after, set-IsKept}
use mitum.Isaac.LastVoteproofs.Safety.{set-height}

-- A cache that forgets nothing.
abbrev table : Cache
table = record {
  State = StagePoint → Option LastVoteproofs;
  get = λ t p. t p;
  put = λ t p v q. if stage_point_eq p q then some v else t q;
}

abbrev at : ℕ → Stage → StagePoint
at r s = new_stage_point (new_point (pos 33) r) s

abbrev proof_of : VoteproofKind → FactKind → StagePoint → Voteproof
proof_of k f p = record {
  kind = k;
  finished = true;
  majority_fact = some (record { kind = f; hash = []; point = p; proposal = []; block = [] });
  sign_facts = [];
  point = p;
  threshold = 0;
  expels = [];
}

abbrev init_proof : Voteproof
init_proof = proof_of init_voteproof init_fact (at 0 init)

abbrev accept_proof : Voteproof
accept_proof = proof_of accept_voteproof accept_fact (at 0 accept)

abbrev fresh : Handler table
fresh = record { cache = λ p. none; last = no_voteproofs }

abbrev with_init : Handler table
with_init = record {
  cache = λ p. none;
  last = record { ivp = some init_proof; avp = none; mvp = some init_proof };
}

abbrev with_both : Handler table
with_both = record {
  cache = table.put (λ p. none) accept_proof.point with_init.last;
  last = record { ivp = some init_proof; avp = some accept_proof; mvp = some accept_proof };
}

init_taken : set table fresh init_proof ≡ returns (with_init, true)
unfolding set refuses_first refuses_other_round cap store vote_result is_init_voteproof stage_eq
    result_eq
init_taken = refl

accept_taken : set table with_init accept_proof ≡ returns (with_both, true)
unfolding set refuses_first refuses_other_round set_after cap store vote_result is_init_voteproof
    stage_eq new_last_point_from_voteproof is_new_voteproof point_eq
accept_taken = refl

init_refused : set table with_init init_proof ≡ returns (with_init, false)
unfolding set refuses_first refuses_other_round set_after cap store vote_result is_init_voteproof
    stage_eq new_last_point_from_voteproof is_new_voteproof point_eq fill_missing fill_from
    fills_init fills_accept or_empty
init_refused = refl

set-IsKept_example :
    (does_panic table (set table fresh init_proof) ≡ false)
    × IsKept (handler_after table fresh (set table fresh init_proof)).last
unfolding is_init_voteproof
set-IsKept_example = set-IsKept table fresh init_proof typed kept
  where
    typed : IsTyped init_proof
    typed = record { init_typed = λ e. refl; accept_typed = λ e. cc }

    kept : IsKept no_voteproofs
    kept = record { init_kept = refl; accept_kept = refl; majority_kept = refl }

set-height_example : pos 33 ≤ℤ pos 33
unfolding is_zero cap
set-height_example =
    set-height table with_init with_both accept_proof init_proof accept_proof refl accept_taken refl
      refl
