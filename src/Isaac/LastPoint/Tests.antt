-- ===== src/Isaac/LastPoint/Tests.antt =====
-- Runs of isaac/lastpoint.go.
use mitum.Prelude.{◌≡◌, ◌⊎◌, ◌≤ℤ◌, ℕ, refl, true, false, some, Ordering, pos, []}
use mitum.Base.Point.{new_point}
use mitum.Base.StagePoint.{StagePoint, Stage, init, accept, new_stage_point, compare, is_zero}
use mitum.Isaac.Voteproof.{Voteproof, BallotFact, init_fact, init_voteproof}
use mitum.Isaac.LastPoint.{LastPoint, before}
use mitum.Isaac.LastPoint.Newer.{before-height, before_majority}

abbrev at : ℕ → Stage → StagePoint
at r s = new_stage_point (new_point (pos 33) r) s

abbrev fact : BallotFact
fact = record { kind = init_fact; hash = []; point = at 4 init; proposal = []; block = [] }

abbrev proof : Voteproof
proof = record {
  kind = init_voteproof;
  finished = true;
  majority_fact = some fact;
  sign_facts = [];
  point = at 4 init;
  threshold = 0;
  expels = [];
}

abbrev last_majority : LastPoint
last_majority = record { stage_point = at 4 init; is_majority = true; is_suffrage_confirm = false }

abbrev last_draw : LastPoint
last_draw = record { stage_point = at 4 init; is_majority = false; is_suffrage_confirm = false }

abbrev last_confirm : LastPoint
last_confirm = record { stage_point = at 2 init; is_majority = true; is_suffrage_confirm = true }

accept_follows : before last_majority (at 4 accept) false ≡ true
unfolding before
accept_follows = refl

accept_avoided_after_draw : before last_draw (at 4 accept) false ≡ false
unfolding before
accept_avoided_after_draw = refl

before-height_example : pos 33 ≤ℤ pos 33
unfolding before is_zero
before-height_example = before-height last_majority (at 4 accept) false refl refl

before_majority_example :
    (compare (at 4 accept) (at 4 init) ≡ Ordering.gt)
    ⊎ ((new_point (pos 33) 4 ≡ new_point (pos 33) 4) × (false ≡ true) × (false ≡ false))
unfolding before is_zero
before_majority_example = before_majority last_majority (at 4 accept) false refl refl refl
