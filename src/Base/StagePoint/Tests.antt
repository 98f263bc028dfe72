-- ===== src/Base/StagePoint/Tests.antt =====
-- Runs of base/stage.go and of `StagePoint`.
use mitum.Prelude.{◌≡◌, refl, Ordering, pos}
use mitum.Base.Point.{new_point}
use mitum.Base.StagePoint.{
  StagePoint, Stage, unknown, init, new_stage_point, stage_of_text, stage_compare,
}

abbrev at : Stage → StagePoint
at s = new_stage_point (new_point (pos 33) 1) s

reads_init : stage_of_text "INIT" ≡ init
unfolding stage_of_text
reads_init = refl

unknown_first : stage_compare unknown init ≡ Ordering.lt
unfolding stage_compare
unknown_first = refl
