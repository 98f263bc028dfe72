-- ===== src/Base/StagePoint.antt =====
-- base/stage.go, and `StagePoint` of base/point.go.
pub mod Order
pub mod Equal
mod Tests
use text.Mathlib.Text.{◌==◌ as str_eq}
use mitum.Prelude.{
  ℕ, String, Bool, true, false, not, ◌&&◌, Option, none, some, Ordering, ltb, if◌then◌else◌,
}
use mitum.Base.Point.{
  Point, point_eq, point_is_valid, point_is_zero, point_compare, prev_round, zero_point,
}

-- `type Stage string`: the three named texts, and any other.
pub data Stage : Type 0 where
  unknown init accept : Stage
  other : String → Stage

-- `UnmarshalText`
unfoldable pub stage_of_text : String → Stage
stage_of_text s =
    if str_eq s "UNKNOWN"
    then unknown
    else if str_eq s "INIT"
    then init
    else if str_eq s "ACCEPT"
    then accept
    else other s

-- `String`, `Bytes`, `MarshalText`
unfoldable pub stage_text : Stage → String
stage_text unknown = "UNKNOWN"
stage_text init = "INIT"
stage_text accept = "ACCEPT"
stage_text (other s) = s

unfoldable pub stage_eq : Stage → Stage → Bool
stage_eq unknown unknown = true
stage_eq init init = true
stage_eq accept accept = true
stage_eq (other s) (other t) = str_eq s t
stage_eq _ _ = false

unfoldable pub stage_is_valid : Stage → Bool
stage_is_valid init = true
stage_is_valid accept = true
stage_is_valid _ = false

unfoldable pub can_vote : Stage → Bool
can_vote init = true
can_vote accept = true
can_vote _ = false

-- `statesmap`
unfoldable pub statesmap : Stage → Option ℕ
statesmap unknown = some 0
statesmap init = some 1
statesmap accept = some 3
statesmap (other s) = none

-- The sign of `as - bs`; a stage outside of the map gives 1, whichever side it stands on.
compare_ranks : Option ℕ → Option ℕ → Ordering
compare_ranks none b = Ordering.gt
compare_ranks (some a) none = Ordering.gt
compare_ranks (some a) (some b) =
    if ltb b a then Ordering.gt else if ltb a b then Ordering.lt else Ordering.eq

unfoldable pub stage_compare : Stage → Stage → Ordering
unfolding statesmap compare_ranks
stage_compare st b = compare_ranks (statesmap st) (statesmap b)

pub record StagePoint : Type 0 where
  pub stage : Stage
  pub point : Point
  pub open point use *

abbrev pub new_stage_point : Point → Stage → StagePoint
new_stage_point p s = record { stage = s; point = p }

abbrev pub zero_stage_point : StagePoint
zero_stage_point = new_stage_point zero_point unknown

unfoldable pub set_stage : StagePoint → Stage → StagePoint
set_stage p s = new_stage_point p.point s

unfoldable pub is_zero : StagePoint → Bool
unfolding point_is_zero stage_is_valid
is_zero p = if point_is_zero p.point then true else not (stage_is_valid p.stage)

unfoldable pub is_valid : StagePoint → Bool
unfolding point_is_valid stage_is_valid
is_valid p = if not (point_is_valid p.point) then false else stage_is_valid p.stage

unfoldable pub stage_point_eq : StagePoint → StagePoint → Bool
unfolding stage_eq point_eq
stage_point_eq p b = stage_eq p.stage b.stage && point_eq p.point b.point

-- `if c == 0 { return stage.Compare } return c`
or_stage : Ordering → Stage → Stage → Ordering
unfolding stage_compare
or_stage Ordering.eq s t = stage_compare s t
or_stage Ordering.lt s t = Ordering.lt
or_stage Ordering.gt s t = Ordering.gt

unfoldable pub compare : StagePoint → StagePoint → Ordering
unfolding or_stage point_compare
compare p b = or_stage (point_compare p.point b.point) p.stage b.stage

unfoldable pub decrease : StagePoint → StagePoint
unfolding prev_round
decrease p = new_stage_point (prev_round p.point) p.stage
