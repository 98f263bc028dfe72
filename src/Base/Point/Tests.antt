-- ===== src/Base/Point/Tests.antt =====
-- Runs of base/point.go.
use mitum.Prelude.{◌≡◌, refl, Ordering, pos}
use mitum.Base.Point.{
  Point, new_point, genesis_point, zero_point, point_compare, prev_round, next_round,
}

abbrev p33 : Point
p33 = new_point (pos 33) 44

zero_before_genesis : point_compare zero_point genesis_point ≡ Ordering.lt
unfolding point_compare
zero_before_genesis = refl

last_round_wraps : next_round (new_point (pos 3) 18446744073709551615) ≡ new_point (pos 3) 0
unfolding next_round
last_round_wraps = refl

prev_round_zero : prev_round (new_point (pos 3) 0) ≡ new_point (pos 2) 0
unfolding prev_round
prev_round_zero = refl
