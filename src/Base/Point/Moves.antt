-- ===== src/Base/Point/Moves.antt =====
-- Going to the next and to the previous round and height.
use mitum.Prelude.{
  ℕ, ◌-◌, false, refl, ◌+◌, ◌^◌, ◌≡◌, ◌⊎◌, ◌<◌, true, Ordering, pos, ◌≤ℤ◌, ◌<ℤ◌, max_int64, IsInt64,
  arith,
}
use mitum.Base.Point.{
  Point, genesis_point, point_compare, point_is_valid, prev_round, next_round, next_height,
  prev_height, new_point, point_is_zero,
}

-- Below the last round, the next round is later, and the previous round of it is the point again.
pub prev_round-next_round :
    (p : Point)
    → p.r + 1 < 2 ^ 64
    → (point_compare p (next_round p) ≡ Ordering.lt) × (prev_round (next_round p) ≡ p)
unfolding prev_round next_round point_compare
prev_round-next_round p h = (ground arith, ground arith)

-- The previous round of a valid point is valid, and earlier unless the point is the genesis point.
pub prev_round-descends :
    (p : Point)
    → point_is_valid p ≡ true
    → IsInt64 p.h
    → (point_is_valid (prev_round p) ≡ true)
      × ((p ≡ genesis_point) ⊎ (point_compare (prev_round p) p ≡ Ordering.lt))
unfolding prev_round point_is_valid point_compare
prev_round-descends p v b = (ground arith, ground arith)

-- Below the last height, the next height is later than every round of this one and starts at round
-- 0; and going back from it gives the first round of this height, if this height is not negative.
pub prev_height-next_height :
    (p : Point)
    → IsInt64 p.h
    → p.h <ℤ pos max_int64
    → pos 0 ≤ℤ p.h
    → (point_compare p (next_height p) ≡ Ordering.lt)
      × ((next_height p).r ≡ 0)
      × (prev_height (next_height p) ≡ record p { r = 0 })
unfolding prev_height next_height point_compare
prev_height-next_height p b below h = (ground arith, ground arith, ground arith)

-- The round before, at a height that is not negative: at round 0 it is round 0 of the height before.
pub prev_round_at :
    (n r : ℕ)
    → n < 2 ^ 63
    → prev_round (new_point (pos n) r) ≡ new_point (pos (n - (1 - r))) (r - 1)
unfolding prev_round
prev_round_at n r small = ground arith

pub point_is_zero_at : (n r : ℕ) → point_is_zero (new_point (pos n) r) ≡ false
unfolding point_is_zero
point_is_zero_at n r = refl
