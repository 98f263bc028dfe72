-- ===== src/Base/Point.antt =====
-- base/point.go: heights, rounds and points.
pub mod Order
pub mod Moves
mod Tests
use mitum.Prelude.{
  ℕ, ◌+◌, ◌-◌, ◌%◌, ◌^◌, Bool, true, false, not, ◌&&◌, Ordering, ltb, leb, ◌==◌, if◌then◌else◌, ℤ,
  pos, negsuc, ◌+ℤ◌, ◌-ℤ◌, ltb_ℤ, leb_ℤ, eqb_ℤ, wrap64,
}

-- `type Height int64`
abbrev pub Height : Type 0
Height = ℤ

abbrev pub nil_height : Height
nil_height = negsuc 0

abbrev pub genesis_height : Height
genesis_height = pos 0

-- `type Round uint64`
abbrev pub Round : Type 0
Round = ℕ

abbrev pub u64 : ℕ → ℕ
u64 n = n % 2 ^ 64

-- `true` when the source returns no error
pub height_is_valid : Height → Bool
height_is_valid h = not (ltb_ℤ h genesis_height)

pub height_is_zero : Height → Bool
height_is_zero h = leb_ℤ h nil_height

pub height_prev : Height → Height
height_prev h = wrap64 (h -ℤ pos 1)

unfoldable pub height_safe_prev : Height → Height
height_safe_prev h = if leb_ℤ h genesis_height then genesis_height else wrap64 (h -ℤ pos 1)

pub round_prev : Round → Round
round_prev r = if leb r 0 then 0 else r - 1

pub record Point : Type 0 where
  pub h : Height
  pub r : Round

abbrev pub new_point : Height → Round → Point
new_point h r = record { h = h; r = r }

abbrev pub genesis_point : Point
genesis_point = new_point genesis_height 0

abbrev pub zero_point : Point
zero_point = new_point nil_height 0

unfoldable pub point_eq : Point → Point → Bool
point_eq p b = eqb_ℤ p.h b.h && p.r == b.r

unfoldable pub point_is_valid : Point → Bool
unfolding height_is_valid
point_is_valid p =
    if not (height_is_valid p.h) then false else not (eqb_ℤ p.h genesis_height && not (p.r == 0))

-- The results 1, -1 and 0 of a comparison are `gt`, `lt` and `eq`.
unfoldable pub point_compare : Point → Point → Ordering
point_compare p b =
    if ltb_ℤ b.h p.h
    then Ordering.gt
    else if ltb_ℤ p.h b.h
    then Ordering.lt
    else if ltb b.r p.r
    then Ordering.gt
    else if ltb p.r b.r
    then Ordering.lt
    else Ordering.eq

unfoldable pub point_is_zero : Point → Bool
unfolding height_is_zero
point_is_zero p = height_is_zero p.h

unfoldable pub prev_round : Point → Point
unfolding point_eq height_safe_prev round_prev
prev_round p =
    if point_eq p genesis_point
    then genesis_point
    else if p.r == 0
    then new_point (height_safe_prev p.h) 0
    else new_point p.h (round_prev p.r)

unfoldable pub next_round : Point → Point
next_round p = new_point p.h (u64 (p.r + 1))

unfoldable pub next_height : Point → Point
next_height p = new_point (wrap64 (p.h +ℤ pos 1)) 0

unfoldable pub prev_height : Point → Point
prev_height p = if leb_ℤ p.h genesis_height then p else new_point (wrap64 (p.h -ℤ pos 1)) 0
