-- ===== src/Base/Threshold.antt =====
-- base/threshold.go, with its float64 arithmetic written out.
mod Tests
use mitum.Prelude.{
  ℕ, zero, suc, ◌+◌, ◌-◌, ◌*◌, ◌/◌, ◌%◌, ◌^◌, Bool, true, false, List, ltb, leb, ◌==◌,
  if◌then◌else◌, Text,
}
use mitum.Base.Vote.{VoteResult, Entry, find_vote_result}

-- A float64 that is neither negative nor infinite nor NaN is a number of units of 2^-1074, the
-- smallest positive float64.
abbrev pub Float64 : Type 0
Float64 = ℕ

pub one : Float64
one = 2 ^ 1074

-- By how many bits a number is longer than the 53 bits of a significand. 1100 rounds are enough
-- below 2^1153.
pub excess : ℕ → ℕ → ℕ
excess zero q = 0
excess (suc fuel) q = let more = suc (excess fuel (q / 2)) in if ltb q (2 ^ 53) then 0 else more

-- To the nearest, and to the even one of two that are as near: `m` of `d`, with the rest `r`.
pub nearest : ℕ → ℕ → ℕ → ℕ
nearest m r d = if ltb (2 * r) d then m else if ltb d (2 * r) then m + 1 else m + m % 2

-- The float64 nearest to n / d units.
pub round_ratio : ℕ → ℕ → Float64
unfolding nearest excess
round_ratio n d =
    let unit = 2 ^ excess 1100 (n / d) in
    nearest (n / (d * unit)) (n % (d * unit)) (d * unit) * unit

unfoldable pub of_uint : ℕ → Float64
unfolding round_ratio one
of_uint n = round_ratio (n * one) 1

unfoldable pub mul : Float64 → Float64 → Float64
unfolding round_ratio one
mul a b = round_ratio (a * b) one

unfoldable pub div : Float64 → Float64 → Float64
unfolding round_ratio one
div a b = round_ratio (a * one) b

-- `a - b`, where `b` is no more than `a`
pub sub : Float64 → Float64 → Float64
unfolding round_ratio
sub a b = round_ratio (a - b) 1

-- `uint(math.Ceil(x))` and `int(x)`
pub ceil : Float64 → ℕ
unfolding one
ceil x = (x + one - 1) / one

pub trunc : Float64 → ℕ
unfolding one
trunc x = x / one

abbrev pub Threshold : Type 0
Threshold = Float64

-- A whole number of percent.
unfoldable pub percent : ℕ → Threshold
unfolding one
percent n = n * one

unfoldable pub default_threshold : Threshold
unfolding percent
default_threshold = percent 67

unfoldable pub min_threshold : Threshold
unfolding percent
min_threshold = percent 51

unfoldable pub max_threshold : Threshold
unfolding percent
max_threshold = percent 100

unfoldable pub threshold_is_valid : Threshold → Bool
unfolding max_threshold min_threshold
threshold_is_valid t =
    if leb t 0
    then false
    else if ltb max_threshold t
    then false
    else if ltb t min_threshold
    then false
    else true

-- `Threshold.Threshold`
unfoldable pub threshold_of : Threshold → ℕ → ℕ
unfolding ceil mul of_uint div max_threshold
threshold_of t quorum = ceil (mul (of_uint quorum) (div t max_threshold))

-- `Threshold.VoteResult`
unfoldable pub vote_result_of :
    (List Entry → List Entry) → Threshold → ℕ → List Text → VoteResult × Text
unfolding threshold_of find_vote_result
vote_result_of order t quorum s = find_vote_result order quorum (threshold_of t quorum) s

unfoldable pub number_of_faulty_nodes : ℕ → Threshold → ℕ
unfolding trunc sub mul of_uint div max_threshold
number_of_faulty_nodes n threshold =
    if ltb n 1
    then 0
    else if leb max_threshold threshold
    then 0
    else trunc (sub (of_uint n) (mul (of_uint n) (div threshold max_threshold)))
