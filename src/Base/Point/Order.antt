-- ===== src/Base/Point/Order.antt =====
-- The order of points.
use mitum.Prelude.{◌≡◌, ◌⊎◌, ◌<◌, ◌↔◌, true, Ordering, ◌<ℤ◌, arith}
use mitum.Base.Point.{Point, point_eq, point_compare}

-- The lexicographic order: the height first, then the round.
abbrev pub Precedes : Point → Point → Type 0
Precedes p b = (p.h <ℤ b.h) ⊎ ((p.h ≡ b.h) × (p.r < b.r))

abbrev pub flip : Ordering → Ordering
flip Ordering.lt = Ordering.gt
flip Ordering.gt = Ordering.lt
flip Ordering.eq = Ordering.eq

eq_self : (p : Point) → point_eq p p ≡ true
unfolding point_eq
eq_self p = ground arith

-- `Equal` answers true exactly for the same point.
pub point_eq_iff : (p b : Point) → (point_eq p b ≡ true) ↔ (p ≡ b)
unfolding point_eq
point_eq_iff p b = (λ e. ground arith, λ e. rw e (eq_self b))

module _ (p b : Point) where
  compare-gt : point_compare p b ≡ Ordering.gt → Precedes b p
  unfolding point_compare
  compare-gt h = ground arith

  gt-compare : Precedes b p → point_compare p b ≡ Ordering.gt
  unfolding point_compare
  gt-compare h = ground arith

  compare-lt : point_compare p b ≡ Ordering.lt → Precedes p b
  unfolding point_compare
  compare-lt h = ground arith

  lt-compare : Precedes p b → point_compare p b ≡ Ordering.lt
  unfolding point_compare
  lt-compare h = ground arith

  compare-eq : point_compare p b ≡ Ordering.eq → p ≡ b
  unfolding point_compare
  compare-eq h = ground arith

compare_self : (p : Point) → point_compare p p ≡ Ordering.eq
unfolding point_compare
compare_self p = ground arith

-- `Compare` answers 1, -1 and 0 exactly when `b` is before `p`, after it, and the same point.
pub point_compare_iff :
    (p b : Point)
    → ((point_compare p b ≡ Ordering.gt) ↔ Precedes b p)
      × ((point_compare p b ≡ Ordering.lt) ↔ Precedes p b)
      × ((point_compare p b ≡ Ordering.eq) ↔ (p ≡ b))
point_compare_iff p b = (
  (compare-gt p b, gt-compare p b),
  (compare-lt p b, lt-compare p b),
  (compare-eq p b, λ e. rw e (compare_self b)),
)

pub point_compare-flip : (p b : Point) → point_compare b p ≡ flip (point_compare p b)
unfolding point_compare
point_compare-flip p b = ground arith

pub point_compare_trans :
    (p b c : Point)
    → point_compare p b ≡ Ordering.lt
    → point_compare b c ≡ Ordering.lt
    → point_compare p c ≡ Ordering.lt
unfolding point_compare
point_compare_trans p b c = ground arith
