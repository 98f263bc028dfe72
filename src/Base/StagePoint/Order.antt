-- ===== src/Base/StagePoint/Order.antt =====
-- The order of stages and stage points, and the text of a stage.
use text.Mathlib.TextEquality.{eq_iff}
use mitum.Prelude.{String, ◌≡◌, ◌⊎◌, inl, inr, refl, ◌↔◌, Ordering, ◌∙◌, arith}
use mitum.Base.Point.{Point}
use mitum.Base.Point.Order.{Precedes, flip, point_compare-flip, point_compare_iff}
use mitum.Base.StagePoint.{
  Stage, unknown, init, accept, other, stage_of_text, stage_text, stage_compare, StagePoint,
  compare,
}

-- A text that is read as a stage is written as it was.
pub stage_text-stage_of_text : (s : String) → stage_text (stage_of_text s) ≡ s
unfolding stage_text stage_of_text
stage_text-stage_of_text s = ground (arith, eq_iff s "UNKNOWN", eq_iff s "INIT", eq_iff s "ACCEPT")

-- One of the three stages that the map of ranks holds.
abbrev pub IsRanked : Stage → Type 0
IsRanked s = (s ≡ unknown) ⊎ (s ≡ init) ⊎ (s ≡ accept)

pub stage_compare-flip :
    (s t : Stage) → IsRanked s → IsRanked t → stage_compare t s ≡ flip (stage_compare s t)
unfolding stage_compare
stage_compare-flip s t a b = ground arith

pub stage_compare_eq : (s t : Stage) → IsRanked s → stage_compare s t ≡ Ordering.eq → s ≡ t
unfolding stage_compare
stage_compare_eq s t a h = ground arith

stage_compare_trans :
    (s t u : Stage)
    → IsRanked s
    → IsRanked t
    → IsRanked u
    → stage_compare s t ≡ Ordering.lt
    → stage_compare t u ≡ Ordering.lt
    → stage_compare s u ≡ Ordering.lt
unfolding stage_compare
stage_compare_trans s t u a b c h k = ground arith

-- A stage point with one of the three stages.
abbrev pub IsRankedPoint : StagePoint → Type 0
IsRankedPoint p = IsRanked p.stage

module _ (p b : StagePoint) (hp : IsRankedPoint p) (hb : IsRankedPoint b) where
  compare-flip : compare b p ≡ flip (compare p b)
  unfolding compare
  compare-flip =
      ground (arith, point_compare-flip p.point b.point, stage_compare-flip p.stage b.stage hp hb)

  compare_eq : compare p b ≡ Ordering.eq → p ≡ b
  unfolding compare
  compare_eq h =
      ground (arith, (point_compare_iff p.point b.point).2.0, stage_compare_eq p.stage b.stage hp)

stage_compare_self : (s : Stage) → IsRanked s → stage_compare s s ≡ Ordering.eq
unfolding stage_compare
stage_compare_self s h = ground arith

compare_self : (p : StagePoint) → IsRankedPoint p → compare p p ≡ Ordering.eq
unfolding compare
compare_self p h = rw ((point_compare_iff p.point p.point).2.1 refl) (stage_compare_self p.stage h)

-- Stage points whose stages are UNKNOWN, INIT or ACCEPT: swapping the sides of `Compare` swaps its
-- sign, and it answers 0 for the same stage point only.
pub compare_known :
    (p b : StagePoint)
    → IsRankedPoint p
    → IsRankedPoint b
    → (compare b p ≡ flip (compare p b)) × ((compare p b ≡ Ordering.eq) ↔ (p ≡ b))
compare_known p b hp hb =
    (compare-flip p b hp hb, (compare_eq p b hp hb, λ e. rw e (compare_self b hb)))

-- How `Compare` answers -1.
IsBefore : StagePoint → StagePoint → Type 0
IsBefore p b =
    Precedes p.point b.point ⊎ ((p.point ≡ b.point) × (stage_compare p.stage b.stage ≡ Ordering.lt))

IsBefore-of_lt : (p b : StagePoint) → compare p b ≡ Ordering.lt → IsBefore p b
unfolding compare IsBefore
IsBefore-of_lt p b h =
    ground (arith, (point_compare_iff p.point b.point).1.0, (point_compare_iff p.point b.point).2.0)

lt_of_IsBefore : (p b : StagePoint) → IsBefore p b → compare p b ≡ Ordering.lt
unfolding compare IsBefore
lt_of_IsBefore p b (inl h) = rw ((point_compare_iff p.point b.point).1.1 h)
lt_of_IsBefore p b (inr (e, h)) = rw ((point_compare_iff p.point b.point).2.1 e) h

Precedes-trans : (p b c : Point) → Precedes p b → Precedes b c → Precedes p c
Precedes-trans p b c h k = ground arith

-- For the stages UNKNOWN, INIT and ACCEPT, `Compare` is transitive.
pub compare_trans :
    (p b c : StagePoint)
    → IsRankedPoint p
    → IsRankedPoint b
    → IsRankedPoint c
    → compare p b ≡ Ordering.lt
    → compare b c ≡ Ordering.lt
    → compare p c ≡ Ordering.lt
unfolding IsBefore
compare_trans p b c hp hb hc h k =
    lt_of_IsBefore p c (joined (IsBefore-of_lt p b h) (IsBefore-of_lt b c k))
  where
    joined : IsBefore p b → IsBefore b c → IsBefore p c
    joined (inl x) (inl y) = inl (Precedes-trans p.point b.point c.point x y)
    joined (inl x) (inr (e, y)) = inl (rw (← e) x)
    joined (inr (e, x)) (inl y) = inl (rw e y)
    joined (inr (e, x)) (inr (f, y)) =
        inr (e ∙ f, stage_compare_trans p.stage b.stage c.stage hp hb hc x y)

-- A stage outside of the map of ranks is after every stage, itself included: of two such stage
-- points with one height and round, each compares as later than the other.
pub compare_other :
    (p b : StagePoint) (s t : String)
    → p.point ≡ b.point
    → p.stage ≡ other s
    → b.stage ≡ other t
    → (compare p b ≡ Ordering.gt) × (compare b p ≡ Ordering.gt)
unfolding compare stage_compare
compare_other p b s t same hp hb = (
  ground (arith, (point_compare_iff p.point b.point).2.1),
  ground (arith, (point_compare_iff b.point p.point).2.1),
)
