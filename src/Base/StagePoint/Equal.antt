-- ===== src/Base/StagePoint/Equal.antt =====
-- The equality of stage points.
use text.Mathlib.TextEquality.{eq_iff}
use mitum.Prelude.{◌≡◌, refl, ◌↔◌, ap, subst, true, ◌&&◌, arith}
use mitum.Base.Point.{point_eq}
use mitum.Base.Point.Order.{point_eq_iff}
use mitum.Base.StagePoint.{
  Stage, unknown, init, accept, other, stage_eq, StagePoint, stage_point_eq,
}

stage_eq_iff : (s t : Stage) → (stage_eq s t ≡ true) ↔ (s ≡ t)
unfolding stage_eq
stage_eq_iff s t = (same s t, λ e. subst (λ x. stage_eq s x ≡ true) e (self s))
  where
    same : (s t : Stage) → stage_eq s t ≡ true → s ≡ t
    same unknown unknown h = refl
    same init init h = refl
    same accept accept h = refl
    same (other a) (other b) h = ap other ((eq_iff a b).0 h)
    same unknown init h = cc
    same unknown accept h = cc
    same unknown (other b) h = cc
    same init unknown h = cc
    same init accept h = cc
    same init (other b) h = cc
    same accept unknown h = cc
    same accept init h = cc
    same accept (other b) h = cc
    same (other a) unknown h = cc
    same (other a) init h = cc
    same (other a) accept h = cc

    self : (s : Stage) → stage_eq s s ≡ true
    self unknown = refl
    self init = refl
    self accept = refl
    self (other a) = (eq_iff a a).1 refl

-- `Equal` answers true exactly for the same stage point.
pub stage_point_eq_iff : (p b : StagePoint) → (stage_point_eq p b ≡ true) ↔ (p ≡ b)
unfolding stage_point_eq
stage_point_eq_iff p b = (
  λ h. ground (arith, stage_eq_iff p.stage b.stage, point_eq_iff p.point b.point),
  λ e.
      subst (λ x. (stage_eq p.stage x.stage && point_eq p.point x.point) ≡ true) e
        (rw ((stage_eq_iff p.stage p.stage).1 refl, (point_eq_iff p.point p.point).1 refl) refl),
)
