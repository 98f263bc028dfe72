-- ===== src/Isaac/LastPoint/Newer.antt =====
-- What it means to be newer than the last point.
use mitum.Prelude.{◌≡◌, ◌≢◌, ◌⊎◌, ◌<◌, Bool, true, false, some, Ordering, ◌≤ℤ◌, ◌<ℤ◌, arith}
use mitum.Base.StagePoint.{StagePoint, compare, stage_compare, is_zero}
use mitum.Isaac.Voteproof.{Voteproof}
use mitum.Isaac.LastPoint.{
  LastPoint, before, new_last_point_from_voteproof, is_new_voteproof, is_new_voteproof_by_point,
}

-- A voteproof is not newer than the last point that is made of it.
pub is_new_voteproof_self :
    (vp : Voteproof) (l : LastPoint)
    → new_last_point_from_voteproof vp ≡ some l
    → is_zero vp.point ≡ false
    → is_new_voteproof l vp ≡ false
unfolding new_last_point_from_voteproof is_new_voteproof
is_new_voteproof_self vp l e z = ground arith

-- What is newer than a last point does not stand at a lower height.
pub before-height :
    (l : LastPoint) (p : StagePoint) (confirm : Bool)
    → is_zero l.stage_point ≡ false
    → before l p confirm ≡ true
    → l.h ≤ℤ p.h
unfolding before
before-height l p confirm z h = ground arith

-- Everything at a higher height is newer.
pub before-higher :
    (l : LastPoint) (p : StagePoint) (confirm : Bool) → l.h <ℤ p.h → before l p confirm ≡ true
unfolding before
before-higher l p confirm h = ground arith

-- After a majority only a later stage point is newer, but for the suffrage confirm of the same
-- round, when the last point is none itself.
pub before_majority :
    (l : LastPoint) (p : StagePoint) (confirm : Bool)
    → is_zero l.stage_point ≡ false
    → l.is_majority ≡ true
    → before l p confirm ≡ true
    → (compare p l.stage_point ≡ Ordering.gt)
      ⊎ ((p.point ≡ l.point) × (confirm ≡ true) × (l.is_suffrage_confirm ≡ false))
unfolding before
before_majority l p confirm z m h = ground arith

-- After a draw, what is newer is a later stage point, or a suffrage confirm of the same height.
pub before_draw :
    (l : LastPoint) (p : StagePoint) (confirm : Bool)
    → is_zero l.stage_point ≡ false
    → l.is_majority ≡ false
    → before l p confirm ≡ true
    → (compare p l.stage_point ≡ Ordering.gt) ⊎ ((confirm ≡ true) × (p.h ≡ l.h))
unfolding before
before_draw l p confirm z m h = ground arith

-- After a draw, the later stages of its round are not newer, but for a suffrage confirm.
pub before_draw_same_round :
    (l : LastPoint) (p : StagePoint)
    → is_zero l.stage_point ≡ false
    → l.is_majority ≡ false
    → p.point ≡ l.point
    → stage_compare p.stage l.stage ≢ Ordering.lt
    → before l p false ≡ false
unfolding before
before_draw_same_round l p z m same s = ground arith

-- After a draw, a majority of the same point is a new voteproof, whether it is newer or not.
pub is_new_voteproof_majority :
    (l : LastPoint) (p : StagePoint) (confirm : Bool)
    → l.is_majority ≡ false
    → p ≡ l.stage_point
    → (stage_compare p.stage p.stage ≡ Ordering.eq)
    → is_new_voteproof_by_point l p true confirm ≡ true
unfolding is_new_voteproof_by_point
is_new_voteproof_majority l p confirm m same known = ground arith

-- The order of acceptance has a cycle: after a draw, the suffrage confirm of an earlier round of the
-- height is new, and after that majority the draw is new again.
pub confirm_after_draw :
    (d c : LastPoint)
    → is_zero d.stage_point ≡ false
    → is_zero c.stage_point ≡ false
    → d.h ≡ c.h
    → c.r < d.r
    → d.is_majority ≡ false
    → c.is_majority ≡ true
    → c.is_suffrage_confirm ≡ true
    → d.is_suffrage_confirm ≡ false
    → d.stage ≡ c.stage
    → (is_new_voteproof_by_point d c.stage_point true true ≡ true)
      × (is_new_voteproof_by_point c d.stage_point false false ≡ true)
unfolding is_new_voteproof_by_point
confirm_after_draw d c zd zc height earlier draw majority confirm plain stages =
    (ground arith, ground arith)
