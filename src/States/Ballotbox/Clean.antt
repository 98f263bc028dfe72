-- ===== src/States/Ballotbox/Clean.antt =====
-- isaac/states/ballotbox.go, `clean`: which records stay in the box.
use mitum.Prelude.{
  ℕ, ◌≡◌, ◌↔◌, subst, ◌∙◌, ap, refl, Bool, true, false, ◌&&◌, ◌||◌, none, List, [], ◌∷◌,
  if◌then◌else◌, Bool-cases, inl, inr, arith,
}
use mitum.Base.StagePoint.Equal.{stage_point_eq_iff}
use mitum.Base.StagePoint.{StagePoint, is_zero, stage_point_eq}
use mitum.Isaac.LastPoint.{LastPoint}
use mitum.States.VoteRecords.{VoteRecords}
use mitum.States.Ballotbox.{
  Prefix, plain, sf, sign, RecordKey, key_eq, prefix_eq, key_of, removed_key_of, value,
  remove_value, Ballotbox, write, last_point, put_all, left_behind, remove_all, remove_left_behind,
  limit_of, clean,
}

-- No key that `clean` removes is the key of a suffrage confirm.
removed_key_of-differs :
    (p q : StagePoint) (isc : Bool) (k : RecordKey)
    → key_eq k (removed_key_of q isc) ≡ true
    → key_eq k (key_of p true) ≡ false
unfolding key_eq prefix_eq
removed_key_of-differs p q isc k h = ground arith

value-remove_value :
    (c j : RecordKey) (m : List (RecordKey × ℕ))
    → ((k : RecordKey) → key_eq k j ≡ true → key_eq k c ≡ false)
    → value c (remove_value j m) ≡ value c m
unfolding value remove_value
value-remove_value c j [] differs = refl
value-remove_value c j ((k, i) ∷ m) differs = elim (Bool-cases (key_eq k j)) [
  | inl e ↦ rw (e, differs k e) (value-remove_value c j m differs)
  | inr e ↦ rw (e, value-remove_value c j m differs) refl
]

value-remove_all :
    (p : StagePoint) (heap : ℕ → VoteRecords) (is : List ℕ) (m : List (RecordKey × ℕ))
    → value (key_of p true) (remove_all heap is m) ≡ value (key_of p true) m
unfolding remove_all
value-remove_all p heap [] m = refl
value-remove_all p heap (i ∷ is) m =
    value-remove_all p heap is (remove_value (removed_key_of (heap i).sp (heap i).isc) m)
    ∙ value-remove_value (key_of p true) (removed_key_of (heap i).sp (heap i).isc) m
        (removed_key_of-differs p (heap i).sp (heap i).isc)

pub vrs-put_all : (is : List ℕ) (box : Ballotbox) → (put_all box is).vrs ≡ box.vrs
unfolding put_all write
vrs-put_all [] box = refl
vrs-put_all (i ∷ is) box = vrs-put_all is _

value-remove_left_behind :
    (box : Ballotbox) (last : LastPoint) (p : StagePoint)
    → value (key_of p true) (remove_left_behind box last).vrs ≡ value (key_of p true) box.vrs
unfolding remove_left_behind
value-remove_left_behind box last p =
    elim (Bool-cases (is_zero last.stage_point || is_zero (limit_of last))) [
      | inl z ↦ rw z refl
      | inr z ↦
          rw z (value-remove_all p box.heap (left_behind box.heap (limit_of last) box.vrs) box.vrs)
    ]

-- `clean` never takes the records of a suffrage confirm out of the box, however far the last point
-- has gone past them.
pub clean-keeps_confirm :
    (box : Ballotbox) (p : StagePoint)
    → value (key_of p true) (clean box).vrs ≡ value (key_of p true) box.vrs
unfolding clean
clean-keeps_confirm box p =
    value-remove_left_behind (put_all box box.removed) (last_point box) p
    ∙ ap (value (key_of p true)) (vrs-put_all box.removed box)

pub key_eq_iff : (k j : RecordKey) → (key_eq k j ≡ true) ↔ (k ≡ j)
unfolding key_eq prefix_eq
key_eq_iff k j = (
  λ h. ground (arith, stage_point_eq_iff k.of_point j.of_point),
  λ e.
      subst
        (λ (x : RecordKey).
          (prefix_eq k.prefix x.prefix && stage_point_eq k.of_point x.of_point) ≡ true)
        e (rw ((stage_point_eq_iff k.of_point k.of_point).1 refl) (self k.prefix)),
)
  where
    self : (x : Prefix) → (prefix_eq x x && true) ≡ true
    self plain = refl
    self sf = refl
    self sign = refl

value-remove :
    (c j : RecordKey) (m : List (RecordKey × ℕ))
    → value c (remove_value j m) ≡ (if key_eq j c then none else value c m)
unfolding value remove_value
value-remove c j [] = ground arith
value-remove c j ((k, i) ∷ m) =
    ground (arith, value-remove c j m, key_eq_iff k j, key_eq_iff k c, key_eq_iff j c)

-- Some of the records is removed under the key.
abbrev pub removes : (ℕ → VoteRecords) → List ℕ → RecordKey → Bool
removes heap [] c = false
removes heap (i ∷ is) c =
    if key_eq (removed_key_of (heap i).sp (heap i).isc) c then true else removes heap is c

pub value-removed :
    (c : RecordKey) (heap : ℕ → VoteRecords) (is : List ℕ) (m : List (RecordKey × ℕ))
    → value c (remove_all heap is m) ≡ (if removes heap is c then none else value c m)
unfolding remove_all
value-removed c heap [] m = refl
value-removed c heap (i ∷ is) m =
    value-removed c heap is (remove_value (removed_key_of (heap i).sp (heap i).isc) m)
    ∙ ground (arith, value-remove c (removed_key_of (heap i).sp (heap i).isc) m)
