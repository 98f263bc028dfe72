-- ===== src/States/Ballotbox/Removed.antt =====
-- isaac/states/ballotbox.go, `clean`: which ordinary records go.
use mitum.Prelude.{
  ℕ, ◌≡◌, subst, ◌∙◌, ap, sym, refl, Bool, true, false, not, ◌&&◌, ◌-◌, ◌^◌, ◌<◌, pos, Option, none,
  some, List, [], ◌∷◌, if◌then◌else◌, Bool-cases, inl, inr, arith, is_some,
}
use mitum.Base.Point.{Height, new_point}
use mitum.Base.Point.Moves.{prev_round_at, point_is_zero_at}
use mitum.Base.StagePoint.{
  Stage, StagePoint, new_stage_point, stage_is_valid, is_zero, compare, decrease,
}
use mitum.Isaac.LastPoint.{LastPoint, above}
use mitum.States.VoteRecords.{VoteRecords}
use mitum.States.Ballotbox.{
  Prefix, plain, sf, sign, RecordKey, key_eq, prefix_eq, key_of, removed_key_of, value, Ballotbox,
  last_point, put_all, is_left_behind, left_behind, remove_all, remove_left_behind, limit_of, clean,
}
use mitum.States.Ballotbox.Clean.{key_eq_iff, removes, value-removed, vrs-put_all}

-- Every record stands under the key of its stage point.
abbrev pub IsKeyed : (ℕ → VoteRecords) → List (RecordKey × ℕ) → Type 0
IsKeyed heap [] = Unit
IsKeyed heap ((k, i) ∷ m) = (k ≡ key_of (heap i).sp (heap i).isc) × IsKeyed heap m

module _ (p limit : StagePoint) (heap : ℕ → VoteRecords) where
  abbrev rests : List (RecordKey × ℕ) → Bool
  rests m = removes heap (left_behind heap limit m) (key_of p false)

  abbrev hits : ℕ → Bool
  hits i = key_eq (removed_key_of (heap i).sp (heap i).isc) (key_of p false)

  rests-cons :
      (k : RecordKey) (i : ℕ) (m : List (RecordKey × ℕ))
      → rests ((k, i) ∷ m) ≡ (if is_left_behind (heap i) limit && hits i then true else rests m)
  unfolding left_behind
  rests-cons k i m = elim (Bool-cases (is_left_behind (heap i) limit)) [
    | inl goes ↦ rw goes refl
    | inr stays ↦ rw stays refl
  ]

  left_behind_at :
      (i : ℕ) → (heap i).sp ≡ p → is_left_behind (heap i) limit ≡ not (above (compare p limit))
  unfolding is_left_behind
  left_behind_at i e = ap (λ x. not (above (compare x limit))) e

  plain_prefix :
      (a b : Prefix) (isc : Bool)
      → (if isc then a else plain) ≡ plain
      → prefix_eq a plain ≡ false
      → isc ≡ false
  unfolding prefix_eq
  plain_prefix plain b isc e h = cc
  plain_prefix sf b true e h = cc
  plain_prefix sf b false e h = refl
  plain_prefix sign b true e h = cc
  plain_prefix sign b false e h = refl

  removes_none : (m : List (RecordKey × ℕ)) → above (compare p limit) ≡ true → rests m ≡ false
  unfolding left_behind
  removes_none [] late = refl
  removes_none ((k, i) ∷ m) late = rests-cons k i m ∙ elim (Bool-cases (hits i)) [
    | inr missed ↦ ground (arith, removes_none m late)
    | inl hit ↦
        let at : (heap i).sp ≡ p =
          ap (λ (x : RecordKey). x.of_point)
            ((key_eq_iff (removed_key_of (heap i).sp (heap i).isc) (key_of p false)).0 hit) in
        ground (arith, removes_none m late, left_behind_at i at)
  ]

  removes_some :
      (m : List (RecordKey × ℕ))
      → above (compare p limit) ≡ false
      → IsKeyed heap m
      → is_some (value (key_of p false) m) ≡ true
      → rests m ≡ true
  unfolding value
  removes_some [] early keyed found = cc
  removes_some ((k, i) ∷ m) early keyed found =
      rests-cons k i m ∙ elim (Bool-cases (key_eq k (key_of p false))) [
        | inr missed ↦
            let later : rests m ≡ true = removes_some m early keyed.1 (rw missed at found) in
            ground arith
        | inl hit ↦
            let e : key_of (heap i).sp (heap i).isc ≡ key_of p false =
              sym keyed.0 ∙ (key_eq_iff k (key_of p false)).0 hit in
            let at : (heap i).sp ≡ p = ap (λ (x : RecordKey). x.of_point) e in
            let is_plain : (heap i).isc ≡ false =
              plain_prefix sf plain (heap i).isc (ap (λ (x : RecordKey). x.prefix) e)
                (unfold prefix_eq in refl) in
            let hits_it : hits i ≡ true =
              (key_eq_iff (removed_key_of (heap i).sp (heap i).isc) (key_of p false)).1
                (rw (at, is_plain) refl) in
            rw (left_behind_at i at, early, hits_it) refl
      ]

  left-value :
      (m : List (RecordKey × ℕ))
      → IsKeyed heap m
      → value (key_of p false) (remove_all heap (left_behind heap limit m) m)
        ≡ (if above (compare p limit) then value (key_of p false) m else none)
  left-value m keyed =
      value-removed (key_of p false) heap (left_behind heap limit m) m
      ∙ elim (Bool-cases (above (compare p limit))) [
        | inl late ↦ rw (late, removes_none m late) refl
        | inr early ↦ elim (Bool-cases (is_some (value (key_of p false) m))) [
          | inl found ↦ rw (early, removes_some m early keyed found) refl
          | inr missing ↦ rw early (nothing_left (value (key_of p false) m) (rests m) missing)
        ]
      ]
    where
      nothing_left : (o : Option ℕ) (b : Bool) → is_some o ≡ false → (if b then none else o) ≡ none
      nothing_left none true h = refl
      nothing_left none false h = refl
      nothing_left (some x) b h = cc

value-remove_left_behind :
    (box : Ballotbox) (last : LastPoint) (p : StagePoint)
    → IsKeyed box.heap box.vrs
    → is_zero last.stage_point ≡ false
    → is_zero (limit_of last) ≡ false
    → value (key_of p false) (remove_left_behind box last).vrs
      ≡ (if above (compare p (limit_of last)) then value (key_of p false) box.vrs else none)
unfolding remove_left_behind
value-remove_left_behind box last p keyed z y =
    rw (z, y) (left-value p (limit_of last) box.heap box.vrs keyed)

decrease_at :
    (n r : ℕ) (s : Stage)
    → n < 2 ^ 63
    → decrease (new_stage_point (new_point (pos n) r) s)
      ≡ new_stage_point (new_point (pos (n - (1 - r))) (r - 1)) s
unfolding decrease
decrease_at n r s small = ap (λ p. new_stage_point p s) (prev_round_at n r small)

-- The point that so many rounds make three rounds below: what the round lacks is taken of the height,
-- which does not go below the genesis height.
abbrev pub three_below : ℕ → ℕ → Stage → StagePoint
three_below n r s = new_stage_point (new_point (pos (n - (3 - r))) (r - 3)) s

three_decreases :
    (n r : ℕ) (s : Stage)
    → n < 2 ^ 63
    → decrease (decrease (decrease (new_stage_point (new_point (pos n) r) s))) ≡ three_below n r s
three_decreases n r s small =
    ap (λ p. decrease (decrease p)) (decrease_at n r s small)
    ∙ ap decrease (decrease_at (n - (1 - r)) (r - 1) s (omega arith))
    ∙ decrease_at (n - (1 - r) - (1 - (r - 1))) (r - 1 - 1) s (omega arith)
    ∙ ap (λ m. new_stage_point (new_point (pos m) (r - 1 - 1 - 1)) s) same_height
    ∙ ap (λ k. new_stage_point (new_point (pos (n - (3 - r))) k) s) same_round
  where
    same_height : n - (1 - r) - (1 - (r - 1)) - (1 - (r - 1 - 1)) ≡ n - (3 - r)
    same_height = omega arith

    same_round : r - 1 - 1 - 1 ≡ r - 3
    same_round = omega arith

limit_of-three_below :
    (last : LastPoint) (n : ℕ)
    → last.h ≡ pos n
    → n < 2 ^ 63
    → limit_of last ≡ three_below n last.r last.stage
unfolding limit_of
limit_of-three_below last n e small =
    ap (λ h. decrease (decrease (decrease (new_stage_point (new_point h last.r) last.stage)))) e
    ∙ three_decreases n last.r last.stage small

zero_at :
    (h : Height) (n r : ℕ) (s : Stage)
    → h ≡ pos n
    → stage_is_valid s ≡ true
    → is_zero (new_stage_point (new_point h r) s) ≡ false
unfolding is_zero
zero_at h n r s e v = rw e (rw (point_is_zero_at n r) (rw v refl))

-- Where every record stands under its key and the last point has a height from 0 to below 2^63 and a
-- valid stage: of the records that are no suffrage confirm exactly those leave the box of which the point, compared by height,
-- round and stage, is not above the point of the last point's stage that is three rounds below it;
-- rounds that are missing are taken of the height, down to the genesis height.
pub clean-value :
    (box : Ballotbox) (p : StagePoint) (n : ℕ)
    → IsKeyed (put_all box box.removed).heap box.vrs
    → (last_point box).h ≡ pos n
    → n < 2 ^ 63
    → stage_is_valid (last_point box).stage ≡ true
    → value (key_of p false) (clean box).vrs ≡ (
        if above (compare p (three_below n (last_point box).r (last_point box).stage))
        then value (key_of p false) box.vrs
        else none)
unfolding clean
clean-value box p n keyed e small valid =
    let limit = limit_of-three_below (last_point box) n e small in
    subst
      (λ m. value (key_of p false) (clean box).vrs ≡ (
        if above (compare p (three_below n (last_point box).r (last_point box).stage))
        then value (key_of p false) m
        else none))
      (vrs-put_all box.removed box)
      (subst
        (λ l. value (key_of p false) (clean box).vrs ≡ (
          if above (compare p l)
          then value (key_of p false) (put_all box box.removed).vrs
          else none))
        limit
        (value-remove_left_behind (put_all box box.removed) (last_point box) p
          (subst (IsKeyed (put_all box box.removed).heap) (sym (vrs-put_all box.removed box)) keyed)
          (zero_at (last_point box).h n (last_point box).r (last_point box).stage e valid)
          (rw limit (zero_at _ (n - (3 - (last_point box).r)) _ _ refl valid))))
