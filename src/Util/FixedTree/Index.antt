-- ===== src/Util/FixedTree/Index.antt =====
-- util/fixedtree/tree.go: the rows of the tree, as indices.
use native.Mathlib.Numerals.{towards_suc}
use mitum.Prelude.{
  ℕ, ◌+◌, ◌-◌, ◌*◌, ◌/◌, ◌%◌, ◌^◌, ◌≡◌, ◌≤◌, ◌<◌, none, some, leb, if◌then◌else◌, ◌==◌, ap, refl,
  ◌∙◌, true, false, arith, Bool-cases, inl, inr,
}
use mitum.Util.FixedTree.{Platform, index_height, position, children, parent}

-- The logarithm is exact where the quotient of float64 numbers is: up to 2^47.
pub record IsLog2 (log2 : ℕ → ℕ) : Type 0 where
  pub row : (n : ℕ) → 1 ≤ n → n ≤ 2 ^ 47 → (2 ^ log2 n ≤ n) × (n < 2 ^ (log2 n + 1))

double : (n : ℕ) → 2 ^ (n + 1) ≡ 2 * 2 ^ n
double n = simp towards_suc (omega arith)

module _ (p : Platform) (exact : IsLog2 p.log2) (index : ℕ) (small : index < 2 ^ 47) where
  row_of : (2 ^ index_height p index ≤ index + 1) × (index + 1 < 2 * 2 ^ index_height p index)
  unfolding index_height
  row_of = elim (Bool-cases (index == 0)) [
    | inl e ↦ rw e (ground arith)
    | inr e ↦
        let (a, b) = exact.row (index + 1) (omega arith) (omega arith) in
        rw e (a, omega (arith, double (p.log2 (index + 1))))
  ]

  position_of : position p index ≡ index + 1 - 2 ^ index_height p index
  unfolding position
  position_of = omega (arith, row_of)

  first_child : (2 ^ (index_height p index + 1) - 1 + position p index * 2) % 2 ^ 64 ≡ 2 * index + 1
  first_child = omega (arith, row_of, position_of, double (index_height p index))

  -- Of an index below 2^47, where the logarithm is exact up to 2^47: the children are the two that
  -- follow twice the index, if the first is in the tree, and there are none if it is not.
  pub children_lem :
      (size : ℕ)
      → children p size index
        ≡ (if leb size (2 * index + 1) then none else some (2 * index + 1, 2 * index + 2))
  unfolding children
  children_lem size = rw first_child (rw second refl)
    where
      second : (2 * index + 1 + 1) % 2 ^ 64 ≡ 2 * index + 2
      second = omega arith

  root_row : index ≡ 0 → index_height p index ≡ 0
  unfolding index_height
  root_row e = rw e refl

  half_row :
      1 ≤ index
      → (1 ≤ index_height p index) × (2 ^ index_height p index ≡ 2 * 2 ^ (index_height p index - 1))
  half_row h = elim (Bool-cases (index_height p index == 0)) [
    | inl e ↦
        let z : index_height p index ≡ 0 = ground arith in
        let (a, b) : (2 ^ 0 ≤ index + 1) × (index + 1 < 2 * 2 ^ 0) = rw z at row_of in
        absurd (omega arith)
    | inr e ↦
        let one : 1 ≤ index_height p index = ground arith in
        (one, ap (λ n. 2 ^ n) (omega arith) ∙ double (index_height p index - 1))
  ]

  even_place : ℕ
  even_place = if position p index % 2 == 1 then position p index - 1 else position p index

  even_place_lem : even_place / 2 ≡ position p index / 2
  unfolding even_place
  even_place_lem = ground arith

  upper :
      1 ≤ index → (2 ^ (index_height p index - 1) - 1 + even_place / 2) % 2 ^ 64 ≡ (index - 1) / 2
  upper h = omega (arith, half_row h, even_place_lem, position_of, row_of)

  -- Of an index below 2^47, where the logarithm is exact up to 2^47: the root has no parent, and the
  -- parent of any other index is half of what goes before it.
  pub parent_lem : parent p index ≡ (if index == 0 then none else some ((index - 1) / 2))
  unfolding parent
  parent_lem = elim (Bool-cases (index == 0)) [
    | inl e ↦
        let z : (index_height p index == 0) ≡ true = rw (root_row (ground arith)) refl in
        rw (z, e) refl
    | inr e ↦
        let h : 1 ≤ index = ground arith in
        let nz : (index_height p index == 0) ≡ false = ground (arith, half_row h) in
        rw (e, nz) (ap some (unfold even_place in upper h))
  ]
