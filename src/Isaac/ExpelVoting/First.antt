-- ===== src/Isaac/ExpelVoting/First.antt =====
-- isaac/suffrage_voting.go, `findExpelCombinations`: which combination of expels is found.
use mitum.Prelude.{
  ℕ, zero, suc, ◌-◌, ◌*◌, ◌/◌, ◌%◌, ◌^◌, ◌≤◌, ◌<◌, ◌≡◌, ◌==◌, ◌⊎◌, inl, inr, ◌↔◌, refl, sym, ap,
  ◌∙◌, Bool, true, false, arith, List, [], ◌∷◌, ltb, length, any, all,
}
use mitum.Isaac.Voteproof.{ExpelOperation}
use mitum.Isaac.Suffrage.{Suffrage, exists, node_signs}
use mitum.Isaac.ExpelVoting.{
  adapted_threshold, nodes_of, other_signs, filter_operation, suffices, ones_count, at_bits,
  first_combination, combination, find_expel_combinations,
}
use mitum.Isaac.ExpelVoting.Found.{find_from-IsFirst}

abbrev pub Each : {A : Type 0} → (A → Type 0) → List A → Type 0
Each P [] = Unit
Each P (x ∷ xs) = P x × Each P xs

-- A test of each, and what it tells
all-Each :
    {A : Type 0} (P : A → Type 0) (p : A → Bool) (xs : List A)
    → ((x : A) → (p x ≡ true) ↔ P x)
    → (all p xs ≡ true) ↔ Each P xs
all-Each P p [] iff = (λ h. tt, λ h. refl)
all-Each P p (x ∷ xs) iff =
    let rest = all-Each P p xs iff in
    (
      λ h. ((iff x).0 (ground arith), rest.0 (ground arith)),
      λ h. (let here = (iff x).1 h.0 in let there = rest.1 h.1 in ground arith),
    )

any-Each :
    {A : Type 0} (P : A → Type 0) (p : A → Bool) (xs : List A)
    → ((x : A) → (p x ≡ false) ↔ P x)
    → (any p xs ≡ false) ↔ Each P xs
any-Each P p [] iff = (λ h. tt, λ h. refl)
any-Each P p (x ∷ xs) iff =
    let rest = any-Each P p xs iff in
    (
      λ h. ((iff x).0 (ground arith), rest.0 (ground arith)),
      λ h. (let here = (iff x).1 h.0 in let there = rest.1 h.1 in ground arith),
    )

double : (n : ℕ) → 2 ^ suc n ≡ 2 * 2 ^ n
double n = omega arith

ones_count_zero : (bits : ℕ) → ones_count bits 0 ≡ 0
unfolding ones_count
ones_count_zero zero = refl
ones_count_zero (suc bits) = ground (arith, ones_count_zero bits)

-- The bits that are set are as many as the operations at them.
ones_count-at_bits :
    (bits i : ℕ) (ops : List ExpelOperation)
    → i < 2 ^ length ops
    → length ops ≤ bits
    → ones_count bits i ≡ length (at_bits i ops)
unfolding ones_count at_bits
ones_count-at_bits bits i [] h l =
    let none_set : i ≡ 0 = omega arith in rw none_set (ones_count_zero bits)
ones_count-at_bits zero i (op ∷ ops) h l = absurd (omega arith)
ones_count-at_bits (suc bits) i (op ∷ ops) h l =
    let rest =
      ones_count-at_bits bits (i / 2) ops (omega (arith, double (length ops))) (omega arith) in
    ground arith

positive_size : (ops : List ExpelOperation) → 0 < 2 ^ length ops
positive_size [] = omega arith
positive_size (op ∷ ops) = omega (arith, positive_size ops, double (length ops))

at_bits_all : (ops : List ExpelOperation) → at_bits (2 ^ length ops - 1) ops ≡ ops
unfolding at_bits
at_bits_all [] = refl
at_bits_all (op ∷ ops) =
    let odd : ((2 ^ suc (length ops) - 1) % 2 == 1) ≡ true =
      ground (arith, double (length ops), positive_size ops) in
    let half : (2 ^ suc (length ops) - 1) / 2 ≡ 2 ^ length ops - 1 =
      omega (arith, double (length ops), positive_size ops) in
    rw odd (rw half (ap (λ l. op ∷ l) (at_bits_all ops)))

module _ (by_signs : List ExpelOperation → List ExpelOperation) (suf : Suffrage) where
  -- All signs of an operation are by nodes of the suffrage, and they are enough for so many expels.
  abbrev pub Signed : ℕ → ExpelOperation → Type 0
  Signed n op =
      Each (λ s. exists suf s.node ≡ true) (node_signs op)
      × (adapted_threshold suf n ≤ length (node_signs op))

  -- The signs by nodes that are not to be expelled are enough.
  abbrev pub SignedByOthers : List ExpelOperation → ExpelOperation → Type 0
  SignedByOthers ops op =
      adapted_threshold suf (length ops) ≤ length (other_signs (nodes_of ops) (node_signs op))

  -- What is asked of the operations at the bits of a number
  abbrev pub Passes : List ExpelOperation → ℕ → Type 0
  Passes ops i =
      Each (Signed (length (at_bits i ops))) (at_bits i ops)
      × Each (SignedByOthers (by_signs (at_bits i ops))) (by_signs (at_bits i ops))

  filter_operation-Signed :
      (n : ℕ) (op : ExpelOperation) → (filter_operation suf n op ≡ true) ↔ Signed n op
  unfolding filter_operation
  filter_operation-Signed n op =
      let known =
        all-Each (λ s. exists suf s.node ≡ true) (λ s. exists suf s.node) (node_signs op)
          (λ s. (λ h. h, λ h. h)) in
      (
        λ h. (known.0 (ground arith), ground arith),
        λ h. (let all_known = known.1 h.0 in let enough = h.1 in ground arith),
      )

  suffices-SignedByOthers :
      (ops : List ExpelOperation) → (suffices suf ops ≡ true) ↔ Each (SignedByOthers ops) ops
  unfolding suffices
  suffices-SignedByOthers ops =
      let each =
        any-Each (SignedByOthers ops)
          (λ op.
            ltb (length (other_signs (nodes_of ops) (node_signs op)))
              (adapted_threshold suf (length ops)))
          ops (λ op. (λ h. ground arith, λ h. ground arith)) in
      (λ h. each.0 (ground arith), λ h. (let none_short = each.1 h in ground arith))

  combination-Passes :
      (ops : List ExpelOperation) (i : ℕ)
      → length ops ≤ 63
      → i < 2 ^ length ops
      → (combination by_signs suf ops i ≡ true) ↔ Passes ops i
  unfolding combination
  combination-Passes ops i few below =
      let ones = ones_count-at_bits 64 i ops below (omega arith) in
      let filter =
        all-Each (Signed (length (at_bits i ops))) (filter_operation suf (ones_count 64 i))
          (at_bits i ops) (λ op. rw ones (filter_operation-Signed (length (at_bits i ops)) op)) in
      let callback = suffices-SignedByOthers (by_signs (at_bits i ops)) in
      (
        λ h. (filter.0 (ground arith), callback.0 (ground arith)),
        λ h. (let filtered = filter.1 h.0 in let called = callback.1 h.1 in ground arith),
      )

  abbrev pub NonePasses : List ExpelOperation → Type 0
  NonePasses ops =
      (find_expel_combinations by_signs suf ops ≡ [])
      × ((k : ℕ) → 0 < k → k < 2 ^ length ops → ¬ Passes ops k)

  abbrev pub FirstPasses : List ExpelOperation → ℕ → Type 0
  FirstPasses ops j =
      (find_expel_combinations by_signs suf ops ≡ by_signs (at_bits j ops))
      × (0 < j)
      × (j < 2 ^ length ops)
      × Passes ops j
      × ((k : ℕ) → j < k → k < 2 ^ length ops → ¬ Passes ops k)

  fails-Passes :
      (ops : List ExpelOperation) (k : ℕ)
      → length ops ≤ 63
      → k < 2 ^ length ops
      → combination by_signs suf ops k ≡ false
      → ¬ Passes ops k
  fails-Passes ops k few below h passes = cc (sym h ∙ (combination-Passes ops k few below).1 passes)

  first_combination_lem :
      (ops : List ExpelOperation)
      → length ops ≤ 63
      → first_combination (length ops) ≡ 2 ^ length ops - 1
  unfolding first_combination
  first_combination_lem ops few = ground arith

  -- Of at most 63 operations, numbered by bits, with all of them at the highest number: the found ones
  -- are those, as the sorting orders them, of the highest number at which every operation is signed
  -- by nodes of the suffrage only, by enough of them for the number of the expels, and by enough of
  -- them when the nodes to be expelled do not count; and none are found only where there is no such
  -- number.
  pub find_expel_combinations-FirstPasses :
      (ops : List ExpelOperation)
      → length ops ≤ 63
      → (at_bits (2 ^ length ops - 1) ops ≡ ops) × (NonePasses ops ⊎ ((j : ℕ) × FirstPasses ops j))
  unfolding find_expel_combinations
  find_expel_combinations-FirstPasses ops few = (
    at_bits_all ops,
    elim (find_from-IsFirst by_signs suf ops (first_combination (length ops))) [
      | inl (found, below) ↦ inl (found, λ k h l. fails-Passes ops k few l (below k h (under k l)))
      | inr (j, (found, positive, le, passes, above)) ↦
          let small : j < 2 ^ length ops =
            omega (arith, first_combination_lem ops few, positive_size ops) in
          inr (
            j,
            (
              found,
              positive,
              small,
              (combination-Passes ops j few small).0 passes,
              λ k h l. fails-Passes ops k few l (above k h (under k l)),
            ),
          )
    ],
  )
    where
      under : (k : ℕ) → k < 2 ^ length ops → k ≤ first_combination (length ops)
      under k l = omega (arith, first_combination_lem ops few)
