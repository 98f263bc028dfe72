-- ===== src/Isaac/ExpelVoting/Found.antt =====
-- isaac/suffrage_voting.go: the combination of expels that is found.
use mitum.Prelude.{
  ℕ, zero, suc, ◌≤◌, ◌<◌, ◌≡◌, ◌≢◌, ◌⊎◌, inl, inr, refl, sym, subst, ◌∙◌, Bool, true, false, not,
  arith, Option, none, some, List, [], ◌∷◌, ltb, if◌then◌else◌, length, Text, text_eq, any, all,
  Bool-cases,
}
use mitum.Base.Point.{Height}
use mitum.Base.Threshold.{default_threshold}
use mitum.Isaac.Voteproof.{ExpelOperation}
use mitum.Isaac.Suffrage.{Suffrage, err, insufficient_signs, node_signs, new_suffrage_with_expels}
use mitum.Isaac.Suffrage.Signed.{enough_signs}
use mitum.Isaac.ExpelPool.{ExpelPool, traversed}
use mitum.Isaac.ExpelVoting.{
  SuffrageVoting, adapted_threshold, nodes_of, other_signs, suffices, at_bits, combination,
  find_from, first_combination, find_expel_combinations, filter_all, find_expels, FoundExpels,
  collect,
}
use mitum.Isaac.ExpelVoting.Enough.{AllEnough, filter_all-AllEnough}

module _ (by_signs : List ExpelOperation → List ExpelOperation) (suf : Suffrage) where
  combination-suffices :
      (ops : List ExpelOperation) (i : ℕ)
      → combination by_signs suf ops i ≡ true
      → suffices suf (by_signs (at_bits i ops)) ≡ true
  unfolding combination
  combination-suffices ops i h = ground arith

  find_from-suffices :
      (ops : List ExpelOperation) (i : ℕ)
      → (find_from by_signs suf ops i ≡ []) ⊎ (suffices suf (find_from by_signs suf ops i) ≡ true)
  unfolding find_from
  find_from-suffices ops zero = inl refl
  find_from-suffices ops (suc i) = elim (Bool-cases (combination by_signs suf ops (suc i))) [
    | inl e ↦ rw e (inr (combination-suffices ops (suc i) e))
    | inr e ↦ rw e (find_from-suffices ops i)
  ]

  -- No combination up to `i` passes, or `j` is the highest that does and the one that is found.
  abbrev pub Nothing : List ExpelOperation → ℕ → Type 0
  Nothing ops i =
      (find_from by_signs suf ops i ≡ [])
      × ((k : ℕ) → 0 < k → k ≤ i → combination by_signs suf ops k ≡ false)

  abbrev pub IsFirst : List ExpelOperation → ℕ → ℕ → Type 0
  IsFirst ops i j =
      (find_from by_signs suf ops i ≡ by_signs (at_bits j ops))
      × (0 < j)
      × (j ≤ i)
      × (combination by_signs suf ops j ≡ true)
      × ((k : ℕ) → j < k → k ≤ i → combination by_signs suf ops k ≡ false)

  pub find_from-IsFirst :
      (ops : List ExpelOperation) (i : ℕ) → Nothing ops i ⊎ ((j : ℕ) × IsFirst ops i j)
  unfolding find_from
  find_from-IsFirst ops zero = inl (start, λ k h l. absurd (omega arith))
    where
      start : find_from by_signs suf ops 0 ≡ []
      start = refl
  find_from-IsFirst ops (suc i) = elim (Bool-cases (combination by_signs suf ops (suc i))) [
    | inl e ↦ inr (
      suc i,
      (rw (e, find_from) refl, omega arith, omega arith, e, λ k h l. absurd (omega arith)),
    )
    | inr e ↦ elim (find_from-IsFirst ops i) [
      | inl (nothing, below) ↦
          inl (rw (e, find_from) nothing, λ k h l. or_below k i e (λ m. below k h m) l)
      | inr (j, (found, some_op, le, passes, above)) ↦ inr (
        j,
        (
          rw (e, find_from) found,
          some_op,
          omega arith,
          passes,
          λ k h l. or_below k i e (λ m. above k h m) l,
        ),
      )
    ]
  ]
    where
      or_below :
          (k i : ℕ)
          → combination by_signs suf ops (suc i) ≡ false
          → (k ≤ i → combination by_signs suf ops k ≡ false)
          → k ≤ suc i
          → combination by_signs suf ops k ≡ false
      or_below k i e below l = elim (Bool-cases (ltb i k)) [
        | inl last ↦ subst (λ m. combination by_signs suf ops m ≡ false) (top k i last l) e
        | inr lower ↦ below (under k i lower)
      ]
        where
          top : (k i : ℕ) → ltb i k ≡ true → k ≤ suc i → suc i ≡ k
          top k i h l = ground arith

          under : (k i : ℕ) → ltb i k ≡ false → k ≤ i
          under k i h = ground arith

enough_any :
    (th : ℕ) (nodes : List Text) (ops : List ExpelOperation)
    → AllEnough th nodes ops
    → any (λ op. ltb (length (node_signs op)) th) ops ≡ false
unfolding AllEnough
enough_any th nodes [] h = refl
enough_any th nodes (op ∷ ops) h = ground (arith, enough_any th nodes ops h.1)

unsigned_all :
    (th : ℕ) (nodes : List Text) (ops : List ExpelOperation)
    → AllEnough th nodes ops
    → all (λ op. all (λ s. not (any (text_eq s.node) nodes)) (node_signs op)) ops ≡ true
unfolding AllEnough
unsigned_all th nodes [] h = refl
unsigned_all th nodes (op ∷ ops) h = ground (arith, unsigned_all th nodes ops h.1)

module _ (by_hash by_signs : List ExpelOperation → List ExpelOperation) (v : SuffrageVoting)
    (height : Height) (suf : Suffrage) (pool : ExpelPool) where
  find_expels-AllEnough :
      (ops : List ExpelOperation)
      → (find_expels by_hash by_signs v height suf pool).operations ≡ some ops
      → AllEnough (adapted_threshold suf (length ops)) (nodes_of ops) ops
  unfolding find_expels find_expel_combinations suffices filter_all AllEnough
  find_expels-AllEnough ops h =
      elim (find_from-suffices by_signs suf collected (first_combination (length collected))) [
        | inl nothing ↦ subst Claim (some_eq [] ops (sym (found_nothing nothing) ∙ filtered)) tt
        | inr enough ↦
            (let (nodes, long, all_of) =
                filter_all-AllEnough v (nodes_of found) (adapted_threshold suf (length found)) found
                  ops (not_any enough) filtered in
              rw (nodes, long) all_of)
      ]
    where
      collected : List ExpelOperation
      collected = by_hash (collect suf (traversed height pool)).0

      found : List ExpelOperation
      found = find_expel_combinations by_signs suf collected

      Claim : List ExpelOperation → Type 0
      Claim xs = AllEnough (adapted_threshold suf (length xs)) (nodes_of xs) xs

      none_some : (a : List ExpelOperation) → none ≡ some a → ⊥
      none_some a h = cc

      some_eq : (a b : List ExpelOperation) → some a ≡ some b → a ≡ b
      some_eq a b h = cc

      unless :
          (b : Bool) (o : Option (List ExpelOperation))
          → (if b then none else o) ≡ some ops
          → o ≡ some ops
      unless true o e = absurd (none_some ops e)
      unless false o e = e

      answer :
          (b : Bool) (p q : FoundExpels)
          → (if b then p else q).operations ≡ (if b then p.operations else q.operations)
      answer true p q = refl
      answer false p q = refl

      filtered : filter_all v (nodes_of found) found ≡ some ops
      filtered = unless v.read_fails _ (sym (answer v.read_fails _ _) ∙ h)

      found_nothing : found ≡ [] → filter_all v (nodes_of found) found ≡ some []
      found_nothing e = rw e refl

      not_any :
          suffices suf found ≡ true
          → any
              (λ op.
                ltb
                  (length (other_signs (nodes_of found) (node_signs op)))
                  (adapted_threshold suf (length found)))
              found
            ≡ false
      not_any h = ground arith

  -- If the expels that `Find` gives are applied to the suffrage, by the default threshold, they are not
  -- refused for their signs; and no node that they expel signed any of them.
  pub find_expels-new_suffrage_with_expels :
      (ops : List ExpelOperation)
      → (find_expels by_hash by_signs v height suf pool).operations ≡ some ops
      → (new_suffrage_with_expels suf default_threshold ops ≢ err insufficient_signs)
        × (all (λ op. all (λ s. not (any (text_eq s.node) (nodes_of ops))) (node_signs op)) ops
            ≡ true)
  unfolding adapted_threshold
  find_expels-new_suffrage_with_expels ops h = (
    enough_signs suf default_threshold ops
        (enough_any (adapted_threshold suf (length ops)) (nodes_of ops) ops enough),
    unsigned_all (adapted_threshold suf (length ops)) (nodes_of ops) ops enough,
  )
    where
      enough : AllEnough (adapted_threshold suf (length ops)) (nodes_of ops) ops
      enough = find_expels-AllEnough ops h
