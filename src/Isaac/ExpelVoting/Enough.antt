-- ===== src/Isaac/ExpelVoting/Enough.antt =====
-- isaac/suffrage_voting.go: the expels that are found have signs enough.
use mitum.Prelude.{
  ℕ, suc, ◌≤◌, ◌≡◌, inl, inr, refl, ap, sym, subst, Bool, true, false, not, ◌==◌, arith, none, some,
  List, [], ◌∷◌, map, ltb, length, Text, text_eq, any, all, keep_if, Bool-cases, Option-cases,
}
use mitum.Isaac.Voteproof.{ExpelFact, ExpelOperation, NodeSign}
use mitum.Isaac.Suffrage.{node_signs, is_duplicated}
use mitum.Isaac.ExpelVoting.{
  SuffrageVoting, nodes_of, other_signs, filter_signs, filter_all, set_signs, set_node_signs,
}

-- The operation has signs enough, and none of the nodes signed it.
abbrev pub Enough : ℕ → List Text → ExpelOperation → Type 0
Enough th nodes op =
    (th ≤ length (node_signs op))
    × (all (λ s. not (any (text_eq s.node) nodes)) (node_signs op) ≡ true)

unfoldable pub AllEnough : ℕ → List Text → List ExpelOperation → Type 0
AllEnough th nodes [] = Unit
AllEnough th nodes (x ∷ xs) = Enough th nodes x × AllEnough th nodes xs

module _ {A : Type 0} (p : A → Bool) where
  all-keep_if : (xs : List A) → all p (keep_if p xs) ≡ true
  all-keep_if [] = refl
  all-keep_if (x ∷ xs) = ground (arith, all-keep_if xs)

  length-keep_if : (xs : List A) → length (keep_if p xs) ≤ length xs
  length-keep_if [] = omega arith
  length-keep_if (x ∷ xs) = ground (arith, length-keep_if xs)

  keep_if_whole : (xs : List A) → length xs ≡ length (keep_if p xs) → keep_if p xs ≡ xs
  keep_if_whole [] h = refl
  keep_if_whole (x ∷ xs) h = ground (arith, keep_if_whole xs, length-keep_if xs)

  -- What another test has kept stays kept.
  keep_if_twice :
      (q : A → Bool) (xs : List A) → keep_if q (keep_if p (keep_if q xs)) ≡ keep_if p (keep_if q xs)
  keep_if_twice q [] = refl
  keep_if_twice q (x ∷ xs) = ground (arith, keep_if_twice q xs)

module _ (v : SuffrageVoting) (nodes : List Text) where
  filter_signs-node_signs :
      (op op' : ExpelOperation)
      → filter_signs v nodes op ≡ some op'
      → (node_signs op' ≡ other_signs nodes (node_signs op)) × (op'.expel_fact ≡ op.expel_fact)
  unfolding filter_signs set_node_signs set_signs other_signs node_signs
  filter_signs-node_signs op op' e = elim (Bool-cases whole) [
    | inl same ↦
        (let is = some_eq op op' (rw same at e) in
          subst Claim is (sym (keep_if_whole of_others (node_signs op) (eq_of _ _ same)), refl))
    | inr fewer ↦
        elim (Bool-cases
          (is_duplicated [] (map (λ s. s.node) (other_signs nodes (node_signs op))))) [
            | inl dup ↦ absurd (none_some op' (rw (fewer, dup) at e))
            | inr distinct ↦ subst Claim (some_eq _ op' (rw (fewer, distinct) at e)) (
              keep_if_twice of_others (λ s. not (text_eq op.expel_fact.node s.node)) op.node_signs,
              refl,
            )
          ]
  ]
    where
      of_others : NodeSign → Bool
      of_others s = not (any (text_eq s.node) nodes)

      whole : Bool
      whole = length (node_signs op) == length (other_signs nodes (node_signs op))

      Claim : ExpelOperation → Type 0
      Claim x = (node_signs x ≡ other_signs nodes (node_signs op)) × (x.expel_fact ≡ op.expel_fact)

      some_eq : (a b : ExpelOperation) → some a ≡ some b → a ≡ b
      some_eq a b h = cc

      none_some : (a : ExpelOperation) → none ≡ some a → ⊥
      none_some a h = cc

      eq_of : (m n : ℕ) → (m == n) ≡ true → m ≡ n
      eq_of m n h = ground arith

  pub filter_all-AllEnough :
      (th : ℕ) (ops xs : List ExpelOperation)
      → any (λ op. ltb (length (other_signs nodes (node_signs op))) th) ops ≡ false
      → filter_all v nodes ops ≡ some xs
      → (nodes_of xs ≡ nodes_of ops) × (length xs ≡ length ops) × AllEnough th nodes xs
  unfolding filter_all AllEnough other_signs node_signs
  filter_all-AllEnough th [] [] short e = (refl, refl, tt)
  filter_all-AllEnough th [] (x ∷ xs) short e = absurd (not_nil x xs e)
    where
      not_nil : (x : ExpelOperation) (xs : List ExpelOperation) → some [] ≡ some (x ∷ xs) → ⊥
      not_nil x xs e = cc
  filter_all-AllEnough th (op ∷ ops) xs short e = elim (Option-cases (filter_signs v nodes op)) [
    | inl refused ↦ absurd (none_some xs (rw (refused, filter_all) at e))
    | inr (x, one) ↦ elim (Option-cases (filter_all v nodes ops)) [
      | inl refused ↦ absurd (none_some xs (rw (one, refused, filter_all) at e))
      | inr (rest, others) ↦
          (let (signs, fact) = filter_signs-node_signs op x one in
            let (same, long, enough) = filter_all-AllEnough th ops rest (later short) others in
            subst Claim (some_eq (x ∷ rest) xs (rw (one, others, filter_all) at e)) (
              ground (arith, ap (λ f. ExpelFact.node f) fact),
              ap suc long,
              (
                (
                  rw signs (first short),
                  rw signs (all-keep_if (λ s. not (any (text_eq s.node) nodes)) (node_signs op)),
                ),
                enough,
              ),
            ))
    ]
  ]
    where
      none_some : (a : List ExpelOperation) → none ≡ some a → ⊥
      none_some a h = cc

      some_eq : (a b : List ExpelOperation) → some a ≡ some b → a ≡ b
      some_eq a b h = cc

      Claim : List ExpelOperation → Type 0
      Claim ys =
          (nodes_of ys ≡ nodes_of (op ∷ ops))
          × (length ys ≡ length (op ∷ ops))
          × AllEnough th nodes ys

      Short : ExpelOperation → Bool
      Short x = ltb (length (other_signs nodes (node_signs x))) th

      first : any Short (op ∷ ops) ≡ false → th ≤ length (other_signs nodes (node_signs op))
      first h = ground arith

      later : any Short (op ∷ ops) ≡ false → any Short ops ≡ false
      later h = ground arith
