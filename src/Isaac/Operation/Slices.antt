-- ===== src/Isaac/Operation/Slices.antt =====
-- util/slice.go, how often an address is among values.
use mitum.Prelude.{
  ◌+◌, ◌≡◌, ◌⊎◌, ap, subst, sym, Bool, true, false, List, [], ◌∷◌, ◌++◌, if◌then◌else◌, Text,
  text_eq, text_eq_iff, any, times, map, Bool-cases, inl, inr, arith,
}
use mitum.Isaac.Operation.{filter_2_slices}

module _ {A : Type 0} (address : A → Text) (a : Text) where
  pub times-append :
      (xs ys : List A)
      → times a (map address (xs ++ ys)) ≡ times a (map address xs) + times a (map address ys)
  times-append [] ys = omega arith
  times-append (x ∷ xs) ys = ground (arith, times-append xs ys)

  gone_too :
      (x : A) (gone : List Text) (b : Bool)
      → text_eq a (address x) ≡ true
      → any (text_eq (address x)) gone ≡ b
      → any (text_eq a) gone ≡ b
  gone_too x gone b e g =
      subst (λ t. any (text_eq t) gone ≡ b) (sym ((text_eq_iff a (address x)).0 e)) g

  -- An address that goes is not among the values that stay, and any other is as often as before.
  pub times-filter_2_slices :
      (gone : List Text) (xs : List A)
      → times a (map address (filter_2_slices address gone xs))
        ≡ (if any (text_eq a) gone then 0 else times a (map address xs))
  unfolding filter_2_slices
  times-filter_2_slices gone [] = ground arith
  times-filter_2_slices gone (x ∷ xs) =
      step (Bool-cases (text_eq a (address x))) (Bool-cases (any (text_eq (address x)) gone))
        (times-filter_2_slices gone xs)
    where
      step :
          (text_eq a (address x) ≡ true) ⊎ (text_eq a (address x) ≡ false)
          → (any (text_eq (address x)) gone ≡ true) ⊎ (any (text_eq (address x)) gone ≡ false)
          → times a (map address (filter_2_slices address gone xs))
            ≡ (if any (text_eq a) gone then 0 else times a (map address xs))
          → times a (map address (filter_2_slices address gone (x ∷ xs)))
            ≡ (if any (text_eq a) gone then 0 else times a (map address (x ∷ xs)))
      step (inr e) (inl g) ih = rw (g, e) ih
      step (inr e) (inr g) ih = rw (g, e) ih
      step (inl e) (inl g) ih = let h = gone_too x gone true e g in rw (g, h) (rw h at ih)
      step (inl e) (inr g) ih =
          let h = gone_too x gone false e g in rw (g, h, e) (ap (λ k. 1 + k) (rw h at ih))
