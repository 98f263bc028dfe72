-- ===== src/Util/Ps/Order.antt =====
-- util/ps/ps.go: the order of the hooks.
use mitum.Prelude.{
  ℕ, zero, suc, ◌+◌, ◌-◌, ◌<◌, ◌≡◌, inl, inr, refl, ap, sym, ◌∙◌, true, false, not, arith, Option,
  none, some, List, [], ◌∷◌, ◌++◌, if◌then◌else◌, ltb, length, is_some, is_nil, text_eq,
  text_eq_iff, lookup, insert, lookup-insert, keep_if, times, times-append, Bool-cases,
}
use mitum.Util.Ps.{
  Name, Func, Hooks, HookChange, to_add, to_add_before, to_add_after, to_remove, Changed, changed,
  panics, hooks_add, hooks_before, hooks_after, hooks_remove, change, take_names, drop_names,
  index_or_last, delete,
}

lookup-delete {ℓ} :
    {V : Type ℓ} (k j : Name) (m : List (Name × V))
    → lookup j (delete k m) ≡ (if text_eq k j then none else lookup j m)
unfolding lookup delete
lookup-delete k j [] = ground arith
lookup-delete k j ((i, w) ∷ m) =
    ground (arith, text_eq_iff k j, text_eq_iff i k, text_eq_iff i j, lookup-delete k j m)

times-without :
    (k name : Name) (xs : List Name)
    → times k (keep_if (λ j. not (text_eq name j)) xs) ≡ (if text_eq name k then 0 else times k xs)
times-without k name [] = ground arith
times-without k name (x ∷ xs) =
    ground (arith, text_eq_iff name x, text_eq_iff name k, text_eq_iff k x, times-without k name xs)

length-without :
    (name : Name) (xs : List Name)
    → length (keep_if (λ j. not (text_eq name j)) xs) + times name xs ≡ length xs
length-without name [] = refl
length-without name (x ∷ xs) = ground (arith, length-without name xs)

-- A name put in anywhere
times_put :
    (k x : Name) (n : ℕ) (xs : List Name)
    → times k (take_names n xs ++ x ∷ drop_names n xs) ≡ (if text_eq k x then 1 else 0) + times k xs
times_put k x zero xs = ground arith
times_put k x (suc n) [] = ground arith
times_put k x (suc n) (y ∷ xs) = ground (arith, times_put k x n xs)

index_in : (a : Name) (xs : List Name) → 0 < times a xs → is_nil xs ≡ false
index_in a [] h = ground arith
index_in a (x ∷ xs) h = refl

-- Where a list is cut at a name that is in it
cut_at :
    (b : Name) (xs : List Name)
    → 0 < times b xs
    → (front : List Name) × (back : List Name) × (xs ≡ front ++ b ∷ back)
      × (take_names (index_or_last b xs) xs ≡ front)
      × (drop_names (index_or_last b xs) xs ≡ b ∷ back)
unfolding index_or_last
cut_at b [] h = absurd (ground arith)
cut_at b (x ∷ xs) h = elim (Bool-cases (text_eq x b)) [
  | inl e ↦
      (let same = (text_eq_iff x b).0 e in
        rw (e, index_or_last) ([], xs, ap (λ y. y ∷ xs) same, refl, ap (λ y. y ∷ xs) same))
  | inr e ↦
      (let left = fewer b x xs e h in
        let (front, back, whole, taken, dropped) = cut_at b xs left in
        rw (e, index_in b xs left, index_or_last)
          (x ∷ front, back, ap (λ ys. x ∷ ys) whole, ap (λ ys. x ∷ ys) taken, dropped))
]
  where
    fewer :
        (b x : Name) (xs : List Name) → text_eq x b ≡ false → 0 < times b (x ∷ xs) → 0 < times b xs
    fewer b x xs e h = ground (arith, text_eq_iff x b, text_eq_iff b x)

module _ {ℓ} {C : Type ℓ} where
  -- The names stand in the order once each, and no others.
  abbrev pub InStep : Hooks C → Type 0
  InStep h = (k : Name) → times k h.l ≡ (if is_some (lookup k h.names) then 1 else 0)

  unfoldable pub StaysInStep : Changed C → Type 0
  StaysInStep (changed b h) = InStep h
  StaysInStep panics = ⊥

  put_in :
      (h : Hooks C) (name : Name) (i : Func C) (n : ℕ)
      → InStep h
      → is_some (lookup name h.names) ≡ false
      → InStep (record {
        names = insert name i h.names;
        l = take_names n h.l ++ name ∷ drop_names n h.l;
      })
  put_in h name i n ok new k = ground (
    arith,
    times_put k name n h.l,
    lookup-insert name k i h.names,
    text_eq_iff k name,
    text_eq_iff name k,
    ok k,
  )

  hooks_add-StaysInStep :
      (h : Hooks C) (name : Name) (i : Option (Func C))
      → InStep h
      → StaysInStep (hooks_add h name i)
  unfolding StaysInStep hooks_add
  hooks_add-StaysInStep h name none ok = ok
  hooks_add-StaysInStep h name (some i) ok = elim (Bool-cases (is_some (lookup name h.names))) [
    | inl e ↦ rw e ok
    | inr e ↦ rw e (λ k. ground (
      arith,
      times-append k h.l (name ∷ []),
      lookup-insert name k i h.names,
      text_eq_iff k name,
      text_eq_iff name k,
      ok k,
    ))
  ]

  hooks_before-StaysInStep :
      (h : Hooks C) (name : Name) (i : Option (Func C)) (b : Name)
      → InStep h
      → StaysInStep (hooks_before h name i b)
  unfolding StaysInStep hooks_before
  hooks_before-StaysInStep h name none b ok = ok
  hooks_before-StaysInStep h name (some i) b ok =
      elim (Bool-cases (is_some (lookup name h.names))) [
        | inl e ↦ rw e ok
        | inr e ↦ rw e (elim (Bool-cases (is_some (lookup b h.names))) [
          | inl f ↦ rw f (put_in h name i (index_or_last b h.l) ok e)
          | inr f ↦ rw f ok
        ])
      ]

  hooks_after-StaysInStep :
      (h : Hooks C) (name : Name) (i : Option (Func C)) (a : Name)
      → InStep h
      → StaysInStep (hooks_after h name i a)
  unfolding StaysInStep hooks_after
  hooks_after-StaysInStep h name none a ok = ok
  hooks_after-StaysInStep h name (some i) a ok = elim (Bool-cases (is_some (lookup name h.names))) [
    | inl e ↦ rw e ok
    | inr e ↦ rw e (elim (Bool-cases (is_some (lookup a h.names))) [
      | inl f ↦
          rw (f, index_in a h.l (ground (arith, ok a)))
            (put_in h name i (index_or_last a h.l + 1) ok e)
      | inr f ↦ rw f ok
    ])
  ]

  hooks_remove-StaysInStep :
      (h : Hooks C) (name : Name) → InStep h → StaysInStep (hooks_remove h name)
  unfolding StaysInStep hooks_remove
  hooks_remove-StaysInStep h name ok = elim (Bool-cases (is_some (lookup name h.names))) [
    | inr e ↦ rw e ok
    | inl e ↦
        rw (e, fewer h name ok e, no_gap h name ok e)
          (λ k. ground (
            arith,
            times-append k (keep_if (λ j. not (text_eq name j)) h.l) [],
            times-without k name h.l,
            lookup-delete name k h.names,
            ok k,
          ))
  ]
    where
      fewer :
          (h : Hooks C) (name : Name)
          → InStep h
          → is_some (lookup name h.names) ≡ true
          → ltb (length (keep_if (λ j. not (text_eq name j)) h.l)) (length h.l) ≡ true
      fewer h name ok e = ground (arith, length-without name h.l, ok name)

      no_gap :
          (h : Hooks C) (name : Name)
          → InStep h
          → is_some (lookup name h.names) ≡ true
          → length h.l - 1 - length (keep_if (λ j. not (text_eq name j)) h.l) ≡ 0
      no_gap h name ok e = ground (arith, length-without name h.l, ok name)

  -- The hooks stay in step under each of the calls that change them: none is out of range, and
  -- afterwards, too, the names of the order are those of the functions, once each.
  pub change-StaysInStep : (h : Hooks C) (x : HookChange C) → InStep h → StaysInStep (change h x)
  unfolding change
  change-StaysInStep h (to_add name i) ok = hooks_add-StaysInStep h name i ok
  change-StaysInStep h (to_add_before name i b) ok = hooks_before-StaysInStep h name i b ok
  change-StaysInStep h (to_add_after name i a) ok = hooks_after-StaysInStep h name i a ok
  change-StaysInStep h (to_remove name) ok = hooks_remove-StaysInStep h name ok

  refused : (h h' : Hooks C) → changed false h ≡ changed true h' → ⊥
  refused h h' e = cc

  order_now : (h h' : Hooks C) → changed true h ≡ changed true h' → h.l ≡ h'.l
  order_now h h' e = cc

  -- A hook that is put before another one stands directly before it, and all others stay where they are.
  pub hooks_before-order :
      (h h' : Hooks C) (name : Name) (i : Option (Func C)) (b : Name)
      → InStep h
      → hooks_before h name i b ≡ changed true h'
      → (front : List Name) × (back : List Name) × (h.l ≡ front ++ b ∷ back)
        × (h'.l ≡ front ++ name ∷ b ∷ back)
  unfolding hooks_before
  hooks_before-order h h' name none b ok e = absurd (refused h h' e)
  hooks_before-order h h' name (some i) b ok e = elim (Bool-cases (is_some (lookup name h.names))) [
    | inl old ↦ absurd (refused h h' (rw old at e))
    | inr new ↦ elim (Bool-cases (is_some (lookup b h.names))) [
      | inr none_there ↦ absurd (refused h h' (rw (new, none_there) at e))
      | inl there ↦
          (let (front, back, whole, taken, dropped) = cut_at b h.l (stands h b ok there) in
            (
              front,
              back,
              whole,
              sym (order_now _ h' (rw (new, there) at e))
                  ∙ (ap (λ xs. xs ++ name ∷ drop_names (index_or_last b h.l) h.l) taken
                      ∙ ap (λ ys. front ++ name ∷ ys) dropped),
            ))
    ]
  ]
    where
      stands :
          (h : Hooks C) (b : Name) → InStep h → is_some (lookup b h.names) ≡ true → 0 < times b h.l
      stands h b ok there = ground (arith, ok b)
