-- ===== src/Util/Ps/Process/Tests.antt =====
-- Three processes, each with a context that lists what was called.
use mitum.Prelude.{
  ℕ, ◌<◌, ◌≡◌, refl, sym, subst, arith, inl, inr, Bool-cases, true, none, some, List, [], ◌∷◌, ◌++◌,
  if◌then◌else◌, is_some, text_eq, text_eq_iff, lookup, insert, times,
}
use mitum.Util.Ps.{
  Name, name_init, Func, Hooks, changed, to_add_after, change, hooks_before, index_or_last,
  new_hooks, run_hooks, run_names,
}
use mitum.Util.Ps.Order.{InStep, StaysInStep, change-StaysInStep}
use mitum.Util.Ps.Process.{
  P, Ps, keys, new_p, new_ps, add_process, then_func, run_all, run_ps, run_process, run_required,
  run_p, new_requires, init_is_not_later, call, empty_func, run_after, deferred,
}
use mitum.Util.Ps.Process.Turn.{InTurn, Descends}
use mitum.Util.Ps.Process.Whole.{run_ps-returns, run_all-InTurn}

abbrev a : Name
a = 97 ∷ []

abbrev b : Name
b = 98 ∷ []

abbrev z : Name
z = 122 ∷ []

abbrev says : Name → Func (List Name)
says x c = (c ++ x ∷ [], none)

-- `a` requires `z`, which is after it in the order of names.
abbrev two_added : Ps (List Name)
two_added =
    (add_process (add_process new_ps a (some (says a)) (some (says a)) (z ∷ [])).0 z (some (says z))
      (some (says z)) []).0

abbrev rank : Name → ℕ
rank k = if text_eq a k then 2 else if text_eq z k then 1 else 0

abbrev process : Name → List Name → P (List Name)
process x rs = new_p (some (says x)) (some (says x)) rs

abbrev three : List (Name × P (List Name))
three =
    (name_init, new_p (some empty_func) (some empty_func) [])
    ∷ (a, process a (name_init ∷ z ∷ []))
    ∷ (z, process z (name_init ∷ []))
    ∷ []

two_added_three : two_added.m ≡ three
unfolding add_process lookup insert new_ps text_eq new_requires new_p init_is_not_later
two_added_three = refl

same_requires : (p q : P (List Name)) → some p ≡ some q → p.requires ≡ q.requires
same_requires p q e = cc

of_none : (r : Name) → 0 < times r [] → ⊥
of_none r h = omega arith

of_one : (r : Name) → 0 < times r (name_init ∷ []) → rank r < 1
unfolding text_eq
of_one r h = ground (arith, text_eq_iff r name_init)

of_two : (r : Name) → 0 < times r (name_init ∷ z ∷ []) → rank r < 2
unfolding text_eq
of_two r h = ground (arith, text_eq_iff r name_init, text_eq_iff r z)

no_such : (p : P (List Name)) → none ≡ some p → ⊥
no_such p e = cc

three-Descends : Descends three rank
unfolding lookup new_p
three-Descends name p e r h = elim (Bool-cases (text_eq name_init name)) [
  | inl i ↦ absurd (
      of_none r (
        subst (λ xs. 0 < times r xs)
          (sym (same_requires (new_p (some empty_func) (some empty_func) []) p (rw i at e))) h))
  | inr i ↦ elim (Bool-cases (text_eq a name)) [
    | inl j ↦ rw j (
        of_two r (
          subst (λ xs. 0 < times r xs)
            (sym (same_requires (process a (name_init ∷ z ∷ [])) p (rw (i, j) at e))) h))
    | inr j ↦ elim (Bool-cases (text_eq z name)) [
      | inl k ↦
          rw (j, k)
            (of_one r (
              subst (λ xs. 0 < times r xs)
                (sym (same_requires (process z (name_init ∷ [])) p (rw (i, j, k) at e))) h))
      | inr k ↦ absurd (no_such p (rw (i, j, k) at e))
    ]
  ]
]

in_order :
    run_all two_added.m 3 (keys two_added.m) [] []
    ≡ some (record { runs = name_init ∷ z ∷ a ∷ []; ctx = z ∷ a ∷ []; err = none })
unfolding run_all run_process run_required run_p run_after deferred add_process lookup insert new_ps
    text_eq new_p then_func run_hooks run_names new_hooks call empty_func new_requires
    init_is_not_later
in_order = refl

low : (k : Name) → 0 < times k (keys three) → rank k < 3
low k h = ground arith

as_they_are : (k : Name) (xs : List Name) → times k xs ≡ times k xs
as_they_are k xs = refl

three_ran :
    run_all three 3 (keys three) [] []
    ≡ some (record { runs = name_init ∷ z ∷ a ∷ []; ctx = z ∷ a ∷ []; err = none })
three_ran =
    subst
      (λ m.
        run_all m 3 (keys m) [] []
        ≡ some (record { runs = name_init ∷ z ∷ a ∷ []; ctx = z ∷ a ∷ []; err = none }))
      two_added_three in_order

run_ps-returns_example :
    is_some (run_ps (λ xs. xs) 3 (record { m = three; runs = b ∷ [] }) []) ≡ true
run_ps-returns_example =
    run_ps-returns (λ xs. xs) as_they_are three rank three-Descends 3 low (b ∷ []) []

run_all-InTurn_example :
    InTurn three [] (name_init ∷ z ∷ a ∷ []) (z ∷ a ∷ [])
    × ((k : Name) → times k (name_init ∷ z ∷ a ∷ []) ≡ (if is_some (lookup k three) then 1 else 0))
run_all-InTurn_example =
    run_all-InTurn (λ xs. xs) as_they_are three rank three-Descends 3 low []
      (record { runs = name_init ∷ z ∷ a ∷ []; ctx = z ∷ a ∷ []; err = none }) three_ran refl

found_a : lookup a three ≡ some (process a (name_init ∷ z ∷ []))
unfolding lookup text_eq
found_a = refl

abbrev one_hook : Hooks (List Name)
one_hook = record { names = (a, says a) ∷ []; l = a ∷ [] }

abbrev two_hooks : Hooks (List Name)
two_hooks = record { names = (a, says a) ∷ (z, says z) ∷ []; l = z ∷ a ∷ [] }

one_hook-InStep : InStep one_hook
unfolding lookup
one_hook-InStep k = ground (arith, text_eq_iff a k, text_eq_iff k a)

change-StaysInStep_example : StaysInStep (change one_hook (to_add_after z (some (says z)) a))
change-StaysInStep_example =
    change-StaysInStep one_hook (to_add_after z (some (says z)) a) one_hook-InStep

put_before : hooks_before one_hook z (some (says z)) a ≡ changed true two_hooks
unfolding hooks_before lookup text_eq insert index_or_last
put_before = refl
