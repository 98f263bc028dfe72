-- ===== src/Util/Ps/Process/Whole.antt =====
-- util/ps/ps.go: the run of all processes.
use mitum.Prelude.{
  ℕ, ◌≤◌, ◌<◌, ◌≡◌, inl, inr, refl, true, arith, none, some, List, [], ◌∷◌, if◌then◌else◌, is_some,
  text_eq_iff, text_eq_refl, lookup, times, times-append, Option-cases, sym, subst, ◌∙◌,
}
use mitum.Util.Ps.{Name}
use mitum.Util.Ps.Process.{P, Ran, keys, run_required, run_process, run_all, run_ps}
use mitum.Util.Ps.Process.Turn.{
  InTurn, at_start, then_run, Descends, Done, Comes, required-Comes, run_process-Comes,
}

module _ {ℓ} {V : Type ℓ} where
  -- A name is a key where it is found.
  found-keys : (k : Name) (m : List (Name × V)) → 0 < times k (keys m) → is_some (lookup k m) ≡ true
  unfolding lookup
  found-keys k [] h = ground arith
  found-keys k ((j, v) ∷ m) h = ground (arith, found-keys k m, text_eq_iff j k, text_eq_iff k j)

  keys-found : (k : Name) (m : List (Name × V)) → is_some (lookup k m) ≡ true → 0 < times k (keys m)
  unfolding lookup
  keys-found k [] h = ground arith
  keys-found k ((j, v) ∷ m) h = ground (arith, keys-found k m, text_eq_iff j k, text_eq_iff k j)

some_inj {ℓ} : {A : Type ℓ} (a b : A) → some a ≡ some b → a ≡ b
some_inj a b e = cc

module _ {ℓ} {C : Type ℓ} (m : List (Name × P C)) where
  -- The loop over the names is that over requirements.
  run_all-run_required :
      (fuel : ℕ) (xs runs : List Name) (c : C)
      → ((k : Name) → 0 < times k xs → is_some (lookup k m) ≡ true)
      → run_all m fuel xs runs c ≡ run_required m (run_process m fuel) xs runs c
  unfolding run_all run_required
  run_all-run_required fuel [] runs c all_found = refl
  run_all-run_required fuel (x ∷ xs) runs c all_found = elim (Option-cases (lookup x m)) [
    | inl e ↦ absurd (none_there x e (all_found x (x_in x xs)))
    | inr (p, e) ↦
        rw (e, run_all, run_required)
          (elim (Option-cases (run_process m fuel x (some p) runs c)) [
            | inl none_left ↦ rw none_left refl
            | inr (o, ran) ↦ rw ran (elim (Option-cases o.err) [
              | inl good ↦
                  rw (good, run_all, run_required)
                    (run_all-run_required fuel xs o.runs o.ctx
                      (λ k h. all_found k (in_rest k x xs h)))
              | inr (bad, h) ↦ rw (h, run_all, run_required) refl
            ])
          ])
  ]
    where
      none_there : (x : Name) → lookup x m ≡ none → is_some (lookup x m) ≡ true → ⊥
      none_there x e h = ground (arith)

      x_in : (x : Name) (xs : List Name) → 0 < times x (x ∷ xs)
      x_in x xs = ground (arith, text_eq_refl x)

      in_rest : (k x : Name) (xs : List Name) → 0 < times k xs → 0 < times k (x ∷ xs)
      in_rest k x xs h = ground arith

  InTurn-once : (c0 c : C) (runs : List Name) → InTurn m c0 runs c → (k : Name) → times k runs ≤ 1
  InTurn-once c0 c _ at_start k = omega arith
  InTurn-once c0 c _ (then_run runs c1 _ name p t found after new r) k =
      ground
        (arith, times-append k runs (name ∷ []), InTurn-once c0 c1 runs t k, text_eq_iff k name)

  InTurn-found :
      (c0 c : C) (runs : List Name)
      → InTurn m c0 runs c
      → (k : Name) → 0 < times k runs
      → is_some (lookup k m) ≡ true
  InTurn-found c0 c _ at_start k h = ground arith
  InTurn-found c0 c _ (then_run runs c1 _ name p t found after new r) k h =
      ground
        (arith, times-append k runs (name ∷ []), InTurn-found c0 c1 runs t k, text_eq_iff k name)

module _ {ℓ} {C : Type ℓ} (sorted : List Name → List Name)
    (same : (k : Name) (xs : List Name) → times k (sorted xs) ≡ times k xs) (m : List (Name × P C))
    (rank : Name → ℕ) (down : Descends m rank) (fuel : ℕ)
    (enough : (k : Name) → 0 < times k (keys m) → rank k < fuel) where
  of_sorted : (k : Name) → 0 < times k (sorted (keys m)) → 0 < times k (keys m)
  of_sorted k h = omega (arith, same k (keys m))

  run_all-Comes :
      (c : C) → Comes m rank c fuel (sorted (keys m)) [] c (run_all m fuel (sorted (keys m)) [] c)
  run_all-Comes c =
      rw
        (run_all-run_required m fuel (sorted (keys m)) [] c (λ k h. found-keys k m (of_sorted k h)))
        (required-Comes m rank c (run_process m fuel) fuel
          (λ x p runs c' found below. run_process-Comes m rank c down fuel x p runs c' found below)
          (sorted (keys m)) [] c (λ k h. enough k (of_sorted k h)))

  -- If what each process requires is of a lower rank than the process, the fuel is above the rank
  -- of each, and the sorting keeps how often a name is there, then running all processes comes to an end,
  -- with an error or none.
  pub run_ps-returns :
      (runs : List Name) (c : C)
      → is_some (run_ps sorted fuel (record { m = m; runs = runs }) c) ≡ true
  unfolding run_ps
  run_ps-returns runs c = (let (o, ran, d) = run_all-Comes c in rw (ran, run_ps) refl)

  -- If what each process requires is of a lower rank than the process, the fuel is above the rank
  -- of each, and the sorting keeps how often a name is there, then a run of all processes that leaves no
  -- error has run each process exactly once, each after all that it requires, the context going from
  -- each to the next.
  pub run_all-InTurn :
      (c : C) (o : Ran C)
      → run_all m fuel (sorted (keys m)) [] c ≡ some o
      → o.err ≡ none
      → InTurn m c o.runs o.ctx
        × ((k : Name) → times k o.runs ≡ (if is_some (lookup k m) then 1 else 0))
  run_all-InTurn c o e good = (d.in_turn good at_start, λ k. once k)
    where
      made :
          (r : Comes m rank c fuel (sorted (keys m)) [] c (run_all m fuel (sorted (keys m)) [] c))
          → Done m rank c fuel (sorted (keys m)) [] c o
      made (o', ran, d) =
          subst (Done m rank c fuel (sorted (keys m)) [] c) (some_inj o' o (sym ran ∙ e)) d

      d : Done m rank c fuel (sorted (keys m)) [] c o
      d = made (run_all-Comes c)

      once : (k : Name) → times k o.runs ≡ (if is_some (lookup k m) then 1 else 0)
      once k = ground (
        arith,
        InTurn-once m c o.ctx o.runs (d.in_turn good at_start) k,
        InTurn-found m c o.ctx o.runs (d.in_turn good at_start) k,
        d.run_all_of good k,
        keys-found k m,
        same k (keys m),
      )
