-- ===== src/Util/Ps/Process/Turn.antt =====
-- util/ps/ps.go: what a run of the processes leaves behind.
use mitum.Prelude.{
  ℕ, zero, suc, ◌≤◌, ◌<◌, ◌≡◌, inl, inr, refl, false, arith, Option, none, some, List, [], ◌∷◌,
  ◌++◌, any, text_eq, text_eq_iff, text_eq_refl, lookup, times, times-append, times_none,
  times_some, Bool-cases, Option-cases, ap, ◌∙◌,
}
use mitum.Util.Ps.{Name, RunError}
use mitum.Util.Ps.Process.{P, Ran, run_p, run_required, run_after, deferred, run_process}

module _ {ℓ} {C : Type ℓ} (m : List (Name × P C)) where
  -- The names that were run one after the other without an error, each once and after all that it
  -- requires, from the one context to the other
  pub data InTurn (c0 : C) : List Name → C → Type ℓ where
    at_start : InTurn c0 [] c0
    then_run :
        (runs : List Name) (c c' : C) (name : Name) (p : P C)
        → InTurn c0 runs c
        → lookup name m ≡ some p
        → ((r : Name) → 0 < times r p.requires → 0 < times r runs)
        → times name runs ≡ 0
        → run_p p c ≡ (c', none)
        → InTurn c0 (runs ++ name ∷ []) c'

  -- What a process requires is of a lower rank.
  abbrev pub Descends : (Name → ℕ) → Type ℓ
  Descends rank =
      (name : Name) (p : P C)
      → lookup name m ≡ some p
      → (r : Name) → 0 < times r p.requires
      → rank r < rank name

  module _ (rank : Name → ℕ) (c0 : C) where
    -- What came of running some names, all of rank below a bound
    pub record Done (b : ℕ) (names runs : List Name) (c : C) (o : Ran C) : Type ℓ where
      pub kept : (k : Name) → b ≤ rank k → times k o.runs ≡ times k runs
      pub grown : (k : Name) → times k runs ≤ times k o.runs
      pub run_all_of : o.err ≡ none → (k : Name) → 0 < times k names → 0 < times k o.runs
      pub in_turn : o.err ≡ none → InTurn c0 runs c → InTurn c0 o.runs o.ctx

    abbrev pub Comes : ℕ → List Name → List Name → C → Option (Ran C) → Type ℓ
    Comes b names runs c r = (o : Ran C) × (r ≡ some o) × Done b names runs c o

    -- Nothing was run, as nothing was to be run or with an error.
    unchanged :
        (b : ℕ) (names runs : List Name) (c : C) (e : Option RunError)
        → (e ≡ none → (k : Name) → 0 < times k names → 0 < times k runs)
        → Done b names runs c (record { runs = runs; ctx = c; err = e })
    unchanged b names runs c e f = record {
      kept = λ k h. refl;
      grown = λ k. omega arith;
      run_all_of = f;
      in_turn = λ h t. t;
    }

    -- One name, and then others
    joined_runs :
        (b : ℕ) (x : Name) (xs runs : List Name) (c : C) (o o' : Ran C)
        → rank x < b
        → Done (suc (rank x)) (x ∷ []) runs c o
        → o.err ≡ none
        → Done b xs o.runs o.ctx o'
        → Done b (x ∷ xs) runs c o'
    joined_runs b x xs runs c o o' below d e d' = record {
      kept = λ k h. d'.kept k h ∙ d.kept k (omega arith);
      grown = λ k. omega (arith, d.grown k, d'.grown k);
      run_all_of = λ h k n. ground (arith, d'.run_all_of h k, d.run_all_of e k, d'.grown k);
      in_turn = λ h t. d'.in_turn h (d.in_turn e t);
    }

    -- One name with an error
    failed_run :
        (b : ℕ) (x : Name) (xs runs : List Name) (c : C) (o : Ran C) (e : RunError)
        → rank x < b
        → Done (suc (rank x)) (x ∷ []) runs c o
        → o.err ≡ some e
        → Done b (x ∷ xs) runs c o
    failed_run b x xs runs c o e below d h = record {
      kept = λ k le. d.kept k (omega arith);
      grown = d.grown;
      run_all_of = λ no. cc;
      in_turn = λ no. cc;
    }

    -- The loop over what is required, or over all names
    pub required-Comes :
        (again : Name → Option (P C) → List Name → C → Option (Ran C)) (b : ℕ)
        → ((x : Name) (p : P C) (runs : List Name) (c : C)
            → lookup x m ≡ some p
            → rank x < b
            → Comes (suc (rank x)) (x ∷ []) runs c (again x (some p) runs c))
        → (xs runs : List Name) (c : C) → ((k : Name) → 0 < times k xs → rank k < b)
        → Comes b xs runs c (run_required m again xs runs c)
    unfolding run_required
    required-Comes again b one_by_one [] runs c below =
        (_, refl, unchanged b [] runs c none (λ e k h. ground arith))
    required-Comes again b one_by_one (x ∷ xs) runs c below = elim (Option-cases (lookup x m)) [
      | inl e ↦ rw (e, run_required) (_, refl, unchanged b (x ∷ xs) runs c (some _) (λ no. cc))
      | inr (p, e) ↦
          (let here = below x (x_in x xs) in
            let (o, ran, d) = one_by_one x p runs c e here in
            rw (e, run_required)
              (rw ran (elim (Option-cases o.err) [
                | inl good ↦
                    (let (o', ran', d') =
                        required-Comes again b one_by_one xs o.runs o.ctx
                          (λ k h. below k (in_rest k x xs h)) in
                      rw good (o', ran', joined_runs b x xs runs c o o' here d good d'))
                | inr (bad, h) ↦ rw h (o, refl, failed_run b x xs runs c o bad here d h)
              ])))
    ]
      where
        x_in : (x : Name) (xs : List Name) → 0 < times x (x ∷ xs)
        x_in x xs = ground (arith, text_eq_refl x)

        in_rest : (k x : Name) (xs : List Name) → 0 < times k xs → 0 < times k (x ∷ xs)
        in_rest k x xs h = ground arith

    above : (name k : Name) → suc (rank name) ≤ rank k → text_eq k name ≡ false
    above name k h = elim (Bool-cases (text_eq k name)) [
      | inl e ↦ absurd (same name k h ((text_eq_iff k name).0 e))
      | inr e ↦ e
    ]
      where
        same : (name k : Name) → suc (rank name) ≤ rank k → k ≡ name → ⊥
        same name k h e = omega (arith, ap rank e)

    -- The end of a run
    noted_run :
        (name : Name) (p : P C) (runs : List Name) (c : C) (o : Ran C) (c' : C)
        (e : Option RunError)
        → Done (rank name) p.requires runs c o
        → (e ≡ none → InTurn c0 runs c → InTurn c0 (o.runs ++ name ∷ []) c')
        → Done
            (suc (rank name))
            (name ∷ [])
            runs
            c
            (record { runs = o.runs ++ name ∷ []; ctx = c'; err = e })
    noted_run name p runs c o c' e d turn = record {
      kept = λ k h.
          ground (arith, times-append k o.runs (name ∷ []), above name k h, d.kept k (omega arith));
      grown = λ k. omega (arith, times-append k o.runs (name ∷ []), d.grown k);
      run_all_of = λ no k h. ground (arith, times-append k o.runs (name ∷ []));
      in_turn = turn;
    }

    run_after-Done :
        (name : Name) (p : P C) (runs : List Name) (c : C) (o : Ran C)
        → lookup name m ≡ some p
        → any (text_eq name) runs ≡ false
        → Done (rank name) p.requires runs c o
        → Done (suc (rank name)) (name ∷ []) runs c (deferred m name (run_after m p o))
    unfolding deferred run_after
    run_after-Done name p runs c o found new d = elim (Option-cases o.err) [
      | inl good ↦
          rw (good, run_after)
            (noted_run name p runs c o (run_p p o.ctx).0 (run_p p o.ctx).1 d (λ e t.
              then_run o.runs o.ctx (run_p p o.ctx).0 name p (d.in_turn good t) found
                (d.run_all_of good) (d.kept name (omega arith) ∙ times_none name runs new)
                (ap (λ x. ((run_p p o.ctx).0, x)) e)))
      | inr (bad, h) ↦ rw (h, run_after) (noted_run name p runs c o o.ctx o.err d (λ e. cc))
    ]

    module _ (down : Descends rank) where
      -- A process whose rank the fuel exceeds
      pub run_process-Comes :
          (n : ℕ) (name : Name) (p : P C) (runs : List Name) (c : C)
          → lookup name m ≡ some p
          → rank name < n
          → Comes (suc (rank name)) (name ∷ []) runs c (run_process m n name (some p) runs c)
      unfolding run_process
      run_process-Comes zero name p runs c found below = absurd (omega arith)
      run_process-Comes (suc n) name p runs c found below =
          elim (Bool-cases (any (text_eq name) runs)) [
            | inl old ↦ rw old (
              _,
              refl,
              unchanged (suc (rank name)) (name ∷ []) runs c none
                  (λ e k h. ground (arith, times_some name runs old, text_eq_iff k name)),
            )
            | inr new ↦
                (let (o, ran, d) =
                    required-Comes (run_process m n) (rank name)
                      (λ x q rs c' f h. run_process-Comes n x q rs c' f (omega arith)) p.requires
                      runs c (down name p found) in
                  rw (new, ran) (_, refl, run_after-Done name p runs c o found new d))
          ]
