-- ===== src/Util/Ps/Process.antt =====
-- util/ps/ps.go: the processes, run after those that they require, and closed.
pub mod Turn
pub mod Whole
pub mod Closing
pub mod Tests
use mitum.Prelude.{
  ℕ, zero, suc, Bool, true, false, not, ◌&&◌, Option, none, some, List, [], ◌∷◌, ◌++◌, ltb,
  if◌then◌else◌, length, get_elem?, is_some, is_nil, any, Text, text_eq, lookup, insert,
}
use mitum.Util.Ps.{
  Name, name_init, RunError, ignore_left, panicked, required_not_found, failed, Func, Hooks,
  HookChange, Changed, changed, panics, change, new_hooks, run_hooks, delete,
}

-- `P`; a function is `none` for nil.
pub record P {ℓ} (C : Type ℓ) : Type ℓ where
  pub run : Option (Func C)
  pub closef : Option (Func C)
  pub pre : Hooks C
  pub post : Hooks C
  pub requires : List Name

-- `PS`
pub record Ps {ℓ} (C : Type ℓ) : Type ℓ where
  pub m : List (Name × P C)
  pub runs : List Name

-- What running leaves: the names that were run, the context, and an error or none
pub record Ran {ℓ} (C : Type ℓ) : Type ℓ where
  pub runs : List Name
  pub ctx : C
  pub err : Option RunError

abbrev pub keys {ℓ} : {V : Type ℓ} → List (Name × V) → List Name
keys [] = []
keys ((k, v) ∷ m) = k ∷ keys m

-- `slices.IndexFunc` is less than one: the first is `NameINIT`, or none is.
unfoldable pub init_is_not_later : List Name → Bool
init_is_not_later [] = true
init_is_not_later (x ∷ xs) = if text_eq x name_init then true else not (any (text_eq name_init) xs)

unfoldable pub new_requires : Name → List Name → List Name
new_requires name requires =
    if text_eq name name_init
    then requires
    else if is_nil requires
    then name_init ∷ []
    else if init_is_not_later requires
    then name_init ∷ requires
    else requires

-- `errors.Is(err, ErrIgnoreLeft)` is no error.
unfoldable pub but_ignore_left : Option RunError → Option RunError
but_ignore_left none = none
but_ignore_left (some ignore_left) = none
but_ignore_left (some panicked) = some panicked
but_ignore_left (some (required_not_found r)) = some (required_not_found r)
but_ignore_left (some (failed t)) = some (failed t)

module _ {ℓ} {C : Type ℓ} where
  -- `NewP`
  pub new_p : Option (Func C) → Option (Func C) → List Name → P C
  new_p run closef requires = record {
    run = run;
    closef = closef;
    pre = new_hooks;
    post = new_hooks;
    requires = requires;
  }

  -- `EmptyFunc`, and `NewPS`
  pub empty_func : Func C
  empty_func c = (c, none)

  pub new_ps : Ps C
  new_ps = record { m = (name_init, new_p (some empty_func) (some empty_func) []) ∷ []; runs = [] }

  -- `then_func`: the next is called unless there is an error.
  unfoldable pub then_func : (C × Option RunError) → Func C → C × Option RunError
  then_func (c, none) f = f c
  then_func (c, some e) f = (c, some e)

  unfoldable pub call : Option (Func C) → Func C
  call none c = (c, none)
  call (some f) c = f c

  -- `P.Run`
  pub run_p : P C → Func C
  run_p p c = then_func (then_func (run_hooks p.pre c) (call p.run)) (run_hooks p.post)

  -- `P.Close`
  pub close_p : P C → Func C
  close_p p c = call p.closef c

  -- `PreAdd`, `PreBefore`, `PreAfter` and `PreRemove`, with what they answer; `none` panics.
  unfoldable pub change_pre : P C → HookChange C → Option (P C × Bool)
  change_pre p x = elim (change p.pre x) [
    | changed b h ↦ some (record p { pre = h }, b)
    | panics ↦ none
  ]

  -- `PostAdd`, `PostBefore`, `PostAfter` and `PostRemove`
  unfoldable pub change_post : P C → HookChange C → Option (P C × Bool)
  change_post p x = elim (change p.post x) [
    | changed b h ↦ some (record p { post = h }, b)
    | panics ↦ none
  ]

  copy_hooks : P C → P C → P C
  copy_hooks p b = record p { pre = b.pre; post = b.post }

  set_p : Ps C → Name → P C → Ps C
  set_p ps name p = record ps { m = insert name p ps.m }

  -- `PS.AddP`
  unfoldable pub add_p : Ps C → Name → P C → Ps C × Bool
  unfolding set_p
  add_p ps name p = (set_p ps name p, not (is_some (lookup name ps.m)))

  -- `PS.add`, which `Add` calls
  unfoldable pub add_process :
      Ps C → Name → Option (Func C) → Option (Func C) → List Name → Ps C × Bool
  unfolding set_p
  add_process ps name run closef requires = (
    set_p ps name (new_p run closef (new_requires name requires)),
    not (is_some (lookup name ps.m)),
  )

  -- `PS.Replace`
  unfoldable pub replace : Ps C → Name → Option (Func C) → Option (Func C) → List Name → Ps C × Bool
  unfolding set_p copy_hooks
  replace ps name run closef requires = elim (lookup name ps.m) [
    | none ↦ add_process ps name run closef requires
    | some b ↦ (set_p ps name (copy_hooks (new_p run closef (new_requires name requires)) b), false)
  ]

  -- `PS.Remove`
  unfoldable pub remove_process : Ps C → Name → Ps C × Bool
  remove_process ps name =
      if is_some (lookup name ps.m) then (record ps { m = delete name ps.m }, true) else (ps, false)

  module _ (m : List (Name × P C)) where
    -- The loop over what a process requires
    unfoldable pub run_required :
        (Name → Option (P C) → List Name → C → Option (Ran C))
        → List Name
        → List Name
        → C
        → Option (Ran C)
    run_required again [] runs c = some (record { runs = runs; ctx = c; err = none })
    run_required again (r ∷ rs) runs c = elim (lookup r m) [
      | none ↦ some (record { runs = runs; ctx = c; err = some (required_not_found r) })
      | some rp ↦ elim (again r (some rp) runs c) [
        | none ↦ none
        | some o ↦ elim o.err [ none ↦ run_required again rs o.runs o.ctx | some e ↦ some o ]
      ]
    ]

    -- `P.Run` after what is required, unless that failed
    unfoldable pub run_after : P C → Ran C → Ran C
    run_after p o = elim o.err [
      | none ↦ (let r = run_p p o.ctx in record { runs = o.runs; ctx = r.0; err = r.1 })
      | some e ↦ o
    ]

    -- The deferred end: the name is noted, with an error or without.
    unfoldable pub deferred : Name → Ran C → Ran C
    deferred name o = record o { runs = o.runs ++ name ∷ [] }

    -- `PS.run`, of which `none` is that the fuel did not suffice
    unfoldable pub run_process : ℕ → Name → Option (P C) → List Name → C → Option (Ran C)
    run_process zero name p runs c = none
    run_process (suc n) name none runs c = some (
        if any (text_eq name) runs
        then record { runs = runs; ctx = c; err = none }
        else deferred name (record { runs = runs; ctx = c; err = none }))
    run_process (suc n) name (some p) runs c =
        (let required = run_required (run_process n) p.requires runs c in
          if any (text_eq name) runs
          then some (record { runs = runs; ctx = c; err = none })
          else elim required [ none ↦ none | some o ↦ some (deferred name (run_after p o)) ])

    -- The loop of `PS.Run` over the names
    unfoldable pub run_all : ℕ → List Name → List Name → C → Option (Ran C)
    run_all fuel [] runs c = some (record { runs = runs; ctx = c; err = none })
    run_all fuel (x ∷ xs) runs c = elim (run_process fuel x (lookup x m) runs c) [
      | none ↦ none
      | some o ↦ elim o.err [ none ↦ run_all fuel xs o.runs o.ctx | some e ↦ some o ]
    ]

  -- `PS.Run`, where `sorted` is the sorting of the names
  unfoldable pub run_ps :
      (List Name → List Name) → ℕ → Ps C → C → Option (Ps C × C × Option RunError)
  unfolding but_ignore_left
  run_ps sorted fuel ps c = elim (run_all ps.m fuel (sorted (keys ps.m)) [] c) [
    | none ↦ none
    | some o ↦ some (record ps { runs = o.runs }, o.ctx, but_ignore_left o.err)
  ]

  -- The loop of `PS.Close`, with so many names left, from the last; a nil process panics.
  unfoldable pub close_last : Ps C → ℕ → Func C
  close_last ps zero c = (c, none)
  close_last ps (suc n) c = elim (get_elem? ps.runs n) [
    | none ↦ (c, some panicked)
    | some name ↦ elim (lookup name ps.m) [
      | none ↦ (c, some panicked)
      | some p ↦ then_func (close_p p c) (close_last ps n)
    ]
  ]

  -- `PS.Close`
  unfoldable pub close_ps : Ps C → Func C
  close_ps ps c = close_last ps (length ps.runs) c
