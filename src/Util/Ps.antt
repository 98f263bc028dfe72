-- ===== src/Util/Ps.antt =====
-- util/ps/ps.go: processes by name, with the hooks of each, and in which order they are run and closed.
pub mod Order
pub mod Process
use mitum.Prelude.{
  ℕ, zero, suc, ◌+◌, ◌-◌, Bool, true, false, not, ◌||◌, Option, none, some, List, [], ◌∷◌, ◌++◌,
  map, ltb, if◌then◌else◌, length, is_some, is_nil, Text, text_eq, lookup, insert, keep_if, times,
}

-- `Name`, and `NameINIT`
abbrev pub Name : Type 0
Name = Text

abbrev pub name_init : Name
name_init = 105 ∷ 110 ∷ 105 ∷ 116 ∷ []

-- What goes wrong: `ErrIgnoreLeft`, a required process that is not found, what a `Func` returns else,
-- or the panic of a nil function or process, which goes up through the calls as an error does.
pub data RunError : Type 0 where
  ignore_left panicked : RunError
  required_not_found : Name → RunError
  failed : Text → RunError

-- `Func`: a context to the next one, and an error or none
abbrev pub Func {ℓ} : Type ℓ → Type ℓ
Func C = C → C × Option RunError

-- `delete`
unfoldable pub delete {ℓ} : {V : Type ℓ} → Name → List (Name × V) → List (Name × V)
delete k [] = []
delete k ((j, v) ∷ m) = if text_eq j k then delete k m else (j, v) ∷ delete k m

-- `hooks`
pub record Hooks {ℓ} (C : Type ℓ) : Type ℓ where
  pub names : List (Name × Func C)
  pub l : List Name

-- The calls that change the hooks
pub data HookChange {ℓ} (C : Type ℓ) : Type ℓ where
  to_add : Name → Option (Func C) → HookChange C
  to_add_before to_add_after : Name → Option (Func C) → Name → HookChange C
  to_remove : Name → HookChange C

-- What a change of the hooks answers, and them after it; or an index out of range
pub data Changed {ℓ} (C : Type ℓ) : Type ℓ where
  changed : Bool → Hooks C → Changed C
  panics : Changed C

abbrev pub take_names : ℕ → List Name → List Name
take_names zero xs = []
take_names (suc n) [] = []
take_names (suc n) (x ∷ xs) = x ∷ take_names n xs

abbrev pub drop_names : ℕ → List Name → List Name
drop_names zero xs = xs
drop_names (suc n) [] = []
drop_names (suc n) (x ∷ xs) = drop_names n xs

-- Where the loop over the names stops: at the first that is `a`, otherwise at the last
unfoldable pub index_or_last : Name → List Name → ℕ
index_or_last a [] = 0
index_or_last a (x ∷ xs) = if text_eq x a || is_nil xs then 0 else suc (index_or_last a xs)

-- Zero values up to `n` names
abbrev pub zero_names : ℕ → List Name
zero_names zero = []
zero_names (suc n) = [] ∷ zero_names n

module _ {ℓ} {C : Type ℓ} where
  pub new_hooks : Hooks C
  new_hooks = record { names = []; l = [] }

  -- `hooks.add`; `i` is `none` for nil.
  unfoldable pub hooks_add : Hooks C → Name → Option (Func C) → Changed C
  hooks_add h name none = changed false h
  hooks_add h name (some i) =
      if is_some (lookup name h.names)
      then changed false h
      else changed true (record { names = insert name i h.names; l = h.l ++ name ∷ [] })

  -- `hooks.before`
  unfoldable pub hooks_before : Hooks C → Name → Option (Func C) → Name → Changed C
  hooks_before h name none b = changed false h
  hooks_before h name (some i) b =
      if is_some (lookup name h.names)
      then changed false h
      else if not (is_some (lookup b h.names))
      then changed false h
      else (let j = index_or_last b h.l in
          changed true (record {
            names = insert name i h.names;
            l = take_names j h.l ++ name ∷ drop_names j h.l;
          }))

  -- `hooks.after`; `l[:j+1]` of no names is out of range.
  unfoldable pub hooks_after : Hooks C → Name → Option (Func C) → Name → Changed C
  hooks_after h name none a = changed false h
  hooks_after h name (some i) a =
      if is_some (lookup name h.names)
      then changed false h
      else if not (is_some (lookup a h.names))
      then changed false h
      else if is_nil h.l
      then panics
      else (let j = index_or_last a h.l in
          changed true (record {
            names = insert name i h.names;
            l = take_names (j + 1) h.l ++ name ∷ drop_names (j + 1) h.l;
          }))

  -- `hooks.remove`: the names that are kept go into one place less, which is out of range if none
  -- is left out.
  unfoldable pub hooks_remove : Hooks C → Name → Changed C
  hooks_remove h name =
      if not (is_some (lookup name h.names))
      then changed false h
      else (let kept = keep_if (λ j. not (text_eq name j)) h.l in
          if ltb (length kept) (length h.l)
          then changed true (record {
            names = delete name h.names;
            l = kept ++ zero_names (length h.l - 1 - length kept);
          })
          else panics)

  unfoldable pub change : Hooks C → HookChange C → Changed C
  change h (to_add name i) = hooks_add h name i
  change h (to_add_before name i b) = hooks_before h name i b
  change h (to_add_after name i a) = hooks_after h name i a
  change h (to_remove name) = hooks_remove h name

  -- `hooks.run`; the function of a missing name is nil.
  unfoldable pub run_names : List (Name × Func C) → List Name → Func C
  run_names m [] c = (c, none)
  run_names m (x ∷ xs) c = elim (lookup x m) [
    | none ↦ (c, some panicked)
    | some f ↦ elim (f c).1 [ none ↦ run_names m xs (f c).0 | some e ↦ f c ]
  ]

  unfoldable pub run_hooks : Hooks C → Func C
  run_hooks h c = run_names h.names h.l c
