-- ===== src/Prelude/Maps.antt =====
-- Maps from texts as association lists, the list's order standing for the order of one iteration.
use mathlib.Core.Path.{◌≡◌, refl}
use mathlib.Core.Bool.{Bool, true, false}
use mathlib.Core.List.{List, [], ◌∷◌, ◌++◌}
use mathlib.Core.Option.{Option, none, some}
use native.Mathlib.Omega.{arith}
use Prim.Native.Nat.{ℕ, ◌+◌, ◌<◌}
use mitum.Prelude.Tests.{if◌then◌else◌}
use mitum.Prelude.Bytes.{Text, text_eq, text_eq_iff}

module _ {ℓ} {V : Type ℓ} where
  unfoldable pub lookup : Text → List (Text × V) → Option V
  lookup k [] = none
  lookup k ((j, v) ∷ m) = if text_eq j k then some v else lookup k m

  unfoldable pub insert : Text → V → List (Text × V) → List (Text × V)
  insert k v [] = (k, v) ∷ []
  insert k v ((j, w) ∷ m) = if text_eq j k then (k, v) ∷ m else (j, w) ∷ insert k v m

  abbrev pub values : List (Text × V) → List V
  values [] = []
  values ((k, v) ∷ m) = v ∷ values m

  pub lookup-insert :
      (k j : Text) (v : V) (m : List (Text × V))
      → lookup j (insert k v m) ≡ (if text_eq k j then some v else lookup j m)
  unfolding lookup insert
  lookup-insert k j v [] = refl
  lookup-insert k j v ((i, w) ∷ m) =
      ground (arith, text_eq_iff k j, text_eq_iff i k, text_eq_iff i j, lookup-insert k j v m)

abbrev pub is_some {ℓ} : {A : Type ℓ} → Option A → Bool
is_some none = false
is_some (some a) = true

abbrev pub is_nil {ℓ} : {A : Type ℓ} → List A → Bool
is_nil [] = true
is_nil (x ∷ xs) = false

module _ {ℓ} {A : Type ℓ} where
  -- `FilterSlice`
  abbrev pub keep_if : (A → Bool) → List A → List A
  keep_if p [] = []
  keep_if p (x ∷ xs) = if p x then x ∷ keep_if p xs else keep_if p xs

  abbrev pub any : (A → Bool) → List A → Bool
  any p [] = false
  any p (x ∷ xs) = if p x then true else any p xs

  abbrev pub all : (A → Bool) → List A → Bool
  all p [] = true
  all p (x ∷ xs) = if p x then all p xs else false

-- How often a text is in a list
abbrev pub times : Text → List Text → ℕ
times a [] = 0
times a (x ∷ xs) = if text_eq a x then 1 + times a xs else times a xs

pub times-append : (a : Text) (xs ys : List Text) → times a (xs ++ ys) ≡ times a xs + times a ys
times-append a [] ys = omega arith
times-append a (x ∷ xs) ys = ground (arith, times-append a xs ys)

pub times_none : (a : Text) (xs : List Text) → any (text_eq a) xs ≡ false → times a xs ≡ 0
times_none a [] h = refl
times_none a (x ∷ xs) h = ground (arith, times_none a xs)

pub times_some : (a : Text) (xs : List Text) → any (text_eq a) xs ≡ true → 0 < times a xs
times_some a [] h = ground arith
times_some a (x ∷ xs) h = ground (arith, times_some a xs)
