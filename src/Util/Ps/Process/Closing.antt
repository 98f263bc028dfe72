-- ===== src/Util/Ps/Process/Closing.antt =====
-- util/ps/ps.go: the closing of the processes that were run.
use mitum.Prelude.{
  ℕ, zero, suc, ◌≤◌, ◌<◌, ◌≡◌, refl, arith, Option, none, some, List, [], ◌∷◌, ◌++◌, length,
  get_elem?, lookup, ap,
}
use mitum.Util.Ps.{Name, RunError, panicked, Func}
use mitum.Util.Ps.Process.{P, Ps, close_p, close_last, close_ps, then_func}

length_more : (xs : List Name) (x : Name) → length (xs ++ x ∷ []) ≡ suc (length xs)
length_more [] x = refl
length_more (y ∷ xs) x = ap suc (length_more xs x)

get_last : (xs : List Name) (x : Name) → get_elem? (xs ++ x ∷ []) (length xs) ≡ some x
get_last [] x = refl
get_last (y ∷ xs) x = get_last xs x

get_earlier : (xs ys : List Name) (i : ℕ) → i < length xs → get_elem? (xs ++ ys) i ≡ get_elem? xs i
get_earlier [] ys i h = absurd (omega arith)
get_earlier (x ∷ xs) ys zero h = refl
get_earlier (x ∷ xs) ys (suc i) h = get_earlier xs ys i (omega arith)

then_same {ℓ} :
    {C : Type ℓ} (r : C × Option RunError) {f g : Func C}
    → ((c : C) → f c ≡ g c)
    → then_func r f ≡ then_func r g
unfolding then_func
then_same (c, none) same = same c
then_same (c, some e) same = refl

module _ {ℓ} {C : Type ℓ} (m : List (Name × P C)) where
  abbrev of_runs : List Name → Ps C
  of_runs runs = record { m = m; runs = runs }

  earlier_closes :
      (runs ys : List Name) (n : ℕ) (c : C)
      → n ≤ length runs
      → close_last (of_runs (runs ++ ys)) n c ≡ close_last (of_runs runs) n c
  unfolding close_last
  earlier_closes runs ys zero c h = refl
  earlier_closes runs ys (suc n) c h =
      rw (get_earlier runs ys n h, close_last)
        (at (get_elem? runs n) (λ c'. earlier_closes runs ys n c' (omega arith)))
    where
      close_in : Ps C → P C → C × Option RunError
      close_in ps p = then_func (close_p p c) (close_last ps n)

      of_p : Ps C → Option (P C) → C × Option RunError
      of_p ps none = (c, some panicked)
      of_p ps (some p) = close_in ps p

      of_name : Ps C → Option Name → C × Option RunError
      of_name ps none = (c, some panicked)
      of_name ps (some name) = of_p ps (lookup name m)

      Same : Type ℓ
      Same = (c' : C) → close_last (of_runs (runs ++ ys)) n c' ≡ close_last (of_runs runs) n c'

      found : (o : Option (P C)) → Same → of_p (of_runs (runs ++ ys)) o ≡ of_p (of_runs runs) o
      found none same = refl
      found (some p) same = then_same (close_p p c) same

      at : (o : Option Name) → Same → of_name (of_runs (runs ++ ys)) o ≡ of_name (of_runs runs) o
      at none same = refl
      at (some name) same = found (lookup name m) same

  -- Closing begins with the process that was run last, if it is still there; the others are closed
  -- as if it had not been run, unless its closing fails.
  pub close_ps-last :
      (runs : List Name) (name : Name) (p : P C) (c : C)
      → lookup name m ≡ some p
      → close_ps (record { m = m; runs = runs ++ name ∷ [] }) c
        ≡ then_func (close_p p c) (close_ps (record { m = m; runs = runs }))
  unfolding close_ps close_last
  close_ps-last runs name p c found =
      rw (length_more runs name, close_last)
        (rw (get_last runs name, found)
          (then_same (close_p p c)
            (λ c'. earlier_closes runs (name ∷ []) (length runs) c' (omega arith))))
