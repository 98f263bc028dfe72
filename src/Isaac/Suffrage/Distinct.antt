-- ===== src/Isaac/Suffrage/Distinct.antt =====
-- isaac/suffrage.go: no node is in a suffrage twice.
use mitum.Prelude.{
  ◌≤◌, ◌≡◌, ◌∙◌, sym, ap, refl, subst, Bool, true, false, Option, none, some, List, [], ◌∷◌,
  if◌then◌else◌, Text, text_eq, text_eq_iff, any, times, is_some, lookup, Bool-cases, ◌⊎◌, inl, inr,
  arith,
}
use mitum.Isaac.Suffrage.{
  Node, Suffrage, Result, ok, err, nil_node, is_duplicated, addresses, by_address, non_nil,
  of_nodes, new_suffrage, exists,
}
use mitum.Isaac.Suffrage.Expels.{has_address, exists-by_address}

pub is_duplicated-times :
    (seen ks : List Text) (a : Text)
    → is_duplicated seen ks ≡ false
    → times a ks ≤ (if any (text_eq a) seen then 0 else 1)
unfolding is_duplicated
is_duplicated-times seen [] a h = omega arith
is_duplicated-times seen (k ∷ ks) a h = elim (Bool-cases (any (text_eq k) seen)) [
  | inl dup ↦ cc (rw dup at h)
  | inr new ↦
      step new (Bool-cases (text_eq a k)) (is_duplicated-times (k ∷ seen) ks a (rw new at h))
]
  where
    step :
        any (text_eq k) seen ≡ false
        → (text_eq a k ≡ true) ⊎ (text_eq a k ≡ false)
        → times a ks ≤ (if any (text_eq a) (k ∷ seen) then 0 else 1)
        → times a (k ∷ ks) ≤ (if any (text_eq a) seen then 0 else 1)
    step new (inr e) ih = rw e (rw e at ih)
    step new (inl e) ih =
        let here : any (text_eq a) seen ≡ false =
          subst (λ x. any (text_eq x) seen ≡ false) (sym ((text_eq_iff a k).0 e)) new in
        rw (e, here) (omega (arith, rw e at ih))

times-has_address :
    (a : Text) (ns : List Node)
    → times a (addresses ns) ≤ 1
    → times a (addresses ns) ≤ (if has_address a ns then 1 else 0)
unfolding addresses
times-has_address a [] h = omega arith
times-has_address a (n ∷ ns) h =
    ground (arith, text_eq_iff a n.address, text_eq_iff n.address a, times-has_address a ns)

if_self : (b : Bool) → (if b then true else false) ≡ b
if_self true = refl
if_self false = refl

of_nodes-distinct :
    (ns : List Node) (suf : Suffrage) (a : Text)
    → of_nodes ns ≡ ok suf
    → times a (addresses ns) ≤ (if exists suf a then 1 else 0)
unfolding of_nodes exists
of_nodes-distinct ns suf a h = elim (Bool-cases (is_duplicated [] (addresses ns))) [
  | inl dup ↦ cc (rw dup at h)
  | inr new ↦
      let made : by_address [] ns ≡ suf.m = ok_eq (rw new at h) in
      let few = times-has_address a ns (is_duplicated-times [] (addresses ns) a new) in
      let has : is_some (lookup a suf.m) ≡ has_address a ns =
        ap (λ m. is_some (lookup a m)) (sym made)
        ∙ exists-by_address a ns []
        ∙ if_self (has_address a ns) in
      rw has few
]
  where
    ok_eq :
        {m : List (Text × Node)} {x : List Node} {y : Suffrage}
        → ok (record { m = m; ns = x }) ≡ ok y
        → m ≡ y.m
    ok_eq e = cc

-- In a suffrage that is made of nodes, a member is once, and what is not a member is not among them.
pub new_suffrage-distinct :
    (ns : List (Option Node)) (l : List Node) (suf : Suffrage) (a : Text)
    → non_nil ns ≡ some l
    → new_suffrage ns ≡ ok suf
    → times a (addresses l) ≤ (if exists suf a then 1 else 0)
unfolding new_suffrage non_nil of_nodes
new_suffrage-distinct [] l suf a e h = cc
new_suffrage-distinct (none ∷ ns) l suf a e h = cc
new_suffrage-distinct (some n ∷ ns) l suf a e h = of_nodes-distinct l suf a (sym (ap made e) ∙ h)
  where
    made : Option (List Node) → Result Suffrage
    made none = err nil_node
    made (some l) = of_nodes l

pub non_nil-nil : non_nil [] ≡ some []
unfolding non_nil
non_nil-nil = refl

pub non_nil-cons :
    (n : Node) (ns : List (Option Node)) (l : List Node)
    → non_nil ns ≡ some l
    → non_nil (some n ∷ ns) ≡ some (n ∷ l)
unfolding non_nil
non_nil-cons n ns l h = rw (h, non_nil) refl
