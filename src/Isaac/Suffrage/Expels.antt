-- ===== src/Isaac/Suffrage/Expels.antt =====
-- Who votes when nodes are expelled.
use mitum.Prelude.{
  ◌≡◌, ◌∙◌, ap, sym, refl, Bool, true, false, not, ◌&&◌, Option, none, some, List, [], ◌∷◌, ltb,
  if◌then◌else◌, length, Text, text_eq, text_eq_iff, lookup, insert, lookup-insert, any, is_some,
  Bool-cases, inl, inr, arith,
}
use mitum.Base.Threshold.{Threshold}
use mitum.Isaac.Voteproof.{ExpelOperation}
use mitum.Isaac.Suffrage.{
  Node, Suffrage, Result, ok, err, by_address, non_nil, of_nodes, new_suffrage, exists, without,
  with_expels, new_suffrage_with_expels, is_duplicated, addresses, nil_node, node_signs,
  expel_threshold,
}

-- A node of the address is among the nodes.
abbrev pub has_address : Text → List Node → Bool
has_address a [] = false
has_address a (n ∷ ns) = if text_eq n.address a then true else has_address a ns

pub exists-by_address :
    (a : Text) (ns : List Node) (m : List (Text × Node))
    → is_some (lookup a (by_address m ns))
      ≡ (if has_address a ns then true else is_some (lookup a m))
unfolding by_address
exists-by_address a [] m = refl
exists-by_address a (n ∷ ns) m =
    ground (arith, exists-by_address a ns (insert n.address n m), lookup-insert n.address a n m)

-- The address is that of a node to be expelled.
abbrev pub is_expelled : Text → List ExpelOperation → Bool
is_expelled a expels = any (λ op. text_eq a op.expel_fact.node) expels

remaining_nodes : List ExpelOperation → List Node → List Node
remaining_nodes expels [] = []
remaining_nodes expels (n ∷ ns) =
    if is_expelled n.address expels
    then remaining_nodes expels ns
    else n ∷ remaining_nodes expels ns

non_nil-without :
    (expels : List ExpelOperation) (ns : List Node)
    → non_nil (without expels ns) ≡ some (remaining_nodes expels ns)
unfolding non_nil without remaining_nodes
non_nil-without expels [] = refl
non_nil-without expels (n ∷ ns) = ground (arith, non_nil-without expels ns)

has_address-remaining :
    (a : Text) (expels : List ExpelOperation) (ns : List Node)
    → has_address a (remaining_nodes expels ns) ≡ (has_address a ns && not (is_expelled a expels))
unfolding remaining_nodes
has_address-remaining a expels [] = refl
has_address-remaining a expels (n ∷ ns) = elim (Bool-cases (text_eq n.address a)) [
  | inl same ↦
      let e : is_expelled n.address expels ≡ is_expelled a expels =
        ap (λ x. is_expelled x expels) ((text_eq_iff n.address a).0 same) in
      ground (arith, has_address-remaining a expels ns)
  | inr differ ↦ ground (arith, has_address-remaining a expels ns)
]

-- The map of a suffrage is made of its nodes.
abbrev pub IsBuilt : Suffrage → Type 0
IsBuilt suf = suf.m ≡ by_address [] suf.ns

pub exists-has_address :
    (suf : Suffrage) (a : Text) → IsBuilt suf → exists suf a ≡ has_address a suf.ns
unfolding exists
exists-has_address suf a built = rw built (ground (arith, exists-by_address a suf.ns []))

passed :
    (suf new : Suffrage) (threshold : Threshold) (expels : List ExpelOperation)
    → with_expels suf threshold expels ≡ ok new
    → new_suffrage (without expels suf.ns) ≡ ok new
unfolding with_expels
passed suf new threshold expels h =
    elim (Bool-cases
      (any (λ op. ltb (length (node_signs op)) (expel_threshold suf threshold expels)) expels)) [
        | inl short ↦ cc (rw short at h)
        | inr enough ↦ rw enough at h
      ]

of_nodes-IsBuilt :
    (l : List Node) (suf : Suffrage) → of_nodes l ≡ ok suf → IsBuilt suf × (l ≡ suf.ns)
unfolding of_nodes
of_nodes-IsBuilt l suf h = elim (Bool-cases (is_duplicated [] (addresses l))) [
  | inl dup ↦ cc (rw dup at h)
  | inr distinct ↦
      let e : ok (record { m = by_address [] l; ns = l }) ≡ ok suf = rw distinct at h in
      ground arith
]

abbrev or_nil_node : Option (List Node) → Result Suffrage
or_nil_node o = elim o [ none ↦ err nil_node | some l ↦ of_nodes l ]

or_nil_node-IsBuilt :
    (o : Option (List Node)) (suf : Suffrage)
    → or_nil_node o ≡ ok suf
    → IsBuilt suf × (o ≡ some suf.ns)
or_nil_node-IsBuilt none suf h = cc
or_nil_node-IsBuilt (some l) suf h = let (built, e) = of_nodes-IsBuilt l suf h in (built, ap some e)

new_suffrage-IsBuilt :
    (l : List (Option Node)) (suf : Suffrage)
    → new_suffrage l ≡ ok suf
    → IsBuilt suf × (non_nil l ≡ some suf.ns)
unfolding new_suffrage
new_suffrage-IsBuilt [] suf h = cc
new_suffrage-IsBuilt (n ∷ ns) suf h = or_nil_node-IsBuilt (non_nil (n ∷ ns)) suf h

-- When a suffrage is reduced by expels, exactly the nodes of the old one that are not expelled are
-- in the new one, and the new one is built of its nodes again.
pub exists-new_suffrage_with_expels :
    (suf new : Suffrage) (threshold : Threshold) (expels : List ExpelOperation) (a : Text)
    → IsBuilt suf
    → new_suffrage_with_expels suf threshold expels ≡ ok new
    → IsBuilt new × (exists new a ≡ (exists suf a && not (is_expelled a expels)))
unfolding new_suffrage_with_expels
exists-new_suffrage_with_expels suf new threshold [] a built h = (ground arith, ground arith)
exists-new_suffrage_with_expels suf new threshold (op ∷ ops) a built h =
    let made : new_suffrage (without (op ∷ ops) suf.ns) ≡ ok new =
      passed suf new threshold (op ∷ ops) h in
    let (built', nodes) = new_suffrage-IsBuilt (without (op ∷ ops) suf.ns) new made in
    let kept : remaining_nodes (op ∷ ops) suf.ns ≡ new.ns =
      some_eq (sym (non_nil-without (op ∷ ops) suf.ns) ∙ nodes) in
    (
      built',
      exists-has_address new a built'
          ∙ ap (has_address a) (sym kept)
          ∙ has_address-remaining a (op ∷ ops) suf.ns
          ∙ ap (λ x. x && not (is_expelled a (op ∷ ops))) (sym (exists-has_address suf a built)),
    )
  where
    some_eq : {x y : List Node} → some x ≡ some y → x ≡ y
    some_eq e = cc
