-- ===== src/Util/FixedTree/Writer/Tests.antt =====
-- Runs of util/fixedtree.
use native.Mathlib.Numerals.{towards_suc}
use mitum.Prelude.{
  ℕ, zero, suc, ◌+◌, ◌*◌, ◌/◌, ◌^◌, ◌≡◌, ◌≤◌, ◌<◌, refl, Bool, true, false, none, some, [], ◌∷◌,
  ltb, if◌then◌else◌, length, Bool-cases, inl, inr, arith,
}
use mitum.Util.FixedTree.{
  set_hash, Platform, Node, hash_is_valid, ok, Nodes, children, children_nodes, node_hash,
  index_height, position, hash_with, bytes_of,
}
use mitum.Util.FixedTree.Index.{IsLog2, children_lem}
use mitum.Util.FixedTree.Writer.{
  generate_node_hash, generate_from, generate_nodes_hash, hash_of_node, put_hash, hash_at,
  tree_is_valid,
}
use mitum.Util.FixedTree.Writer.Generated.{IsHash, NoneEmpty, tree_is_valid-generate}

-- The logarithm by halving
halvings : ℕ → ℕ → ℕ
halvings zero n = 0
halvings (suc f) n = let more = suc (halvings f (n / 2)) in if ltb n 2 then 0 else more

halvings-row :
    (f n : ℕ) → 1 ≤ n → n < 2 * 2 ^ f → (2 ^ halvings f n ≤ n) × (n < 2 * 2 ^ halvings f n)
unfolding halvings
halvings-row zero n h l = omega arith
halvings-row (suc f) n h l = elim (Bool-cases (ltb n 2)) [
  | inl e ↦ rw e (ground arith)
  | inr e ↦
      let big : 2 ≤ n = ground arith in
      let l2 : n < 4 * 2 ^ f = omega (arith, double f) in
      let (a, b) = halvings-row f (n / 2) (omega arith) (omega arith) in
      rw e (omega (arith, double (halvings f (n / 2))), omega (arith, double (halvings f (n / 2))))
]
  where
    double : (k : ℕ) → 2 ^ suc k ≡ 2 * 2 ^ k
    double k = omega arith

abbrev platform : Platform
platform = record { log2 = λ n. halvings 50 n; sha256 = λ t. length t ∷ [] }

add_one : (k : ℕ) → 2 ^ (k + 1) ≡ 2 * 2 ^ k
add_one k = simp towards_suc (omega arith)

exact : IsLog2 platform.log2
exact = record {
  row = λ n h l.
      let (a, b) = halvings-row 50 n h (omega arith) in (a, omega (arith, add_one (halvings 50 n)));
}

hashes_valid : IsHash platform.sha256
unfolding hash_is_valid
hashes_valid = record { valid = λ t. refl }

abbrev keyed : ℕ → Node
keyed k = record { h = none; key = k ∷ []; isempty = false }

abbrev hashed : ℕ → ℕ → Node
hashed k h = record { h = some (h ∷ []); key = k ∷ []; isempty = false }

abbrev three : Nodes
three = some (keyed 1) ∷ some (keyed 2) ∷ some (keyed 3) ∷ []

abbrev generated : Nodes
generated = some (hashed 1 3) ∷ some (hashed 2 1) ∷ some (hashed 3 1) ∷ []

any_node : ℕ → Node → Bool
any_node i n = true

run_on_three : generate_nodes_hash platform three any_node ≡ ok generated
unfolding generate_nodes_hash generate_from generate_node_hash hash_of_node node_hash hash_with
    bytes_of children_nodes children index_height position halvings any_node put_hash hash_at
    set_hash
run_on_three = refl

none_empty : NoneEmpty three
none_empty zero n e = ground arith
none_empty (suc zero) n e = ground arith
none_empty (suc (suc zero)) n e = ground arith
none_empty (suc (suc (suc j))) n e = cc

tree_is_valid-generate_example : tree_is_valid platform generated ≡ ok true
tree_is_valid-generate_example =
    tree_is_valid-generate platform exact hashes_valid three generated any_node (omega arith)
      none_empty run_on_three

children_lem_example : children platform 8 3 ≡ some (7, 8)
children_lem_example = children_lem platform exact 3 (omega arith) 8
