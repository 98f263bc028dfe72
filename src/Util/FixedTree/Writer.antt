-- ===== src/Util/FixedTree/Writer.antt =====
-- util/fixedtree/writer.go: the hashes of the nodes, from the last to the first; and
-- `Tree.IsValid`.
pub mod Generated
pub mod Later
mod Tests
use mitum.Prelude.{
  ℕ, zero, suc, ◌+◌, ◌-◌, Bool, true, false, not, ◌==◌, Option, none, some, List, [], ◌∷◌, leb, ltb,
  if◌then◌else◌, length, get_elem?, set, Text, text_eq, is_nil,
}
use mitum.Util.FixedTree.{
  Platform, Node, hash_of, set_hash, node_is_valid, Answer, ok, failed, panicked, Nodes, node_at,
  children_nodes, node_hash,
}

-- `Add`
pub add : Nodes → ℕ → Node → Answer Nodes
unfolding set_hash
add nodes index n =
    if leb (length nodes) index then failed else ok (set nodes index (some (set_hash n none)))

-- `shrinkNodes`: nil nodes go, and the others keep their order.
pub shrink_nodes : Nodes → Nodes
shrink_nodes [] = []
shrink_nodes (none ∷ nodes) = shrink_nodes nodes
shrink_nodes (some n ∷ nodes) = some n ∷ shrink_nodes nodes

-- No children are two nil children.
pub or_nil : Option (Option Node × Option Node) → Option Node × Option Node
or_nil none = (none, none)
or_nil (some c) = c

same_hash : Node → Answer Text → Answer Bool
unfolding hash_of
same_hash n failed = failed
same_hash n panicked = panicked
same_hash n (ok h) = elim (hash_of n) [
  | none ↦ panicked
  | some l ↦ if text_eq l h then ok true else failed
]

module _ (p : Platform) where
  pub hash_at : Nodes → ℕ → Node → Answer Text
  unfolding or_nil
  hash_at nodes index n = let c = or_nil (children_nodes p nodes index) in node_hash p n c.0 c.1

  put_hash : Nodes → ℕ → Node → Answer Text → (ℕ → Node → Bool) → Answer Nodes
  put_hash nodes index n failed w = failed
  put_hash nodes index n panicked w = panicked
  put_hash nodes index n (ok h) w =
      if w index (set_hash n (some h))
      then ok (set nodes index (some (set_hash n (some h))))
      else failed

  hash_of_node : Nodes → ℕ → Option Node → (ℕ → Node → Bool) → Answer Nodes
  hash_of_node nodes index none w = failed
  hash_of_node nodes index (some n) w = put_hash nodes index n (hash_at nodes index n) w

  -- `generateNodeHash`; `w` tells whether the node was written.
  pub generate_node_hash : Nodes → ℕ → (ℕ → Node → Bool) → Answer Nodes
  generate_node_hash nodes index w = hash_of_node nodes index (node_at nodes index) w

  -- The rounds of `generateNodesHash` that are left, from the last index down
  pub generate_from : ℕ → Nodes → (ℕ → Node → Bool) → Answer Nodes
  generate_from zero nodes w = ok nodes
  generate_from (suc index) nodes w = elim (generate_node_hash nodes index w) [
    | ok nodes' ↦ generate_from index nodes' w
    | failed ↦ failed
    | panicked ↦ panicked
  ]

  -- `generateNodesHash`
  pub generate_nodes_hash : Nodes → (ℕ → Node → Bool) → Answer Nodes
  unfolding generate_from
  generate_nodes_hash nodes w = generate_from (length nodes) nodes w

  -- `Write`: the tree is made when the root has no hash yet.
  pub write : Nodes → (ℕ → Node → Bool) → Answer Nodes
  unfolding shrink_nodes generate_nodes_hash hash_of
  write nodes w = elim (node_at (shrink_nodes nodes) 0) [
    | none ↦ ok (shrink_nodes nodes)
    | some root ↦ elim (hash_of root) [
      | none ↦ generate_nodes_hash (shrink_nodes nodes) w
      | some h ↦ ok (shrink_nodes nodes)
    ]
  ]

  check_at : Nodes → ℕ → Option Node → Answer Bool
  unfolding same_hash
  check_at nodes index none = failed
  check_at nodes index (some n) =
      if not (node_is_valid n) then failed else same_hash n (hash_at nodes index n)

  -- What `Tree.IsValid` asks of one node
  pub check_node : Nodes → ℕ → Answer Bool
  check_node nodes index = check_at nodes index (node_at nodes index)

  -- The rounds of the traversal that are left
  pub check_from : ℕ → ℕ → Nodes → Answer Bool
  check_from zero index nodes = ok true
  check_from (suc left) index nodes = elim (check_node nodes index) [
    | ok b ↦ check_from left (index + 1) nodes
    | failed ↦ failed
    | panicked ↦ panicked
  ]

  -- `Tree.IsValid`, but for its hint; an empty tree is valid.
  pub tree_is_valid : Nodes → Answer Bool
  unfolding check_from
  tree_is_valid nodes = check_from (length nodes) 0 nodes
