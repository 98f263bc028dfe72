-- ===== src/Util/FixedTree/Writer/Later.antt =====
-- util/fixedtree/writer.go: what a node does not change, in those that stand after it.
use mitum.Prelude.{
  ℕ, zero, suc, ◌+◌, ◌*◌, ◌^◌, ◌≡◌, ◌≢◌, ◌≤◌, ◌<◌, ◌∙◌, ap, sym, refl, Bool, true, false, Option,
  none, some, [], ◌∷◌, leb, if◌then◌else◌, length, set, length-set, get_elem?-set_self,
  get_elem?-set_ne, Text, arith,
}
use mitum.Util.FixedTree.{
  Platform, Node, set_hash, Nodes, node_at, children, children_of, children_nodes, node_hash,
}
use mitum.Util.FixedTree.Index.{IsLog2, children_lem}
use mitum.Util.FixedTree.Writer.{hash_at, check_at, check_node}

pub node_at-set_ne :
    (nodes : Nodes) (i j : ℕ) (v : Option Node)
    → i ≢ j
    → node_at (set nodes i v) j ≡ node_at nodes j
node_at-set_ne nodes i j v h = rw (get_elem?-set_ne nodes i j v h, node_at) refl

pub node_at-set_self :
    (nodes : Nodes) (i : ℕ) (v : Option Node) → i < length nodes → node_at (set nodes i v) i ≡ v
node_at-set_self nodes i v h = rw (get_elem?-set_self nodes i v h, node_at) refl

pub node_at-lt : (nodes : Nodes) (i : ℕ) (n : Node) → node_at nodes i ≡ some n → i < length nodes
node_at-lt [] i n h = cc
node_at-lt (x ∷ nodes) zero n h = omega arith
node_at-lt (x ∷ nodes) (suc i) n h = omega (arith, node_at-lt nodes i n h)

module _ (p : Platform) (exact : IsLog2 p.log2) where
  -- The children of an index stand after it.
  children_nodes-set :
      (nodes : Nodes) (k j : ℕ) (v : Option Node)
      → k ≤ j
      → j < 2 ^ 47
      → children_nodes p (set nodes k v) j ≡ children_nodes p nodes j
  unfolding children_nodes
  children_nodes-set nodes k j v le small =
      ap (λ n. children_of (set nodes k v) (children p n j)) (length-set nodes k v)
      ∙ ap (children_of (set nodes k v)) (children_lem p exact j small (length nodes))
      ∙ after (leb (length nodes) (2 * j + 1))
      ∙ ap (children_of nodes) (sym (children_lem p exact j small (length nodes)))
    where
      after :
          (b : Bool)
          → children_of (set nodes k v) (if b then none else some (2 * j + 1, 2 * j + 2))
            ≡ children_of nodes (if b then none else some (2 * j + 1, 2 * j + 2))
      after true = refl
      after false =
          rw
            (
              node_at-set_ne nodes k (2 * j + 1) v (omega arith),
              node_at-set_ne nodes k (2 * j + 2) v (omega arith),
            )
            refl

  -- The hash of a node is of its key and of what stands after it.
  pub hash_at-set :
      (nodes : Nodes) (k j : ℕ) (v : Option Node) (n : Node) (h : Option Text)
      → k ≤ j
      → j < 2 ^ 47
      → hash_at p (set nodes k v) j (set_hash n h) ≡ hash_at p nodes j n
  unfolding hash_at node_hash set_hash
  hash_at-set nodes k j v n h le small = rw (children_nodes-set nodes k j v le small) refl

  check_at-set :
      (nodes : Nodes) (k j : ℕ) (v o : Option Node)
      → k < j
      → j < 2 ^ 47
      → check_at p (set nodes k v) j o ≡ check_at p nodes j o
  unfolding check_at hash_at
  check_at-set nodes k j v none lt small = refl
  check_at-set nodes k j v (some n) lt small =
      rw (children_nodes-set nodes k j v (omega arith) small) refl

  pub check_node-set :
      (nodes : Nodes) (k j : ℕ) (v : Option Node)
      → k < j
      → j < 2 ^ 47
      → check_node p (set nodes k v) j ≡ check_node p nodes j
  unfolding check_node
  check_node-set nodes k j v lt small =
      ap (check_at p (set nodes k v) j) (node_at-set_ne nodes k j v (omega arith))
      ∙ check_at-set nodes k j v (node_at nodes j) lt small
