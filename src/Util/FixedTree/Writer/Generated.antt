-- ===== src/Util/FixedTree/Writer/Generated.antt =====
-- util/fixedtree/writer.go: what the generated hashes are worth.
use mitum.Prelude.{
  ℕ, zero, suc, ◌+◌, ◌^◌, ◌≡◌, ◌≤◌, ◌<◌, inl, inr, ◌∙◌, ap, sym, refl, subst, Bool, true, false,
  ◌==◌, Option, none, some, ◌++◌, length, set, length-set, Text, text_eq_iff, is_nil, Bool-cases,
  arith,
}
use mitum.Util.FixedTree.{
  Platform, Node, hash_of, set_hash, node_is_valid, hash_is_valid, Answer, ok, failed, panicked,
  Nodes, node_at, hash_with, bytes_of, node_hash,
}
use mitum.Util.FixedTree.Index.{IsLog2}
use mitum.Util.FixedTree.Writer.{
  hash_at, put_hash, hash_of_node, generate_node_hash, generate_from, generate_nodes_hash,
  same_hash, check_at, check_node, check_from, tree_is_valid,
}
use mitum.Util.FixedTree.Writer.Later.{
  node_at-set_ne, node_at-set_self, node_at-lt, hash_at-set, check_node-set,
}

-- No node of the tree is the empty node.
abbrev pub NoneEmpty : Nodes → Type 0
NoneEmpty nodes = (j : ℕ) (n : Node) → node_at nodes j ≡ some n → n.isempty ≡ false

-- What `sha256` gives is a valid hash.
pub record IsHash (sha256 : Text → Text) : Type 0 where
  pub valid : (t : Text) → hash_is_valid (sha256 t) ≡ true

module _ (p : Platform) (exact : IsLog2 p.log2) (hash : IsHash p.sha256) where
  hash_with-valid :
      (key : Text) (a b : Option Text) (h : Text)
      → hash_with p key a b ≡ ok h
      → hash_is_valid h ≡ true
  unfolding hash_with
  hash_with-valid key (some a) (some b) h e =
      subst (λ (t : Text). hash_is_valid t ≡ true) (ok_eq e) (hash.valid (key ++ (a ++ b)))
    where
      ok_eq : {x y : Text} → ok x ≡ ok y → x ≡ y
      ok_eq e = cc
  hash_with-valid key none b h e = cc
  hash_with-valid key (some a) none h e = cc

  -- A hash that is made is valid, and the key is not empty.
  node_hash-valid :
      (n : Node) (l r : Option Node) (h : Text)
      → node_hash p n l r ≡ ok h
      → (hash_is_valid h ≡ true) × (is_nil n.key ≡ false)
  unfolding node_hash
  node_hash-valid n l r h e = elim (Bool-cases (is_nil n.key)) [
    | inl empty ↦ cc (rw empty at e)
    | inr full ↦ (hash_with-valid n.key (bytes_of p l) (bytes_of p r) h (rw full at e), full)
  ]

  -- What one round does, when it fails on nothing
  record Round (nodes : Nodes) (k : ℕ) (nodes' : Nodes) : Type 0 where
    n : Node
    h : Text
    at : node_at nodes k ≡ some n
    hashed : hash_at p nodes k n ≡ ok h
    put : nodes' ≡ set nodes k (some (set_hash n (some h)))

  module _ (nodes nodes' : Nodes) (k : ℕ) (w : ℕ → Node → Bool) where
    put_hash-Round :
        (n : Node) (r : Answer Text)
        → node_at nodes k ≡ some n
        → hash_at p nodes k n ≡ r
        → put_hash p nodes k n r w ≡ ok nodes'
        → Round nodes k nodes'
    unfolding put_hash
    put_hash-Round n failed at hashed e = cc
    put_hash-Round n panicked at hashed e = cc
    put_hash-Round n (ok h) at hashed e = elim (Bool-cases (w k (set_hash n (some h)))) [
      | inr refused ↦ cc (rw refused at e)
      | inl written ↦ record {
        n = n;
        h = h;
        at = at;
        hashed = hashed;
        put = sym (ok_eq (rw written at e));
      }
    ]
      where
        ok_eq : {x y : Nodes} → ok x ≡ ok y → x ≡ y
        ok_eq e = cc

    hash_of_node-Round :
        (o : Option Node)
        → node_at nodes k ≡ o
        → hash_of_node p nodes k o w ≡ ok nodes'
        → Round nodes k nodes'
    unfolding hash_of_node
    hash_of_node-Round none at e = cc
    hash_of_node-Round (some n) at e = put_hash-Round n (hash_at p nodes k n) at refl e

  hash_at-valid :
      (nodes : Nodes) (k : ℕ) (n : Node) (h : Text)
      → hash_at p nodes k n ≡ ok h
      → (hash_is_valid h ≡ true) × (is_nil n.key ≡ false)
  unfolding hash_at
  hash_at-valid nodes k n h e = node_hash-valid n _ _ h e

  valid_node :
      (n : Node) (h : Text)
      → n.isempty ≡ false
      → is_nil n.key ≡ false
      → hash_is_valid h ≡ true
      → node_is_valid (set_hash n (some h)) ≡ true
  unfolding node_is_valid set_hash
  valid_node n h full key valid = rw (full, key) valid

  own_hash :
      (n : Node) (h : Text) → n.isempty ≡ false → same_hash (set_hash n (some h)) (ok h) ≡ ok true
  unfolding same_hash set_hash hash_of
  own_hash n h full = rw (full, (text_eq_iff h h).1 refl) refl

  -- A node that has its hash passes.
  check_at-hashed :
      (nodes : Nodes) (k : ℕ) (n : Node) (h : Text)
      → n.isempty ≡ false
      → hash_at p nodes k n ≡ ok h
      → k < 2 ^ 47
      → check_at p (set nodes k (some (set_hash n (some h)))) k (some (set_hash n (some h)))
        ≡ ok true
  unfolding check_at
  check_at-hashed nodes k n h full hashed small =
      let (valid, key) = hash_at-valid nodes k n h hashed in
      let v : Option Node = some (set_hash n (some h)) in
      rw (valid_node n h full key valid) (
        ap (same_hash (set_hash n (some h)))
          (hash_at-set p exact nodes k k v n (some h) (omega arith) small ∙ hashed)
        ∙ own_hash n h full)

  -- The nodes from an index on pass the check.
  abbrev Checked : ℕ → Nodes → Type 0
  Checked k nodes = (j : ℕ) → k ≤ j → j < length nodes → check_node p nodes j ≡ ok true

  module _ (nodes nodes' : Nodes) (k : ℕ) (r : Round nodes k nodes')
      (small : length nodes ≤ 2 ^ 47) where
    abbrev hashed_node : Option Node
    hashed_node = some (set_hash r.n (some r.h))

    inside : k < length nodes
    inside = node_at-lt nodes k r.n r.at

    length-Round : length nodes' ≡ length nodes
    length-Round = ap length r.put ∙ length-set nodes k hashed_node

    stays : (j : ℕ) → (k == j) ≡ false → node_at nodes' j ≡ node_at nodes j
    stays j e =
        ap (λ l. node_at l j) r.put ∙ node_at-set_ne nodes k j hashed_node (λ h. ground arith)

    placed : node_at nodes' k ≡ hashed_node
    placed = ap (λ l. node_at l k) r.put ∙ node_at-set_self nodes k hashed_node inside

    NoneEmpty-Round : NoneEmpty nodes → NoneEmpty nodes'
    unfolding set_hash
    NoneEmpty-Round full j n at = elim (Bool-cases (k == j)) [
      | inr e ↦ full j n (sym (stays j e) ∙ at)
      | inl e ↦
          let at_k : node_at nodes' k ≡ some n =
            subst (λ i. node_at nodes' i ≡ some n) (ground arith) at in
          ap (λ (x : Node). x.isempty) (some_eq (sym at_k ∙ placed)) ∙ full k r.n r.at
    ]
      where
        some_eq : {x y : Node} → some x ≡ some y → x ≡ y
        some_eq e = cc

    Checked-Round : NoneEmpty nodes → Checked (suc k) nodes → Checked k nodes'
    unfolding check_node
    Checked-Round full checked j le lt = elim (Bool-cases (k == j)) [
      | inr e ↦
          ap (λ l. check_node p l j) r.put
          ∙ check_node-set p exact nodes k j hashed_node (ground arith)
              (omega (arith, length-Round))
          ∙ checked j (ground arith) (omega (arith, length-Round))
      | inl e ↦
          let same : k ≡ j = ground arith in
          subst (λ i. check_node p nodes' i ≡ ok true) same
            (ap (check_at p nodes' k) placed
              ∙ ap (λ l. check_at p l k hashed_node) r.put
              ∙ check_at-hashed nodes k r.n r.h (full k r.n r.at) r.hashed (omega (arith, inside)))
    ]

  generate_from-Checked :
      (k : ℕ) (nodes nodes' : Nodes) (w : ℕ → Node → Bool)
      → length nodes ≤ 2 ^ 47
      → NoneEmpty nodes
      → Checked k nodes
      → generate_from p k nodes w ≡ ok nodes'
      → Checked 0 nodes'
  unfolding generate_from
  generate_from-Checked zero nodes nodes' w small full checked e =
      subst (Checked 0) (ok_eq e) checked
    where
      ok_eq : {x y : Nodes} → ok x ≡ ok y → x ≡ y
      ok_eq e = cc
  generate_from-Checked (suc k) nodes nodes' w small full checked e =
      step (generate_node_hash p nodes k w) refl e (λ l. generate_from-Checked k l nodes' w)
    where
      step :
          (a : Answer Nodes)
          → generate_node_hash p nodes k w ≡ a
          → (elim a [ ok l ↦ generate_from p k l w | failed ↦ failed | panicked ↦ panicked ])
            ≡ ok nodes'
          → ((l : Nodes)
              → length l ≤ 2 ^ 47
              → NoneEmpty l
              → Checked k l
              → generate_from p k l w ≡ ok nodes'
              → Checked 0 nodes')
          → Checked 0 nodes'
      step (ok l) e h rest =
          let r : Round nodes k l =
            hash_of_node-Round nodes l k w (node_at nodes k) refl
              (unfold generate_node_hash in e) in
          rest l (omega (arith, length-Round nodes l k r small))
            (NoneEmpty-Round nodes l k r small full) (Checked-Round nodes l k r small full checked)
            h
      step failed e h rest = cc
      step panicked e h rest = cc

  check_from-Checked :
      (left index : ℕ) (nodes : Nodes)
      → index + left ≤ length nodes
      → Checked 0 nodes
      → check_from p left index nodes ≡ ok true
  unfolding check_from
  check_from-Checked zero index nodes le checked = refl
  check_from-Checked (suc left) index nodes le checked =
      rw (checked index (omega arith) (omega arith), check_from)
        (check_from-Checked left (index + 1) nodes (omega arith) checked)

  -- When the hashes of a tree are generated, the tree is valid: for up to 2^47 nodes, none of them
  -- the empty node, where the logarithm is exact so far and what the hash function gives is a valid
  -- hash.
  pub tree_is_valid-generate :
      (nodes nodes' : Nodes) (w : ℕ → Node → Bool)
      → length nodes ≤ 2 ^ 47
      → NoneEmpty nodes
      → generate_nodes_hash p nodes w ≡ ok nodes'
      → tree_is_valid p nodes' ≡ ok true
  unfolding tree_is_valid generate_nodes_hash
  tree_is_valid-generate nodes nodes' w small full e =
      check_from-Checked (length nodes') 0 nodes' (omega arith) (
        generate_from-Checked (length nodes) nodes nodes' w small full
          (λ j le lt. absurd (omega arith)) e)
