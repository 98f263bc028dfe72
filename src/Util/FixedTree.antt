-- ===== src/Util/FixedTree.antt =====
-- util/fixedtree: tree.go, node.go and writer.go, a tree of hashes that is kept as a list.
pub mod Index
pub mod Writer
use mitum.Prelude.{
  ℕ, zero, suc, ◌+◌, ◌-◌, ◌*◌, ◌/◌, ◌%◌, ◌^◌, Bool, true, false, not, ◌==◌, Option, none, some,
  List, [], ◌∷◌, ◌++◌, leb, ltb, if◌then◌else◌, length, get_elem?, set, Text, text_eq, is_nil,
  is_some,
}

-- What Go gives: `uint64(math.Log(float64(n)) / math.Log(2))`, and the SHA3 hash of
-- `valuehash.NewSHA256`.
pub record Platform : Type 0 where
  pub log2 : ℕ → ℕ
  pub sha256 : Text → Text

-- `BaseNode`; the hash `none` is a nil `util.Hash`.
pub record Node : Type 0 where
  pub h : Option Text
  pub key : Text
  pub isempty : Bool

pub empty_base_node : Node
empty_base_node = record { h = none; key = []; isempty = true }

-- `Hash`
unfoldable pub hash_of : Node → Option Text
hash_of n = if n.isempty then some [] else n.h

unfoldable pub set_hash : Node → Option Text → Node
set_hash n h = record n { h = h }

-- `Bytes.IsValid`
pub hash_is_valid : Text → Bool
hash_is_valid h = if is_nil h then false else not (ltb 100 (length h))

unfoldable pub node_is_valid : Node → Bool
unfolding hash_is_valid
node_is_valid n =
    if n.isempty
    then true
    else if is_nil n.key
    then false
    else elim n.h [ none ↦ false | some h ↦ hash_is_valid h ]

-- What a function of this package answers; `panicked` is a nil dereference.
pub data Answer {ℓ} (A : Type ℓ) : Type ℓ where
  ok : A → Answer A
  failed panicked : Answer A

-- A nil node is `none`.
abbrev pub Nodes : Type 0
Nodes = List (Option Node)

abbrev pub node_at : Nodes → ℕ → Option Node
node_at nodes i = elim (get_elem? nodes i) [ none ↦ none | some o ↦ o ]

-- `a - b` of the type `uint64`
abbrev pub sub_uint64 : ℕ → ℕ → ℕ
sub_uint64 a b = (a + 2 ^ 64 - b) % 2 ^ 64

pub children_of : Nodes → Option (ℕ × ℕ) → Option (Option Node × Option Node)
children_of nodes none = none
children_of nodes (some (i, j)) = some (node_at nodes i, node_at nodes j)

module _ (p : Platform) where
  pub index_height : ℕ → ℕ
  index_height index = if index == 0 then 0 else p.log2 (index + 1)

  -- The place in a row: the first index of the row is `math.Pow(2, height) - 1`.
  pub position : ℕ → ℕ
  position index = sub_uint64 index (2 ^ index_height index - 1)

  -- `none` is `errNoChildren`.
  pub children : ℕ → ℕ → Option (ℕ × ℕ)
  children size index =
      let i = (2 ^ (index_height index + 1) - 1 + position index * 2) % 2 ^ 64 in
      if leb size i then none else some (i, (i + 1) % 2 ^ 64)

  -- `none` is `errNoParent`.
  pub parent : ℕ → Option ℕ
  parent index =
      if index_height index == 0
      then none
      else let pos = if position index % 2 == 1 then position index - 1 else position index in
        some ((2 ^ (index_height index - 1) - 1 + pos / 2) % 2 ^ 64)

  -- `childrenNodes`; `none` is `errNoChildren`, which leaves both children nil.
  pub children_nodes : Nodes → ℕ → Option (Option Node × Option Node)
  unfolding children_of
  children_nodes nodes index = children_of nodes (children (length nodes) index)

  -- `Hash().Bytes()` of a child; `none` is a panic.
  pub bytes_of : Option Node → Option Text
  unfolding hash_of
  bytes_of none = some []
  bytes_of (some n) = hash_of n

  pub hash_with : Text → Option Text → Option Text → Answer Text
  hash_with key (some lh) (some rh) = ok (p.sha256 (key ++ (lh ++ rh)))
  hash_with key none rh = panicked
  hash_with key (some lh) none = panicked

  -- `nodeHash`
  pub node_hash : Node → Option Node → Option Node → Answer Text
  node_hash self left right =
      if is_nil self.key then failed else hash_with self.key (bytes_of left) (bytes_of right)
