-- ===== src/Isaac/Suffrage.antt =====
-- isaac/suffrage.go: the nodes that vote, with and without expelled ones.
pub mod Expels
pub mod Distinct
pub mod Signed
mod Tests
use mitum.Prelude.{
  ℕ, ◌+◌, ◌-◌, ◌%◌, ◌^◌, Bool, true, false, not, Option, none, some, List, [], ◌∷◌, ltb, ltb_ℤ,
  if◌then◌else◌, length, Text, text_eq, lookup, insert, any, all, is_some, keep_if,
}
use mitum.Base.Point.{Height}
use mitum.Base.Threshold.{Threshold, threshold_of}
use mitum.Isaac.Voteproof.{ExpelOperation, NodeSign}

pub record Node : Type 0 where
  pub address : Text
  pub publickey : Text

pub record Suffrage : Type 0 where
  pub m : List (Text × Node)
  pub ns : List Node

pub data SuffrageError : Type 0 where
  empty_nodes nil_node duplicated_node insufficient_signs : SuffrageError

pub data Result {ℓ} (A : Type ℓ) : Type ℓ where
  ok : A → Result A
  err : SuffrageError → Result A

-- `IsDuplicatedSlice`, over the keys of the slice
unfoldable pub is_duplicated : List Text → List Text → Bool
is_duplicated seen [] = false
is_duplicated seen (k ∷ ks) = if any (text_eq k) seen then true else is_duplicated (k ∷ seen) ks

unfoldable pub addresses : List Node → List Text
addresses [] = []
addresses (n ∷ ns) = n.address ∷ addresses ns

unfoldable pub by_address : List (Text × Node) → List Node → List (Text × Node)
by_address m [] = m
by_address m (n ∷ ns) = by_address (insert n.address n m) ns

-- The loop refuses a nil node, which `none` stands for.
pub non_nil : List (Option Node) → Option (List Node)
non_nil [] = some []
non_nil (none ∷ ns) = none
non_nil (some n ∷ ns) = elim (non_nil ns) [ none ↦ none | some rest ↦ some (n ∷ rest) ]

of_nodes : List Node → Result Suffrage
unfolding is_duplicated addresses by_address
of_nodes ns =
    if is_duplicated [] (addresses ns)
    then err duplicated_node
    else ok (record { m = by_address [] ns; ns = ns })

unfoldable pub new_suffrage : List (Option Node) → Result Suffrage
unfolding non_nil of_nodes
new_suffrage [] = err empty_nodes
new_suffrage (n ∷ ns) = elim (non_nil (n ∷ ns)) [ none ↦ err nil_node | some l ↦ of_nodes l ]

unfoldable pub exists : Suffrage → Text → Bool
unfolding lookup
exists suf node = is_some (lookup node suf.m)

has_key : Option Node → Text → Bool
has_key none publickey = false
has_key (some n) publickey = text_eq n.publickey publickey

unfoldable pub exists_publickey : Suffrage → Text → Text → Bool
unfolding has_key lookup
exists_publickey suf node publickey = has_key (lookup node suf.m) publickey

unfoldable pub len : Suffrage → ℕ
len suf = length suf.ns

-- `a - b` of the type `uint`
abbrev pub sub_uint : ℕ → ℕ → ℕ
sub_uint a b = (a + 2 ^ 64 - b) % 2 ^ 64

-- `SuffrageExpelOperation.NodeSigns`: the node to be expelled does not sign.
unfoldable pub node_signs : ExpelOperation → List NodeSign
node_signs op = keep_if (λ s. not (text_eq op.expel_fact.node s.node)) op.node_signs

-- `Filter2Slices` of the nodes by the expels
pub without : List ExpelOperation → List Node → List (Option Node)
without expels [] = []
without expels (n ∷ ns) =
    if any (λ op. text_eq n.address op.expel_fact.node) expels
    then without expels ns
    else some n ∷ without expels ns

expel_threshold : Suffrage → Threshold → List ExpelOperation → ℕ
unfolding len
expel_threshold suf threshold expels =
    let th = threshold_of threshold (len suf) in
    let n = length expels in if ltb (sub_uint (len suf) th) n then sub_uint (len suf) n else th

with_expels : Suffrage → Threshold → List ExpelOperation → Result Suffrage
unfolding expel_threshold node_signs
with_expels suf threshold expels =
    if any (λ op. ltb (length (node_signs op)) (expel_threshold suf threshold expels)) expels
    then err insufficient_signs
    else new_suffrage (without expels suf.ns)

pub new_suffrage_with_expels : Suffrage → Threshold → List ExpelOperation → Result Suffrage
new_suffrage_with_expels suf threshold [] = ok suf
new_suffrage_with_expels suf threshold (op ∷ ops) = with_expels suf threshold (op ∷ ops)

-- isaac/suffrage_operation.go, `IsValidExpelWithSuffrage`
unfoldable pub is_valid_expel_with_suffrage : Height → ExpelOperation → Suffrage → Bool
unfolding exists exists_publickey node_signs
is_valid_expel_with_suffrage height expel suf =
    if ltb_ℤ expel.expel_fact.expel_end height
    then false
    else if not (exists suf expel.expel_fact.node)
    then false
    else all (λ s. exists_publickey suf s.node s.signer) (node_signs expel)
