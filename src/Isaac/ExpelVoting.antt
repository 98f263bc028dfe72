-- ===== src/Isaac/ExpelVoting.antt =====
-- isaac/suffrage_voting.go: votes to expel nodes, and which expels the votes suffice for.
pub mod Enough
pub mod Found
pub mod First
pub mod Voted
pub mod Tests
use mitum.Prelude.{
  ℕ, zero, suc, ◌+◌, ◌-◌, ◌/◌, ◌%◌, ◌^◌, Bool, true, false, not, ◌||◌, ◌==◌, Option, none, some,
  List, [], ◌∷◌, ◌++◌, map, ltb, leb_ℤ, if◌then◌else◌, length, is_nil, Text, text_eq, any, all,
  keep_if,
}
use mitum.Base.Point.{Height, height_prev, genesis_height}
use mitum.Base.Threshold.{threshold_of, default_threshold}
use mitum.Isaac.Voteproof.{ExpelFact, ExpelOperation, NodeSign}
use mitum.Isaac.Suffrage.{Suffrage, exists, len, sub_uint, node_signs, is_duplicated}
use mitum.Isaac.ExpelPool.{
  ExpelPool, set_expel, expel_of, traversed, remove_by_fact, remove_by_height,
}

-- `SuffrageVoting`: the address of the node; what `existsInState` answers, `none` being an error;
-- whether the storage fails to read or to write; and the hash of an operation
pub record SuffrageVoting : Type 0 where
  pub local : Text
  pub exists_in_state : Text → Option Bool
  pub read_fails : Bool
  pub write_fails : Bool
  pub hash_of_operation : ExpelOperation → Text

-- base/base_operation.go, `AddNodeSigns` and `SetNodeSigns`, which `none` refuses
unfoldable pub set_signs : SuffrageVoting → ExpelOperation → List NodeSign → ExpelOperation
set_signs v op signs =
    (let updated = record op { node_signs = signs } in
      record updated { hash = v.hash_of_operation updated })

unfoldable pub updates : List NodeSign → List NodeSign → List NodeSign
updates old signs = keep_if (λ s. not (any (λ t. text_eq s.node t.node) old)) signs

unfoldable pub add_node_signs :
    SuffrageVoting → ExpelOperation → List NodeSign → Option ExpelOperation
unfolding set_signs updates
add_node_signs v op signs =
    if is_nil (updates op.node_signs signs)
    then none
    else some (set_signs v op (op.node_signs ++ updates op.node_signs signs))

unfoldable pub set_node_signs :
    SuffrageVoting → ExpelOperation → List NodeSign → Option ExpelOperation
unfolding set_signs
set_node_signs v op signs =
    if is_duplicated [] (map (λ s. s.node) signs) then none else some (set_signs v op signs)

-- What `Vote` answers, `none` being an error; the pool after it; and what the callback was called
-- with
pub record VotedExpel : Type 0 where
  pub answer : Option Bool
  pub pool : ExpelPool
  pub told : Option ExpelOperation

abbrev not_voted : ExpelPool → VotedExpel
not_voted pool = record { answer = some false; pool = pool; told = none }

-- The end of `merge` and of `Vote`: what was merged is written, and the callback called.
unfoldable pub write_voted : SuffrageVoting → ExpelPool → ExpelOperation → VotedExpel
write_voted v pool op =
    if v.write_fails
    then not_voted pool
    else record { answer = some true; pool = set_expel op pool; told = some op }

unfoldable pub merge_existing :
    SuffrageVoting → ExpelPool → ExpelOperation → ExpelOperation → VotedExpel
unfolding write_voted
merge_existing v pool old op =
    if text_eq old.hash op.hash
    then not_voted pool
    else elim (add_node_signs v old (node_signs op)) [
      | none ↦ not_voted pool
      | some updated ↦ write_voted v pool updated
    ]

merge_expel : SuffrageVoting → ExpelPool → Option ExpelOperation → ExpelOperation → VotedExpel
merge_expel v pool none op = write_voted v pool op
merge_expel v pool (some old) op = merge_existing v pool old op

unless_in_state : SuffrageVoting → ExpelPool → ExpelOperation → Option Bool → VotedExpel
unfolding merge_expel
unless_in_state v pool op none = record { answer = none; pool = pool; told = none }
unless_in_state v pool op (some true) = not_voted pool
unless_in_state v pool op (some false) =
    if v.read_fails
    then record { answer = none; pool = pool; told = none }
    else merge_expel v pool (expel_of op.expel_fact.expel_start op.expel_fact.node pool) op

-- `SuffrageVoting.Vote`
unfoldable pub vote_expel : SuffrageVoting → ExpelPool → ExpelOperation → VotedExpel
unfolding unless_in_state
vote_expel v pool op =
    if text_eq op.expel_fact.node v.local
    then not_voted pool
    else unless_in_state v pool op (v.exists_in_state op.expel_fact.hash)

-- The threshold of so many expels
pub adapted_threshold : Suffrage → ℕ → ℕ
adapted_threshold suf i =
    let th = threshold_of default_threshold (len suf) in
    if ltb (sub_uint (len suf) th) i then sub_uint (len suf) i else th

abbrev pub nodes_of : List ExpelOperation → List Text
nodes_of ops = map (λ op. op.expel_fact.node) ops

-- The signs but of nodes to be expelled
unfoldable pub other_signs : List Text → List NodeSign → List NodeSign
other_signs nodes signs = keep_if (λ s. not (any (text_eq s.node) nodes)) signs

-- `filterOperation`, for a combination of `i` expels
unfoldable pub filter_operation : Suffrage → ℕ → ExpelOperation → Bool
filter_operation suf i op =
    if all (λ s. exists suf s.node) (node_signs op)
    then not (ltb (length (node_signs op)) (adapted_threshold suf i))
    else false

-- The callback: the signs but of those to be expelled suffice for each.
unfoldable pub suffices : Suffrage → List ExpelOperation → Bool
suffices suf ops = not (
    any
      (λ op.
        ltb (length (other_signs (nodes_of ops) (node_signs op)))
          (adapted_threshold suf (length ops)))
      ops)

-- `bits.OnesCount` of so many bits
unfoldable pub ones_count : ℕ → ℕ → ℕ
ones_count zero i = 0
ones_count (suc bits) i = i % 2 + ones_count bits (i / 2)

-- The operations at the bits of `i` that are set
unfoldable pub at_bits : ℕ → List ExpelOperation → List ExpelOperation
at_bits i [] = []
at_bits i (op ∷ ops) = if i % 2 == 1 then op ∷ at_bits (i / 2) ops else at_bits (i / 2) ops

-- `(1 << length) - 1`, which is -1 for more than 63 operations, so that there is no round
pub first_combination : ℕ → ℕ
first_combination n = if ltb 63 n then 0 else 2 ^ n - 1

module _ (by_signs : List ExpelOperation → List ExpelOperation) (suf : Suffrage) where
  -- Whether a combination passes the filter and the callback
  unfoldable pub combination : List ExpelOperation → ℕ → Bool
  combination ops i =
      if all (filter_operation suf (ones_count 64 i)) (at_bits i ops)
      then suffices suf (by_signs (at_bits i ops))
      else false

  -- The loop of `findExpelCombinations`, from a combination downwards
  unfoldable pub find_from : List ExpelOperation → ℕ → List ExpelOperation
  find_from ops zero = []
  find_from ops (suc i) =
      let rest = find_from ops i in
      if combination ops (suc i) then by_signs (at_bits (suc i) ops) else rest

  unfoldable pub find_expel_combinations : List ExpelOperation → List ExpelOperation
  find_expel_combinations ops = find_from ops (first_combination (length ops))

-- `filterSigns`
unfoldable pub filter_signs : SuffrageVoting → List Text → ExpelOperation → Option ExpelOperation
unfolding set_node_signs
filter_signs v nodes op =
    if length (node_signs op) == length (other_signs nodes (node_signs op))
    then some op
    else set_node_signs v op (other_signs nodes (node_signs op))

unfoldable pub filter_all :
    SuffrageVoting → List Text → List ExpelOperation → Option (List ExpelOperation)
filter_all v nodes [] = some []
filter_all v nodes (op ∷ ops) = elim (filter_signs v nodes op) [
  | none ↦ none
  | some x ↦ elim (filter_all v nodes ops) [ none ↦ none | some xs ↦ some (x ∷ xs) ]
]

-- The callback of `Find`: what is collected; and the fact of a node that is not in the suffrage,
-- which ends the traversal
unfoldable pub collect : Suffrage → List ExpelOperation → List ExpelOperation × List ExpelFact
collect suf [] = ([], [])
collect suf (op ∷ ops) =
    let rest = collect suf ops in
    if exists suf op.expel_fact.node then (op ∷ rest.0, rest.1) else ([], op.expel_fact ∷ [])

-- `none` is an error.
pub record FoundExpels : Type 0 where
  pub operations : Option (List ExpelOperation)
  pub pool : ExpelPool

-- The deferred removals, of which an error is ignored
unfoldable pub remove_unknown : SuffrageVoting → List ExpelFact → ExpelPool → ExpelPool
remove_unknown v facts pool = if v.write_fails then pool else remove_by_fact facts pool

unfoldable pub remove_expired : SuffrageVoting → Height → ExpelPool → ExpelPool
remove_expired v h pool =
    if v.read_fails || v.write_fails
    then pool
    else if leb_ℤ genesis_height h
    then remove_by_height h pool
    else pool

-- `SuffrageVoting.Find`, with what `sort.Slice` does by hash and by the number of signs
unfoldable pub find_expels :
    (List ExpelOperation → List ExpelOperation)
    → (List ExpelOperation → List ExpelOperation)
    → SuffrageVoting
    → Height
    → Suffrage
    → ExpelPool
    → FoundExpels
find_expels by_hash by_signs v height suf pool =
    let collected = collect suf (traversed height pool) in
    let found = find_expel_combinations by_signs suf (by_hash collected.0) in
    if v.read_fails then record { operations = none; pool = pool } else record {
      operations = filter_all v (nodes_of found) found;
      pool = remove_expired v (height_prev height) (remove_unknown v collected.1 pool);
    }
