-- ===== src/Isaac/ExpelVoting/Tests.antt =====
-- Runs of isaac/suffrage_voting.go and of the pool.
use mitum.Prelude.{
  arith, ℕ, ◌≡◌, ◌≢◌, ◌⊎◌, refl, true, false, not, some, List, [], ◌∷◌, Text, text_eq, lookup, any,
  all, pos,
}
use mitum.Base.Threshold.{threshold_of, default_threshold}
use mitum.Isaac.Voteproof.{ExpelOperation, NodeSign}
use mitum.Isaac.Suffrage.{
  Node, Suffrage, err, insufficient_signs, node_signs, exists, len, is_duplicated,
  new_suffrage_with_expels,
}
use mitum.Isaac.ExpelPool.{set_expel, traversed, out_of_height, same_key, later_key}
use mitum.Isaac.ExpelVoting.{
  SuffrageVoting, find_expels, find_expel_combinations, find_from, first_combination, combination,
  at_bits, ones_count, filter_operation, adapted_threshold, suffices, other_signs, filter_all,
  filter_signs, set_node_signs, collect, nodes_of,
}
use mitum.Isaac.ExpelVoting.Found.{find_expels-new_suffrage_with_expels}
use mitum.Isaac.ExpelVoting.First.{NonePasses, FirstPasses, find_expel_combinations-FirstPasses}

abbrev name : ℕ → Text
name n = n ∷ []

abbrev node : ℕ → Node
node n = record { address = name n; publickey = name n }

abbrev four : Suffrage
four = record {
  m = (name 1, node 1) ∷ (name 2, node 2) ∷ (name 3, node 3) ∷ (name 4, node 4) ∷ [];
  ns = node 1 ∷ node 2 ∷ node 3 ∷ node 4 ∷ [];
}

abbrev sign : ℕ → NodeSign
sign n = record { node = name n; signer = name n }

-- To expel a node, from the one height to the other
abbrev expel : ℕ → ℕ → ℕ → List NodeSign → ExpelOperation
expel n start end signs = record {
  hash = name start;
  expel_fact = record {
    hash = name n;
    node = name n;
    expel_start = pos start;
    expel_end = pos end;
  };
  node_signs = signs;
}

abbrev signed_last : ExpelOperation
signed_last = expel 4 3 9 (sign 1 ∷ sign 2 ∷ sign 3 ∷ [])

-- Node 4, which the other operation expels, signed this one.
abbrev signed_by_last : ExpelOperation
signed_by_last = expel 3 3 8 (sign 1 ∷ sign 2 ∷ sign 4 ∷ [])

abbrev voting : SuffrageVoting
voting = record {
  local = name 1;
  exists_in_state = λ h. some false;
  read_fails = false;
  write_fails = false;
  hash_of_operation = λ op. [];
}

abbrev as_is : List ExpelOperation → List ExpelOperation
as_is ops = ops

-- The node that is to be expelled later, until a greater height, hides the other one.
later_start_hides :
    traversed (pos 7) (set_expel (expel 3 5 15 []) (set_expel (expel 4 10 20 []) [])) ≡ []
unfolding traversed set_expel out_of_height same_key later_key text_eq
later_start_hides = refl

-- With two of four nodes to be expelled, the signs of the other two suffice.
abbrev both_filtered : List ExpelOperation
both_filtered =
    record { hash = []; expel_fact = signed_last.expel_fact; node_signs = sign 1 ∷ sign 2 ∷ [] }
    ∷ record {
      hash = [];
      expel_fact = signed_by_last.expel_fact;
      node_signs = sign 1 ∷ sign 2 ∷ [];
    }
    ∷ []

found_both :
    (find_expels as_is as_is voting (pos 5) four (signed_last ∷ signed_by_last ∷ [])).operations
    ≡ some both_filtered
unfolding find_expels traversed out_of_height collect exists lookup text_eq find_expel_combinations
    first_combination find_from combination ones_count at_bits filter_operation adapted_threshold
    threshold_of default_threshold len node_signs suffices other_signs filter_all filter_signs
    is_duplicated set_node_signs
found_both = refl

find_expels-new_suffrage_with_expels_example :
    (new_suffrage_with_expels four default_threshold both_filtered ≢ err insufficient_signs)
    × (all
          (λ op. all (λ s. not (any (text_eq s.node) (nodes_of both_filtered))) (node_signs op))
          both_filtered
        ≡ true)
find_expels-new_suffrage_with_expels_example =
    find_expels-new_suffrage_with_expels as_is as_is voting (pos 5) four
      (signed_last ∷ signed_by_last ∷ []) both_filtered found_both

find_expel_combinations-FirstPasses_example :
    (at_bits 3 (signed_last ∷ signed_by_last ∷ []) ≡ signed_last ∷ signed_by_last ∷ [])
    × (NonePasses as_is four (signed_last ∷ signed_by_last ∷ [])
        ⊎ ((j : ℕ) × FirstPasses as_is four (signed_last ∷ signed_by_last ∷ []) j))
find_expel_combinations-FirstPasses_example =
    find_expel_combinations-FirstPasses as_is four (signed_last ∷ signed_by_last ∷ []) (omega arith)
