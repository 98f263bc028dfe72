-- ===== src/Isaac/Suffrage/Tests.antt =====
-- Runs of isaac/suffrage.go.
use mitum.Prelude.{◌≡◌, refl, not, ◌&&◌, ℕ, List, [], ◌∷◌, Text, text_eq, insert, pos}
use mitum.Base.Threshold.{threshold_of, default_threshold}
use mitum.Isaac.Voteproof.{ExpelOperation, NodeSign}
use mitum.Isaac.Suffrage.{
  Node, Suffrage, ok, err, insufficient_signs, by_address, new_suffrage, new_suffrage_with_expels,
  with_expels, exists, without, expel_threshold,
}
use mitum.Isaac.Suffrage.Expels.{IsBuilt, is_expelled, exists-new_suffrage_with_expels}

abbrev name : ℕ → Text
name n = n ∷ []

abbrev node : ℕ → Node
node n = record { address = name n; publickey = name n }

abbrev four : Suffrage
four = record {
  m = (name 1, node 1) ∷ (name 2, node 2) ∷ (name 3, node 3) ∷ (name 4, node 4) ∷ [];
  ns = node 1 ∷ node 2 ∷ node 3 ∷ node 4 ∷ [];
}

abbrev without_last : Suffrage
without_last = record {
  m = (name 1, node 1) ∷ (name 2, node 2) ∷ (name 3, node 3) ∷ [];
  ns = node 1 ∷ node 2 ∷ node 3 ∷ [];
}

abbrev signed_by : List NodeSign → ExpelOperation
signed_by signs = record {
  hash = [];
  expel_fact = record { hash = []; node = name 4; expel_start = pos 3; expel_end = pos 9 };
  node_signs = signs;
}

abbrev sign : ℕ → NodeSign
sign n = record { node = name n; signer = name n }

abbrev expel_last : ExpelOperation
expel_last = signed_by (sign 1 ∷ sign 2 ∷ sign 3 ∷ [])

-- The sign of the node to be expelled does not count.
own_sign :
    new_suffrage_with_expels four default_threshold (signed_by (sign 1 ∷ sign 2 ∷ sign 4 ∷ []) ∷ [])
    ≡ err insufficient_signs
unfolding new_suffrage_with_expels with_expels expel_threshold default_threshold text_eq
    threshold_of
own_sign = refl

expelled : new_suffrage_with_expels four default_threshold (expel_last ∷ []) ≡ ok without_last
unfolding new_suffrage_with_expels with_expels expel_threshold default_threshold text_eq
    threshold_of without new_suffrage insert
expelled = refl

built : IsBuilt four
unfolding by_address insert text_eq
built = refl

exists-new_suffrage_with_expels_example :
    IsBuilt without_last
    × (exists without_last (name 4)
        ≡ (exists four (name 4) && not (is_expelled (name 4) (expel_last ∷ []))))
exists-new_suffrage_with_expels_example =
    exists-new_suffrage_with_expels four without_last default_threshold (expel_last ∷ []) (name 4)
      built expelled
