-- ===== src/Isaac/Suffrage/Signed.antt =====
-- isaac/suffrage.go: expels that are signed by enough nodes.
use mitum.Prelude.{
  ℕ, ◌≡◌, ◌≢◌, inl, inr, false, Option, none, some, List, [], ◌∷◌, ltb, if◌then◌else◌, length, any,
  Bool-cases,
}
use mitum.Base.Threshold.{Threshold, threshold_of}
use mitum.Isaac.Voteproof.{ExpelOperation}
use mitum.Isaac.Suffrage.{
  Node, Suffrage, err, insufficient_signs, nil_node, len, sub_uint, node_signs, expel_threshold,
  with_expels, new_suffrage, new_suffrage_with_expels, non_nil, of_nodes, is_duplicated, addresses,
  without,
}

-- The number of signs that so many expels want
abbrev pub signs_wanted : Suffrage → Threshold → ℕ → ℕ
signs_wanted suf threshold n =
    if ltb (sub_uint (len suf) (threshold_of threshold (len suf))) n
    then sub_uint (len suf) n
    else threshold_of threshold (len suf)

of_nodes_fails : (l : List Node) → of_nodes l ≢ err insufficient_signs
unfolding of_nodes
of_nodes_fails l h = elim (Bool-cases (is_duplicated [] (addresses l))) [
  | inl e ↦ cc (rw e at h)
  | inr e ↦ cc (rw e at h)
]

new_suffrage_fails : (ns : List (Option Node)) → new_suffrage ns ≢ err insufficient_signs
unfolding new_suffrage
new_suffrage_fails [] h = cc
new_suffrage_fails (n ∷ ns) h = by_nodes (non_nil (n ∷ ns)) h
  where
    by_nodes :
        (o : Option (List Node))
        → elim o [ none ↦ err nil_node | some l ↦ of_nodes l ] ≢ err insufficient_signs
    by_nodes none h = cc
    by_nodes (some l) h = of_nodes_fails l h

-- Expels, each of which has the signs that are wanted for so many, are not refused for their signs.
pub enough_signs :
    (suf : Suffrage) (threshold : Threshold) (ops : List ExpelOperation)
    → any (λ op. ltb (length (node_signs op)) (signs_wanted suf threshold (length ops))) ops ≡ false
    → new_suffrage_with_expels suf threshold ops ≢ err insufficient_signs
unfolding new_suffrage_with_expels with_expels expel_threshold
enough_signs suf threshold [] h e = cc
enough_signs suf threshold (op ∷ ops) h e =
    new_suffrage_fails (without (op ∷ ops) suf.ns) (rw h at e)
