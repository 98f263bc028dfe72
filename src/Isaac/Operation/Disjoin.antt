-- ===== src/Isaac/Operation/Disjoin.antt =====
-- isaac/operation/suffrage_disjoin_processor.go and isaac/operation/suffrage_expel_processor.go: a
-- member leaves the suffrage, or is expelled.
pub mod Gone
mod Tests
use mitum.Prelude.{
  Bool, true, false, not, Option, none, some, List, [], ◌∷◌, ◌++◌, ltb_ℤ, eqb_ℤ, if◌then◌else◌,
  Text, text_eq, lookup, insert, any,
}
use mitum.Base.Point.{Height}
use mitum.Isaac.Voteproof.{ExpelFact}
use mitum.Isaac.Suffrage.{Node, Suffrage, Result, ok, err, new_suffrage, exists}
use mitum.Isaac.Operation.{SuffrageNode, Outcome, accepted, refused, fails}
use mitum.Isaac.Operation.Join.{members_of}
use mitum.Isaac.Operation.Merge.{SuffrageChange, disjoin_node}

-- A disjoin operation, with the signer of its first sign
pub record Disjoin : Type 0 where
  pub leaving : Text
  pub fact_start : Height
  pub signer : Text

pub record DisjoinProcessor : Type 0 where
  pub suffrage : List (Text × SuffrageNode)
  pub preprocessed : List Text

by_member : List (Text × SuffrageNode) → List SuffrageNode → List (Text × SuffrageNode)
by_member m [] = m
by_member m (n ∷ ns) = by_member (insert n.member.address n m) ns

-- `NewSuffrageDisjoinProcessor`; no state is an error.
unfoldable pub new_disjoin_processor : Option (List SuffrageNode) → Option DisjoinProcessor
unfolding by_member
new_disjoin_processor none = none
new_disjoin_processor (some ns) = some (record { suffrage = by_member [] ns; preprocessed = [] })

is_own : Option SuffrageNode → Disjoin → Bool
is_own none op = false
is_own (some stv) op =
    if not (eqb_ℤ op.fact_start stv.start) then false else text_eq op.signer stv.member.publickey

conclude_disjoin : DisjoinProcessor → Disjoin → Outcome → DisjoinProcessor × Outcome
conclude_disjoin p op fails = (p, fails)
conclude_disjoin p op refused = (p, refused)
conclude_disjoin p op accepted = (record p { preprocessed = op.leaving ∷ p.preprocessed }, accepted)

-- `SuffrageDisjoinProcessor.PreProcess`, where the context has the members that were expelled
unfoldable pub pre_process_disjoin :
    (Disjoin → Outcome) → List Text → DisjoinProcessor → Disjoin → DisjoinProcessor × Outcome
unfolding is_own conclude_disjoin
pre_process_disjoin constraint expelled p op =
    if any (text_eq op.leaving) p.preprocessed
    then (p, refused)
    else if any (text_eq op.leaving) expelled
    then (p, refused)
    else if is_own (lookup op.leaving p.suffrage) op
    then conclude_disjoin p op (constraint op)
    else (p, refused)

change_of : Outcome → Text → Option SuffrageChange × Outcome
change_of accepted node = (some (disjoin_node node), accepted)
change_of refused node = (none, refused)
change_of fails node = (none, fails)

-- `SuffrageDisjoinProcessor.Process`
pub process_disjoin : (Disjoin → Outcome) → Disjoin → Option SuffrageChange × Outcome
unfolding change_of
process_disjoin constraint op = change_of (constraint op) op.leaving

pub record ExpelProcessor : Type 0 where
  pub at_height : Height
  pub suffrage : Suffrage
  pub preprocessed : List Text

-- `NewSuffrageExpelProcessor`
unfoldable pub new_expel_processor : Height → Option (List SuffrageNode) → Option ExpelProcessor
unfolding members_of
new_expel_processor height none = none
new_expel_processor height (some ns) = elim (new_suffrage (members_of ns)) [
  | err e ↦ none
  | ok suf ↦ some (record { at_height = height; suffrage = suf; preprocessed = [] })
]

conclude_expel :
    List Text → ExpelProcessor → ExpelFact → Outcome → ExpelProcessor × List Text × Outcome
conclude_expel expelled p fact fails = (p, expelled, fails)
conclude_expel expelled p fact refused = (p, expelled, refused)
conclude_expel expelled p fact accepted =
    (record p { preprocessed = fact.node ∷ p.preprocessed }, expelled ++ (fact.node ∷ []), accepted)

-- `SuffrageExpelProcessor.PreProcess`: the context that it answers holds the member too.
unfoldable pub pre_process_expel :
    (ExpelFact → Outcome)
    → List Text
    → ExpelProcessor
    → ExpelFact
    → ExpelProcessor × List Text × Outcome
unfolding conclude_expel
pre_process_expel constraint expelled p fact =
    if ltb_ℤ p.at_height fact.expel_start
    then (p, expelled, refused)
    else if ltb_ℤ fact.expel_end p.at_height
    then (p, expelled, refused)
    else if any (text_eq fact.node) p.preprocessed
    then (p, expelled, refused)
    else if not (exists p.suffrage fact.node)
    then (p, expelled, refused)
    else conclude_expel expelled p fact (constraint fact)

-- `SuffrageExpelProcessor.Process`
pub process_expel : (ExpelFact → Outcome) → ExpelFact → Option SuffrageChange × Outcome
unfolding change_of
process_expel constraint fact = change_of (constraint fact) fact.node
