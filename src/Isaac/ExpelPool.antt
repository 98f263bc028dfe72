-- ===== src/Isaac/ExpelPool.antt =====
-- isaac/database/pool.go: the pool of the operations that expel a node.
use mitum.Prelude.{
  Bool, not, ◌&&◌, ◌||◌, Option, none, some, List, [], ◌∷◌, ltb_ℤ, eqb_ℤ, if◌then◌else◌, Text,
  text_eq, text_lt, any, keep_if,
}
use mitum.Base.Point.{Height}
use mitum.Isaac.Voteproof.{ExpelFact, ExpelOperation}

-- What the storage has under the prefix, in the order in which `Iter` goes through it backwards
abbrev pub ExpelPool : Type 0
ExpelPool = List ExpelOperation

-- The key is made of the end and the hash; heights are not negative, so that the order of their
-- bytes is their order.
unfoldable pub same_key : ExpelFact → ExpelFact → Bool
same_key f g = eqb_ℤ f.expel_end g.expel_end && text_eq f.hash g.hash

unfoldable pub later_key : ExpelFact → ExpelFact → Bool
later_key f g =
    ltb_ℤ g.expel_end f.expel_end || (eqb_ℤ f.expel_end g.expel_end && text_lt g.hash f.hash)

-- `SetSuffrageExpelOperation`
unfoldable pub set_expel : ExpelOperation → ExpelPool → ExpelPool
set_expel op [] = op ∷ []
set_expel op (x ∷ xs) =
    if same_key op.expel_fact x.expel_fact
    then op ∷ xs
    else if later_key op.expel_fact x.expel_fact
    then op ∷ x ∷ xs
    else x ∷ set_expel op xs

unfoldable pub out_of_height : Height → ExpelFact → Bool
out_of_height height fact = ltb_ℤ fact.expel_end height || ltb_ℤ height fact.expel_start

-- `SuffrageExpelOperation`: another node is passed by, and the first one of the node that does not
-- hold at the height ends the search.
unfoldable pub expel_of : Height → Text → ExpelPool → Option ExpelOperation
expel_of height node [] = none
expel_of height node (x ∷ xs) =
    if not (text_eq node x.expel_fact.node)
    then expel_of height node xs
    else if out_of_height height x.expel_fact
    then none
    else some x

-- `TraverseSuffrageExpelOperations`: what the callback is called with, unless it ends before; the
-- first that does not hold at the height ends it.
unfoldable pub traversed : Height → ExpelPool → List ExpelOperation
traversed height [] = []
traversed height (x ∷ xs) =
    if out_of_height height x.expel_fact then [] else x ∷ traversed height xs

-- `RemoveSuffrageExpelOperationsByFact`
unfoldable pub remove_by_fact : List ExpelFact → ExpelPool → ExpelPool
remove_by_fact facts pool = keep_if (λ op. not (any (same_key op.expel_fact) facts)) pool

-- `RemoveSuffrageExpelOperationsByHeight`
unfoldable pub remove_by_height : Height → ExpelPool → ExpelPool
remove_by_height height pool = keep_if (λ op. ltb_ℤ height op.expel_fact.expel_end) pool
