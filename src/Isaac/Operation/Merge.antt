-- ===== src/Isaac/Operation/Merge.antt =====
-- isaac/operation/suffrage_join_processor.go, `SuffrageJoinStateValueMerger`: the changes of a block
-- make the next suffrage.
pub mod Members
mod Tests
use mitum.Prelude.{
  ℕ, ◌+◌, ◌&&◌, Bool, true, false, Option, none, some, List, [], ◌∷◌, ◌++◌, ◌+ℤ◌, pos, wrap64,
  if◌then◌else◌, Text, text_eq, any, is_nil,
}
use mitum.Base.Point.{Height}
use mitum.Isaac.Suffrage.{Node}
use mitum.Isaac.Operation.{SuffrageNode, filter_2_slices}

pub record SuffrageMerger : Type 0 where
  pub at_height : Height
  pub existing_height : Height
  pub existing : List SuffrageNode
  pub joined : List Node
  pub disjoined : List Text

-- The values of the operations: `suffrageJoinNodeStateValue`, `suffrageDisjoinNodeStateValue`, and
-- any other
pub data SuffrageChange : Type 0 where
  join_nodes : List Node → SuffrageChange
  disjoin_node : Text → SuffrageChange
  unsupported : SuffrageChange

-- `NewSuffrageJoinStateValueMerger`
pub new_merger : Height → Height → List SuffrageNode → SuffrageMerger
new_merger height existing_height existing = record {
  at_height = height;
  existing_height = existing_height;
  existing = existing;
  joined = [];
  disjoined = [];
}

-- `Merge`; `none` is an error.
pub merge : SuffrageMerger → SuffrageChange → Option SuffrageMerger
merge s (join_nodes nodes) = some (record s { joined = s.joined ++ nodes })
merge s (disjoin_node node) = some (record s { disjoined = s.disjoined ++ (node ∷ []) })
merge s unsupported = none

pub start_at : Height → List Node → List SuffrageNode
start_at height [] = []
start_at height (n ∷ ns) = record { member = n; start = height } ∷ start_at height ns

-- `closeValue`: the height and the nodes of the next suffrage; `none` asks to ignore the value, since
-- nothing changes. `sort` is `sort.Slice` by the address.
pub close_value : (List Node → List Node) → SuffrageMerger → Option (Height × List SuffrageNode)
unfolding start_at
close_value sort s =
    if is_nil s.disjoined && is_nil s.joined
    then none
    else some (
      wrap64 (s.existing_height +ℤ pos 1),
      filter_2_slices (λ n. n.member.address) s.disjoined s.existing
          ++ start_at (wrap64 (s.at_height +ℤ pos 1)) (sort s.joined),
    )
