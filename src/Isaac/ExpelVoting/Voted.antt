-- ===== src/Isaac/ExpelVoting/Voted.antt =====
-- isaac/suffrage_voting.go: what a vote for an expel does.
use mitum.Prelude.{◌≡◌, ◌≢◌, ◌⊎◌, Bool, true, ◌&&◌, Option, none, some, List, text_eq, any, all}
use mitum.Isaac.Voteproof.{ExpelOperation, NodeSign}
use mitum.Isaac.Suffrage.{node_signs}
use mitum.Isaac.ExpelPool.{ExpelPool, set_expel, expel_of}
use mitum.Isaac.ExpelVoting.{VotedExpel}

-- A sign of the node is among the signs.
abbrev pub signed_in : List NodeSign → NodeSign → Bool
signed_in signs s = any (λ t. text_eq s.node t.node) signs

-- All signs of the one operation are signed in the other.
abbrev pub Covers : ExpelOperation → ExpelOperation → Type 0
Covers x op = all (signed_in x.node_signs) (node_signs op) ≡ true

-- The sign is among the signs, by its node and its key.
abbrev pub signed_as : List NodeSign → NodeSign → Bool
signed_as signs s = any (λ t. text_eq s.node t.node && text_eq s.signer t.signer) signs

-- The signs of the operation that was in the pool are kept.
abbrev pub Keeps : Option ExpelOperation → ExpelOperation → Type 0
Keeps none x = Unit
Keeps (some old) x = all (signed_as x.node_signs) old.node_signs ≡ true

-- What a vote comes to: the operation is in the pool, with a sign of each node that signed the vote and
-- with all signs that were there, and the callback was told; or nothing has changed.
abbrev pub Comes : ExpelPool → ExpelOperation → VotedExpel → Type 0
Comes pool op r =
    ((r.answer ≡ some true)
      × (x : ExpelOperation) × (r.told ≡ some x)
      × (r.pool ≡ set_expel x pool)
      × (x.expel_fact.node ≡ op.expel_fact.node)
      × Covers x op
      × Keeps (expel_of op.expel_fact.expel_start op.expel_fact.node pool) x)
    ⊎ ((r.answer ≢ some true) × (r.pool ≡ pool) × (r.told ≡ none))
