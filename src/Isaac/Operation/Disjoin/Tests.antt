-- ===== src/Isaac/Operation/Disjoin/Tests.antt =====
-- Runs of isaac/operation/suffrage_disjoin_processor.go and isaac/operation/suffrage_expel_processor.go.
use mitum.Prelude.{ℕ, ◌≡◌, refl, [], ◌∷◌, pos, text_eq, lookup}
use mitum.Isaac.Voteproof.{ExpelFact}
use mitum.Isaac.Suffrage.{Node, exists}
use mitum.Isaac.Operation.{Outcome, accepted}
use mitum.Isaac.Operation.Disjoin.{
  Disjoin, DisjoinProcessor, pre_process_disjoin, ExpelProcessor, pre_process_expel,
}

abbrev node : ℕ → Node
node k = record { address = k ∷ []; publickey = k ∷ k ∷ [] }

abbrev leavers : DisjoinProcessor
leavers = record {
  suffrage = (1 ∷ [], record { member = node 1; start = pos 5 }) ∷ [];
  preprocessed = [];
}

abbrev after_leave : DisjoinProcessor
after_leave = record leavers { preprocessed = (1 ∷ []) ∷ [] }

abbrev leave : Disjoin
leave = record { leaving = 1 ∷ []; fact_start = pos 5; signer = 1 ∷ 1 ∷ [] }

abbrev expel_one : ExpelFact
expel_one = record { hash = 9 ∷ []; node = 1 ∷ []; expel_start = pos 30; expel_end = pos 40 }

abbrev expeller : ExpelProcessor
expeller = record {
  at_height = pos 33;
  suffrage = record { m = (1 ∷ [], node 1) ∷ (2 ∷ [], node 2) ∷ []; ns = node 1 ∷ node 2 ∷ [] };
  preprocessed = [];
}

abbrev any_fact : {A : Type 0} → A → Outcome
any_fact a = accepted

leaves : pre_process_disjoin any_fact [] leavers leave ≡ (after_leave, accepted)
unfolding pre_process_disjoin text_eq lookup
leaves = refl

expelled_one :
    pre_process_expel any_fact [] expeller expel_one
    ≡ (record expeller { preprocessed = (1 ∷ []) ∷ [] }, (1 ∷ []) ∷ [], accepted)
unfolding pre_process_expel exists text_eq lookup
expelled_one = refl
