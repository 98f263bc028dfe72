-- ===== src/Isaac/Operation/Merge/Tests.antt =====
-- Runs of isaac/operation/suffrage_join_processor.go.
use mitum.Prelude.{
  ◌↔◌, ℕ, ◌+◌, ◌≤◌, ◌≡◌, refl, some, List, [], ◌∷◌, pos, if◌then◌else◌, text_eq, any, times, lookup,
  insert,
}
use mitum.Base.Threshold.{default_threshold}
use mitum.Isaac.Voteproof.{NodeSign}
use mitum.Isaac.Suffrage.{Node, Suffrage, new_suffrage, exists, addresses}
use mitum.Isaac.Operation.{
  SuffrageNode, Candidate, Outcome, accepted, refused, last_candidates, check_fact_signs,
  filter_2_slices,
}
use mitum.Isaac.Operation.Join.{
  Join, JoinProcessor, new_join_processor, pre_process_join, process_join, joins, unprocessed,
}
use mitum.Isaac.Operation.Join.Accepted.{IsAccepted, pre_process_join-IsAccepted}
use mitum.Isaac.Operation.Join.Runs.{Runs, ends, takes, leaves}
use mitum.Isaac.Operation.Join.Made.{members}
use mitum.Isaac.Operation.Merge.{SuffrageMerger, close_value, start_at}
use mitum.Isaac.Operation.Merge.Members.{
  IsOrder, close_value-members, joins-distinct, Joined, no_more, one_joins, skips,
}

abbrev node : ℕ → Node
node k = record { address = k ∷ []; publickey = (k + 100) ∷ [] }

abbrev member : ℕ → SuffrageNode
member k = record { member = node k; start = pos 0 }

abbrev existing : List SuffrageNode
existing = member 1 ∷ member 2 ∷ []

abbrev candidates : List Candidate
candidates =
    record { node = node 3; start = pos 5; deadline = pos 50 }
    ∷ record { node = node 4; start = pos 5; deadline = pos 9 }
    ∷ record { node = node 5; start = pos 5; deadline = pos 50 }
    ∷ []

abbrev sign : ℕ → NodeSign
sign k = record { node = k ∷ []; signer = (k + 100) ∷ [] }

abbrev join : ℕ → Join
join k = record { candidate = k ∷ []; fact_start = pos 5; signs = sign k ∷ sign 1 ∷ sign 2 ∷ [] }

abbrev two : Suffrage
two = record { m = (1 ∷ [], node 1) ∷ (2 ∷ [], node 2) ∷ []; ns = node 1 ∷ node 2 ∷ [] }

abbrev fresh : JoinProcessor
fresh = record {
  at_height = pos 33;
  suffrage = two;
  candidates =
      (3 ∷ [], record { node = node 3; start = pos 5; deadline = pos 50 })
      ∷ (5 ∷ [], record { node = node 5; start = pos 5; deadline = pos 50 })
      ∷ [];
  preprocessed = [];
  threshold = default_threshold;
}

abbrev after : JoinProcessor
after = record fresh { preprocessed = (3 ∷ []) ∷ [] }

abbrev any_join : Join → Outcome
any_join op = accepted

-- The constraint of the processing lets node 5 not join.
abbrev not_five : Join → Outcome
not_five op = if text_eq op.candidate (5 ∷ []) then refused else accepted

abbrev after_both : JoinProcessor
after_both = record fresh { preprocessed = (5 ∷ []) ∷ (3 ∷ []) ∷ [] }

-- The candidate of the deadline 9 is left out.
made : new_join_processor (pos 33) default_threshold (some existing) (some candidates) ≡ some fresh
unfolding new_join_processor new_suffrage last_candidates text_eq lookup insert
made = refl

takes_three : pre_process_join any_join fresh (join 3) ≡ (after, accepted)
unfolding pre_process_join exists check_fact_signs default_threshold text_eq lookup
takes_three = refl

takes_five : pre_process_join any_join after (join 5) ≡ (after_both, accepted)
unfolding pre_process_join exists check_fact_signs default_threshold text_eq lookup
takes_five = refl

again : pre_process_join any_join after (join 3) ≡ (after, refused)
unfolding pre_process_join text_eq lookup
again = refl

three_joins : process_join not_five after_both (join 3) ≡ joins (3 ∷ []) (node 3)
unfolding process_join text_eq lookup
three_joins = refl

five_stays_out : process_join not_five after_both (join 5) ≡ unprocessed refused
unfolding process_join text_eq lookup
five_stays_out = refl

abbrev changes : SuffrageMerger
changes = record {
  at_height = pos 33;
  existing_height = pos 7;
  existing = existing;
  joined = node 3 ∷ [];
  disjoined = (1 ∷ []) ∷ [];
}

abbrev next_members : List SuffrageNode
next_members = member 2 ∷ record { member = node 3; start = pos 34 } ∷ []

abbrev as_is : List Node → List Node
as_is ns = ns

as_is-IsOrder : IsOrder as_is
as_is-IsOrder = record { same = λ a ns. refl }

closed : close_value as_is changes ≡ some (pos 8, next_members)
unfolding close_value filter_2_slices start_at text_eq
closed = refl

close_value-members_example :
    times (3 ∷ []) (members next_members)
    ≡ (if any (text_eq (3 ∷ [])) ((1 ∷ []) ∷ []) then 0 else times (3 ∷ []) (members existing))
      + times (3 ∷ []) (addresses (node 3 ∷ []))
close_value-members_example =
    close_value-members as_is as_is-IsOrder changes (pos 8) next_members (3 ∷ []) closed

one_run : Runs any_join fresh (join 3 ∷ join 5 ∷ []) after_both
one_run = takes fresh after after_both (join 3) (join 5 ∷ []) takes_three (
    leaves after after after_both (join 3) (join 5 ∷ []) refused (λ h. cc) again
      (takes after after_both after_both (join 5) [] takes_five (ends after_both)))

after_both-Joined : Joined not_five after_both (join 3 ∷ join 5 ∷ []) (node 3 ∷ [])
after_both-Joined =
    one_joins (join 3) (join 5 ∷ []) (3 ∷ []) (node 3) [] three_joins
      (skips (join 5) [] refused [] five_stays_out no_more)

joins-distinct_example : times (3 ∷ []) (members next_members) ≤ 1
joins-distinct_example =
    joins-distinct any_join not_five as_is as_is-IsOrder (pos 33) (pos 8) default_threshold
      (some candidates) existing next_members fresh after_both (join 3 ∷ join 5 ∷ []) (node 3 ∷ [])
      changes (3 ∷ []) made one_run after_both-Joined refl refl closed

pre_process_join-IsAccepted_example :
    (pre_process_join any_join fresh (join 3) ≡ (after, accepted))
    ↔ IsAccepted any_join fresh (join 3) after
pre_process_join-IsAccepted_example = pre_process_join-IsAccepted any_join fresh (join 3) after
