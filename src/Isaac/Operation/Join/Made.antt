-- ===== src/Isaac/Operation/Join/Made.antt =====
-- isaac/operation/suffrage_join_processor.go: a new processor, and what an operation makes.
use mitum.Prelude.{
  ◌≤◌, ◌≡◌, ◌≢◌, ◌∙◌, sym, ap, refl, Option, none, some, List, [], ◌∷◌, if◌then◌else◌, Text, lookup,
  times, map,
}
use mitum.Base.Point.{Height}
use mitum.Base.Threshold.{Threshold}
use mitum.Isaac.Suffrage.{Node, Suffrage, Result, ok, err, exists, addresses, non_nil, new_suffrage}
use mitum.Isaac.Suffrage.Distinct.{new_suffrage-distinct, non_nil-nil, non_nil-cons}
use mitum.Isaac.Operation.{
  SuffrageNode, Candidate, Outcome, accepted, refused, fails, last_candidates,
}
use mitum.Isaac.Operation.Join.{
  Join, JoinProcessor, by_candidate, members_of, new_join_processor, process_candidate,
  process_join, joins, unprocessed,
}
use mitum.Isaac.Operation.Join.Runs.{Keyed, by_candidate-Keyed}

-- The addresses of members
abbrev pub members : List SuffrageNode → List Text
members ns = map (λ n. n.member.address) ns

nodes_of : List SuffrageNode → List Node
nodes_of [] = []
nodes_of (n ∷ ns) = n.member ∷ nodes_of ns

addresses-nodes_of : (ns : List SuffrageNode) → addresses (nodes_of ns) ≡ members ns
unfolding addresses nodes_of
addresses-nodes_of [] = refl
addresses-nodes_of (n ∷ ns) = ap (λ l. n.member.address ∷ l) (addresses-nodes_of ns)

non_nil-members_of : (ns : List SuffrageNode) → non_nil (members_of ns) ≡ some (nodes_of ns)
unfolding members_of nodes_of
non_nil-members_of [] = non_nil-nil
non_nil-members_of (n ∷ ns) =
    non_nil-cons n.member (members_of ns) (nodes_of ns) (non_nil-members_of ns)

module _ (height : Height) (threshold : Threshold) (ns : List SuffrageNode)
    (cs : Option (List Candidate)) (p : JoinProcessor) where
  made_of :
      (r : Result Suffrage)
      → new_suffrage (members_of ns) ≡ r
      → (elim r [
        | err e ↦ none
        | ok suf ↦ some (record {
          at_height = height;
          suffrage = suf;
          candidates = by_candidate [] (last_candidates height cs);
          preprocessed = [];
          threshold = threshold;
        })
      ])
        ≡ some p
      → (new_suffrage (members_of ns) ≡ ok p.suffrage)
        × (p.candidates ≡ by_candidate [] (last_candidates height cs))
  made_of (err e) r h = cc
  made_of (ok suf) r h =
      let same = some_eq h in
      (
        r ∙ ap (λ (q : JoinProcessor). ok q.suffrage) same,
        ap (λ (q : JoinProcessor). q.candidates) (sym same),
      )
    where
      some_eq : {x y : JoinProcessor} → some x ≡ some y → x ≡ y
      some_eq e = cc

  pub new_join_processor-Keyed : new_join_processor height threshold (some ns) cs ≡ some p → Keyed p
  unfolding new_join_processor lookup
  new_join_processor-Keyed h k c l =
      let (suf, cands) = made_of (new_suffrage (members_of ns)) refl h in
      by_candidate-Keyed [] (last_candidates height cs) (λ j d e. cc) k c
        (ap (λ m. lookup k m) (sym cands) ∙ l)

  pub new_join_processor-distinct :
      (a : Text)
      → new_join_processor height threshold (some ns) cs ≡ some p
      → times a (members ns) ≤ (if exists p.suffrage a then 1 else 0)
  unfolding new_join_processor
  new_join_processor-distinct a h =
      let (suf, cands) = made_of (new_suffrage (members_of ns)) refl h in
      rw⁻¹ (addresses-nodes_of ns) (
        new_suffrage-distinct (members_of ns) (nodes_of ns) p.suffrage a (non_nil-members_of ns)
          suf)

process_candidate-node :
    (c : Candidate) (a : Text) (n : Node) → process_candidate (some c) ≡ joins a n → c.node ≡ n
unfolding process_candidate
process_candidate-node c a n h = cc

process_candidate-none : (a : Text) (n : Node) → process_candidate none ≢ joins a n
unfolding process_candidate
process_candidate-none a n h = cc

pub process_join-candidate :
    (constraint : Join → Outcome) (p : JoinProcessor) (op : Join) (a : Text) (n : Node)
    → Keyed p
    → process_join constraint p op ≡ joins a n
    → n.address ≡ op.candidate
unfolding process_join
process_join-candidate constraint p op a n keyed h = step (constraint op) h
  where
    made :
        (o : Option Candidate)
        → lookup op.candidate p.candidates ≡ o
        → process_candidate o ≡ joins a n
        → n.address ≡ op.candidate
    made none l h = absurd (process_candidate-none a n h)
    made (some c) l h =
        ap (λ (x : Node). x.address) (sym (process_candidate-node c a n h)) ∙ keyed op.candidate c l

    step :
        (o : Outcome)
        → (elim o [
          | accepted ↦ process_candidate (lookup op.candidate p.candidates)
          | refused ↦ unprocessed refused
          | fails ↦ unprocessed fails
        ])
          ≡ joins a n
        → n.address ≡ op.candidate
    step accepted h = made (lookup op.candidate p.candidates) refl h
    step refused h = cc
    step fails h = cc
