-- ===== src/Isaac/Operation/Merge/Members.antt =====
-- isaac/operation/suffrage_join_processor.go: the members of the next suffrage.
use mitum.Prelude.{
  ◌+◌, ◌≤◌, ◌≡◌, ◌∙◌, ◌&&◌, sym, ap, refl, Option, some, List, [], ◌∷◌, ◌+ℤ◌, pos, wrap64,
  if◌then◌else◌, Text, text_eq, any, times, is_nil, Bool-cases, inl, inr, arith,
}
use mitum.Base.Point.{Height}
use mitum.Base.Threshold.{Threshold}
use mitum.Isaac.Suffrage.{Node, addresses}
use mitum.Isaac.Operation.{SuffrageNode, Candidate, Outcome, filter_2_slices}
use mitum.Isaac.Operation.Slices.{times-append, times-filter_2_slices}
use mitum.Isaac.Operation.Join.{
  Join, JoinProcessor, new_join_processor, process_join, joins, unprocessed,
}
use mitum.Isaac.Operation.Join.Runs.{Keyed, candidates_of, Runs, Runs-once, Runs-Keyed}
use mitum.Isaac.Operation.Join.Made.{
  members, new_join_processor-Keyed, new_join_processor-distinct, process_join-candidate,
}
use mitum.Isaac.Operation.Merge.{SuffrageMerger, start_at, close_value}

-- `sort.Slice` changes the order only.
pub record IsOrder (sort : List Node → List Node) : Type 0 where
  pub same : (a : Text) (ns : List Node) → times a (addresses (sort ns)) ≡ times a (addresses ns)

members-start_at :
    (a : Text) (h : Height) (ns : List Node)
    → times a (members (start_at h ns)) ≡ times a (addresses ns)
unfolding start_at addresses
members-start_at a h [] = refl
members-start_at a h (n ∷ ns) = ground (arith, members-start_at a h ns)

module _ (sort : List Node → List Node) (order : IsOrder sort) where
  -- A member of the next suffrage was a member that did not go, or joined, as often as it was one and
  -- as often as it joined.
  pub close_value-members :
      (s : SuffrageMerger) (h : Height) (ns : List SuffrageNode) (a : Text)
      → close_value sort s ≡ some (h, ns)
      → times a (members ns)
        ≡ (if any (text_eq a) s.disjoined then 0 else times a (members s.existing))
          + times a (addresses s.joined)
  unfolding close_value
  close_value-members s h ns a e = elim (Bool-cases (is_nil s.disjoined && is_nil s.joined)) [
    | inl nothing ↦ cc (rw nothing at e)
    | inr some_change ↦
        let made = pair_eq (rw some_change at e) in
        ap (λ l. times a (members l)) (sym made)
        ∙ times-append (λ n. n.member.address) a
            (filter_2_slices (λ n. n.member.address) s.disjoined s.existing)
            (start_at (wrap64 (s.at_height +ℤ pos 1)) (sort s.joined))
        ∙ ap (λ k. k + times a (members (start_at (wrap64 (s.at_height +ℤ pos 1)) (sort s.joined))))
            (times-filter_2_slices (λ n. n.member.address) a s.disjoined s.existing)
        ∙ ap (λ k. (if any (text_eq a) s.disjoined then 0 else times a (members s.existing)) + k)
            (members-start_at a (wrap64 (s.at_height +ℤ pos 1)) (sort s.joined)
              ∙ order.same a s.joined)
  ]
    where
      pair_eq :
          {h h' : Height} {x y : List SuffrageNode}
          → ◌≡◌ {A = Option (Height × List SuffrageNode)} (some (h, x)) (some (h', y))
          → x ≡ y
      pair_eq e = cc

-- The members that come of the accepted operations, by the constraint of their processing
pub data Joined (constraint : Join → Outcome) (p : JoinProcessor)
    : List Join → List Node → Type 0 where
  no_more : Joined constraint p [] []
  one_joins :
      (op : Join) (ops : List Join) (a : Text) (n : Node) (ns : List Node)
      → process_join constraint p op ≡ joins a n
      → Joined constraint p ops ns
      → Joined constraint p (op ∷ ops) (n ∷ ns)
  skips :
      (op : Join) (ops : List Join) (o : Outcome) (ns : List Node)
      → process_join constraint p op ≡ unprocessed o
      → Joined constraint p ops ns
      → Joined constraint p (op ∷ ops) ns

module _ (constraint allows : Join → Outcome) where
  Joined-times :
      (p : JoinProcessor) (ops : List Join) (ns : List Node) (a : Text)
      → Keyed p
      → Joined allows p ops ns
      → times a (addresses ns) ≤ times a (candidates_of ops)
  unfolding addresses
  Joined-times p ops ns a keyed no_more = omega arith
  Joined-times p (op ∷ ops) (n ∷ ns) a keyed (one_joins _ _ b _ _ h rest) =
      rw (process_join-candidate allows p op b n keyed h)
        (ground (arith, Joined-times p ops ns a keyed rest))
  Joined-times p (op ∷ ops) ns a keyed (skips _ _ o _ h rest) =
      ground (arith, Joined-times p ops ns a keyed rest)

  module _ (sort : List Node → List Node) (order : IsOrder sort) where
    -- The join operations of a block leave no node in the next suffrage twice: from a new processor of
    -- the suffrage's state, over any operations, whichever of the accepted ones the constraint of
    -- their processing then lets join, and whoever goes.
    pub joins-distinct :
        (height h : Height) (threshold : Threshold) (cs : Option (List Candidate))
        (existing ns : List SuffrageNode) (p p' : JoinProcessor) (ops : List Join)
        (joined : List Node) (s : SuffrageMerger) (a : Text)
        → new_join_processor height threshold (some existing) cs ≡ some p
        → Runs constraint p ops p'
        → Joined allows p' ops joined
        → s.existing ≡ existing
        → s.joined ≡ joined
        → close_value sort s ≡ some (h, ns)
        → times a (members ns) ≤ 1
    joins-distinct height h threshold cs existing ns p p' ops joined s a made runs joins_them ex jo
          closed =
        let keyed : Keyed p = new_join_processor-Keyed height threshold existing cs p made in
        let before = new_join_processor-distinct height threshold existing cs p a made in
        let once = Runs-once constraint p p' ops a keyed runs in
        let few =
          Joined-times p' ops joined a (Runs-Keyed constraint p p' ops keyed runs) joins_them in
        let all_of = close_value-members sort order s h ns a closed in
        rw (all_of, ex, jo) (ground (arith, before, once, few))
