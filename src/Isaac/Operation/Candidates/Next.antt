-- ===== src/Isaac/Operation/Candidates/Next.antt =====
-- isaac/operation/suffrage_candidate_processor.go: the next candidates.
use mitum.Prelude.{
  ◌+◌, ◌≡◌, ◌∙◌, ◌&&◌, sym, ap, refl, some, List, if◌then◌else◌, Text, text_eq, any, times, is_nil,
  Bool-cases, inl, inr,
}
use mitum.Isaac.Operation.{Candidate, filter_2_slices}
use mitum.Isaac.Operation.Slices.{times-append, times-filter_2_slices}
use mitum.Isaac.Operation.Candidates.{CandidatesMerger, candidate_addresses, close_candidates}

-- `sort.Slice` changes the order only.
pub record IsCandidateOrder (sort : List Candidate → List Candidate) : Type 0 where
  pub same :
      (a : Text) (cs : List Candidate)
      → times a (candidate_addresses (sort cs)) ≡ times a (candidate_addresses cs)

-- The next candidates are those that were added, and of the others those that were not removed.
pub close_candidates-addresses :
    (sort : List Candidate → List Candidate) (s : CandidatesMerger) (cs : List Candidate) (a : Text)
    → IsCandidateOrder sort
    → close_candidates sort s ≡ some cs
    → times a (candidate_addresses cs)
      ≡ (if any (text_eq a) (candidate_addresses s.added)
          then 0
          else if any (text_eq a) s.removes
          then 0
          else times a (candidate_addresses s.existings))
        + times a (candidate_addresses s.added)
unfolding close_candidates
close_candidates-addresses sort s cs a order e =
    elim (Bool-cases (is_nil s.removes && is_nil s.added)) [
      | inl nothing ↦ cc (rw nothing at e)
      | inr some_change ↦
          let kept = filter_2_slices (λ c. c.node.address) s.removes s.existings in
          let made = some_eq (rw some_change at e) in
          ap (λ l. times a (candidate_addresses l)) (sym made)
          ∙ times-append (λ c. c.node.address) a
              (filter_2_slices (λ c. c.node.address) (candidate_addresses s.added) kept)
              (sort s.added)
          ∙ ap (λ k. k + times a (candidate_addresses (sort s.added)))
              (times-filter_2_slices (λ c. c.node.address) a (candidate_addresses s.added) kept)
          ∙ rw
              (
                order.same a s.added,
                times-filter_2_slices (λ (c : Candidate). c.node.address) a s.removes s.existings,
              )
              refl
    ]
  where
    some_eq : {x y : List Candidate} → some x ≡ some y → x ≡ y
    some_eq e = cc
