-- ===== src/Isaac/Operation/Candidates/Once.antt =====
-- isaac/operation/suffrage_candidate_processor.go: a candidate is one once.
use mitum.Prelude.{
  ◌≡◌, ◌∙◌, ◌⊎◌, sym, refl, subst, Bool, true, false, Option, none, some, List, [], ◌∷◌, leb_ℤ,
  if◌then◌else◌, Text, text_eq, text_eq_iff, lookup, insert, lookup-insert, any, is_some, keep_if,
  Bool-cases, inl, inr,
}
use mitum.Base.Point.{Height}
use mitum.Isaac.Suffrage.{Node}
use mitum.Isaac.Operation.{SuffrageNode, Candidate, Outcome, refused, last_candidates}
use mitum.Isaac.Operation.Join.{by_candidate}
use mitum.Isaac.Operation.Candidates.{
  CandidateProcessor, new_candidate_processor, note, after_record, by_constraint,
  pre_process_candidate,
}

module _ (f : Candidate → Bool) where
  by_candidate-kept :
      (cs : List Candidate) (m : List (Text × Candidate))
      → ((k : Text) (c : Candidate) → lookup k m ≡ some c → f c ≡ true)
      → (k : Text) (c : Candidate) → lookup k (by_candidate m (keep_if f cs)) ≡ some c
      → f c ≡ true
  unfolding by_candidate
  by_candidate-kept [] m all_f k c h = all_f k c h
  by_candidate-kept (d ∷ cs) m all_f k c h = elim (Bool-cases (f d)) [
    | inr out ↦ by_candidate-kept cs m all_f k c (rw out at h)
    | inl kept ↦
        by_candidate-kept cs (insert d.node.address d m)
          (λ j e l.
            step kept j e (Bool-cases (text_eq d.node.address j))
              (sym (lookup-insert d.node.address j d m) ∙ l))
          k c (rw kept at h)
  ]
    where
      step :
          f d ≡ true
          → (j : Text) (e : Candidate)
          → (text_eq d.node.address j ≡ true) ⊎ (text_eq d.node.address j ≡ false)
          → (if text_eq d.node.address j then some d else lookup j m) ≡ some e
          → f e ≡ true
      step kept j e (inl same) l =
          let it : d ≡ e = cc (rw same at l) in subst (λ x. f x ≡ true) it kept
      step kept j e (inr other) l = all_f j e (rw other at l)

-- No candidate that the processor knows has passed its deadline.
abbrev pub Unexpired : CandidateProcessor → Type 0
Unexpired p =
    (k : Text) (c : Candidate) → lookup k p.existings ≡ some c → leb_ℤ p.at_height c.deadline ≡ true

pub new_candidate_processor-Unexpired :
    (height : Height) (ns : Option (List SuffrageNode)) (cs : Option (List Candidate))
    (lifespan : Height)
    → Unexpired (new_candidate_processor height ns cs lifespan)
unfolding new_candidate_processor last_candidates by_candidate lookup
new_candidate_processor-Unexpired height ns none lifespan k c h = cc
new_candidate_processor-Unexpired height ns (some cs) lifespan k c h =
    by_candidate-kept (λ i. leb_ℤ height i.deadline) cs [] (λ j d e. cc) k c h

-- Whatever comes of an operation, its node is noted, or is a member, or was noted before.
Known : CandidateProcessor → Text → Type 0
Known p a = (any (text_eq a) p.preprocessed ≡ true) ⊎ (is_some (lookup a p.suffrages) ≡ true)

Known-refused :
    (constraint : Node → Outcome) (p : CandidateProcessor) (fact : Node)
    → Known p fact.address
    → pre_process_candidate constraint p fact ≡ (p, refused)
unfolding Known pre_process_candidate
Known-refused constraint p fact (inl e) = rw e refl
Known-refused constraint p fact (inr e) =
    elim (Bool-cases (any (text_eq fact.address) p.preprocessed)) [
      | inl d ↦ rw d refl
      | inr d ↦ rw (d, e) refl
    ]

note-Known : (p : CandidateProcessor) (a : Text) → Known (note p a) a
unfolding Known note
note-Known p a = inl (rw ((text_eq_iff a a).1 refl) refl)

module _ (constraint : Node → Outcome) (p p' : CandidateProcessor) (fact : Node) (o : Outcome) where
  by_constraint-same :
      (r : Outcome) (q : CandidateProcessor) (b : Bool) → by_constraint r (q, b) ≡ (p', o) → q ≡ p'
  unfolding by_constraint
  by_constraint-same r q true h = cc
  by_constraint-same r q false h = cc

  after_record-Known :
      (x : Option Candidate)
      → ((c : Candidate) → x ≡ some c → leb_ℤ p.at_height c.deadline ≡ true)
      → by_constraint (constraint fact) (after_record p fact.address x) ≡ (p', o)
      → Known p' fact.address
  unfolding after_record
  after_record-Known none live h =
      subst (λ q. Known q fact.address)
        (by_constraint-same (constraint fact) (note p fact.address) true h)
        (note-Known p fact.address)
  after_record-Known (some c) live h =
      subst (λ q. Known q fact.address)
        (by_constraint-same (constraint fact) (note p fact.address) false (rw (live c refl) at h))
        (note-Known p fact.address)

  pre_process_candidate-Known :
      Unexpired p → pre_process_candidate constraint p fact ≡ (p', o) → Known p' fact.address
  unfolding pre_process_candidate
  pre_process_candidate-Known live h =
      elim (Bool-cases (any (text_eq fact.address) p.preprocessed)) [
        | inl e ↦
            let same : p ≡ p' = cc (rw e at h) in
            subst (λ q. Known q fact.address) same (unfold Known in inl e)
        | inr new ↦ elim (Bool-cases (is_some (lookup fact.address p.suffrages))) [
          | inl e ↦
              let same : p ≡ p' = cc (rw (new, e) at h) in
              subst (λ q. Known q fact.address) same (unfold Known in inr e)
          | inr outside ↦
              after_record-Known (lookup fact.address p.existings) (λ c. live fact.address c)
                (rw (new, outside) at h)
        ]
      ]

-- When no candidate that the processor knows has passed its deadline, then after an operation of a
-- node, whatever comes of it, any other of the same node is refused.
pub candidate_once :
    (constraint other : Node → Outcome) (p p' : CandidateProcessor) (fact again : Node)
    (o : Outcome)
    → Unexpired p
    → pre_process_candidate constraint p fact ≡ (p', o)
    → again.address ≡ fact.address
    → pre_process_candidate other p' again ≡ (p', refused)
candidate_once constraint other p p' fact again o live h same =
    Known-refused other p' again
      (subst (Known p') (sym same) (pre_process_candidate-Known constraint p p' fact o live h))
