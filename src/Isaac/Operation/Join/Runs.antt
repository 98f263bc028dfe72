-- ===== src/Isaac/Operation/Join/Runs.antt =====
-- isaac/operation/suffrage_join_processor.go: the operations that are accepted, over a run.
use mitum.Prelude.{
  ℕ, ◌+◌, ◌≤◌, ◌≡◌, ◌≢◌, ◌∙◌, sym, ap, refl, subst, true, false, some, List, [], ◌∷◌, if◌then◌else◌,
  Text, text_eq, text_eq_iff, lookup, insert, lookup-insert, any, times, Bool-cases, ◌⊎◌, inl, inr,
  arith,
}
use mitum.Isaac.Suffrage.{exists}
use mitum.Isaac.Operation.{Candidate, Outcome, accepted}
use mitum.Isaac.Operation.Join.{Join, JoinProcessor, by_candidate, pre_process_join}
use mitum.Isaac.Operation.Join.Accepted.{
  IsAccepted, pre_process_join-IsAccepted, pre_process_join-kept,
}

-- Each candidate is kept by its own address.
abbrev pub Keyed : JoinProcessor → Type 0
Keyed p = (k : Text) (c : Candidate) → lookup k p.candidates ≡ some c → c.node.address ≡ k

abbrev pub candidates_of : List Join → List Text
candidates_of [] = []
candidates_of (op ∷ ops) = op.candidate ∷ candidates_of ops

-- A run over operations, with those that are accepted, in their order
pub data Runs (constraint : Join → Outcome)
    : JoinProcessor → List Join → JoinProcessor → Type 0 where
  ends : (p : JoinProcessor) → Runs constraint p [] p
  leaves :
      (p p1 p' : JoinProcessor) (op : Join) (ops : List Join) (r : Outcome)
      → r ≢ accepted
      → pre_process_join constraint p op ≡ (p1, r)
      → Runs constraint p1 ops p'
      → Runs constraint p ops p'
  takes :
      (p p1 p' : JoinProcessor) (op : Join) (ops : List Join)
      → pre_process_join constraint p op ≡ (p1, accepted)
      → Runs constraint p1 ops p'
      → Runs constraint p (op ∷ ops) p'

-- How often a candidate may still be accepted
may : JoinProcessor → Text → ℕ
may p a = if exists p.suffrage a then 0 else if any (text_eq a) p.preprocessed then 0 else 1

noted_in : JoinProcessor → Text → JoinProcessor
noted_in p a = record p { preprocessed = a ∷ p.preprocessed }

may-noted :
    (p : JoinProcessor) (c a : Text)
    → exists p.suffrage c ≡ false
    → any (text_eq c) p.preprocessed ≡ false
    → (if text_eq a c then 1 else 0) + may (noted_in p c) a ≤ may p a
unfolding may noted_in
may-noted p c a n f = elim (Bool-cases (text_eq a c)) [
  | inl e ↦ same ((text_eq_iff a c).0 e)
  | inr e ↦ rw e (omega arith)
]
  where
    same : a ≡ c → (if text_eq a c then 1 else 0) + may (noted_in p c) a ≤ may p a
    same h = rw h (rw ((text_eq_iff c c).1 refl, n, f) (omega arith))

may-taken :
    (constraint : Join → Outcome) (p p1 : JoinProcessor) (op : Join) (a : Text)
    → Keyed p
    → IsAccepted constraint p op p1
    → (if text_eq a op.candidate then 1 else 0) + may p1 a ≤ may p a
unfolding noted_in
may-taken constraint p p1 op a keyed i =
    subst (λ (q : JoinProcessor). (if text_eq a op.candidate then 1 else 0) + may q a ≤ may p a)
      (sym (i.noted ∙ ap (noted_in p) (keyed op.candidate i.info i.found)))
      (may-noted p op.candidate a i.not_member i.fresh)

Keyed-taken :
    (constraint : Join → Outcome) (p p1 : JoinProcessor) (op : Join)
    → Keyed p
    → IsAccepted constraint p op p1
    → Keyed p1
Keyed-taken constraint p p1 op keyed i k c h =
    keyed k c (ap (λ (q : JoinProcessor). lookup k q.candidates) (sym i.noted) ∙ h)

module _ (constraint : Join → Outcome) where
  Runs-times :
      (p p' : JoinProcessor) (ops : List Join) (a : Text)
      → Keyed p
      → Runs constraint p ops p'
      → times a (candidates_of ops) ≤ may p a
  Runs-times p p' ops a keyed (ends _) = omega arith
  Runs-times p p' ops a keyed (leaves _ p1 _ op _ r n h rest) =
      subst (λ (q : JoinProcessor). times a (candidates_of ops) ≤ may q a)
        (pre_process_join-kept constraint p op p1 r n h)
        (Runs-times p1 p' ops a
          (subst Keyed (sym (pre_process_join-kept constraint p op p1 r n h)) keyed) rest)
  Runs-times p p' (op ∷ ops) a keyed (takes _ p1 _ _ _ h rest) =
      let i = (pre_process_join-IsAccepted constraint p op p1).0 h in
      let later = Runs-times p1 p' ops a (Keyed-taken constraint p p1 op keyed i) rest in
      let here = may-taken constraint p p1 op a keyed i in ground (arith, later, here)

pub Runs-Keyed :
    (constraint : Join → Outcome) (p p' : JoinProcessor) (ops : List Join)
    → Keyed p
    → Runs constraint p ops p'
    → Keyed p'
Runs-Keyed constraint p p' ops keyed (ends _) = keyed
Runs-Keyed constraint p p' ops keyed (leaves _ p1 _ op _ r n h rest) =
    Runs-Keyed constraint p1 p' ops
      (subst Keyed (sym (pre_process_join-kept constraint p op p1 r n h)) keyed) rest
Runs-Keyed constraint p p' (op ∷ ops) keyed (takes _ p1 _ _ _ h rest) =
    Runs-Keyed constraint p1 p' ops
      (Keyed-taken constraint p p1 op keyed ((pre_process_join-IsAccepted constraint p op p1).0 h))
      rest

pub by_candidate-Keyed :
    (m : List (Text × Candidate)) (cs : List Candidate)
    → ((k : Text) (c : Candidate) → lookup k m ≡ some c → c.node.address ≡ k)
    → (k : Text) (c : Candidate) → lookup k (by_candidate m cs) ≡ some c
    → c.node.address ≡ k
unfolding by_candidate
by_candidate-Keyed m [] keyed k c h = keyed k c h
by_candidate-Keyed m (d ∷ cs) keyed k c h =
    by_candidate-Keyed (insert d.node.address d m) cs
      (λ j e l.
        step j e (Bool-cases (text_eq d.node.address j))
          (sym (lookup-insert d.node.address j d m) ∙ l))
      k c h
  where
    step :
        (j : Text) (e : Candidate)
        → (text_eq d.node.address j ≡ true) ⊎ (text_eq d.node.address j ≡ false)
        → (if text_eq d.node.address j then some d else lookup j m) ≡ some e
        → e.node.address ≡ j
    step j e (inl same) l =
        let it : d ≡ e = cc (rw same at l) in
        ap (λ (x : Candidate). x.node.address) (sym it) ∙ (text_eq_iff d.node.address j).0 same
    step j e (inr other) l = keyed j e (rw other at l)

-- From a new processor, over any operations: a member of the suffrage is never accepted, and any other
-- candidate at most once.
pub Runs-once :
    (constraint : Join → Outcome) (p p' : JoinProcessor) (ops : List Join) (a : Text)
    → Keyed p
    → Runs constraint p ops p'
    → times a (candidates_of ops) ≤ (if exists p.suffrage a then 0 else 1)
unfolding may
Runs-once constraint p p' ops a keyed runs =
    ground (arith, Runs-times constraint p p' ops a keyed runs)
