-- ===== src/Isaac/Operation/Disjoin/Gone.antt =====
-- isaac/operation/suffrage_disjoin_processor.go and isaac/operation/suffrage_expel_processor.go: who
-- leaves and who is expelled.
use mitum.Prelude.{
  ◌≡◌, sym, ap, refl, true, List, [], ◌∷◌, ◌++◌, ltb_ℤ, Text, text_eq, text_eq_iff, lookup, any,
  Bool-cases, inl, inr, arith,
}
use mitum.Isaac.Voteproof.{ExpelFact}
use mitum.Isaac.Suffrage.{exists}
use mitum.Isaac.Operation.{Outcome, accepted, refused, fails}
use mitum.Isaac.Operation.Disjoin.{
  Disjoin, DisjoinProcessor, is_own, conclude_disjoin, pre_process_disjoin, ExpelProcessor,
  conclude_expel, pre_process_expel,
}

any-append : (a : Text) (xs : List Text) → any (text_eq a) (xs ++ (a ∷ [])) ≡ true
any-append a [] = rw ((text_eq_iff a a).1 refl) refl
any-append a (x ∷ xs) = ground (arith, any-append a xs)

any_head : (a : Text) (xs : List Text) → any (text_eq a) (a ∷ xs) ≡ true
any_head a xs = rw ((text_eq_iff a a).1 refl) refl

-- What an accepted expel has, and what becomes of the processor and of the context
record IsExpelled (expelled : List Text) (p : ExpelProcessor) (fact : ExpelFact)
    (p' : ExpelProcessor) (expelled' : List Text) : Type 0 where
  member : exists p.suffrage fact.node ≡ true
  noted : p' ≡ record p { preprocessed = fact.node ∷ p.preprocessed }
  told : expelled' ≡ expelled ++ (fact.node ∷ [])

module _ (expelled expelled' : List Text) (p p' : ExpelProcessor) (fact : ExpelFact) where
  conclude_expel-IsExpelled :
      (o : Outcome)
      → exists p.suffrage fact.node ≡ true
      → conclude_expel expelled p fact o ≡ (p', expelled', accepted)
      → IsExpelled expelled p fact p' expelled'
  unfolding conclude_expel
  conclude_expel-IsExpelled fails m h = cc
  conclude_expel-IsExpelled refused m h = cc
  conclude_expel-IsExpelled accepted m h = record { member = m; noted = cc; told = cc }

  pre_process_expel-IsExpelled :
      (constraint : ExpelFact → Outcome)
      → pre_process_expel constraint expelled p fact ≡ (p', expelled', accepted)
      → IsExpelled expelled p fact p' expelled'
  unfolding pre_process_expel
  pre_process_expel-IsExpelled constraint h =
      elim (Bool-cases (ltb_ℤ p.at_height fact.expel_start)) [
        | inl e ↦ cc (rw e at h)
        | inr started ↦ elim (Bool-cases (ltb_ℤ fact.expel_end p.at_height)) [
          | inl e ↦ cc (rw (started, e) at h)
          | inr lasts ↦ elim (Bool-cases (any (text_eq fact.node) p.preprocessed)) [
            | inl e ↦ cc (rw (started, lasts, e) at h)
            | inr fresh ↦ elim (Bool-cases (exists p.suffrage fact.node)) [
              | inr e ↦ cc (rw (started, lasts, fresh, e) at h)
              | inl member ↦
                  conclude_expel-IsExpelled (constraint fact) member
                    (rw (started, lasts, fresh, member) at h)
            ]
          ]
        ]
      ]

expelled-refused :
    (constraint : Disjoin → Outcome) (expelled : List Text) (p : DisjoinProcessor) (op : Disjoin)
    → any (text_eq op.leaving) expelled ≡ true
    → pre_process_disjoin constraint expelled p op ≡ (p, refused)
unfolding pre_process_disjoin
expelled-refused constraint expelled p op h =
    elim (Bool-cases (any (text_eq op.leaving) p.preprocessed)) [
      | inl e ↦ rw e refl
      | inr e ↦ rw (e, h) refl
    ]

-- After a member is expelled, its own operation to leave is refused in the same block.
pub expel-disjoin :
    (constraint : ExpelFact → Outcome) (own : Disjoin → Outcome) (expelled expelled' : List Text)
    (p p' : ExpelProcessor) (q : DisjoinProcessor) (fact : ExpelFact) (op : Disjoin)
    → pre_process_expel constraint expelled p fact ≡ (p', expelled', accepted)
    → op.leaving ≡ fact.node
    → pre_process_disjoin own expelled' q op ≡ (q, refused)
expel-disjoin constraint own expelled expelled' p p' q fact op h same =
    let i = pre_process_expel-IsExpelled expelled expelled' p p' fact constraint h in
    expelled-refused own expelled' q op (rw (i.told, same) (any-append fact.node expelled))

preprocessed-refused :
    (constraint : Disjoin → Outcome) (expelled : List Text) (p : DisjoinProcessor) (op : Disjoin)
    → any (text_eq op.leaving) p.preprocessed ≡ true
    → pre_process_disjoin constraint expelled p op ≡ (p, refused)
unfolding pre_process_disjoin
preprocessed-refused constraint expelled p op h = rw h refl

conclude_disjoin-noted :
    (p p' : DisjoinProcessor) (op : Disjoin) (o : Outcome)
    → conclude_disjoin p op o ≡ (p', accepted)
    → p'.preprocessed ≡ op.leaving ∷ p.preprocessed
unfolding conclude_disjoin
conclude_disjoin-noted p p' op fails h = cc
conclude_disjoin-noted p p' op refused h = cc
conclude_disjoin-noted p p' op accepted h =
    let same : record p { preprocessed = op.leaving ∷ p.preprocessed } ≡ p' = cc in
    ap (λ (q : DisjoinProcessor). q.preprocessed) (sym same)

pre_process_disjoin-noted :
    (constraint : Disjoin → Outcome) (expelled : List Text) (p p' : DisjoinProcessor) (op : Disjoin)
    → pre_process_disjoin constraint expelled p op ≡ (p', accepted)
    → p'.preprocessed ≡ op.leaving ∷ p.preprocessed
unfolding pre_process_disjoin
pre_process_disjoin-noted constraint expelled p p' op h =
    elim (Bool-cases (any (text_eq op.leaving) p.preprocessed)) [
      | inl e ↦ cc (rw e at h)
      | inr fresh ↦ elim (Bool-cases (any (text_eq op.leaving) expelled)) [
        | inl e ↦ cc (rw (fresh, e) at h)
        | inr stays ↦ elim (Bool-cases (is_own (lookup op.leaving p.suffrage) op)) [
          | inr e ↦ cc (rw (fresh, stays, e) at h)
          | inl own ↦ conclude_disjoin-noted p p' op (constraint op) (rw (fresh, stays, own) at h)
        ]
      ]
    ]

-- After an operation of a member to leave was accepted, any other of the same member is refused.
pub disjoin_once :
    (constraint other : Disjoin → Outcome) (expelled later : List Text) (p p' : DisjoinProcessor)
    (op again : Disjoin)
    → pre_process_disjoin constraint expelled p op ≡ (p', accepted)
    → again.leaving ≡ op.leaving
    → pre_process_disjoin other later p' again ≡ (p', refused)
disjoin_once constraint other expelled later p p' op again h same =
    preprocessed-refused other later p' again (
      rw (same, pre_process_disjoin-noted constraint expelled p p' op h)
        (any_head op.leaving p.preprocessed))
