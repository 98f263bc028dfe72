-- ===== src/Isaac/Operation/Join/Accepted.antt =====
-- isaac/operation/suffrage_join_processor.go: which operations are accepted.
use mitum.Prelude.{
  ◌≡◌, ◌≢◌, ◌∙◌, sym, ap, refl, true, false, Option, none, some, List, [], ◌∷◌, Text, text_eq,
  text_eq_iff, lookup, any, is_nil, Bool-cases, ◌⊎◌, inl, inr, arith, ◌↔◌, Bool, ◌≤ℤ◌,
}
use mitum.Isaac.Suffrage.{exists}
use mitum.Isaac.Voteproof.{NodeSign}
use mitum.Isaac.Operation.{Candidate, Outcome, accepted, refused, fails, check_fact_signs}
use mitum.Isaac.Operation.Join.{
  Join, JoinProcessor, find_candidate_from_signs, signed_with_key, fits, conclude_join,
  with_candidate, pre_process_join,
}

-- The first sign of the node is by the key.
abbrev pub SignedBy : Text → Text → List NodeSign → Type 0
SignedBy node key [] = ⊥
SignedBy node key (s ∷ signs) =
    ((s.node ≡ node) × (s.signer ≡ key)) ⊎ ((s.node ≢ node) × SignedBy node key signs)

text_eq_of : (a b : Text) → text_eq a b ≡ false → a ≢ b
text_eq_of a b h e = cc ((text_eq_iff a b).1 e)

text_ne_of : (a b : Text) → a ≢ b → text_eq a b ≡ false
text_ne_of a b n = elim (Bool-cases (text_eq a b)) [
  | inl e ↦ absurd (n ((text_eq_iff a b).0 e))
  | inr e ↦ e
]

module _ (node : Text) (info : Candidate) where
  abbrev key_signed : List NodeSign → Bool
  key_signed signs = signed_with_key (find_candidate_from_signs node signs) info

  signed-SignedBy :
      (signs : List NodeSign) → key_signed signs ≡ true → SignedBy node info.node.publickey signs
  unfolding find_candidate_from_signs signed_with_key
  signed-SignedBy [] h = cc
  signed-SignedBy (s ∷ signs) h = elim (Bool-cases (text_eq s.node node)) [
    | inl e ↦
        inl
          ((text_eq_iff s.node node).0 e, (text_eq_iff s.signer info.node.publickey).0 (rw e at h))
    | inr e ↦ inr (text_eq_of s.node node e, signed-SignedBy signs (rw e at h))
  ]

  SignedBy-signed :
      (signs : List NodeSign) → SignedBy node info.node.publickey signs → key_signed signs ≡ true
  unfolding find_candidate_from_signs signed_with_key
  SignedBy-signed [] h = absurd h
  SignedBy-signed (s ∷ signs) (inl (same, by_key)) =
      rw ((text_eq_iff s.node node).1 same) ((text_eq_iff s.signer info.node.publickey).1 by_key)
  SignedBy-signed (s ∷ signs) (inr (differ, rest)) =
      rw (text_ne_of s.node node differ) (SignedBy-signed signs rest)

-- What `fits` asks, without its tests
module _ (p : JoinProcessor) (op : Join) (info : Candidate) where
  abbrev Fitting : Type 0
  Fitting =
      (op.fact_start ≡ info.start)
      × (p.at_height ≤ℤ info.deadline)
      × SignedBy op.candidate info.node.publickey op.signs

  fits-Fitting : fits p op info ≡ true → Fitting
  unfolding fits
  fits-Fitting h =
      (ground arith, ground arith, signed-SignedBy op.candidate info op.signs (ground arith))

  Fitting-fits : Fitting → fits p op info ≡ true
  unfolding fits
  Fitting-fits (start, in_time, signed) =
      let by_key = SignedBy-signed op.candidate info op.signs signed in ground arith

-- What an accepted operation has, and what becomes of the processor
pub record IsAccepted (constraint : Join → Outcome) (p : JoinProcessor) (op : Join)
    (p' : JoinProcessor) : Type 0 where
  pub info : Candidate
  pub found : lookup op.candidate p.candidates ≡ some info
  pub not_member : exists p.suffrage op.candidate ≡ false
  pub fresh : any (text_eq op.candidate) p.preprocessed ≡ false
  pub same_start : op.fact_start ≡ info.start
  pub in_time : p.at_height ≤ℤ info.deadline
  pub by_key : SignedBy op.candidate info.node.publickey op.signs
  pub allowed : constraint op ≡ accepted
  pub enough : check_fact_signs p.suffrage p.threshold op.signs ≡ true
  pub noted : p' ≡ record p { preprocessed = info.node.address ∷ p.preprocessed }

module _ (constraint : Join → Outcome) (p : JoinProcessor) (op : Join) where
  conclude_join-accepted :
      (p' : JoinProcessor) (info : Candidate) (o : Outcome)
      → conclude_join p op info o ≡ (p', accepted)
      → (o ≡ accepted)
        × (check_fact_signs p.suffrage p.threshold op.signs ≡ true)
        × (p' ≡ record p { preprocessed = info.node.address ∷ p.preprocessed })
  unfolding conclude_join
  conclude_join-accepted p' info fails h = cc
  conclude_join-accepted p' info refused h = cc
  conclude_join-accepted p' info accepted h =
      elim (Bool-cases (check_fact_signs p.suffrage p.threshold op.signs)) [
        | inl e ↦
            let same : record p { preprocessed = info.node.address ∷ p.preprocessed } ≡ p' =
              cc (rw e at h) in
            (refl, e, sym same)
        | inr e ↦ cc (rw e at h)
      ]

  conclude_join-kept :
      (p' : JoinProcessor) (info : Candidate) (o r : Outcome)
      → r ≢ accepted
      → conclude_join p op info o ≡ (p', r)
      → p' ≡ p
  unfolding conclude_join
  conclude_join-kept p' info fails r n h = cc
  conclude_join-kept p' info refused r n h = cc
  conclude_join-kept p' info accepted r n h =
      elim (Bool-cases (check_fact_signs p.suffrage p.threshold op.signs)) [
        | inl e ↦ let same : accepted ≡ r = cc (rw e at h) in absurd (n (sym same))
        | inr e ↦ cc (rw e at h)
      ]

  with_candidate-accepted :
      (p' : JoinProcessor) (o : Option Candidate)
      → exists p.suffrage op.candidate ≡ false
      → any (text_eq op.candidate) p.preprocessed ≡ false
      → lookup op.candidate p.candidates ≡ o
      → with_candidate constraint p op o ≡ (p', accepted)
      → IsAccepted constraint p op p'
  unfolding with_candidate
  with_candidate-accepted p' none n f l h = cc
  with_candidate-accepted p' (some info) n f l h = elim (Bool-cases (fits p op info)) [
    | inr e ↦ cc (rw e at h)
    | inl e ↦
        let (start, in_time, by_key) = fits-Fitting p op info e in
        let (allowed, enough, noted) = conclude_join-accepted p' info (constraint op) (rw e at h) in
        record {
          info = info;
          found = l;
          not_member = n;
          fresh = f;
          same_start = start;
          in_time = in_time;
          by_key = by_key;
          allowed = allowed;
          enough = enough;
          noted = noted;
        }
  ]

  with_candidate-kept :
      (p' : JoinProcessor) (o : Option Candidate) (r : Outcome)
      → r ≢ accepted
      → with_candidate constraint p op o ≡ (p', r)
      → p' ≡ p
  unfolding with_candidate
  with_candidate-kept p' none r n h = cc
  with_candidate-kept p' (some info) r n h = elim (Bool-cases (fits p op info)) [
    | inr e ↦ cc (rw e at h)
    | inl e ↦ conclude_join-kept p' info (constraint op) r n (rw e at h)
  ]

  accepted-IsAccepted :
      (p' : JoinProcessor)
      → pre_process_join constraint p op ≡ (p', accepted)
      → IsAccepted constraint p op p'
  unfolding pre_process_join
  accepted-IsAccepted p' h = elim (Bool-cases (is_nil p.candidates)) [
    | inl e ↦ cc (rw e at h)
    | inr e ↦ elim (Bool-cases (any (text_eq op.candidate) p.preprocessed)) [
      | inl done ↦ cc (rw (e, done) at h)
      | inr fresh ↦ elim (Bool-cases (exists p.suffrage op.candidate)) [
        | inl member ↦ cc (rw (e, fresh, member) at h)
        | inr not_member ↦
            with_candidate-accepted p' (lookup op.candidate p.candidates) not_member fresh refl
              (rw (e, fresh, not_member) at h)
      ]
    ]
  ]

  some_candidate : lookup op.candidate p.candidates ≢ none → is_nil p.candidates ≡ false
  unfolding lookup
  some_candidate h = ground arith

  IsAccepted-accepted :
      (p' : JoinProcessor)
      → IsAccepted constraint p op p'
      → pre_process_join constraint p op ≡ (p', accepted)
  unfolding pre_process_join with_candidate conclude_join
  IsAccepted-accepted p' i =
      let listed : is_nil p.candidates ≡ false =
        some_candidate (λ e. absurd (differ (sym e ∙ i.found))) in
      let fitting = Fitting-fits p op i.info (i.same_start, i.in_time, i.by_key) in
      rw (listed, i.fresh, i.not_member, i.found, with_candidate)
        (rw (fitting, i.allowed, i.enough) (ap (λ q. (q, accepted)) (sym i.noted)))
    where
      differ : none ≡ some i.info → ⊥
      differ e = cc

  -- An operation is accepted exactly when its node is a candidate, not in the suffrage and not noted
  -- before, the operation has the start of the candidacy, the deadline is not before the height,
  -- the first sign of the candidate is by its key, the constraint lets it pass, and enough of the
  -- suffrage signed; then the candidate is noted, and nothing else of the processor changes.
  pub pre_process_join-IsAccepted :
      (p' : JoinProcessor)
      → (pre_process_join constraint p op ≡ (p', accepted)) ↔ IsAccepted constraint p op p'
  pre_process_join-IsAccepted p' = (accepted-IsAccepted p', IsAccepted-accepted p')

  pub pre_process_join-kept :
      (p' : JoinProcessor) (r : Outcome)
      → r ≢ accepted
      → pre_process_join constraint p op ≡ (p', r)
      → p' ≡ p
  unfolding pre_process_join
  pre_process_join-kept p' r n h = elim (Bool-cases (is_nil p.candidates)) [
    | inl e ↦ cc (rw e at h)
    | inr e ↦ elim (Bool-cases (any (text_eq op.candidate) p.preprocessed)) [
      | inl done ↦ cc (rw (e, done) at h)
      | inr fresh ↦ elim (Bool-cases (exists p.suffrage op.candidate)) [
        | inl member ↦ cc (rw (e, fresh, member) at h)
        | inr not_member ↦
            with_candidate-kept p' (lookup op.candidate p.candidates) r n
              (rw (e, fresh, not_member) at h)
      ]
    ]
  ]
