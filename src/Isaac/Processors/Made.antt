-- ===== src/Isaac/Processors/Made.antt =====
-- isaac/proposal_processors.go: the processor that is made for a proposal.
use mitum.Prelude.{
  ℕ, ◌≡◌, sym, subst, refl, true, inl, inr, Option, none, some, List, [], ◌∷◌, Text, text_eq,
  text_eq_iff, ◌∙◌, ap, zero, suc, Option-cases, Bool-cases,
}
use mitum.Isaac.Processors.{
  Processor, Processors, Called, cancels, Answers, Attempt, got, fails, ends, NewProcessor, is_new,
  Did, retry, make_new, fetch_and_make, new_processor,
}

-- The fact that is found has the hash that was asked for, and the processor that is made is for the
-- proposal that it is made of.
pub record Faithful (a : Answers) (k : Text) : Type 0 where
  pub finds : (i : ℕ) (fact : Text) → a.proposals i ≡ got (some fact) → fact ≡ k
  pub makes_for : (i : ℕ) (proposal : Text) → a.makes k i ≡ got (some proposal) → proposal ≡ k

abbrev Got : {A : Type 0} → (ℕ → Attempt A) → A → Type 0
Got f x = (j : ℕ) × (f j ≡ got x)

retry_step :
    {A : Type 0} (i : ℕ) (f : ℕ → Attempt A) (x : A) (o : Attempt A) (rest : Option A)
    → f i ≡ o
    → (rest ≡ some x → Got f x)
    → (elim o [ got a ↦ some a | fails ↦ rest | ends ↦ none ]) ≡ some x
    → Got f x
retry_step {A} i f x (got a) rest e later h = (i, e ∙ ap got (some_eq h))
  where
    some_eq : some a ≡ some x → a ≡ x
    some_eq e = cc
retry_step i f x fails rest e later h = later h
retry_step i f x ends rest e later h = cc

-- What `Retry` gives is what a try gave.
retry-Got : {A : Type 0} (n i : ℕ) (f : ℕ → Attempt A) (x : A) → retry n i f ≡ some x → Got f x
unfolding retry
retry-Got zero i f x h = cc
retry-Got (suc n) i f x h =
    retry_step i f x (f i) (retry n (suc i) f) refl (retry-Got n (suc i) f x) h

-- A processor that was made is the one at work, and for the proposal.
abbrev pub MadeFor : Text → Did NewProcessor → Type 0
MadeFor k d =
    (q : Processor) → d.answer ≡ is_new q → (d.state.p ≡ some q) × (text_eq q.fact k ≡ true)

module _ (a : Answers) (k : Text) (faithful : Faithful a k) where
  make_new-MadeFor : (pps : Processors) (calls : List Called) → MadeFor k (make_new a k pps calls)
  unfolding make_new
  make_new-MadeFor pps calls q h = elim (Option-cases (retry pps.retrylimit 0 (a.makes k))) [
    | inl e ↦ cc (rw (e, make_new) at h)
    | inr (none, e) ↦ cc (rw (e, make_new) at h)
    | inr (some proposal, e) ↦
        let (j, made) = retry-Got pps.retrylimit 0 (a.makes k) (some proposal) e in
        let same : record { number = pps.made; fact = proposal } ≡ q =
          is_new_eq (rw (e, make_new) at h) in
        rw (e, make_new)
          (subst
            (λ (x : Processor).
              (some (record { number = pps.made; fact = proposal }) ≡ some x)
              × (text_eq x.fact k ≡ true))
            same (refl, (text_eq_iff proposal k).1 (faithful.makes_for j proposal made)))
  ]
    where
      is_new_eq : {x y : Processor} → is_new x ≡ is_new y → x ≡ y
      is_new_eq e = cc

  fetch_and_make-MadeFor :
      (pps : Processors) (calls : List Called) → MadeFor k (fetch_and_make a pps calls)
  unfolding fetch_and_make
  fetch_and_make-MadeFor pps calls q h = elim (Option-cases (retry pps.retrylimit 0 a.proposals)) [
    | inl e ↦ cc (rw (e, fetch_and_make) at h)
    | inr (none, e) ↦ cc (rw (e, fetch_and_make) at h)
    | inr (some fact, e) ↦
        let (j, found) = retry-Got pps.retrylimit 0 a.proposals (some fact) e in
        let same = faithful.finds j fact found in
        rw (e, fetch_and_make)
          (subst (λ x. MadeFor k (make_new a x pps calls)) (sym same) (make_new-MadeFor pps calls) q
            (rw (e, fetch_and_make) at h))
  ]

  pub new_processor-MadeFor : (pps : Processors) → MadeFor k (new_processor a k pps)
  unfolding new_processor
  new_processor-MadeFor pps q h = elim (Option-cases pps.p) [
    | inl e ↦ rw (e, new_processor) (fetch_and_make-MadeFor pps [] q (rw (e, new_processor) at h))
    | inr (p, e) ↦ elim (Bool-cases (text_eq p.fact k)) [
      | inl same ↦ cc (rw (e, new_processor, same) at h)
      | inr other ↦ elim (Bool-cases a.cancel_fails) [
        | inl bad ↦ cc (rw (e, new_processor, other, bad) at h)
        | inr well ↦
            rw (e, new_processor, other, well)
              (fetch_and_make-MadeFor pps (cancels p.number ∷ []) q
                (rw (e, new_processor, other, well) at h))
      ]
    ]
  ]
