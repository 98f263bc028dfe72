-- ===== src/Isaac/Processors/Steps.antt =====
-- isaac/proposal_processors.go: what becomes of a processor, and of a proposal that is processed twice.
use mitum.Prelude.{
  ℕ, ◌==◌, ◌||◌, ◌≡◌, sym, subst, refl, Bool, true, false, ◌⊎◌, inl, inr, none, some, List, [], ◌∷◌,
  ◌++◌, leb_ℤ, Text, text_eq, Option-cases, arith, Bool-cases,
}
use mitum.Base.Point.{Height}
use mitum.Isaac.Processors.{
  Processor, Processors, Called, cancels, saves, Answers, SaveAnswer, NewProcessor, refused_with,
  none_new, is_new, Did, retry, make_new, fetch_and_make, new_processor, nothing_to_do, runs,
  RunResult, start, process_proposal, save_inside, cancel_left, save_proposal, cancel_processor,
  Step, to_process, to_save, to_cancel, state_after, calls_of,
}
use mitum.Isaac.Processors.Made.{Faithful, new_processor-MadeFor}

-- `Cancel` or `Save` of the processor was called.
pub called_on : ℕ → List Called → Bool
called_on n [] = false
called_on n (cancels m ∷ xs) = n == m || called_on n xs
called_on n (saves m h ∷ xs) = n == m || called_on n xs

called_on-append :
    (n : ℕ) (xs ys : List Called) → called_on n xs ≡ true → called_on n (xs ++ ys) ≡ true
unfolding called_on
called_on-append n [] ys h = absurd (ground arith)
called_on-append n (cancels m ∷ xs) ys h = ground (arith, called_on-append n xs ys)
called_on-append n (saves m k ∷ xs) ys h = ground (arith, called_on-append n xs ys)

make_new-calls :
    (a : Answers) (k : Text) (pps : Processors) (calls : List Called)
    → (make_new a k pps calls).calls ≡ calls
unfolding make_new
make_new-calls a k pps calls = elim (Option-cases (retry pps.retrylimit 0 (a.makes k))) [
  | inl e ↦ rw (e, make_new) refl
  | inr (none, e) ↦ rw (e, make_new) refl
  | inr (some x, e) ↦ rw (e, make_new) refl
]

fetch_and_make-calls :
    (a : Answers) (pps : Processors) (calls : List Called)
    → (fetch_and_make a pps calls).calls ≡ calls
unfolding fetch_and_make
fetch_and_make-calls a pps calls = elim (Option-cases (retry pps.retrylimit 0 a.proposals)) [
  | inl e ↦ rw (e, fetch_and_make) refl
  | inr (none, e) ↦ rw (e, fetch_and_make) refl
  | inr (some k, e) ↦ rw (e, fetch_and_make) (make_new-calls a k pps calls)
]

start-called_on :
    (n : ℕ) (a : Answers) (d : Did NewProcessor)
    → called_on n d.calls ≡ true
    → called_on n (start a d).calls ≡ true
unfolding start
start-called_on n a d h = by_answer d.answer
  where
    by_answer : (x : NewProcessor) → called_on n (start a (record d { answer = x })).calls ≡ true
    by_answer (refused_with e) = h
    by_answer none_new = h
    by_answer (is_new q) = called_on-append n d.calls _ h

start-state : (a : Answers) (d : Did NewProcessor) → (start a d).state ≡ d.state
unfolding start
start-state a d = by_answer d.answer
  where
    by_answer : (x : NewProcessor) → (start a (record d { answer = x })).state ≡ d.state
    by_answer (refused_with e) = refl
    by_answer none_new = refl
    by_answer (is_new q) = refl

here_called : (q : Processor) (xs : List Called) → called_on q.number (cancels q.number ∷ xs) ≡ true
unfolding called_on
here_called q xs = ground arith

module _ (q : Processor) where
  abbrev pub Kept : Processors → List Called → Type 0
  Kept pps calls = (pps.p ≡ some q) ⊎ (called_on q.number calls ≡ true)

  new_processor-Kept :
      (a : Answers) (k : Text) (pps : Processors)
      → pps.p ≡ some q
      → Kept (new_processor a k pps).state (new_processor a k pps).calls
  unfolding new_processor called_on retry
  new_processor-Kept a k pps e =
      subst
        (λ o.
          Kept (new_processor a k (record pps { p = o })).state
            (new_processor a k (record pps { p = o })).calls)
        (sym e)
        (elim (Bool-cases (text_eq q.fact k)) [
          | inl same ↦ rw same (inl refl)
          | inr differ ↦ rw differ (elim (Bool-cases a.cancel_fails) [
            | inl bad ↦ rw bad (inl refl)
            | inr done ↦
                rw done
                  (inr (rw (fetch_and_make-calls a _ (cancels q.number ∷ [])) (here_called q [])))
          ])
        ])

  start-Kept :
      (a : Answers) (d : Did NewProcessor)
      → Kept d.state d.calls
      → Kept (start a d).state (start a d).calls
  start-Kept a d (inl e) = inl (rw (start-state a d) e)
  start-Kept a d (inr h) = inr (start-called_on q.number a d h)

  save-called_on :
      (s : SaveAnswer) (h : Height) (k : Text) (pps : Processors)
      → pps.p ≡ some q
      → called_on q.number (save_proposal s h k pps).calls ≡ true
  unfolding save_proposal save_inside cancel_left called_on
  save-called_on s h k pps e =
      subst (λ o. called_on q.number (save_proposal s h k (record pps { p = o })).calls ≡ true)
        (sym e)
        (elim (Bool-cases (leb_ℤ h pps.previous_saved)) [
          | inl old ↦ rw old (cancels_here [])
          | inr new ↦ rw new (elim (Bool-cases (text_eq q.fact k)) [
            | inl same ↦ rw same (saves_here _)
            | inr differ ↦ rw differ (cancels_here [])
          ])
        ])
    where
      cancels_here : (xs : List Called) → called_on q.number (cancels q.number ∷ xs) ≡ true
      cancels_here xs = ground arith

      saves_here : (xs : List Called) → called_on q.number (saves q.number h ∷ xs) ≡ true
      saves_here xs = ground arith

  -- A processor that is at work stays the one at work, or its `Cancel` or its `Save` was called: none is
  -- dropped without either.
  pub step-Kept :
      (x : Step) (pps : Processors) → pps.p ≡ some q → Kept (state_after x pps) (calls_of x pps)
  unfolding state_after calls_of process_proposal cancel_processor
  step-Kept (to_process a k) pps e =
      start-Kept a (new_processor a k pps) (new_processor-Kept a k pps e)
  step-Kept (to_save s h k) pps e = inr (save-called_on s h k pps e)
  step-Kept (to_cancel c) pps e = inr (
      subst (λ o. called_on q.number (cancel_processor c (record pps { p = o })).calls ≡ true)
        (sym e) (here_called q []))

start-runs :
    (a : Answers) (d : Did NewProcessor) (r : RunResult)
    → (start a d).answer ≡ runs r
    → (q : Processor) × (d.answer ≡ is_new q)
unfolding start
start-runs a d r h = by_answer d.answer h
  where
    by_answer :
        (x : NewProcessor)
        → (start a (record d { answer = x })).answer ≡ runs r
        → (q : Processor) × (x ≡ is_new q)
    by_answer (refused_with e) h = cc
    by_answer none_new h = cc
    by_answer (is_new q) h = (q, refl)

-- After a call of `Process` that made a processor, where the fact that is found is the one that was
-- asked for and the processor is for its proposal, a call for the same proposal does nothing,
-- whatever would be answered to it.
pub process_proposal-process_proposal :
    (a b : Answers) (k : Text) (pps : Processors) (r : RunResult)
    → Faithful a k
    → (process_proposal a k pps).answer ≡ runs r
    → process_proposal b k (process_proposal a k pps).state
      ≡ record { state = (process_proposal a k pps).state; calls = []; answer = nothing_to_do }
unfolding process_proposal start new_processor
process_proposal-process_proposal a b k pps r faithful h =
    (let (q, new) = start-runs a (new_processor a k pps) r h in
      let (at_work, same) = new_processor-MadeFor a k faithful pps q new in
      rw (start-state a (new_processor a k pps))
        (does_nothing (new_processor a k pps).state q at_work same))
  where
    does_nothing :
        (st : Processors) (q : Processor)
        → st.p ≡ some q
        → text_eq q.fact k ≡ true
        → start b (new_processor b k st) ≡ record { state = st; calls = []; answer = nothing_to_do }
    does_nothing st q e same =
        subst
          (λ o.
            start b (new_processor b k (record st { p = o }))
            ≡ record { state = record st { p = o }; calls = []; answer = nothing_to_do })
          (sym e) (rw same refl)
