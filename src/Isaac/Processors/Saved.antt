-- ===== src/Isaac/Processors/Saved.antt =====
-- isaac/proposal_processors.go: at which heights blocks are saved.
use mitum.Prelude.{
  ◌≡◌, ◌<ℤ◌, ◌∙◌, ap, sym, subst, refl, Bool, true, false, ◌⊎◌, inl, inr, Option, none, some, List,
  [], ◌∷◌, ◌++◌, leb_ℤ, pos, negsuc, Text, text_eq, arith, Bool-cases, Option-cases,
}
use mitum.Base.Point.{Height}
use mitum.Isaac.Processors.{
  Processor, Processors, Called, cancels, saves, Answers, ProcessAnswer, manifest, ignored,
  canceled, process_fails, SaveAnswer, NewProcessor, refused_with, none_new, is_new, Did, retry,
  make_new, fetch_and_make, new_processor, run_processor, start, process_proposal, SaveResult,
  gives_map, save_error, save_inside, cancel_left, save_proposal, cancel_processor, Step,
  to_process, to_save, to_cancel, state_after, calls_of, all_calls,
}

-- The heights for which `Save` of a processor was called
pub saved_heights : List Called → List Height
saved_heights [] = []
saved_heights (cancels n ∷ xs) = saved_heights xs
saved_heights (saves n h ∷ xs) = h ∷ saved_heights xs

-- Each height is above the one before.
unfoldable pub Rises : Height → List Height → Type 0
Rises h [] = Unit
Rises h (x ∷ xs) = (h <ℤ x) × Rises x xs

saved_heights-append :
    (xs ys : List Called) → saved_heights (xs ++ ys) ≡ saved_heights xs ++ saved_heights ys
unfolding saved_heights
saved_heights-append [] ys = refl
saved_heights-append (cancels n ∷ xs) ys = saved_heights-append xs ys
saved_heights-append (saves n h ∷ xs) ys = ap (λ l. h ∷ l) (saved_heights-append xs ys)

-- A call that saves nothing, and leaves the last saved height; or one that saves a higher one
abbrev Quiet : Processors → Processors → List Called → Type 0
Quiet old new calls = (saved_heights calls ≡ []) × (new.previous_saved ≡ old.previous_saved)

abbrev Higher : Processors → Processors → List Called → Type 0
Higher old new calls =
    (h : Height) × (saved_heights calls ≡ h ∷ [])
    × (old.previous_saved <ℤ h)
    × (new.previous_saved ≡ h)

make_new-Quiet :
    (a : Answers) (k : Text) (old pps : Processors) (calls : List Called)
    → Quiet old pps calls
    → Quiet old (make_new a k pps calls).state (make_new a k pps calls).calls
unfolding make_new
make_new-Quiet a k old pps calls q = elim (Option-cases (retry pps.retrylimit 0 (a.makes k))) [
  | inl e ↦ rw (e, make_new) q
  | inr (none, e) ↦ rw (e, make_new) q
  | inr (some x, e) ↦ rw (e, make_new) q
]

fetch_and_make-Quiet :
    (a : Answers) (old pps : Processors) (calls : List Called)
    → Quiet old pps calls
    → Quiet old (fetch_and_make a pps calls).state (fetch_and_make a pps calls).calls
unfolding fetch_and_make saved_heights
fetch_and_make-Quiet a old pps calls q = elim (Option-cases (retry pps.retrylimit 0 a.proposals)) [
  | inl e ↦ rw (e, fetch_and_make) q
  | inr (some k, e) ↦ rw (e, fetch_and_make) (make_new-Quiet a k old pps calls q)
  | inr (none, e) ↦ rw (e, fetch_and_make) q
]

new_processor-Quiet :
    (a : Answers) (k : Text) (pps : Processors)
    → Quiet pps (new_processor a k pps).state (new_processor a k pps).calls
unfolding saved_heights new_processor fetch_and_make
new_processor-Quiet a k pps = elim (Option-cases pps.p) [
  | inl e ↦ rw (e, new_processor) (fetch_and_make-Quiet a pps pps [] (refl, refl))
  | inr (q, e) ↦
      rw (e, new_processor)
        (elim (Bool-cases (text_eq q.fact k)) [
          | inl same ↦ rw same (refl, refl)
          | inr differ ↦ rw differ (elim (Bool-cases a.cancel_fails) [
            | inl fails ↦ rw fails (refl, refl)
            | inr done ↦
                rw done (fetch_and_make-Quiet a pps pps (cancels q.number ∷ []) (refl, refl))
          ])
        ])
]

run_processor-quiet :
    (r : ProcessAnswer) (c : Bool) (q : Processor) → saved_heights (run_processor r c q).0 ≡ []
unfolding run_processor saved_heights
run_processor-quiet (manifest m) c q = refl
run_processor-quiet ignored c q = refl
run_processor-quiet canceled c q = refl
run_processor-quiet process_fails c q = refl

start-Quiet :
    (a : Answers) (pps : Processors) (d : Did NewProcessor)
    → Quiet pps d.state d.calls
    → Quiet pps (start a d).state (start a d).calls
unfolding start
start-Quiet a pps d (none_saved, same) = by_answer d.answer
  where
    by_answer :
        (n : NewProcessor)
        → Quiet pps
            (start a (record d { answer = n })).state
            (start a (record d { answer = n })).calls
    by_answer (refused_with e) = (none_saved, same)
    by_answer none_new = (none_saved, same)
    by_answer (is_new q) = (
      saved_heights-append d.calls (run_processor a.processes a.new_cancel_fails q).0
          ∙ (ap (λ l. l ++ saved_heights (run_processor a.processes a.new_cancel_fails q).0)
                none_saved
              ∙ run_processor-quiet a.processes a.new_cancel_fails q),
      same,
    )

cancel_left-quiet : (o : Option Processor) (r : SaveResult) → saved_heights (cancel_left o r) ≡ []
unfolding cancel_left saved_heights
cancel_left-quiet none r = refl
cancel_left-quiet (some q) (gives_map m) = refl
cancel_left-quiet (some q) (save_error e) = refl

above : (h k : Height) → leb_ℤ h k ≡ false → k <ℤ h
above (pos a) (pos b) e = ground arith
above (pos a) (negsuc b) e = omega arith
above (negsuc a) (pos b) e = absurd (ground arith)
above (negsuc a) (negsuc b) e = ground arith

abbrev Saves : Processors → Processors → List Called → Type 0
Saves old new calls = Quiet old new calls ⊎ Higher old new calls

save_inside-Saves :
    (s : SaveAnswer) (h : Height) (k : Text) (pps : Processors)
    → Saves pps (save_inside s h k pps).state (save_inside s h k pps).calls
unfolding save_inside saved_heights
save_inside-Saves s h k pps = elim (Bool-cases (leb_ℤ h pps.previous_saved)) [
  | inl e ↦ rw e (inl (refl, refl))
  | inr e ↦ rw e (elim (Option-cases pps.p) [
    | inl n ↦ rw n (inl (refl, refl))
    | inr (q, n) ↦ rw n (elim (Bool-cases (text_eq q.fact k)) [
      | inl same ↦ rw same (inr (h, refl, above h pps.previous_saved e, refl))
      | inr differ ↦ rw differ (inl (refl, refl))
    ])
  ])
]

step-Saves : (x : Step) (pps : Processors) → Saves pps (state_after x pps) (calls_of x pps)
unfolding state_after calls_of process_proposal save_proposal cancel_processor saved_heights
step-Saves (to_process a k) pps =
    inl (start-Quiet a pps (new_processor a k pps) (new_processor-Quiet a k pps))
step-Saves (to_save s h k) pps = elim (save_inside-Saves s h k pps) [
  | inl (none_saved, same) ↦ inl (with_left ∙ ap (λ l. l ++ []) none_saved, same)
  | inr (saved, one_saved, lt, same) ↦
      inr (saved, with_left ∙ ap (λ l. l ++ []) one_saved, lt, same)
]
  where
    left : List Called
    left = cancel_left (save_inside s h k pps).state.p (save_inside s h k pps).answer

    with_left :
        saved_heights ((save_inside s h k pps).calls ++ left)
        ≡ saved_heights (save_inside s h k pps).calls ++ []
    with_left =
        saved_heights-append (save_inside s h k pps).calls left
        ∙ ap (λ l. saved_heights (save_inside s h k pps).calls ++ l)
            (cancel_left-quiet (save_inside s h k pps).state.p (save_inside s h k pps).answer)
step-Saves (to_cancel c) pps = by_processor c pps.p
  where
    by_processor :
        (c : Bool) (o : Option Processor)
        → Saves pps
            (cancel_processor c (record pps { p = o })).state
            (cancel_processor c (record pps { p = o })).calls
    by_processor c none = inl (refl, refl)
    by_processor true (some q) = inl (refl, refl)
    by_processor false (some q) = inl (refl, refl)

joined_heights :
    (old new : Processors) (calls : List Called) (later : List Height)
    → Saves old new calls
    → Rises new.previous_saved later
    → Rises old.previous_saved (saved_heights calls ++ later)
unfolding Rises
joined_heights old new calls later (inl (none_saved, same)) rest =
    subst (λ l. Rises old.previous_saved (l ++ later)) (sym none_saved)
      (subst (λ h. Rises h later) same rest)
joined_heights old new calls later (inr (h, one_saved, lt, same)) rest =
    subst (λ l. Rises old.previous_saved (l ++ later)) (sym one_saved)
      (lt, subst (λ k. Rises k later) same rest)

-- Over any calls of the processors, in any order and with any answers, the heights for which `Save` of
-- a processor is called rise strictly, from the height that was saved last on: no height is saved
-- twice.
pub all_calls-Rises :
    (xs : List Step) (pps : Processors)
    → Rises pps.previous_saved (saved_heights (all_calls xs pps))
unfolding all_calls Rises saved_heights
all_calls-Rises [] pps = tt
all_calls-Rises (x ∷ xs) pps =
    subst (Rises pps.previous_saved)
      (sym (saved_heights-append (calls_of x pps) (all_calls xs (state_after x pps))))
      (joined_heights pps (state_after x pps) (calls_of x pps)
        (saved_heights (all_calls xs (state_after x pps))) (step-Saves x pps)
        (all_calls-Rises xs (state_after x pps)))
