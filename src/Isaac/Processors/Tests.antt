-- ===== src/Isaac/Processors/Tests.antt =====
-- A proposal that is processed and saved.
use mitum.Prelude.{ℕ, ◌≡◌, refl, false, Option, some, List, [], ◌∷◌, Text, text_eq, pos}
use mitum.Isaac.Processors.{
  Processors, new_processors, Answers, Attempt, got, ends, cancels, not_started, not_processed,
  manifest, block_map, gives, process_proposal, runs, nothing_to_do, start, new_processor,
  fetch_and_make, make_new, run_processor, retry, Step, to_process, to_save, state_after, calls_of,
  all_calls,
}
use mitum.Isaac.Processors.Steps.{Kept, step-Kept, process_proposal-process_proposal}
use mitum.Isaac.Processors.Saved.{Rises, saved_heights, all_calls-Rises}

abbrev hash : ℕ → Text
hash n = n ∷ []

abbrev all_well : Text → Answers
all_well fact = record {
  cancel_fails = false;
  proposals = λ i. got (some fact);
  makes = λ proposal i. got (some proposal);
  processes = manifest (hash 5);
  new_cancel_fails = false;
}

abbrev at_work : Processors
at_work = record new_processors { p = some (record { number = 7; fact = hash 1 }); made = 8 }

abbrev two_saves : List Step
two_saves =
    to_process (all_well (hash 1)) (hash 1)
    ∷ to_save (block_map (hash 6)) (pos 33) (hash 1)
    ∷ to_process (all_well (hash 2)) (hash 2)
    ∷ to_save (block_map (hash 7)) (pos 33) (hash 2)
    ∷ []

all_calls-Rises_example :
    Rises new_processors.previous_saved (saved_heights (all_calls two_saves new_processors))
all_calls-Rises_example = all_calls-Rises two_saves new_processors

step-Kept_example :
    Kept
      (record { number = 7; fact = hash 1 })
      (state_after (to_process (all_well (hash 2)) (hash 2)) at_work)
      (calls_of (to_process (all_well (hash 2)) (hash 2)) at_work)
step-Kept_example =
    step-Kept (record { number = 7; fact = hash 1 }) (to_process (all_well (hash 2)) (hash 2))
      at_work refl

started :
    (process_proposal (all_well (hash 1)) (hash 1) new_processors).answer
    ≡ runs (gives (some (hash 5)))
unfolding process_proposal start new_processor fetch_and_make make_new run_processor retry
    new_processors
started = refl

got_same : {x y : Text} → ◌≡◌ {A = Attempt (Option Text)} (got (some x)) (got (some y)) → y ≡ x
got_same h = cc

process_proposal-process_proposal_example :
    process_proposal
      (all_well (hash 1))
      (hash 1)
      (process_proposal (all_well (hash 1)) (hash 1) new_processors).state
    ≡ record {
      state = (process_proposal (all_well (hash 1)) (hash 1) new_processors).state;
      calls = [];
      answer = nothing_to_do;
    }
process_proposal-process_proposal_example =
    process_proposal-process_proposal (all_well (hash 1)) (all_well (hash 1)) (hash 1)
      new_processors (gives (some (hash 5)))
      (record { finds = λ i fact h. got_same h; makes_for = λ i proposal h. got_same h }) started

-- The processor before is canceled, and stays the one at work, if the new proposal is not found.
canceled_stays :
    process_proposal (record (all_well (hash 2)) { proposals = λ i. ends }) (hash 2) at_work
    ≡ record { state = at_work; calls = cancels 7 ∷ []; answer = not_started not_processed }
unfolding process_proposal start new_processor fetch_and_make retry text_eq new_processors
canceled_stays = refl
