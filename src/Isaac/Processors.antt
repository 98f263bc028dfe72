-- ===== src/Isaac/Processors.antt =====
-- isaac/proposal_processors.go: the one processor that is at work on a proposal, and util/retry.go.
pub mod Made
pub mod Steps
pub mod Saved
pub mod Tests
use mitum.Prelude.{
  ℕ, zero, suc, ◌+◌, Bool, true, false, not, Option, none, some, List, [], ◌∷◌, ◌++◌, leb_ℤ, negsuc,
  if◌then◌else◌, Text, text_eq, is_some,
}
use mitum.Base.Point.{Height, nil_height}

-- A `ProposalProcessor`, by a number that tells it from the others, and the hash of the fact of its
-- proposal
pub record Processor : Type 0 where
  pub number : ℕ
  pub fact : Text

-- `ProposalProcessors`; `made` numbers the processors.
pub record Processors : Type 0 where
  pub p : Option Processor
  pub retrylimit : ℕ
  pub previous_saved : Height
  pub made : ℕ

-- `NewProposalProcessors`
pub new_processors : Processors
new_processors = record { p = none; retrylimit = 15; previous_saved = nil_height; made = 0 }

-- `ErrNotProposalProcessorProcessed`, `ErrProcessorAlreadySaved`, or another error
pub data ProcessorError : Type 0 where
  not_processed already_saved other_error : ProcessorError

-- What is called on a processor: its `Cancel`, or its `Save` for a height
pub data Called : Type 0 where
  cancels : ℕ → Called
  saves : ℕ → Height → Called

-- What one try of `Retry` comes to: its result, an error, or the end of the context
pub data Attempt {ℓ} (A : Type ℓ) : Type ℓ where
  got : A → Attempt A
  fails ends : Attempt A

-- `util.Retry`: so many tries are left, and this is the next.
unfoldable pub retry {ℓ} : {A : Type ℓ} → ℕ → ℕ → (ℕ → Attempt A) → Option A
retry zero i f = none
retry (suc n) i f =
    let rest = retry n (suc i) f in elim (f i) [ got a ↦ some a | fails ↦ rest | ends ↦ none ]

-- What a processor answers to `Process`: a manifest, an `ErrIgnoreErrorProposalProcessor`, an error of
-- the context, or another error
pub data ProcessAnswer : Type 0 where
  manifest : Text → ProcessAnswer
  ignored canceled process_fails : ProcessAnswer

-- What a processor answers to `Save`: a block map, `context.Canceled`, or another error
pub data SaveAnswer : Type 0 where
  block_map : Text → SaveAnswer
  save_canceled save_fails : SaveAnswer

-- What is answered to a call of `Process`: whether `Cancel` of the processor before fails; the
-- tries of `getproposal`, which give the hash of the fact that was found, or no fact; the tries of
-- `makenew` for a fact, which give the hash of the fact of the new processor's proposal, or no
-- processor; what the new processor answers, and whether its `Cancel` fails
pub record Answers : Type 0 where
  pub cancel_fails : Bool
  pub proposals : ℕ → Attempt (Option Text)
  pub makes : Text → ℕ → Attempt (Option Text)
  pub processes : ProcessAnswer
  pub new_cancel_fails : Bool

-- What `newProcessor` answers; without an error there may be no new processor.
pub data NewProcessor : Type 0 where
  refused_with : ProcessorError → NewProcessor
  none_new : NewProcessor
  is_new : Processor → NewProcessor

-- The processors, what was called, and an answer
pub record Did {ℓ} (A : Type ℓ) : Type ℓ where
  pub state : Processors
  pub calls : List Called
  pub answer : A

-- `makenew`, of the fact that was found
unfoldable pub make_new : Answers → Text → Processors → List Called → Did NewProcessor
make_new a fact pps calls = elim (retry pps.retrylimit 0 (a.makes fact)) [
  | none ↦ record { state = pps; calls = calls; answer = refused_with other_error }
  | some made ↦ elim made [
    | none ↦ record { state = record pps { p = none }; calls = calls; answer = none_new }
    | some proposal ↦
        (let q : Processor = record { number = pps.made; fact = proposal } in
          record {
            state = record pps { p = some q; made = pps.made + 1 };
            calls = calls;
            answer = is_new q;
          })
  ]
]

-- `fetchFact`, and the rest; without an error and without a fact, too, it is not processed.
unfoldable pub fetch_and_make : Answers → Processors → List Called → Did NewProcessor
unfolding make_new
fetch_and_make a pps calls = elim (retry pps.retrylimit 0 a.proposals) [
  | none ↦ record { state = pps; calls = calls; answer = refused_with not_processed }
  | some found ↦ elim found [
    | none ↦ record { state = pps; calls = calls; answer = refused_with not_processed }
    | some fact ↦ make_new a fact pps calls
  ]
]

-- `newProcessor`
unfoldable pub new_processor : Answers → Text → Processors → Did NewProcessor
unfolding fetch_and_make
new_processor a facthash pps = elim pps.p [
  | none ↦ fetch_and_make a pps []
  | some q ↦
      if text_eq q.fact facthash
      then record { state = pps; calls = []; answer = none_new }
      else if a.cancel_fails
      then record { state = pps; calls = cancels q.number ∷ []; answer = refused_with other_error }
      else fetch_and_make a pps (cancels q.number ∷ [])
]

-- What the function that `Process` gives answers: a manifest or none, or an error
pub data RunResult : Type 0 where
  gives : Option Text → RunResult
  gives_error : ProcessorError → RunResult

-- `runProcessor`, and what the function makes of it
unfoldable pub run_processor : ProcessAnswer → Bool → Processor → List Called × RunResult
run_processor (manifest m) c q = ([], gives (some m))
run_processor ignored c q = ([], gives none)
run_processor canceled c q =
    (cancels q.number ∷ [], if c then gives_error other_error else gives_error not_processed)
run_processor process_fails c q = (cancels q.number ∷ [], gives_error other_error)

-- What `Process` answers: an error; nothing; or the function, with what it will answer
pub data Started : Type 0 where
  not_started : ProcessorError → Started
  nothing_to_do : Started
  runs : RunResult → Started

unfoldable pub start : Answers → Did NewProcessor → Did Started
unfolding run_processor
start a d = elim d.answer [
  | refused_with e ↦ record { state = d.state; calls = d.calls; answer = not_started e }
  | none_new ↦ record { state = d.state; calls = d.calls; answer = nothing_to_do }
  | is_new q ↦
      (let r = run_processor a.processes a.new_cancel_fails q in
        record { state = d.state; calls = d.calls ++ r.0; answer = runs r.1 })
]

-- `ProposalProcessors.Process`, with the goroutine that it starts and that keeps its lock
unfoldable pub process_proposal : Answers → Text → Processors → Did Started
unfolding start
process_proposal a facthash pps = start a (new_processor a facthash pps)

-- What `Save` answers: a block map or an error
pub data SaveResult : Type 0 where
  gives_map : Text → SaveResult
  save_error : ProcessorError → SaveResult

unfoldable pub saved_of : SaveAnswer → SaveResult
saved_of (block_map m) = gives_map m
saved_of save_canceled = save_error not_processed
saved_of save_fails = save_error other_error

-- `ProposalProcessors.save`
unfoldable pub save_inside : SaveAnswer → Height → Text → Processors → Did SaveResult
unfolding saved_of
save_inside s height facthash pps =
    if leb_ℤ height pps.previous_saved
    then record { state = pps; calls = []; answer = save_error already_saved }
    else elim pps.p [
      | none ↦ record { state = pps; calls = []; answer = save_error not_processed }
      | some q ↦
          if text_eq q.fact facthash
          then record {
            state = record pps { previous_saved = height };
            calls = saves q.number height ∷ [];
            answer = saved_of s;
          }
          else record { state = pps; calls = []; answer = save_error not_processed }
    ]

-- The cancel of what is left after an error, of which an error is ignored
unfoldable pub cancel_left : Option Processor → SaveResult → List Called
cancel_left none r = []
cancel_left (some q) (gives_map m) = []
cancel_left (some q) (save_error e) = cancels q.number ∷ []

-- `ProposalProcessors.Save`
unfoldable pub save_proposal : SaveAnswer → Height → Text → Processors → Did SaveResult
unfolding cancel_left
save_proposal s height facthash pps =
    let d = save_inside s height facthash pps in
    record {
      state = record d.state { p = none };
      calls = d.calls ++ cancel_left d.state.p d.answer;
      answer = d.answer;
    }

-- `ProposalProcessors.Cancel`, and whether it gives an error
unfoldable pub cancel_processor : Bool → Processors → Did Bool
cancel_processor cancel_fails pps = elim pps.p [
  | none ↦ record { state = pps; calls = []; answer = false }
  | some q ↦ record {
    state = if cancel_fails then pps else record pps { p = none };
    calls = cancels q.number ∷ [];
    answer = cancel_fails;
  }
]

-- The calls of the processors, one after the other since each takes the lock
pub data Step : Type 0 where
  to_process : Answers → Text → Step
  to_save : SaveAnswer → Height → Text → Step
  to_cancel : Bool → Step

unfoldable pub state_after : Step → Processors → Processors
state_after (to_process a h) pps = (process_proposal a h pps).state
state_after (to_save s height h) pps = (save_proposal s height h pps).state
state_after (to_cancel c) pps = (cancel_processor c pps).state

unfoldable pub calls_of : Step → Processors → List Called
calls_of (to_process a h) pps = (process_proposal a h pps).calls
calls_of (to_save s height h) pps = (save_proposal s height h pps).calls
calls_of (to_cancel c) pps = (cancel_processor c pps).calls

unfoldable pub all_calls : List Step → Processors → List Called
all_calls [] pps = []
all_calls (x ∷ xs) pps = calls_of x pps ++ all_calls xs (state_after x pps)
