-- ===== src/States/Switch/Ensure.antt =====
-- isaac/states/states.go: a switch is followed by those that its handlers ask for; and
-- the main loop.
pub mod Ends
pub mod Returns
pub mod Served
pub mod Tests
use mitum.Prelude.{
  ℕ, zero, suc, ◌+◌, Bool, true, false, not, ◌&&◌, ◌||◌, Option, none, some, List, [], ◌∷◌, is_some,
  ltb, if◌then◌else◌,
}
use mitum.States.Switch.{
  StateType, stopped, booting, joining, consensus, broken, state_eq, Context, Failure, other,
  switching, from, next, as_context, broken_context, States, Handlers, active_x, finish,
}
use mitum.States.Switch.Check.{Switched, done, panics, is_consensus, switch_state}

-- `checkOutOfHandoverX`
pub check_out_of_handover_x : Handlers → States → Context → States
check_out_of_handover_x hs st c = elim (active_x st) [
  | none ↦ st
  | some b ↦
      if state_eq (next c) booting || is_consensus (next c)
      then st
      else finish (hs.finish_sent st.turn) st b
]

-- What one round of the loop leads to: the end, with an error or none; the next round, with its
-- context and the count of rounds; or a nil dereference.
pub data Round : Type 0 where
  ends : States → Option Failure → Round
  goes : States → Context → ℕ → Round
  crashes : Round

pub after_round : Handlers → Context → ℕ → Switched → Round
after_round hs c n panics = crashes
after_round hs c n (done st none) =
    if state_eq (next c) stopped
    then ends st (some (switching c))
    else ends (check_out_of_handover_x hs st c) none
after_round hs c n (done st (some e)) = elim (as_context e) [
  | some r ↦ goes st r n
  | none ↦
      if state_eq (next c) broken then ends st (some e) else goes st (broken_context (from c) e) 0
]

-- A round: after more than three, the next leads to the broken state.
pub round : Handlers → States → Context → ℕ → Round
unfolding after_round
round hs st c n =
    if ltb 3 n
    then goes st (broken_context (from c) (switching c)) 0
    else after_round hs c (n + 1) (switch_state hs st c)

-- The loop of `ensureSwitchState`, of which `none` is that the rounds did not suffice.
go_on : (States → Context → ℕ → Option Round) → Round → Option Round
go_on again (ends st e) = some (ends st e)
go_on again crashes = some crashes
go_on again (goes st c n) = again st c n

pub rounds : Handlers → ℕ → States → Context → ℕ → Option Round
rounds hs zero st c n = none
rounds hs (suc fuel) st c n = go_on (rounds hs fuel) (round hs st c n)

-- `ensureSwitchState`
pub ensure_switch_state : Handlers → ℕ → States → Context → Option Round
ensure_switch_state hs fuel st c = rounds hs fuel st c 0

-- What the current handler answers to a voteproof: no error, `errIgnoreNewVoteproof`, or another
-- error.
pub data VoteproofAnswer : Type 0 where
  handled ignores : VoteproofAnswer
  errs : Failure → VoteproofAnswer

-- What comes in: a switch that was asked for; a voteproof, whether it is from the ballotbox, whether it
-- is new, and what the current handler would answer; or the end of the context
pub data Event : Type 0 where
  asked_switch : Context → Event
  voteproof_in : Bool → Bool → VoteproofAnswer → Event
  context_done : Event

module _ (hs : Handlers) (fuel : ℕ) where
  switch_for : States → Failure → Option Context → Option Round
  switch_for st e none = some (ends st (some e))
  switch_for st e (some c) = ensure_switch_state hs fuel st c

  by_answer : States → VoteproofAnswer → Option Round
  unfolding switch_for
  by_answer st handled = some (ends st none)
  by_answer st ignores = some (ends st none)
  by_answer st (errs e) = switch_for st e (as_context e)

  -- `newVoteproof`
  new_voteproof_in : States → Bool → VoteproofAnswer → Option Round
  unfolding by_answer
  new_voteproof_in st is_new a =
      if is_some st.cs && is_new then by_answer st a else some (ends st none)

  -- One round of `startStatesSwitch`; without an error the loop goes on.
  pub handle : States → Event → Option Round
  unfolding new_voteproof_in
  handle st (asked_switch c) = ensure_switch_state hs fuel st c
  handle st (voteproof_in from_box is_new a) =
      if from_box && not st.allowed_consensus
      then some (ends st none)
      else new_voteproof_in st is_new a
  handle st context_done = some (ends st (some (other false)))

  go_ahead : (States → Option Round) → Option Round → Option Round
  go_ahead more (some (ends st none)) = more st
  go_ahead more r = r

  -- `startStatesSwitch`, over what comes in, in its order
  pub serve : List Event → States → Option Round
  unfolding go_ahead
  serve [] st = some (ends st none)
  serve (ev ∷ evs) st = go_ahead (serve evs) (handle st ev)
