-- ===== src/States/Switch/Check.antt =====
-- isaac/states/states.go: the check of a switch, and one switch.
pub mod Allowed
pub mod Answer
pub mod Keeps
pub mod Carries
pub mod Broken
pub mod Goes
pub mod Registered
pub mod Tests
use mitum.Prelude.{
  ℕ, zero, suc, ◌+◌, Bool, true, false, not, ◌&&◌, ◌||◌, Option, none, some, List, [], ◌∷◌,
  if◌then◌else◌, is_some,
}
use mitum.States.Switch.{
  StateType, empty, stopped, booting, joining, consensus, syncing, handover, broken, state_eq,
  Context, context, Carried, plain, voteproof, cause, Failure, ignored, other, switching, from,
  next, carried, is_ignored, as_context, States, YBroker, Handlers, active_y, enters,
}

-- `next == StateConsensus, next == StateJoining`
unfoldable pub is_consensus : StateType → Bool
is_consensus consensus = true
is_consensus joining = true
is_consensus _ = false

-- `checkHandoverStateSwitchContext`; `none` is no error.
pub check_handover : Option YBroker → Context → StateType → Option Failure
check_handover none c current = if state_eq (next c) handover then some ignored else none
check_handover (some broker) c current =
    if not broker.y_asked
    then some ignored
    else if state_eq current handover
    then none
    else if is_consensus (next c)
    then some (switching (context (from c) handover voteproof))
    else none

-- The last switch of `checkStateSwitchContext`, which answers a context; one to syncing holds a height,
-- of the voteproof if there is one, which decides nothing here.
pub redirect : Bool → Context → StateType → Failure
redirect allowed c current =
    if allowed
    then if state_eq (next c) handover then ignored else switching c
    else if state_eq current handover
    then switching c
    else if is_consensus (next c)
    then if state_eq current syncing then ignored else switching (context current syncing plain)
    else switching c

pub or_redirect : Option Failure → Bool → Context → StateType → Option Failure
or_redirect (some e) allowed c current = some e
or_redirect none allowed c current = some (redirect allowed c current)

pub check_current : Handlers → States → Context → StateType → Option Failure
check_current hs st c current =
    if state_eq current stopped && not (state_eq (next c) booting || state_eq (next c) broken)
    then some ignored
    else if not (hs.is_set (next c))
    then some (other false)
    else if state_eq (next c) current
    then some ignored
    else if not (state_eq (from c) current)
    then some ignored
    else if state_eq (next c) broken
    then none
    else or_redirect (check_handover (active_y st) c current) st.allowed_consensus c current

-- `checkStateSwitchContext`; `none` is no error.
pub check_state_switch_context : Handlers → States → Context → Option Failure
unfolding check_current
check_state_switch_context hs st c = elim st.cs [
  | none ↦ none
  | some current ↦ check_current hs st c current
]

-- What `exitAndEnter` and `switchState` answer; a nil dereference panics.
pub data Switched : Type 0 where
  done : States → Option Failure → Switched
  panics : Switched

entered : Handlers → States → Context → Option Failure → Switched
unfolding as_context
entered hs st c none = done (record st { cs = some (next c); turn = st.turn + 1 }) none
entered hs st c (some e) = elim (as_context e) [
  | some r ↦ done (record st { cs = some (next c); turn = st.turn + 1 }) (some e)
  | none ↦ done (record st { turn = st.turn + 1 }) (some e)
]

enter_next : Handlers → States → Context → StateType → Switched
unfolding entered
enter_next hs st c current =
    if not (hs.is_set (next c))
    then panics
    else if hs.fails_new st.turn (next c)
    then done st (some (other false))
    else entered hs st c (enters hs st.turn (next c) current c)

-- `exitAndEnter`: an error of leaving does not keep a node from the broken state.
exit_and_enter : Handlers → States → Context → StateType → Switched
unfolding enter_next
exit_and_enter hs st c current = elim (hs.exit_of st.turn current c) [
  | none ↦ enter_next hs st c current
  | some e ↦ if state_eq (next c) broken then enter_next hs st c current else done st (some e)
]

-- What `switchState` makes of the answer
after_switch : Context → Switched → Switched
unfolding is_ignored
after_switch c panics = panics
after_switch c (done st none) = done (record st { switched = next c ∷ st.switched }) none
after_switch c (done st (some e)) = if is_ignored e then done st none else done st (some e)

go_to : Handlers → States → Context → Switched
unfolding exit_and_enter after_switch
go_to hs st c = elim st.cs [
  | none ↦ panics
  | some current ↦ after_switch c (exit_and_enter hs st c current)
]

after_check : Handlers → States → Context → Option Failure → Switched
unfolding go_to is_ignored as_context
after_check hs st c none = go_to hs st c
after_check hs st c (some e) =
    if is_ignored e
    then done st none
    else elim (as_context e) [ none ↦ done st (some e) | some r ↦ go_to hs st r ]

-- `switchState`
pub switch_state : Handlers → States → Context → Switched
unfolding after_check check_state_switch_context
switch_state hs st c = after_check hs st c (check_state_switch_context hs st c)
