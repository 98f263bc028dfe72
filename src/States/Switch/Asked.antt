-- ===== src/States/Switch/Asked.antt =====
-- isaac/states/states_handover.go: what is asked before a handover starts, on both nodes.
pub mod Apart
mod Tests
use mitum.Prelude.{
  Bool, true, false, not, ◌||◌, Option, none, some, if◌then◌else◌, Text, text_eq, is_some,
}
use mitum.States.Switch.{
  StateType, booting, joining, consensus, syncing, States, active_x, active_y,
  new_handover_x_broker, new_handover_y_broker, set_allow_consensus,
}

-- What a node that is asked has: its address and its connection, and what its functions answer;
-- `none` is an error. The current state is that of `States.Current`, once the node has started.
pub record Asked : Type 0 where
  pub local : Text
  pub local_conn : Text
  pub is_joined_memberlist : Option Bool
  pub current_state : StateType
  pub checks_x : Bool
  pub adds_sync_source : Bool

-- `isHandoverStarted`
pub is_handover_started : States → Bool
unfolding active_x active_y
is_handover_started st = is_some (active_x st) || is_some (active_y st)

is_ready : StateType → Bool
is_ready consensus = true
is_ready joining = true
is_ready booting = true
is_ready _ = false

is_ready_or_syncing : StateType → Bool
unfolding is_ready
is_ready_or_syncing syncing = true
is_ready_or_syncing s = is_ready s

joined : Option Bool → Bool
joined none = false
joined (some b) = b

-- `NewCheckHandoverXFunc`: true is no error.
pub check_handover_x : Asked → States → Bool
check_handover_x x st =
    if not st.allowed_consensus
    then false
    else if is_handover_started st
    then false
    else if not (joined x.is_joined_memberlist)
    then false
    else is_ready_or_syncing x.current_state

-- `NewCheckHandoverFunc`: the node and the connection are those of the other.
pub check_handover_of : Asked → States → Text → Text → Bool
check_handover_of x st node conn =
    if not (text_eq x.local node)
    then false
    else if text_eq x.local_conn conn
    then false
    else check_handover_x x st

-- What the node that is asked answers: an error, that the other may move to consensus at once, or
-- that a handover has started.
pub data Answered : Type 0 where
  refuses can_move_consensus started : Answered

start_x : States → States × Answered
unfolding new_handover_x_broker
start_x st = elim (new_handover_x_broker st) [ none ↦ (st, refuses) | some st' ↦ (st', started) ]

-- `NewAskHandoverReceivedFunc`, where `setNotAllowConsensus` is `SetAllowConsensus(false)` and
-- `startHandoverX` is `NewHandoverXBroker`
pub ask_handover_received : Asked → States → Text → Text → States × Answered
ask_handover_received x st node conn =
    if not (text_eq x.local node)
    then (st, refuses)
    else if text_eq x.local_conn conn
    then (st, refuses)
    else if is_handover_started st
    then (st, refuses)
    else if not st.allowed_consensus
    then (st, can_move_consensus)
    else if not (joined x.is_joined_memberlist)
    then (st, refuses)
    else if is_ready x.current_state
    then start_x st
    else ((set_allow_consensus st false).0, can_move_consensus)

start_y : States → States × Bool
unfolding new_handover_y_broker
start_y st = elim (new_handover_y_broker st) [ none ↦ (st, false) | some st' ↦ (st', true) ]

-- `NewStartHandoverYFunc`, where `startHandoverY` is `NewHandoverYBroker`; true is no error.
pub start_handover_y : Asked → States → Text → Text → States × Bool
start_handover_y y st node conn =
    if not (text_eq y.local node)
    then (st, false)
    else if text_eq y.local_conn conn
    then (st, false)
    else if st.allowed_consensus
    then (st, false)
    else if is_handover_started st
    then (st, false)
    else if not y.checks_x
    then (st, false)
    else if not y.adds_sync_source
    then (st, false)
    else start_y st
