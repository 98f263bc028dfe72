-- ===== src/States/Switch.antt =====
-- isaac/states/states.go, isaac/states/states_handover.go, isaac/states/handler.go and
-- isaac/states/broken.go: from which state of a node to which it may switch.
pub mod Check
pub mod Ensure
pub mod Brokers
pub mod Asked
use mitum.Prelude.{
  ℕ, zero, suc, ◌+◌, Bool, true, false, not, ◌&&◌, ◌||◌, Option, none, some, List, [], ◌∷◌, ◌++◌,
  ltb, if◌then◌else◌, is_some,
}

pub data StateType : Type 0 where
  empty stopped booting joining consensus syncing handover broken : StateType

unfoldable pub state_eq : StateType → StateType → Bool
state_eq empty empty = true
state_eq stopped stopped = true
state_eq booting booting = true
state_eq joining joining = true
state_eq consensus consensus = true
state_eq syncing syncing = true
state_eq handover handover = true
state_eq broken broken = true
state_eq _ _ = false

-- A switch context is an error too, and may hold the error that it was made for; the others are an
-- error that asks to ignore the switch, and any other, which may be an `ErrUnpromising`.
mutual
  pub data Context : Type 0 where
    context : StateType → StateType → Carried → Context

  pub data Carried : Type 0 where
    plain voteproof : Carried
    cause : Failure → Carried
    no_cause : Carried

  pub data Failure : Type 0 where
    ignored : Failure
    other : Bool → Failure
    switching : Context → Failure

pub from : Context → StateType
from (context f n c) = f

pub next : Context → StateType
next (context f n c) = n

pub carried : Context → Carried
carried (context f n c) = c

-- `errors.Is(err, ErrIgnoreSwitchingState)`
unfoldable mutual
  pub is_ignored : Failure → Bool
  is_ignored ignored = true
  is_ignored (other b) = false
  is_ignored (switching c) = context_ignored c

  pub context_ignored : Context → Bool
  context_ignored (context f n c) = carried_ignored c

  pub carried_ignored : Carried → Bool
  carried_ignored (cause e) = is_ignored e
  carried_ignored plain = false
  carried_ignored voteproof = false
  carried_ignored no_cause = false

-- `errors.Is(err, ErrUnpromising)`
unfoldable mutual
  pub is_unpromising : Failure → Bool
  is_unpromising ignored = false
  is_unpromising (other b) = b
  is_unpromising (switching c) = context_unpromising c

  pub context_unpromising : Context → Bool
  context_unpromising (context f n c) = carried_unpromising c

  pub carried_unpromising : Carried → Bool
  carried_unpromising (cause e) = is_unpromising e
  carried_unpromising plain = false
  carried_unpromising voteproof = false
  carried_unpromising no_cause = false

-- `errors.As(err, &sctx)`
unfoldable pub as_context : Failure → Option Context
as_context ignored = none
as_context (other b) = none
as_context (switching c) = some c

-- `newBrokenSwitchContext`
abbrev pub broken_context : StateType → Failure → Context
broken_context f e = context f broken (cause e)

pub record XBroker : Type 0 where
  pub x_canceled : Bool
  pub x_finished : Bool

pub record YBroker : Type 0 where
  pub y_canceled : Bool
  pub y_asked : Bool

-- `cs` is the state of the current handler, and `turn` counts the handlers that were entered.
-- `switched` is what `WhenStateSwitchedFunc` was told, the last first.
pub record States : Type 0 where
  pub cs : Option StateType
  pub allowed_consensus : Bool
  pub handover_x_broker : Option XBroker
  pub handover_y_broker : Option YBroker
  pub switched : List StateType
  pub turn : ℕ

-- What the handlers do, at each turn: which are set, which fail to be made, and what leaving and
-- entering one answers; `none` is no error. Of the broken state the code is below, and `exits` is
-- the flag `Exit` of its arguments. `finish_sent` tells whether the message of the X broker was
-- sent.
pub record Handlers : Type 0 where
  pub is_set : StateType → Bool
  pub fails_new : ℕ → StateType → Bool
  pub exit_of : ℕ → StateType → Context → Option Failure
  pub enter_of : ℕ → StateType → StateType → Context → Option Failure
  pub exits : Bool
  pub finish_sent : ℕ → Bool

-- `HandoverXBroker` and `HandoverYBroker`: a canceled broker is none.
pub active_x : States → Option XBroker
active_x st = elim st.handover_x_broker [
  | none ↦ none
  | some b ↦ if b.x_canceled then none else some b
]

pub active_y : States → Option YBroker
active_y st = elim st.handover_y_broker [
  | none ↦ none
  | some b ↦ if b.y_canceled then none else some b
]

-- `NewHandoverXBroker` and `NewHandoverYBroker`, where the functions of the arguments make a broker;
-- `none` is an error.
pub new_handover_x_broker : States → Option States
unfolding active_y
new_handover_x_broker st =
    if is_some st.handover_x_broker
    then none
    else if not st.allowed_consensus
    then none
    else if is_some (active_y st)
    then none
    else some
        (record st { handover_x_broker = some (record { x_canceled = false; x_finished = false }) })

pub new_handover_y_broker : States → Option States
unfolding active_x
new_handover_y_broker st =
    if is_some st.handover_y_broker
    then none
    else if st.allowed_consensus
    then none
    else if is_some (active_x st)
    then none
    else some
        (record st { handover_y_broker = some (record { y_canceled = false; y_asked = false }) })

-- `HandoverXBroker.finish`: whether its message is sent or not, consensus is no more allowed; when
-- it is not sent the broker is canceled.
pub finish : Bool → States → XBroker → States
finish sent st b = if b.x_finished then st else record st {
  allowed_consensus = false;
  handover_x_broker = some (record { x_canceled = not sent; x_finished = sent });
}

-- `CancelHandoverXBroker` and `CancelHandoverYBroker`
pub cancel_handover_x_broker : States → States
cancel_handover_x_broker st = record st { handover_x_broker = none }

pub cancel_handover_y_broker : States → States
cancel_handover_y_broker st = record st { handover_y_broker = none }

-- `cleanHandovers`
pub clean_handovers : States → States
clean_handovers st = record st { handover_x_broker = none; handover_y_broker = none }

-- `SetAllowConsensus`, up to the call of the current handler
pub set_allow_consensus : States → Bool → States × Bool
unfolding active_x active_y clean_handovers
set_allow_consensus st allow =
    if (st.allowed_consensus && allow) || (not st.allowed_consensus && not allow)
    then (st, false)
    else let set = record st { allowed_consensus = allow } in
      (
        if (is_some (active_x set) && not allow) || (is_some (active_y set) && allow)
            then clean_handovers set
            else set,
        true,
      )

-- `HandoverYBroker.Ask` of a broker that is active and was not asked, where the other node answered,
-- with what `SyncingHandler.askHandover` makes of the answer that it may move to consensus
pub ask_y : Bool → States → States
unfolding active_y
ask_y can_move st = elim (active_y st) [
  | none ↦ st
  | some b ↦ if b.y_asked then st else record st {
    allowed_consensus = if can_move then true else st.allowed_consensus;
    handover_y_broker = some (record b { y_asked = true });
  }
]

-- `HandoverHandler.exit` where the handover is finished: the broker is stopped, and consensus is
-- allowed; the handovers are cleaned later.
pub exit_finished : States → States
unfolding active_y
exit_finished st = elim (active_y st) [
  | none ↦ record st { allowed_consensus = true }
  | some b ↦ record st {
    allowed_consensus = true;
    handover_y_broker = some (record b { y_canceled = true });
  }
]

-- `BrokenHandler.enter`: only an error context is taken.
pub enter_broken : Bool → Carried → Option Failure
enter_broken exits plain = some (other false)
enter_broken exits voteproof = some (other false)
enter_broken exits no_cause = if exits then some (other false) else none
enter_broken exits (cause e) = if is_unpromising e || exits then some e else none

pub enters : Handlers → ℕ → StateType → StateType → Context → Option Failure
unfolding enter_broken
enters hs turn broken from c = enter_broken hs.exits (carried c)
enters hs turn s from c = hs.enter_of turn s from c
