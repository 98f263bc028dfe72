-- ===== src/States/Switch/Brokers.antt =====
-- isaac/states/states_handover.go, isaac/states/states.go, isaac/states/handover_x.go and
-- isaac/states/handover_y.go: the brokers of a handover, next to what is allowed.
use mitum.Prelude.{◌≡◌, Bool, true, false, not, ◌&&◌, Option, none, some, arith}
use mitum.States.Switch.{
  XBroker, YBroker, States, active_x, active_y, new_handover_x_broker, new_handover_y_broker,
  cancel_handover_x_broker, cancel_handover_y_broker, clean_handovers, set_allow_consensus, finish,
  ask_y, exit_finished,
}

live_x : Option XBroker → Bool
live_x none = false
live_x (some b) = not b.x_canceled

live_y : Option YBroker → Bool
live_y none = false
live_y (some b) = not b.y_canceled

unasked_y : Option YBroker → Bool
unasked_y none = false
unasked_y (some b) = not b.y_canceled && not b.y_asked

unfinished : Option XBroker → Bool
unfinished none = false
unfinished (some b) = not b.x_canceled && not b.x_finished

-- No two brokers are active; under an X broker that is not finished consensus is allowed, and under
-- a Y broker that was not asked it is not.
pub apart : Bool → Option XBroker → Option YBroker → Bool
unfolding live_x live_y unasked_y unfinished
apart allowed x y =
    not (live_x x && live_y y) && not (unasked_y y && allowed) && not (unfinished x && not allowed)

abbrev pub Apart : States → Type 0
Apart st = apart st.allowed_consensus st.handover_x_broker st.handover_y_broker ≡ true

-- What happens to the brokers; a message or an error may cancel one at any time, before it is taken
-- away.
pub data BrokerStep : States → States → Type 0 where
  new_x : (st st' : States) → new_handover_x_broker st ≡ some st' → BrokerStep st st'
  new_y : (st st' : States) → new_handover_y_broker st ≡ some st' → BrokerStep st st'
  cancels_x : (st : States) → BrokerStep st (cancel_handover_x_broker st)
  cancels_y : (st : States) → BrokerStep st (cancel_handover_y_broker st)
  cleans : (st : States) → BrokerStep st (clean_handovers st)
  allows : (st : States) (allow : Bool) → BrokerStep st (set_allow_consensus st allow).0
  ends_x :
      (st : States) (b : XBroker)
      → active_x st ≡ some b
      → BrokerStep st (record st { handover_x_broker = some (record b { x_canceled = true }) })
  ends_y :
      (st : States) (b : YBroker)
      → active_y st ≡ some b
      → BrokerStep st (record st { handover_y_broker = some (record b { y_canceled = true }) })
  asks : (st : States) (can_move : Bool) → BrokerStep st (ask_y can_move st)
  exits : (st : States) → BrokerStep st (exit_finished st)
  finishes :
      (st : States) (b : XBroker) (sent : Bool)
      → active_x st ≡ some b
      → BrokerStep st (finish sent st b)

new_x-Apart : (st st' : States) → Apart st → new_handover_x_broker st ≡ some st' → Apart st'
unfolding new_handover_x_broker apart active_y live_x live_y unasked_y unfinished
new_x-Apart st st' h e = ground arith

new_y-Apart : (st st' : States) → Apart st → new_handover_y_broker st ≡ some st' → Apart st'
unfolding new_handover_y_broker apart active_x live_x live_y unasked_y unfinished
new_y-Apart st st' h e = ground arith

allows-Apart : (st : States) (allow : Bool) → Apart st → Apart (set_allow_consensus st allow).0
unfolding set_allow_consensus apart active_x active_y clean_handovers live_x live_y unasked_y
    unfinished
allows-Apart st allow h = ground arith

finish-Apart :
    (st : States) (b : XBroker) (sent : Bool)
    → active_x st ≡ some b
    → Apart st
    → Apart (finish sent st b)
unfolding finish apart active_x live_x live_y unasked_y unfinished
finish-Apart st b sent a h = ground arith

asks-Apart : (st : States) (can_move : Bool) → Apart st → Apart (ask_y can_move st)
unfolding ask_y apart active_y live_x live_y unasked_y unfinished
asks-Apart st can_move h = ground arith

exits-Apart : (st : States) → Apart st → Apart (exit_finished st)
unfolding exit_finished apart active_y live_x live_y unasked_y unfinished
exits-Apart st h = ground arith

BrokerStep-Apart : (st st' : States) → Apart st → BrokerStep st st' → Apart st'
unfolding apart live_x live_y unasked_y unfinished cancel_handover_x_broker cancel_handover_y_broker
    clean_handovers
BrokerStep-Apart st st' h (new_x _ _ e) = new_x-Apart st st' h e
BrokerStep-Apart st st' h (new_y _ _ e) = new_y-Apart st st' h e
BrokerStep-Apart st st' h (cancels_x _) = ground arith
BrokerStep-Apart st st' h (cancels_y _) = ground arith
BrokerStep-Apart st st' h (cleans _) = ground arith
BrokerStep-Apart st st' h (allows _ allow) = allows-Apart st allow h
BrokerStep-Apart st st' h (ends_x _ b a) = ground arith
BrokerStep-Apart st st' h (ends_y _ b a) = ground arith
BrokerStep-Apart st st' h (asks _ can_move) = asks-Apart st can_move h
BrokerStep-Apart st st' h (exits _) = exits-Apart st h
BrokerStep-Apart st st' h (finishes _ b sent a) = finish-Apart st b sent a h

pub data BrokerSteps : States → States → Type 0 where
  stays : (st : States) → BrokerSteps st st
  moves : (st st1 st' : States) → BrokerStep st st1 → BrokerSteps st1 st' → BrokerSteps st st'

steps-Apart : (st st' : States) → Apart st → BrokerSteps st st' → Apart st'
steps-Apart st st' h (stays _) = h
steps-Apart st st' h (moves _ st1 _ s rest) = steps-Apart st1 st' (BrokerStep-Apart st st1 h s) rest

empty-Apart : (st : States) → st.handover_x_broker ≡ none → st.handover_y_broker ≡ none → Apart st
unfolding apart live_x live_y unasked_y unfinished
empty-Apart st x y = ground arith

-- From a node without brokers, whatever happens to the brokers and to what is allowed: no X and Y
-- broker are active together, consensus is allowed under an active X broker that is not finished,
-- and it is not allowed under an active Y broker, unless the other node was asked.
pub brokers-Apart :
    (st st' : States)
    → st.handover_x_broker ≡ none
    → st.handover_y_broker ≡ none
    → BrokerSteps st st'
    → Apart st'
brokers-Apart st st' x y steps = steps-Apart st st' (empty-Apart st x y) steps
