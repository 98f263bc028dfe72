-- ===== src/States/Switch/Asked/Apart.antt =====
-- isaac/states/states_handover.go: a node that hands over, or lets another move, next to its own
-- consensus.
use mitum.Prelude.{◌≡◌, ◌⊎◌, true, false, Text, is_some, arith}
use mitum.States.Switch.{States, active_x, active_y, set_allow_consensus, clean_handovers}
use mitum.States.Switch.Asked.{
  Asked, start_x, start_y, Answered, refuses, can_move_consensus, started, ask_handover_received,
  start_handover_y,
}

-- What the answer says of the node that is asked: nothing changes, or consensus is not allowed there,
-- or it is, under an active X broker.
abbrev pub Says : States → States → Answered → Type 0
Says st st' r =
    ((r ≡ refuses) × (st' ≡ st))
    ⊎ ((r ≡ can_move_consensus) × (st'.allowed_consensus ≡ false))
    ⊎ ((r ≡ started) × (st'.allowed_consensus ≡ true) × (is_some (active_x st') ≡ true))

start_x-Says :
    (st st' : States) (r : Answered)
    → st.allowed_consensus ≡ true
    → start_x st ≡ (st', r)
    → Says st st' r
unfolding start_x active_x active_y
start_x-Says st st' r a h = ground arith

not_allowed : (st : States) → (set_allow_consensus st false).0.allowed_consensus ≡ false
unfolding set_allow_consensus clean_handovers
not_allowed st = ground arith

start_y-active :
    (st st' : States)
    → st.allowed_consensus ≡ false
    → start_y st ≡ (st', true)
    → (st'.allowed_consensus ≡ false) × (is_some (active_y st') ≡ true)
unfolding start_y active_x active_y
start_y-active st st' a h = ground arith

-- A node that is asked for a handover refuses and stays as it is; or lets the other move to consensus,
-- and then does not allow consensus itself; or it still allows consensus, under an active X broker.
pub ask_handover_received-Says :
    (x : Asked) (st st' : States) (node conn : Text) (r : Answered)
    → ask_handover_received x st node conn ≡ (st', r)
    → Says st st' r
unfolding ask_handover_received
ask_handover_received-Says x st st' node conn r h =
    ground (arith, start_x-Says st st' r, not_allowed st)

-- A node that starts to take a handover over does not allow consensus, and has an active Y broker.
pub start_handover_y-active :
    (y : Asked) (st st' : States) (node conn : Text)
    → start_handover_y y st node conn ≡ (st', true)
    → (st'.allowed_consensus ≡ false) × (is_some (active_y st') ≡ true)
unfolding start_handover_y
start_handover_y-active y st st' node conn h = ground (arith, start_y-active st st')
