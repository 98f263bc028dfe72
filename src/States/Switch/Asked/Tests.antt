-- ===== src/States/Switch/Asked/Tests.antt =====
-- Runs of isaac/states/states_handover.go, what is asked before a handover.
use mitum.Prelude.{◌≡◌, refl, Bool, true, false, none, some, [], ◌∷◌, text_eq}
use mitum.States.Switch.{
  StateType, syncing, States, active_x, active_y, new_handover_y_broker, set_allow_consensus,
}
use mitum.States.Switch.Asked.{
  Asked, is_handover_started, is_ready, is_ready_or_syncing, joined, start_y, check_handover_x,
  check_handover_of, can_move_consensus, ask_handover_received, start_handover_y,
}
use mitum.States.Switch.Asked.Apart.{Says, ask_handover_received-Says}

abbrev here : Asked
here = record {
  local = 1 ∷ [];
  local_conn = 7 ∷ [];
  is_joined_memberlist = some true;
  current_state = syncing;
  checks_x = true;
  adds_sync_source = true;
}

abbrev node_in : StateType → Bool → States
node_in s allowed = record {
  cs = some s;
  allowed_consensus = allowed;
  handover_x_broker = none;
  handover_y_broker = none;
  switched = [];
  turn = 0;
}

-- A node that syncs does not hand over: the other may move, and this one no more.
lets_move :
    ask_handover_received here (node_in syncing true) (1 ∷ []) (8 ∷ [])
    ≡ (node_in syncing false, can_move_consensus)
unfolding ask_handover_received is_handover_started active_x active_y joined is_ready
    set_allow_consensus text_eq
lets_move = refl

abbrev taking : States
taking = record (node_in syncing false) {
  handover_y_broker = some (record { y_canceled = false; y_asked = false });
}

takes_over : start_handover_y here (node_in syncing false) (1 ∷ []) (8 ∷ []) ≡ (taking, true)
unfolding start_handover_y is_handover_started active_x active_y start_y new_handover_y_broker
    text_eq
takes_over = refl

-- The node that syncs is fit for the check all the same.
checked : check_handover_of here (node_in syncing true) (1 ∷ []) (8 ∷ []) ≡ true
unfolding check_handover_of check_handover_x is_handover_started active_x active_y joined
    is_ready_or_syncing text_eq
checked = refl

ask_handover_received-Says_example :
    Says (node_in syncing true) (node_in syncing false) can_move_consensus
ask_handover_received-Says_example =
    ask_handover_received-Says here (node_in syncing true) (node_in syncing false) (1 ∷ []) (8 ∷ [])
      can_move_consensus lets_move
