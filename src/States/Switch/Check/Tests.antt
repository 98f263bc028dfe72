-- ===== src/States/Switch/Check/Tests.antt =====
-- Runs of isaac/states/states.go and isaac/states/states_handover.go, one switch.
use mitum.Prelude.{◌≡◌, ◌⊎◌, refl, Bool, true, false, Option, none, some, [], ◌∷◌}
use mitum.States.Switch.{
  StateType, stopped, booting, joining, consensus, syncing, handover, state_eq, context, plain,
  voteproof, from, next, is_ignored, as_context, YBroker, States, Handlers, active_y,
  new_handover_x_broker, set_allow_consensus, enters, new_handover_y_broker, active_x, ask_y,
  clean_handovers,
}
use mitum.States.Switch.Check.{
  done, is_consensus, check_handover, redirect, or_redirect, check_current,
  check_state_switch_context, entered, enter_next, exit_and_enter, after_switch, go_to, after_check,
  switch_state,
}
use mitum.States.Switch.Check.Allowed.{has_asked, switch_state-consensus, switch_state-handover}
use mitum.States.Switch.Check.Registered.{Registered}
use mitum.States.Switch.Brokers.{Apart, brokers-Apart, new_x, new_y, allows, asks, stays, moves}

-- Handlers that leave and enter without an error
abbrev quiet : Handlers
quiet = record {
  is_set = λ s. true;
  fails_new = λ turn s. false;
  exit_of = λ turn s c. none;
  enter_of = λ turn s f c. none;
  exits = false;
  finish_sent = λ turn. true;
}

abbrev asked : YBroker
asked = record { y_canceled = false; y_asked = true }

abbrev node_in : StateType → Bool → Option YBroker → States
node_in s allowed y = record {
  cs = some s;
  allowed_consensus = allowed;
  handover_x_broker = none;
  handover_y_broker = y;
  switched = [];
  turn = 0;
}

abbrev moved_to : StateType → Option YBroker → States
moved_to s y = record {
  cs = some s;
  allowed_consensus = false;
  handover_x_broker = none;
  handover_y_broker = y;
  switched = s ∷ [];
  turn = 1;
}

out_of_handover :
    switch_state quiet (node_in handover false (some asked)) (context handover consensus voteproof)
    ≡ done (moved_to consensus (some asked)) none
unfolding switch_state check_state_switch_context check_current check_handover active_y redirect
    or_redirect after_check go_to exit_and_enter after_switch enter_next entered enters state_eq
    is_consensus next from is_ignored as_context
out_of_handover = refl

into_handover :
    switch_state quiet (node_in syncing false (some asked)) (context syncing consensus voteproof)
    ≡ done (moved_to handover (some asked)) none
unfolding switch_state check_state_switch_context check_current check_handover active_y redirect
    or_redirect after_check go_to exit_and_enter after_switch enter_next entered enters state_eq
    is_consensus next from is_ignored as_context
into_handover = refl

out_of_stopped :
    switch_state quiet (node_in stopped false none) (context stopped booting plain)
    ≡ done (moved_to booting none) none
unfolding switch_state check_state_switch_context check_current check_handover active_y redirect
    or_redirect after_check go_to exit_and_enter after_switch enter_next entered enters state_eq
    is_consensus next from is_ignored as_context
out_of_stopped = refl

-- Not allowed, a node of the booting state that is to join syncs instead.
joins_not :
    switch_state quiet (node_in booting false none) (context booting joining plain)
    ≡ done (moved_to syncing none) none
unfolding switch_state check_state_switch_context check_current check_handover active_y redirect
    or_redirect after_check go_to exit_and_enter after_switch enter_next entered enters state_eq
    is_consensus next from is_ignored as_context
joins_not = refl

switch_state-consensus_example : (consensus ≡ handover) ⊎ (handover ≡ handover)
unfolding is_consensus
switch_state-consensus_example =
    switch_state-consensus quiet (node_in handover false (some asked))
      (moved_to consensus (some asked)) (context handover consensus voteproof) none handover
      consensus refl out_of_handover refl refl refl

switch_state-handover_example :
    (handover ≡ syncing) ⊎ (has_asked (active_y (node_in syncing false (some asked))) ≡ true)
switch_state-handover_example =
    switch_state-handover quiet (node_in syncing false (some asked))
      (moved_to handover (some asked)) (context syncing consensus voteproof) none syncing handover
      refl into_handover refl refl

quiet-Registered : Registered quiet
quiet-Registered = record { syncing_set = refl; handover_set = refl }

abbrev under_x : States
under_x = record {
  cs = some consensus;
  allowed_consensus = true;
  handover_x_broker = some (record { x_canceled = false; x_finished = false });
  handover_y_broker = none;
  switched = [];
  turn = 0;
}

begins_x : new_handover_x_broker (node_in consensus true none) ≡ some under_x
unfolding new_handover_x_broker active_y
begins_x = refl

-- The node stops to allow consensus, starts a handover of its own, asks, and may move.
abbrev under_y : States
under_y = record {
  cs = some consensus;
  allowed_consensus = false;
  handover_x_broker = none;
  handover_y_broker = some (record { y_canceled = false; y_asked = false });
  switched = [];
  turn = 0;
}

begins_y : new_handover_y_broker (set_allow_consensus under_x false).0 ≡ some under_y
unfolding new_handover_y_broker active_x active_y set_allow_consensus clean_handovers
begins_y = refl

brokers-Apart_example : Apart (ask_y true under_y)
brokers-Apart_example = brokers-Apart (node_in consensus true none) (ask_y true under_y) refl refl (
    moves (node_in consensus true none) under_x (ask_y true under_y)
      (new_x (node_in consensus true none) under_x begins_x)
      (moves under_x (set_allow_consensus under_x false).0 (ask_y true under_y)
        (allows under_x false)
        (moves (set_allow_consensus under_x false).0 under_y (ask_y true under_y)
          (new_y (set_allow_consensus under_x false).0 under_y begins_y)
          (moves under_y (ask_y true under_y) (ask_y true under_y) (asks under_y true)
            (stays (ask_y true under_y))))))
