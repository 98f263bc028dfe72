-- ===== src/States/Switch/Ensure/Tests.antt =====
-- Runs of isaac/states/states.go, a switch and those that follow.
use mitum.Prelude.{◌∷◌, List, ◌≡◌, refl, true, false, Option, none, some, [], arith}
use mitum.States.Switch.{
  StateType, booting, joining, syncing, context, plain, Failure, switching, States, Handlers,
  carried, state_eq,
}
use mitum.States.Switch.Check.Keeps.{KeepBroken, keeps_broken, carried_keeps_broken}
use mitum.States.Switch.Check.Registered.{Registered}
use mitum.States.Switch.Ensure.{
  ends, ensure_switch_state, Event, asked_switch, voteproof_in, context_done, handled, ignores,
  serve,
}
use mitum.States.Switch.Ensure.Served.{Stands, event_keeps_broken, serve-Stands}
use mitum.States.Switch.Ensure.Returns.{Current, ensure_switch_state-returns}

-- The joining and the syncing state ask for each other, without end.
turns_back : StateType → Option Failure
turns_back joining = some (switching (context joining syncing plain))
turns_back syncing = some (switching (context syncing joining plain))
turns_back _ = none

abbrev restless : Handlers
restless = record {
  is_set = λ s. true;
  fails_new = λ turn s. false;
  exit_of = λ turn s c. none;
  enter_of = λ turn s f c. turns_back s;
  exits = false;
  finish_sent = λ turn. true;
}

abbrev booted : States
booted = record {
  cs = some booting;
  allowed_consensus = true;
  handover_x_broker = none;
  handover_y_broker = none;
  switched = [];
  turn = 0;
}

turns_back-keeps_broken :
    (s : StateType) (e : Failure) → turns_back s ≡ some e → keeps_broken e ≡ true
unfolding turns_back keeps_broken state_eq
turns_back-keeps_broken s e h = ground arith

restless-KeepBroken : KeepBroken restless
restless-KeepBroken = record {
  exit = λ turn s c e h. cc;
  enter = λ turn s f c e h. turns_back-keeps_broken s e h;
}

restless-Registered : Registered restless
restless-Registered = record { syncing_set = refl; handover_set = refl }

ensure_switch_state-returns_example :
    (st' : States) × (e : Option Failure) × Current st'
    × (ensure_switch_state restless 8 booted (context booting joining plain) ≡ some (ends st' e))
unfolding carried_keeps_broken carried
ensure_switch_state-returns_example =
    ensure_switch_state-returns restless restless-Registered 8 booted
      (context booting joining plain) booting restless-KeepBroken (omega arith) refl refl

abbrev coming : List Event
coming =
    voteproof_in true true handled
    ∷ asked_switch (context booting joining plain)
    ∷ voteproof_in true false ignores
    ∷ context_done
    ∷ []

serve-Stands_example : Stands (serve restless 8 coming booted)
unfolding carried_keeps_broken carried event_keeps_broken
serve-Stands_example =
    serve-Stands restless 8 restless-Registered restless-KeepBroken (omega arith) coming booted
      (booting, refl) refl
