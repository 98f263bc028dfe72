-- ===== src/States/Switch/Check/Carries.antt =====
-- isaac/states/states.go: what the check of a switch answers carries.
use mitum.Prelude.{◌≡◌, refl, Bool, true, Option, none, some, arith}
use mitum.States.Switch.{
  StateType, Context, Failure, ignored, other, switching, carried, States, YBroker, Handlers,
  active_y,
}
use mitum.States.Switch.Check.{
  check_handover, redirect, or_redirect, check_current, check_state_switch_context,
}
use mitum.States.Switch.Check.Keeps.{carried_keeps_broken}

-- What the check answers instead of a switch carries nothing new.
unfoldable pub carries : Option Failure → Bool
carries (some (switching r)) = carried_keeps_broken (carried r)
carries (some ignored) = true
carries (some (other b)) = true
carries none = true

check_handover-carries :
    (y : Option YBroker) (c : Context) (s : StateType) → carries (check_handover y c s) ≡ true
unfolding check_handover carries carried_keeps_broken carried
check_handover-carries none c s = ground arith
check_handover-carries (some b) c s = ground arith

redirect-carries :
    (b : Bool) (c : Context) (s : StateType)
    → carried_keeps_broken (carried c) ≡ true
    → carries (some (redirect b c s)) ≡ true
unfolding redirect carries carried_keeps_broken carried
redirect-carries b c s k = ground arith

or_redirect-carries :
    (o : Option Failure) (b : Bool) (c : Context) (s : StateType)
    → carried_keeps_broken (carried c) ≡ true
    → carries o ≡ true
    → carries (or_redirect o b c s) ≡ true
unfolding or_redirect
or_redirect-carries none b c s k h = redirect-carries b c s k
or_redirect-carries (some e) b c s k h = h

check_current-carries :
    (hs : Handlers) (st : States) (c : Context) (s : StateType)
    → carried_keeps_broken (carried c) ≡ true
    → carries (check_current hs st c s) ≡ true
unfolding check_current carries
check_current-carries hs st c s k =
    let last =
      or_redirect-carries (check_handover (active_y st) c s) st.allowed_consensus c s k
        (check_handover-carries (active_y st) c s) in
    ground (arith, last)

pub check-carries :
    (hs : Handlers) (st : States) (c : Context)
    → carried_keeps_broken (carried c) ≡ true
    → carries (check_state_switch_context hs st c) ≡ true
unfolding check_state_switch_context carries
check-carries hs st c k = step st.cs
  where
    step :
        (o : Option StateType)
        → carries (elim o [ none ↦ none | some current ↦ check_current hs st c current ]) ≡ true
    step none = refl
    step (some s) = check_current-carries hs st c s k
