-- ===== src/States/Switch/Check/Registered.antt =====
-- isaac/states/states.go: where a switch does not panic.
use mitum.Prelude.{
  ◌≡◌, ◌≢◌, inl, inr, ◌∙◌, refl, sym, true, Option, none, some, if◌then◌else◌, Bool-cases, arith,
}
use mitum.States.Switch.{
  StateType, syncing, handover, broken, state_eq, Context, Failure, ignored, other, switching, next,
  is_ignored, as_context, States, Handlers, active_y, enters,
}
use mitum.States.Switch.Check.{
  Switched, done, panics, check_handover, check_current, check_state_switch_context, entered,
  enter_next, exit_and_enter, after_switch, go_to, after_check, switch_state,
}
use mitum.States.Switch.Check.Goes.{stays, made, instead, switch_state-Goes}
use mitum.States.Switch.Check.Allowed.{
  or_redirect-some, let_through, check_handover-next, redirect-next, current_check,
}

-- The handlers that a switch may be led to instead of its own are set.
pub record Registered (hs : Handlers) : Type 0 where
  pub syncing_set : hs.is_set syncing ≡ true
  pub handover_set : hs.is_set handover ≡ true

module _ (hs : Handlers) (st : States) (c : Context) (s : StateType) where
  check_current-set-none : check_current hs st c s ≡ none → hs.is_set (next c) ≡ true
  unfolding check_current
  check_current-set-none h =
      let last =
        or_redirect-some hs st c s (check_handover (active_y st) c s) st.allowed_consensus in
      ground (arith, last)

  check_current-set :
      (r : Context) → check_current hs st c s ≡ some (switching r) → hs.is_set (next c) ≡ true
  unfolding check_current
  check_current-set r h = ground arith

  let_through-set :
      Registered hs
      → (r : Context) → check_current hs st c s ≡ some (switching r)
      → hs.is_set (next r) ≡ true
  let_through-set reg r h = elim (let_through hs st c s r h) [
    | inl asked ↦
        let (to, has, k) = check_handover-next hs st c s (active_y st) r asked in
        rw to reg.handover_set
    | inr (n, d) ↦ elim (redirect-next hs st c s r st.allowed_consensus d) [
      | inr (away, k) ↦ rw away reg.syncing_set
      | inl same ↦ rw same (check_current-set r h)
    ]
  ]

module _ (hs : Handlers) (st : States) where
  entered-returns : (c : Context) (o : Option Failure) → entered hs st c o ≢ panics
  unfolding entered
  entered-returns c none h = cc
  entered-returns c (some e) h = ground arith

  enter_next-returns :
      (c : Context) (s : StateType) → hs.is_set (next c) ≡ true → enter_next hs st c s ≢ panics
  unfolding enter_next
  enter_next-returns c s set h =
      let k = entered-returns c (enters hs st.turn (next c) s c) in
      elim (Bool-cases (hs.fails_new st.turn (next c))) [
        | inl fails ↦ cc (rw (set, fails) at h)
        | inr new ↦ k (rw (set, new) at h)
      ]

  exit_and_enter-returns :
      (c : Context) (s : StateType) → hs.is_set (next c) ≡ true → exit_and_enter hs st c s ≢ panics
  unfolding exit_and_enter
  exit_and_enter-returns c s set h = step (hs.exit_of st.turn s c) h
    where
      step :
          (o : Option Failure)
          → (elim o [
            | none ↦ enter_next hs st c s
            | some x ↦ if state_eq (next c) broken then enter_next hs st c s else done st (some x)
          ])
            ≢ panics
      step none h = enter_next-returns c s set h
      step (some x) h = elim (Bool-cases (state_eq (next c) broken)) [
        | inl b ↦ enter_next-returns c s set (rw b at h)
        | inr b ↦ cc (rw b at h)
      ]

  after_switch-returns : (c : Context) (x : Switched) → x ≢ panics → after_switch c x ≢ panics
  unfolding after_switch
  after_switch-returns c panics k h = k refl
  after_switch-returns c (done s none) k h = cc
  after_switch-returns c (done s (some e)) k h = ground arith

  go_to-returns :
      (c : Context) (s : StateType)
      → st.cs ≡ some s
      → hs.is_set (next c) ≡ true
      → go_to hs st c ≢ panics
  unfolding go_to
  go_to-returns c s now set h = step st.cs now h
    where
      step :
          (o : Option StateType)
          → o ≡ some s
          → (elim o [
            | none ↦ panics
            | some current ↦ after_switch c (exit_and_enter hs st c current)
          ])
            ≢ panics
      step none n h = cc
      step (some x) n h =
          after_switch-returns c (exit_and_enter hs st c x) (exit_and_enter-returns c x set) h

module _ (hs : Handlers) (st : States) (c : Context) (s : StateType) (now : st.cs ≡ some s) where
  -- A switch does not panic: when there is a current handler, and the handlers of syncing and of
  -- handover are set.
  pub switch_state-returns : Registered hs → switch_state hs st c ≢ panics
  unfolding switch_state after_check as_context
  switch_state-returns reg h = step (check_state_switch_context hs st c) refl h
    where
      step :
          (o : Option Failure)
          → check_state_switch_context hs st c ≡ o
          → after_check hs st c o ≢ panics
      step none a h =
          go_to-returns hs st c s now
            (check_current-set-none hs st c s (sym (current_check hs st c s now) ∙ a)) h
      step (some ignored) a h = cc
      step (some (other b)) a h = cc
      step (some (switching r)) a h = elim (Bool-cases (is_ignored (switching r))) [
        | inl i ↦ cc (rw i at h)
        | inr i ↦
            go_to-returns hs st r s now
              (let_through-set hs st c s reg r (sym (current_check hs st c s now) ∙ a)) (rw i at h)
      ]

  -- A switch leaves a node in some state.
  pub switch_state-current :
      (st' : States) (e : Option Failure)
      → switch_state hs st c ≡ done st' e
      → (t : StateType) × (st'.cs ≡ some t)
  switch_state-current st' e h = elim (switch_state-Goes hs st c st' e h) [
    | stays k ↦ (s, k ∙ now)
    | made a to ↦ (next c, to)
    | instead r a to ↦ (next r, to)
  ]
