-- ===== src/States/Switch/Check/Goes.antt =====
-- isaac/states/states.go: where a switch goes.
use mitum.Prelude.{
  ◌≡◌, ◌⊎◌, inl, inr, refl, ap, sym, Option, none, some, if◌then◌else◌, Bool-cases, arith,
}
use mitum.States.Switch.{
  StateType, broken, state_eq, Context, Failure, ignored, other, switching, next, is_ignored,
  as_context, States, Handlers, enters,
}
use mitum.States.Switch.Check.{
  Switched, done, panics, check_state_switch_context, entered, enter_next, exit_and_enter,
  after_switch, go_to, after_check, switch_state,
}

-- The current state is kept, or the next of the context is entered.
abbrev Kept : States → Context → States → Type 0
Kept st c st' = (st'.cs ≡ st.cs) ⊎ (st'.cs ≡ some (next c))

module _ (hs : Handlers) (st : States) where
  entered-Kept :
      (c : Context) (st' : States) (o e : Option Failure)
      → entered hs st c o ≡ done st' e
      → Kept st c st'
  unfolding entered
  entered-Kept c st' none e h = ground arith
  entered-Kept c st' (some x) e h = ground arith

  enter_next-Kept :
      (c : Context) (s : StateType) (st' : States) (e : Option Failure)
      → enter_next hs st c s ≡ done st' e
      → Kept st c st'
  unfolding enter_next
  enter_next-Kept c s st' e h = elim (Bool-cases (hs.is_set (next c))) [
    | inr unset ↦ cc (rw unset at h)
    | inl set ↦ elim (Bool-cases (hs.fails_new st.turn (next c))) [
      | inl fails ↦
          let same : st ≡ st' = cc (rw (set, fails) at h) in
          inl (ap (λ (x : States). x.cs) (sym same))
      | inr new ↦ entered-Kept c st' (enters hs st.turn (next c) s c) e (rw (set, new) at h)
    ]
  ]

  exit_and_enter-Kept :
      (c : Context) (s : StateType) (st' : States) (e : Option Failure)
      → exit_and_enter hs st c s ≡ done st' e
      → Kept st c st'
  unfolding exit_and_enter
  exit_and_enter-Kept c s st' e h = step (hs.exit_of st.turn s c) h
    where
      step :
          (o : Option Failure)
          → (elim o [
            | none ↦ enter_next hs st c s
            | some x ↦ if state_eq (next c) broken then enter_next hs st c s else done st (some x)
          ])
            ≡ done st' e
          → Kept st c st'
      step none h = enter_next-Kept c s st' e h
      step (some x) h = elim (Bool-cases (state_eq (next c) broken)) [
        | inl b ↦ enter_next-Kept c s st' e (rw b at h)
        | inr b ↦ let same : st ≡ st' = cc (rw b at h) in inl (ap (λ (x : States). x.cs) (sym same))
      ]

  after_switch-Kept :
      (c : Context) (st' : States) (x : Switched) (e : Option Failure)
      → ((s : States) (y : Option Failure) → x ≡ done s y → Kept st c s)
      → after_switch c x ≡ done st' e
      → Kept st c st'
  unfolding after_switch
  after_switch-Kept c st' panics e k h = cc
  after_switch-Kept c st' (done s none) e k h = ground (arith, k s none refl)
  after_switch-Kept c st' (done s (some x)) e k h = ground (arith, k s (some x) refl)

  go_to-Kept :
      (c : Context) (st' : States) (e : Option Failure) → go_to hs st c ≡ done st' e → Kept st c st'
  unfolding go_to
  go_to-Kept c st' e h = step st.cs h
    where
      step :
          (o : Option StateType)
          → (elim o [
            | none ↦ panics
            | some current ↦ after_switch c (exit_and_enter hs st c current)
          ])
            ≡ done st' e
          → Kept st c st'
      step none h = cc
      step (some s) h =
          after_switch-Kept c st' (exit_and_enter hs st c s) e (λ t y. exit_and_enter-Kept c s t y)
            h

-- The context that a switch goes by, when it goes at all
pub data Goes (hs : Handlers) (st : States) (c : Context) (st' : States) : Type 0 where
  stays : st'.cs ≡ st.cs → Goes hs st c st'
  made : check_state_switch_context hs st c ≡ none → st'.cs ≡ some (next c) → Goes hs st c st'
  instead :
      (r : Context)
      → check_state_switch_context hs st c ≡ some (switching r)
      → st'.cs ≡ some (next r)
      → Goes hs st c st'

pub switch_state-Goes :
    (hs : Handlers) (st : States) (c : Context) (st' : States) (e : Option Failure)
    → switch_state hs st c ≡ done st' e
    → Goes hs st c st'
unfolding switch_state after_check as_context
switch_state-Goes hs st c st' e h = step (check_state_switch_context hs st c) refl h
  where
    kept : st ≡ st' → Goes hs st c st'
    kept same = stays (ap (λ (x : States). x.cs) (sym same))

    step :
        (o : Option Failure)
        → check_state_switch_context hs st c ≡ o
        → after_check hs st c o ≡ done st' e
        → Goes hs st c st'
    step none a h = elim (go_to-Kept hs st c st' e h) [ inl s ↦ stays s | inr s ↦ made a s ]
    step (some ignored) a h = kept cc
    step (some (other b)) a h = kept cc
    step (some (switching r)) a h = elim (Bool-cases (is_ignored (switching r))) [
      | inl i ↦ kept (cc (rw i at h))
      | inr i ↦ elim (go_to-Kept hs st r st' e (rw i at h)) [
        | inl s ↦ stays s
        | inr s ↦ instead r a s
      ]
    ]
