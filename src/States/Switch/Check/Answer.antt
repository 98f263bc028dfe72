-- ===== src/States/Switch/Check/Answer.antt =====
-- isaac/states/states.go: what a switch that is not made answers.
use mitum.Prelude.{
  ℕ, ◌≡◌, inl, inr, ◌∙◌, refl, ap, sym, Bool, true, Option, none, some, if◌then◌else◌, Bool-cases,
  arith,
}
use mitum.States.Switch.{
  StateType, empty, stopped, booting, joining, consensus, syncing, handover, broken, state_eq,
  Context, Carried, plain, voteproof, cause, no_cause, Failure, ignored, other, switching, next,
  carried, is_ignored, as_context, States, Handlers, enter_broken, enters,
}
use mitum.States.Switch.Check.{
  Switched, done, panics, check_state_switch_context, entered, enter_next, exit_and_enter,
  after_switch, go_to, after_check, switch_state,
}
use mitum.States.Switch.Check.Keeps.{keeps_broken, carried_keeps_broken, KeepBroken}
use mitum.States.Switch.Check.Carries.{carries, check-carries}

enter_broken-keeps_broken :
    (exits : Bool) (x : Carried) (e : Failure)
    → carried_keeps_broken x ≡ true
    → enter_broken exits x ≡ some e
    → keeps_broken e ≡ true
unfolding enter_broken keeps_broken
enter_broken-keeps_broken exits plain e k h = ground arith
enter_broken-keeps_broken exits voteproof e k h = ground arith
enter_broken-keeps_broken exits (cause x) e k h = ground arith
enter_broken-keeps_broken exits no_cause e k h = ground arith

module _ (hs : Handlers) (keep : KeepBroken hs) where
  enters-keeps_broken :
      (turn : ℕ) (s f : StateType) (c : Context) (e : Failure)
      → carried_keeps_broken (carried c) ≡ true
      → enters hs turn s f c ≡ some e
      → keeps_broken e ≡ true
  unfolding enters
  enters-keeps_broken turn broken f c e k h = enter_broken-keeps_broken hs.exits (carried c) e k h
  enters-keeps_broken turn empty f c e k h = keep.enter turn empty f c e h
  enters-keeps_broken turn stopped f c e k h = keep.enter turn stopped f c e h
  enters-keeps_broken turn booting f c e k h = keep.enter turn booting f c e h
  enters-keeps_broken turn joining f c e k h = keep.enter turn joining f c e h
  enters-keeps_broken turn consensus f c e k h = keep.enter turn consensus f c e h
  enters-keeps_broken turn syncing f c e k h = keep.enter turn syncing f c e h
  enters-keeps_broken turn handover f c e k h = keep.enter turn handover f c e h

  entered-keeps_broken :
      (st st' : States) (c : Context) (o : Option Failure) (e : Failure)
      → ((x : Failure) → o ≡ some x → keeps_broken x ≡ true)
      → entered hs st c o ≡ done st' (some e)
      → keeps_broken e ≡ true
  unfolding entered
  entered-keeps_broken st st' c none e k h = cc
  entered-keeps_broken st st' c (some x) e k h = ground (arith, k x refl)

  enter_next-keeps_broken :
      (st st' : States) (c : Context) (s : StateType) (e : Failure)
      → carried_keeps_broken (carried c) ≡ true
      → enter_next hs st c s ≡ done st' (some e)
      → keeps_broken e ≡ true
  unfolding enter_next keeps_broken
  enter_next-keeps_broken st st' c s e k h = elim (Bool-cases (hs.is_set (next c))) [
    | inr unset ↦ cc (rw unset at h)
    | inl set ↦ elim (Bool-cases (hs.fails_new st.turn (next c))) [
      | inl fails ↦ ap keeps_broken (sym (done_eq (rw (set, fails) at h)))
      | inr new ↦
          entered-keeps_broken st st' c (enters hs st.turn (next c) s c) e
            (λ x. enters-keeps_broken st.turn (next c) s c x k) (rw (set, new) at h)
    ]
  ]
    where
      done_eq : {s t : States} {x y : Failure} → done s (some x) ≡ done t (some y) → x ≡ y
      done_eq e = cc

  exit_and_enter-keeps_broken :
      (st st' : States) (c : Context) (s : StateType) (e : Failure)
      → carried_keeps_broken (carried c) ≡ true
      → exit_and_enter hs st c s ≡ done st' (some e)
      → keeps_broken e ≡ true
  unfolding exit_and_enter
  exit_and_enter-keeps_broken st st' c s e k h = step (hs.exit_of st.turn s c) refl h
    where
      step :
          (o : Option Failure)
          → hs.exit_of st.turn s c ≡ o
          → (elim o [
            | none ↦ enter_next hs st c s
            | some e ↦ if state_eq (next c) broken then enter_next hs st c s else done st (some e)
          ])
            ≡ done st' (some e)
          → keeps_broken e ≡ true
      step none o h = enter_next-keeps_broken st st' c s e k h
      step (some x) o h = elim (Bool-cases (state_eq (next c) broken)) [
        | inl b ↦ enter_next-keeps_broken st st' c s e k (rw b at h)
        | inr b ↦
            let same : x ≡ e = cc (rw b at h) in
            ap keeps_broken (sym same) ∙ keep.exit st.turn s c x o
      ]

  after_switch-keeps_broken :
      (st' : States) (c : Context) (x : Switched) (e : Failure)
      → ((s : States) (y : Failure) → x ≡ done s (some y) → keeps_broken y ≡ true)
      → after_switch c x ≡ done st' (some e)
      → keeps_broken e ≡ true
  unfolding after_switch
  after_switch-keeps_broken st' c panics e k h = cc
  after_switch-keeps_broken st' c (done s none) e k h = cc
  after_switch-keeps_broken st' c (done s (some x)) e k h = ground (arith, k s x refl)

  go_to-keeps_broken :
      (st st' : States) (c : Context) (e : Failure)
      → carried_keeps_broken (carried c) ≡ true
      → go_to hs st c ≡ done st' (some e)
      → keeps_broken e ≡ true
  unfolding go_to
  go_to-keeps_broken st st' c e k h = step st.cs h
    where
      step :
          (o : Option StateType)
          → (elim o [
            | none ↦ panics
            | some current ↦ after_switch c (exit_and_enter hs st c current)
          ])
            ≡ done st' (some e)
          → keeps_broken e ≡ true
      step none h = cc
      step (some s) h =
          after_switch-keeps_broken st' c (exit_and_enter hs st c s) e
            (λ t y. exit_and_enter-keeps_broken st t c s y k) h

  pub switch_state-keeps_broken :
      (st st' : States) (c : Context) (e : Failure)
      → carried_keeps_broken (carried c) ≡ true
      → switch_state hs st c ≡ done st' (some e)
      → keeps_broken e ≡ true
  unfolding switch_state after_check as_context keeps_broken carried carries
  switch_state-keeps_broken st st' c e k h =
      step (check_state_switch_context hs st c) (check-carries hs st c k) h
    where
      step :
          (o : Option Failure)
          → carries o ≡ true
          → after_check hs st c o ≡ done st' (some e)
          → keeps_broken e ≡ true
      step none f h = go_to-keeps_broken st st' c e k h
      step (some ignored) f h = cc
      step (some (other b)) f h = let same : other b ≡ e = cc in ap keeps_broken (sym same)
      step (some (switching r)) f h = elim (Bool-cases (is_ignored (switching r))) [
        | inl i ↦ cc (rw i at h)
        | inr i ↦ go_to-keeps_broken st st' r e f (rw i at h)
      ]
