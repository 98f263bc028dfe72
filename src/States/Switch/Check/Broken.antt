-- ===== src/States/Switch/Check/Broken.antt =====
-- isaac/states/states.go: switches in the broken state and to it.
use mitum.Prelude.{
  ◌≡◌, ◌⊎◌, inl, inr, ◌∙◌, refl, ap, sym, false, not, ◌&&◌, ◌||◌, Option, none, some, if◌then◌else◌,
  Bool-cases, arith,
}
use mitum.States.Switch.{
  StateType, stopped, booting, broken, state_eq, Context, Failure, ignored, other, from, next,
  is_ignored, as_context, States, Handlers, enters,
}
use mitum.States.Switch.Check.{
  Switched, done, panics, check_current, check_state_switch_context, entered, enter_next,
  exit_and_enter, after_switch, go_to, after_check, switch_state,
}

module _ (hs : Handlers) (st : States) (c : Context) where
  -- In the broken state a switch from another state is not made.
  pub switch_state-in_broken :
      st.cs ≡ some broken
      → state_eq (from c) broken ≡ false
      → (switch_state hs st c ≡ done st none)
        ⊎ (switch_state hs st c ≡ done st (some (other false)))
  unfolding switch_state check_state_switch_context check_current after_check is_ignored as_context
      state_eq
  switch_state-in_broken b f = rw b (elim (Bool-cases (hs.is_set (next c))) [
    | inr unset ↦ inr (rw unset refl)
    | inl set ↦ elim (Bool-cases (state_eq (next c) broken)) [
      | inl same ↦ inl (rw (set, same) refl)
      | inr new ↦ inl (rw (set, new, f) refl)
    ]
  ])

  check_current-to_broken :
      (s : StateType)
      → next c ≡ broken
      → (check_current hs st c s ≡ none)
        ⊎ (check_current hs st c s ≡ some ignored)
        ⊎ (check_current hs st c s ≡ some (other false))
  unfolding check_current state_eq
  check_current-to_broken s n =
      elim (Bool-cases
        (state_eq s stopped && not (state_eq (next c) booting || state_eq (next c) broken))) [
          | inl h ↦ inr (inl (rw h refl))
          | inr h ↦ elim (Bool-cases (hs.is_set (next c))) [
            | inr unset ↦ inr (inr (rw (h, unset) refl))
            | inl set ↦ elim (Bool-cases (state_eq (next c) s)) [
              | inl same ↦ inr (inl (rw (h, set, same) refl))
              | inr new ↦ elim (Bool-cases (state_eq (from c) s)) [
                | inr moved ↦ inr (inl (rw (h, set, new, moved) refl))
                | inl at ↦ inl (rw (h, set, new, at) (rw n refl))
              ]
            ]
          ]
        ]

  entered-to :
      (st' : States) (o : Option Failure) (e : Failure) (r : Context)
      → entered hs st c o ≡ done st' (some e)
      → as_context e ≡ some r
      → st'.cs ≡ some (next c)
  unfolding entered
  entered-to st' none e r h a = cc
  entered-to st' (some x) e r h a = ground arith

  enter_next-to :
      (st' : States) (s : StateType) (e : Failure) (r : Context)
      → enter_next hs st c s ≡ done st' (some e)
      → as_context e ≡ some r
      → st'.cs ≡ some (next c)
  unfolding enter_next as_context
  enter_next-to st' s e r h a = elim (Bool-cases (hs.is_set (next c))) [
    | inr unset ↦ cc (rw unset at h)
    | inl set ↦ elim (Bool-cases (hs.fails_new st.turn (next c))) [
      | inl fails ↦
          let same : other false ≡ e = cc (rw (set, fails) at h) in cc (rw (sym same) at a)
      | inr new ↦ entered-to st' (enters hs st.turn (next c) s c) e r (rw (set, new) at h) a
    ]
  ]

  exit_and_enter-to_broken :
      (s : StateType) → next c ≡ broken → exit_and_enter hs st c s ≡ enter_next hs st c s
  unfolding exit_and_enter state_eq
  exit_and_enter-to_broken s n = step (hs.exit_of st.turn s c)
    where
      step :
          (o : Option Failure)
          → (elim o [
            | none ↦ enter_next hs st c s
            | some e ↦ if state_eq (next c) broken then enter_next hs st c s else done st (some e)
          ])
            ≡ enter_next hs st c s
      step none = refl
      step (some e) = rw n refl

  after_switch-to :
      (st' : States) (x : Switched) (e : Failure)
      → after_switch c x ≡ done st' (some e)
      → x ≡ done st' (some e)
  unfolding after_switch
  after_switch-to st' panics e h = cc
  after_switch-to st' (done s none) e h = cc
  after_switch-to st' (done s (some x)) e h = ground arith

  go_to-to_broken :
      (st' : States) (e : Failure) (r : Context)
      → next c ≡ broken
      → go_to hs st c ≡ done st' (some e)
      → as_context e ≡ some r
      → st'.cs ≡ some broken
  unfolding go_to
  go_to-to_broken st' e r n h a = step st.cs h
    where
      step :
          (o : Option StateType)
          → (elim o [
            | none ↦ panics
            | some current ↦ after_switch c (exit_and_enter hs st c current)
          ])
            ≡ done st' (some e)
          → st'.cs ≡ some broken
      step none h = cc
      step (some s) h =
          enter_next-to st' s e r
            (sym (exit_and_enter-to_broken s n)
              ∙ after_switch-to st' (exit_and_enter hs st c s) e h)
            a
          ∙ ap some n

  check-to_broken :
      next c ≡ broken
      → (check_state_switch_context hs st c ≡ none)
        ⊎ (check_state_switch_context hs st c ≡ some ignored)
        ⊎ (check_state_switch_context hs st c ≡ some (other false))
  unfolding check_state_switch_context
  check-to_broken n = step st.cs
    where
      step :
          (o : Option StateType)
          → ((elim o [ none ↦ none | some s ↦ check_current hs st c s ]) ≡ none)
            ⊎ ((elim o [ none ↦ none | some s ↦ check_current hs st c s ]) ≡ some ignored)
            ⊎ ((elim o [ none ↦ none | some s ↦ check_current hs st c s ]) ≡ some (other false))
      step none = inl refl
      step (some s) = check_current-to_broken s n

  -- A switch to the broken state that answers with another leaves the broken state current.
  pub switch_state-to_broken :
      (st' : States) (e : Failure) (r : Context)
      → next c ≡ broken
      → switch_state hs st c ≡ done st' (some e)
      → as_context e ≡ some r
      → st'.cs ≡ some broken
  unfolding switch_state after_check is_ignored as_context
  switch_state-to_broken st' e r n h a = elim (check-to_broken n) [
    | inl made ↦ go_to-to_broken st' e r n (rw made at h) a
    | inr (inl not_made) ↦ cc (rw not_made at h)
    | inr (inr refused) ↦
        let same : other false ≡ e = cc (rw refused at h) in cc (rw (sym same) at a)
  ]
