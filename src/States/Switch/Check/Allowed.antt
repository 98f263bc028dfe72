-- ===== src/States/Switch/Check/Allowed.antt =====
-- isaac/states/states.go: which states a switch may lead to.
use mitum.Prelude.{
  ◌≡◌, ◌≢◌, ◌⊎◌, inl, inr, ◌∙◌, refl, ap, sym, Bool, true, false, not, ◌&&◌, ◌||◌, Option, none,
  some, arith,
}
use mitum.States.Switch.{
  StateType, stopped, booting, syncing, handover, broken, state_eq, Context, Failure, switching,
  next, States, YBroker, Handlers, active_y,
}
use mitum.States.Switch.Check.{
  done, is_consensus, check_handover, redirect, or_redirect, check_current,
  check_state_switch_context, switch_state,
}
use mitum.States.Switch.Check.Goes.{stays, made, instead, switch_state-Goes}

-- The Y broker, if there is one, has asked.
unfoldable pub has_asked : Option YBroker → Bool
has_asked none = false
has_asked (some b) = b.y_asked

module _ (hs : Handlers) (st : States) (c : Context) (s : StateType) where
  pub or_redirect-some : (o : Option Failure) (b : Bool) → or_redirect o b c s ≢ none
  unfolding or_redirect
  or_redirect-some none b h = cc
  or_redirect-some (some e) b h = cc

  -- Only a switch to the broken state is let through as it is.
  check_current-none : check_current hs st c s ≡ none → state_eq (next c) broken ≡ true
  unfolding check_current
  check_current-none h =
      let last = or_redirect-some (check_handover (active_y st) c s) st.allowed_consensus in
      ground (arith, last)

  check_current-switching :
      (r : Context)
      → check_current hs st c s ≡ some (switching r)
      → (or_redirect (check_handover (active_y st) c s) st.allowed_consensus c s
          ≡ some (switching r))
        × ((state_eq s stopped && not (state_eq (next c) booting || state_eq (next c) broken))
            ≡ false)
  unfolding check_current
  check_current-switching r h = ground arith

  pub check_handover-next :
      (y : Option YBroker) (r : Context)
      → check_handover y c s ≡ some (switching r)
      → (next r ≡ handover) × (has_asked y ≡ true) × (is_consensus (next c) ≡ true)
  unfolding check_handover next has_asked
  check_handover-next none r h = ground arith
  check_handover-next (some b) r h = ground arith

  -- A handover is not let through without a Y broker that has asked.
  check_handover-none :
      (y : Option YBroker)
      → check_handover y c s ≡ none
      → (state_eq (next c) handover ≡ false) ⊎ (has_asked y ≡ true)
  unfolding check_handover has_asked
  check_handover-none none h = ground arith
  check_handover-none (some b) h = ground arith

  pub redirect-next :
      (r : Context) (b : Bool)
      → redirect b c s ≡ switching r
      → (r ≡ c) ⊎ ((next r ≡ syncing) × (is_consensus (next c) ≡ true))
  unfolding redirect next
  redirect-next r b h = ground arith

  redirect-is_consensus :
      (r : Context)
      → redirect false c s ≡ switching r
      → is_consensus (next r) ≡ true
      → state_eq s handover ≡ true
  unfolding redirect next is_consensus
  redirect-is_consensus r h k = ground arith

  -- A context that is let through comes from the check of the handover, or from the last switch.
  or_redirect-switching :
      (o : Option Failure) (r : Context)
      → or_redirect o st.allowed_consensus c s ≡ some (switching r)
      → (o ≡ some (switching r)) ⊎ ((o ≡ none) × (redirect st.allowed_consensus c s ≡ switching r))
  unfolding or_redirect
  or_redirect-switching none r h = inr (refl, cc)
  or_redirect-switching (some e) r h = inl h

  pub let_through :
      (r : Context)
      → check_current hs st c s ≡ some (switching r)
      → (check_handover (active_y st) c s ≡ some (switching r))
        ⊎ ((check_handover (active_y st) c s ≡ none)
            × (redirect st.allowed_consensus c s ≡ switching r))
  let_through r h =
      or_redirect-switching (check_handover (active_y st) c s) r ((check_current-switching r h).0)

  pub current_check : st.cs ≡ some s → check_state_switch_context hs st c ≡ check_current hs st c s
  unfolding check_state_switch_context
  current_check h = step st.cs h
    where
      step :
          (o : Option StateType)
          → o ≡ some s
          → (elim o [ none ↦ none | some current ↦ check_current hs st c current ])
            ≡ check_current hs st c s
      step none h = cc
      step (some x) h = let same : x ≡ s = cc in ap (check_current hs st c) same

  let_through-consensus :
      (r : Context)
      → st.allowed_consensus ≡ false
      → check_current hs st c s ≡ some (switching r)
      → is_consensus (next r) ≡ true
      → state_eq s handover ≡ true
  unfolding is_consensus
  let_through-consensus r a h k = elim (let_through r h) [
    | inl asked ↦ let (to, has, rest) = check_handover-next (active_y st) r asked in cc (rw to at k)
    | inr (n, d) ↦ redirect-is_consensus r (rw a at d) k
  ]

  let_through-handover :
      (r : Context)
      → check_current hs st c s ≡ some (switching r)
      → next r ≡ handover
      → has_asked (active_y st) ≡ true
  unfolding state_eq
  let_through-handover r h to = elim (let_through r h) [
    | inl asked ↦ let (to, has, rest) = check_handover-next (active_y st) r asked in has
    | inr (n, d) ↦ elim (redirect-next r st.allowed_consensus d) [
      | inr (away, k) ↦ cc
      | inl same ↦ elim (check_handover-none (active_y st) n) [
        | inr asked ↦ asked
        | inl not_to ↦ cc (rw (ap next (sym same) ∙ to) at not_to)
      ]
    ]
  ]

  starts_or_breaks :
      state_eq (next c) booting || state_eq (next c) broken ≡ true
      → (next c ≡ booting) ⊎ (next c ≡ broken)
  unfolding state_eq
  starts_or_breaks h = ground arith

  stopped-not_consensus :
      state_eq (next c) booting || state_eq (next c) broken ≡ true → is_consensus (next c) ≡ false
  unfolding state_eq is_consensus
  stopped-not_consensus h = ground arith

  let_through-stopped :
      (r : Context)
      → s ≡ stopped
      → check_current hs st c s ≡ some (switching r)
      → (next r ≡ booting) ⊎ (next r ≡ broken)
  unfolding state_eq
  let_through-stopped r at h =
      let allowed = rw at at ((check_current-switching r h).1) in
      let may : (state_eq (next c) booting || state_eq (next c) broken) ≡ true =
        ground (arith, allowed) in
      elim (let_through r h) [
        | inl asked ↦
            let (to, has, k) = check_handover-next (active_y st) r asked in
            cc (rw (stopped-not_consensus may) at k)
        | inr (n, d) ↦ elim (redirect-next r st.allowed_consensus d) [
          | inr (away, k) ↦ cc (rw (stopped-not_consensus may) at k)
          | inl same ↦ rw same (starts_or_breaks may)
        ]
      ]

module _ (hs : Handlers) (st st' : States) (c : Context) (e : Option Failure) (s t : StateType)
    (now : st.cs ≡ some s) (switched : switch_state hs st c ≡ done st' e)
    (after : st'.cs ≡ some t) where
  broken_next : check_state_switch_context hs st c ≡ none → state_eq (next c) broken ≡ true
  broken_next h = check_current-none hs st c s (sym (current_check hs st c s now) ∙ h)

  some_eq : {x y : StateType} → some x ≡ some y → x ≡ y
  some_eq h = cc

  -- While consensus is not allowed, a node gets into the consensus and the joining state only from
  -- the handover state.
  pub switch_state-consensus :
      st.allowed_consensus ≡ false → is_consensus t ≡ true → (t ≡ s) ⊎ (s ≡ handover)
  unfolding is_consensus state_eq
  switch_state-consensus a k = elim (switch_state-Goes hs st c st' e switched) [
    | stays h ↦ inl (some_eq (sym after ∙ h ∙ now))
    | made h to ↦
        let same : t ≡ next c = some_eq (sym after ∙ to) in absurd (ground (arith, broken_next h))
    | instead r h to ↦
        let same : t ≡ next r = some_eq (sym after ∙ to) in
        let from_handover =
          let_through-consensus hs st c s r a (sym (current_check hs st c s now) ∙ h)
            (rw same at k) in
        inr (ground (arith, from_handover))
  ]

  -- A node gets into the handover state only under a Y broker that has asked.
  pub switch_state-handover : t ≡ handover → (t ≡ s) ⊎ (has_asked (active_y st) ≡ true)
  unfolding state_eq
  switch_state-handover k = elim (switch_state-Goes hs st c st' e switched) [
    | stays h ↦ inl (some_eq (sym after ∙ h ∙ now))
    | made h to ↦
        let same : t ≡ next c = some_eq (sym after ∙ to) in absurd (ground (arith, broken_next h))
    | instead r h to ↦
        let same : t ≡ next r = some_eq (sym after ∙ to) in
        inr
          (let_through-handover hs st c s r (sym (current_check hs st c s now) ∙ h) (sym same ∙ k))
  ]

  -- A stopped node stays stopped, or gets into the booting or the broken state.
  pub switch_state-stopped : s ≡ stopped → (t ≡ stopped) ⊎ (t ≡ booting) ⊎ (t ≡ broken)
  unfolding state_eq
  switch_state-stopped k = elim (switch_state-Goes hs st c st' e switched) [
    | stays h ↦ inl (some_eq (sym after ∙ h ∙ now) ∙ k)
    | made h to ↦
        let same : t ≡ next c = some_eq (sym after ∙ to) in
        inr (inr (ground (arith, broken_next h)))
    | instead r h to ↦
        let same : t ≡ next r = some_eq (sym after ∙ to) in
        inr (rw same (let_through-stopped hs st c s r k (sym (current_check hs st c s now) ∙ h)))
  ]
