-- ===== src/States/Switch/Ensure/Returns.antt =====
-- isaac/states/states.go: what comes of a switch and all that follow it.
use mitum.Prelude.{
  ℕ, zero, suc, ◌+◌, ◌≤◌, ◌≡◌, ◌≢◌, inl, inr, ◌∙◌, ◌||◌, refl, Bool, true, false, arith, Option,
  none, some, ltb, if◌then◌else◌, is_some, Bool-cases,
}
use mitum.States.Switch.{
  StateType, stopped, booting, XBroker, active_x, finish, broken, state_eq, Context, Failure,
  switching, from, next, carried, as_context, broken_context, States, Handlers,
}
use mitum.States.Switch.Check.{is_consensus, Switched, done, panics, switch_state}
use mitum.States.Switch.Check.Keeps.{carried_keeps_broken, KeepBroken}
use mitum.States.Switch.Check.Registered.{Registered, switch_state-returns, switch_state-current}
use mitum.States.Switch.Ensure.{
  check_out_of_handover_x, Round, ends, goes, crashes, after_round, round, go_on, rounds,
  ensure_switch_state,
}
use mitum.States.Switch.Ensure.Ends.{ensure_switch_state-ends}

abbrev pub Current : States → Type 0
Current st = (s : StateType) × (st.cs ≡ some s)

-- A round that does not crash, and leaves the node in some state
unfoldable Fine : Round → Type 0
Fine (ends st e) = Current st
Fine (goes st c n) = Current st
Fine crashes = ⊥

-- Rounds that came to an end, if they were enough
unfoldable Ended : Option Round → Type 0
Ended none = Unit
Ended (some (ends st e)) = Current st
Ended (some (goes st c n)) = ⊥
Ended (some crashes) = ⊥

finish-cs : (sent : Bool) (st : States) (b : XBroker) → (finish sent st b).cs ≡ st.cs
unfolding finish
finish-cs sent st b = ground arith

module _ (hs : Handlers) (reg : Registered hs) where
  out_of_handover-cs : (st : States) (c : Context) → (check_out_of_handover_x hs st c).cs ≡ st.cs
  unfolding check_out_of_handover_x
  out_of_handover-cs st c = step (active_x st)
    where
      step :
          (o : Option XBroker)
          → (States.cs (elim o [
            | none ↦ st
            | some b ↦
                if state_eq (next c) booting || is_consensus (next c)
                then st
                else finish (hs.finish_sent st.turn) st b
          ]))
            ≡ st.cs
      step none = refl
      step (some b) = elim (Bool-cases (state_eq (next c) booting || is_consensus (next c))) [
        | inl k ↦ rw k refl
        | inr k ↦ rw k (finish-cs (hs.finish_sent st.turn) st b)
      ]

  out_of_handover-Current :
      (st : States) (c : Context) → Current st → Current (check_out_of_handover_x hs st c)
  out_of_handover-Current st c (s, now) = (s, out_of_handover-cs st c ∙ now)

  after_round-Fine :
      (st : States) (c : Context) (n : ℕ) (x : Switched)
      → x ≢ panics
      → ((st' : States) (e : Option Failure) → x ≡ done st' e → Current st')
      → Fine (after_round hs c n x)
  unfolding after_round Fine
  after_round-Fine st c n panics k cur = k refl
  after_round-Fine st c n (done st' none) k cur = elim (Bool-cases (state_eq (next c) stopped)) [
    | inl b ↦ rw (b, Fine) (cur st' none refl)
    | inr b ↦ rw (b, Fine) (out_of_handover-Current st' c (cur st' none refl))
  ]
  after_round-Fine st c n (done st' (some e)) k cur = step (as_context e)
    where
      step :
          (o : Option Context)
          → Fine (elim o [
            | some r ↦ goes st' r n
            | none ↦
                if state_eq (next c) broken
                then ends st' (some e)
                else goes st' (broken_context (from c) e) 0
          ])
      step (some r) = cur st' (some e) refl
      step none =
          elim (state_eq (next c) broken)
            as (λ b.
              Fine (if b then ends st' (some e) else goes st' (broken_context (from c) e) 0)) [
                | true ↦ cur st' (some e) refl
                | false ↦ cur st' (some e) refl
              ]

  round-Fine :
      (st : States) (c : Context) (n : ℕ) (s : StateType) → st.cs ≡ some s → Fine (round hs st c n)
  unfolding round Fine
  round-Fine st c n s now =
      elim (ltb 3 n)
        as (λ b. Fine (
          if b
          then goes st (broken_context (from c) (switching c)) 0
          else after_round hs c (n + 1) (switch_state hs st c))) [
            | true ↦ (s, now)
            | false ↦
                after_round-Fine st c (n + 1) (switch_state hs st c)
                  (switch_state-returns hs st c s now reg) (switch_state-current hs st c s now)
          ]

  rounds-Ended :
      (fuel : ℕ) (st : States) (c : Context) (n : ℕ) (s : StateType)
      → st.cs ≡ some s
      → Ended (rounds hs fuel st c n)
  unfolding rounds Ended go_on Fine
  rounds-Ended zero st c n s now = tt
  rounds-Ended (suc fuel) st c n s now =
      step (round hs st c n) (round-Fine st c n s now)
        (λ st' c' m s' now'. rounds-Ended fuel st' c' m s' now')
    where
      step :
          (r : Round)
          → Fine r
          → ((st' : States) (c' : Context) (m : ℕ) (s' : StateType)
              → st'.cs ≡ some s'
              → Ended (rounds hs fuel st' c' m))
          → Ended (go_on (rounds hs fuel) r)
      step (ends st' e) f k = f
      step (goes st' c' m) (s', now') k = k st' c' m s' now'
      step crashes f k = f

  -- A switch comes to an end within eight rounds, does not panic and leaves the node in some state: when the node is in some state,
  -- the handlers of syncing and of handover are set, no handler asks for a switch that leaves the
  -- broken state, and the switch does not hold such an error.
  pub ensure_switch_state-returns :
      (fuel : ℕ) (st : States) (c : Context) (s : StateType)
      → KeepBroken hs
      → 8 ≤ fuel
      → st.cs ≡ some s
      → carried_keeps_broken (carried c) ≡ true
      → (st' : States) × (e : Option Failure) × Current st'
        × (ensure_switch_state hs fuel st c ≡ some (ends st' e))
  unfolding Ended
  ensure_switch_state-returns fuel st c s keep le now k =
      step (ensure_switch_state hs fuel st c) (ensure_switch_state-ends hs keep fuel st c le k)
        (unfold ensure_switch_state in rounds-Ended fuel st c 0 s now)
    where
      step :
          (o : Option Round)
          → is_some o ≡ true
          → Ended o
          → (st' : States) × (e : Option Failure) × Current st' × (o ≡ some (ends st' e))
      step none h k = cc
      step (some (ends st' e)) h k = (st', e, k, refl)
      step (some crashes) h k = absurd k
      step (some (goes st' c' n)) h k = absurd k
