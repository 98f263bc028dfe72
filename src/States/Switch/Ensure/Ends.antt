-- ===== src/States/Switch/Ensure/Ends.antt =====
-- isaac/states/states.go: the rounds of a switch come to an end.
use mitum.Prelude.{
  ℕ, zero, suc, ◌+◌, ◌≤◌, ◌≡◌, ◌⊎◌, inl, inr, refl, true, false, Option, none, some, ltb, is_some,
  Bool-cases, Option-cases, arith,
}
use mitum.States.Switch.{
  StateType, stopped, broken, state_eq, Context, context, Failure, other, switching, from, next,
  carried, as_context, broken_context, States, Handlers,
}
use mitum.States.Switch.Check.{Switched, done, panics, switch_state}
use mitum.States.Switch.Check.Keeps.{
  keeps_broken, context_keeps_broken, carried_keeps_broken, KeepBroken, as_context-keeps_broken,
}
use mitum.States.Switch.Check.Answer.{switch_state-keeps_broken}
use mitum.States.Switch.Check.Broken.{switch_state-in_broken, switch_state-to_broken}
use mitum.States.Switch.Ensure.{
  ends, goes, crashes, after_round, round, go_on, rounds, ensure_switch_state,
}

module _ (hs : Handlers) (keep : KeepBroken hs) where
  abbrev Ends : ℕ → States → Context → ℕ → Type 0
  Ends fuel st c n = is_some (rounds hs fuel st c n) ≡ true

  -- What a round leads to, as far as the end is concerned
  data Step (st : States) (c : Context) (n : ℕ) : Type 0 where
    stops : ((fuel : ℕ) → Ends (suc fuel) st c n) → Step st c n
    to_broken :
        (st' : States) (e : Failure)
        → keeps_broken e ≡ true
        → (ltb 3 n ≡ true) ⊎ (state_eq (next c) broken ≡ false)
        → ((fuel : ℕ) → Ends fuel st' (broken_context (from c) e) 0 → Ends (suc fuel) st c n)
        → Step st c n
    asked :
        (st' : States) (r : Context)
        → ltb 3 n ≡ false
        → context_keeps_broken r ≡ true
        → (next c ≡ broken → st'.cs ≡ some broken)
        → ((fuel : ℕ) → Ends fuel st' r (n + 1) → Ends (suc fuel) st c n)
        → Step st c n

  module _ (st : States) (c : Context) (n : ℕ) where
    Ends-ends :
        (st' : States) (e : Option Failure)
        → round hs st c n ≡ ends st' e
        → (fuel : ℕ) → Ends (suc fuel) st c n
    unfolding rounds go_on
    Ends-ends st' e h fuel = rw h refl

    Ends-crashes : round hs st c n ≡ crashes → (fuel : ℕ) → Ends (suc fuel) st c n
    unfolding rounds go_on
    Ends-crashes h fuel = rw h refl

    Ends-goes :
        (st' : States) (r : Context) (m : ℕ)
        → round hs st c n ≡ goes st' r m
        → (fuel : ℕ) → Ends fuel st' r m
        → Ends (suc fuel) st c n
    unfolding rounds go_on
    Ends-goes st' r m h fuel e = rw h e

    step-failed :
        (st' : States) (e : Failure)
        → ltb 3 n ≡ false
        → carried_keeps_broken (carried c) ≡ true
        → switch_state hs st c ≡ done st' (some e)
        → round hs st c n ≡ after_round hs c (n + 1) (done st' (some e))
        → Step st c n
    unfolding after_round
    step-failed st' e few k h r = elim (Option-cases (as_context e)) [
      | inr (x, a) ↦
          asked st' x few
            (as_context-keeps_broken e x a (switch_state-keeps_broken hs keep st st' c e k h))
            (λ b. switch_state-to_broken hs st c st' e x b h a)
            (Ends-goes st' x (n + 1) (rw (a, after_round) at r))
      | inl a ↦ elim (Bool-cases (state_eq (next c) broken)) [
        | inl b ↦ stops (Ends-ends st' (some e) (rw (a, b, after_round) at r))
        | inr b ↦
            to_broken st' e (switch_state-keeps_broken hs keep st st' c e k h) (inr b)
              (Ends-goes st' (broken_context (from c) e) 0 (rw (a, b, after_round) at r))
      ]
    ]

    step-after :
        (x : Switched)
        → ltb 3 n ≡ false
        → carried_keeps_broken (carried c) ≡ true
        → switch_state hs st c ≡ x
        → round hs st c n ≡ after_round hs c (n + 1) x
        → Step st c n
    unfolding after_round
    step-after panics few k h r = stops (Ends-crashes r)
    step-after (done st' none) few k h r = elim (Bool-cases (state_eq (next c) stopped)) [
      | inl b ↦ stops (Ends-ends st' (some (switching c)) (rw (b, after_round) at r))
      | inr b ↦ stops (Ends-ends _ none (rw (b, after_round) at r))
    ]
    step-after (done st' (some e)) few k h r = step-failed st' e few k h r

    step-few : carried_keeps_broken (carried c) ≡ true → ltb 3 n ≡ false → Step st c n
    unfolding round
    step-few k few = step-after (switch_state hs st c) few k refl (rw few refl)

    round-many :
        ltb 3 n ≡ true → round hs st c n ≡ goes st (broken_context (from c) (switching c)) 0
    unfolding round
    round-many many = rw many refl

    step-many : context_keeps_broken c ≡ true → ltb 3 n ≡ true → Step st c n
    unfolding keeps_broken
    step-many k many =
        to_broken st (switching c) k (inl many)
          (Ends-goes st (broken_context (from c) (switching c)) 0 (round-many many))

    round-few : ltb 3 n ≡ false → round hs st c n ≡ after_round hs c (n + 1) (switch_state hs st c)
    unfolding round
    round-few few = rw few refl

    Ends-done :
        ltb 3 n ≡ false → switch_state hs st c ≡ done st none → (fuel : ℕ) → Ends (suc fuel) st c n
    unfolding after_round
    Ends-done few h = elim (Bool-cases (state_eq (next c) stopped)) [
      | inl b ↦ Ends-ends st (some (switching c)) (rw (h, b, after_round) at (round-few few))
      | inr b ↦ Ends-ends _ none (rw (h, b, after_round) at (round-few few))
    ]

  -- Once the broken state is current, a switch to it from another state ends at once.
  Ends-again :
      (st : States) (c : Context) (n : ℕ)
      → st.cs ≡ some broken
      → state_eq (from c) broken ≡ false
      → next c ≡ broken
      → ltb 3 n ≡ false
      → (fuel : ℕ) → Ends (suc fuel) st c n
  unfolding after_round as_context state_eq
  Ends-again st c n b f to few = elim (switch_state-in_broken hs st c b f) [
    | inl h ↦ Ends-done st c n few h
    | inr h ↦
        Ends-ends st c n st (some (other false)) (rw (h, to, after_round) at (round-few st c n few))
  ]

  from-keeps_broken :
      (c : Context) → context_keeps_broken c ≡ true → state_eq (from c) broken ≡ false
  unfolding context_keeps_broken from
  from-keeps_broken (context f n c) k = ground arith

  pub carried-keeps_broken :
      (c : Context) → context_keeps_broken c ≡ true → carried_keeps_broken (carried c) ≡ true
  unfolding context_keeps_broken carried
  carried-keeps_broken (context f n c) k = ground arith

  -- Once the broken state is current, any switch from another state ends within two rounds.
  Ends-in_broken :
      (st : States) (c : Context) (n : ℕ)
      → st.cs ≡ some broken
      → state_eq (from c) broken ≡ false
      → (fuel : ℕ) → Ends (suc (suc fuel)) st c n
  unfolding after_round as_context from next
  Ends-in_broken st c n b f fuel = elim (Bool-cases (ltb 3 n)) [
    | inl many ↦
        Ends-goes st c n st (broken_context (from c) (switching c)) 0 (round-many st c n many)
          (suc fuel) (Ends-again st (broken_context (from c) (switching c)) 0 b f refl refl fuel)
    | inr few ↦ elim (switch_state-in_broken hs st c b f) [
      | inl h ↦ Ends-done st c n few h (suc fuel)
      | inr h ↦ elim (Bool-cases (state_eq (next c) broken)) [
        | inl to ↦
            Ends-ends st c n st (some (other false))
              (rw (h, to, after_round) at (round-few st c n few)) (suc fuel)
        | inr not_to ↦
            Ends-goes st c n st (broken_context (from c) (other false)) 0
              (rw (h, not_to, after_round) at (round-few st c n few)) (suc fuel)
              (Ends-again st (broken_context (from c) (other false)) 0 b f refl refl fuel)
      ]
    ]
  ]

  Ends-to_broken :
      (st : States) (c : Context) (n : ℕ)
      → next c ≡ broken
      → ltb 3 n ≡ false
      → carried_keeps_broken (carried c) ≡ true
      → (fuel : ℕ) → Ends (suc (suc (suc fuel))) st c n
  unfolding state_eq
  Ends-to_broken st c n to few k fuel = elim (step-few st c n k few) [
    | stops h ↦ h (suc (suc fuel))
    | to_broken st' e k (inl many) h ↦ cc
    | to_broken st' e k (inr not_to) h ↦ cc (rw to at not_to)
    | asked st' r few k b h ↦
        h (suc (suc fuel)) (Ends-in_broken st' r (n + 1) (b to) (from-keeps_broken r k) fuel)
  ]

  Ends-after :
      (st : States) (f : StateType) (e : Failure)
      → keeps_broken e ≡ true
      → (fuel : ℕ) → 3 ≤ fuel
      → Ends fuel st (broken_context f e) 0
  unfolding next carried carried_keeps_broken
  Ends-after st f e k (suc (suc (suc fuel))) le =
      Ends-to_broken st (broken_context f e) 0 refl refl k fuel
  Ends-after st f e k (suc (suc zero)) le = absurd (omega arith)
  Ends-after st f e k (suc zero) le = absurd (omega arith)
  Ends-after st f e k zero le = absurd (omega arith)

  -- With n of its rounds done, 8 - n more are enough.
  Ends-from :
      (left n fuel : ℕ) (st : States) (c : Context)
      → n + left ≡ 4
      → left + 4 ≤ fuel
      → context_keeps_broken c ≡ true
      → Ends fuel st c n
  Ends-from left n zero st c e le keeps = absurd (omega arith)
  Ends-from zero n (suc fuel) st c e le keeps = elim (step-many st c n keeps (ground (arith, e))) [
    | stops h ↦ h fuel
    | to_broken st' e k m h ↦ h fuel (Ends-after st' (from c) e k fuel (omega arith))
    | asked st' r few k b h ↦ absurd (ground (arith, e, few))
  ]
  Ends-from (suc left) n (suc fuel) st c e le keeps =
      elim (step-few st c n (carried-keeps_broken c keeps) (ground (arith, e))) [
        | stops h ↦ h fuel
        | to_broken st' e k m h ↦ h fuel (Ends-after st' (from c) e k fuel (omega arith))
        | asked st' r few k b h ↦
            h fuel (Ends-from left (n + 1) fuel st' r (omega arith) (omega arith) k)
      ]

  -- A switch, with all that follow it, ends within eight rounds: when no handler asks for a switch
  -- that leaves the broken state, and the switch itself does not hold such an error.
  pub ensure_switch_state-ends :
      (fuel : ℕ) (st : States) (c : Context)
      → 8 ≤ fuel
      → carried_keeps_broken (carried c) ≡ true
      → is_some (ensure_switch_state hs fuel st c) ≡ true
  unfolding ensure_switch_state
  ensure_switch_state-ends zero st c le k = absurd (omega arith)
  ensure_switch_state-ends (suc fuel) st c le k = elim (step-few st c 0 k refl) [
    | stops h ↦ h fuel
    | to_broken st' e k m h ↦ h fuel (Ends-after st' (from c) e k fuel (omega arith))
    | asked st' r few k b h ↦ h fuel (Ends-from 3 1 fuel st' r refl (omega arith) k)
  ]
