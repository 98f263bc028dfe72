-- ===== src/States/Switch/Ensure/Served.antt =====
-- isaac/states/states.go: the main loop does not panic.
use mitum.Prelude.{
  ℕ, ◌≤◌, ◌≡◌, inl, inr, refl, Bool, true, false, not, ◌&&◌, Option, none, some, List, [], ◌∷◌,
  if◌then◌else◌, is_some, all, Bool-cases,
}
use mitum.States.Switch.{Context, Failure, other, as_context, States, Handlers, carried}
use mitum.States.Switch.Check.Keeps.{
  carried_keeps_broken, keeps_broken, KeepBroken, as_context-keeps_broken,
}
use mitum.States.Switch.Check.Registered.{Registered}
use mitum.States.Switch.Ensure.Ends.{carried-keeps_broken}
use mitum.States.Switch.Ensure.Returns.{Current, ensure_switch_state-returns}
use mitum.States.Switch.Ensure.{
  Round, ends, ensure_switch_state, VoteproofAnswer, handled, ignores, errs, Event, asked_switch,
  voteproof_in, context_done, switch_for, by_answer, new_voteproof_in, handle, go_ahead, serve,
}

-- What comes in does not ask for a switch that leaves the broken state with an error.
unfoldable pub event_keeps_broken : Event → Bool
event_keeps_broken (asked_switch c) = carried_keeps_broken (carried c)
event_keeps_broken (voteproof_in b n (errs e)) = keeps_broken e
event_keeps_broken (voteproof_in b n handled) = true
event_keeps_broken (voteproof_in b n ignores) = true
event_keeps_broken context_done = true

-- It came to an end, in some state.
abbrev pub Stands : Option Round → Type 0
Stands r = (st' : States) × (e : Option Failure) × Current st' × (r ≡ some (ends st' e))

module _ (hs : Handlers) (fuel : ℕ) (reg : Registered hs) (keep : KeepBroken hs)
    (le : 8 ≤ fuel) where
  stands : (st : States) (e : Option Failure) → Current st → Stands (some (ends st e))
  stands st e now = (st, e, now, refl)

  ensure-Stands :
      (st : States) (c : Context)
      → Current st
      → carried_keeps_broken (carried c) ≡ true
      → Stands (ensure_switch_state hs fuel st c)
  ensure-Stands st c (s, now) k = ensure_switch_state-returns hs reg fuel st c s keep le now k

  switch_for-Stands :
      (st : States) (e : Failure) (o : Option Context)
      → Current st
      → keeps_broken e ≡ true
      → as_context e ≡ o
      → Stands (switch_for hs fuel st e o)
  unfolding switch_for
  switch_for-Stands st e none now k a = stands st (some e) now
  switch_for-Stands st e (some c) now k a =
      ensure-Stands st c now (carried-keeps_broken hs keep c (as_context-keeps_broken e c a k))

  by_answer-Stands :
      (st : States) (b n : Bool) (a : VoteproofAnswer)
      → Current st
      → event_keeps_broken (voteproof_in b n a) ≡ true
      → Stands (by_answer hs fuel st a)
  unfolding by_answer event_keeps_broken
  by_answer-Stands st b n handled now k = stands st none now
  by_answer-Stands st b n ignores now k = stands st none now
  by_answer-Stands st b n (errs e) now k = switch_for-Stands st e (as_context e) now k refl

  either : (b : Bool) (x y : Option Round) → Stands x → Stands y → Stands (if b then x else y)
  either true x y p q = p
  either false x y p q = q

  handle-Stands :
      (st : States) (ev : Event)
      → Current st
      → event_keeps_broken ev ≡ true
      → Stands (handle hs fuel st ev)
  unfolding handle new_voteproof_in event_keeps_broken
  handle-Stands st (asked_switch c) now k = ensure-Stands st c now k
  handle-Stands st (voteproof_in b n a) now k =
      either (b && not st.allowed_consensus) (some (ends st none)) (new_voteproof_in hs fuel st n a)
        (stands st none now)
        (either (is_some st.cs && n) (by_answer hs fuel st a) (some (ends st none))
          (by_answer-Stands st b n a now k) (stands st none now))
  handle-Stands st context_done now k = stands st (some (other false)) now

  go_ahead-Stands :
      (more : States → Option Round) (r : Option Round)
      → Stands r
      → ((st : States) → Current st → Stands (more st))
      → Stands (go_ahead hs fuel more r)
  unfolding go_ahead
  go_ahead-Stands more r (st', none, now, e) k = rw e (k st' now)
  go_ahead-Stands more r (st', some x, now, e) k = rw e (stands st' (some x) now)

  -- Over whatever comes in, the main loop does not panic, its switches come to an end, and the node is
  -- in some state: when it is in one at first, the handlers of syncing and of handover are set, and no
  -- switch that leaves the broken state is asked for by a handler or held by an error that comes in.
  pub serve-Stands :
      (evs : List Event) (st : States)
      → Current st
      → all event_keeps_broken evs ≡ true
      → Stands (serve hs fuel evs st)
  unfolding serve
  serve-Stands [] st now k = stands st none now
  serve-Stands (ev ∷ evs) st now k = elim (Bool-cases (event_keeps_broken ev)) [
    | inr e ↦ cc (rw e at k)
    | inl e ↦
        go_ahead-Stands (serve hs fuel evs) (handle hs fuel st ev) (handle-Stands st ev now e)
          (λ st' now'. serve-Stands evs st' now' (rw e at k))
  ]
