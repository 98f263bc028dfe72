-- ===== src/States/Switch/Check/Keeps.antt =====
-- isaac/states/states.go: switches that an error asks for.
use mitum.Prelude.{ℕ, ◌≡◌, Bool, true, not, ◌&&◌, some, subst}
use mitum.States.Switch.{
  StateType, broken, state_eq, Context, context, Carried, plain, voteproof, cause, no_cause,
  Failure, ignored, other, switching, as_context, Handlers,
}

-- No context that a failure holds leaves the broken state.
unfoldable mutual
  pub keeps_broken : Failure → Bool
  keeps_broken ignored = true
  keeps_broken (other b) = true
  keeps_broken (switching c) = context_keeps_broken c

  pub context_keeps_broken : Context → Bool
  context_keeps_broken (context f n c) = not (state_eq f broken) && carried_keeps_broken c

  pub carried_keeps_broken : Carried → Bool
  carried_keeps_broken (cause e) = keeps_broken e
  carried_keeps_broken plain = true
  carried_keeps_broken voteproof = true
  carried_keeps_broken no_cause = true

-- No handler asks for a switch that leaves the broken state.
pub record KeepBroken (hs : Handlers) : Type 0 where
  pub exit :
      (turn : ℕ) (s : StateType) (c : Context) (e : Failure)
      → hs.exit_of turn s c ≡ some e
      → keeps_broken e ≡ true
  pub enter :
      (turn : ℕ) (s from : StateType) (c : Context) (e : Failure)
      → hs.enter_of turn s from c ≡ some e
      → keeps_broken e ≡ true

pub as_context-keeps_broken :
    (e : Failure) (r : Context)
    → as_context e ≡ some r
    → keeps_broken e ≡ true
    → context_keeps_broken r ≡ true
unfolding as_context keeps_broken
as_context-keeps_broken ignored r h k = cc
as_context-keeps_broken (other b) r h k = cc
as_context-keeps_broken (switching c) r h k =
    subst (λ x. context_keeps_broken x ≡ true) (some_eq h) k
  where
    some_eq : {x y : Context} → some x ≡ some y → x ≡ y
    some_eq e = cc
