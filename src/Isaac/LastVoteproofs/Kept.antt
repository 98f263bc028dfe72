-- ===== src/Isaac/LastVoteproofs/Kept.antt =====
-- What always holds of the last voteproofs, and that the handler does not panic.
use mitum.Prelude.{
  ◌≡◌, Bool, true, false, not, ◌&&◌, Option, none, some, refl, inl, inr, Bool-cases, arith,
}
use mitum.Base.StagePoint.{init, accept, stage_eq}
use mitum.Base.Vote.{majority, result_eq}
use mitum.Isaac.Voteproof.{Voteproof, vote_result, is_init_voteproof}
use mitum.Isaac.LastPoint.{LastPoint, new_last_point_from_voteproof, is_new_voteproof}
use mitum.Isaac.LastVoteproofs.{
  or_empty, refuses_first, refuses_other_round, fills_init, fills_accept, returns, panics,
  LastVoteproofs, cap, Cache, Handler, Answer, set, store, fill_missing, fill_from, set_after,
  force_set_last, force_next,
}

-- An INIT voteproof of the INIT stage, or none; an ACCEPT voteproof of the ACCEPT stage, or none; a
-- voteproof with a majority, or none.
abbrev pub is_init_or_none : Option Voteproof → Bool
is_init_or_none none = true
is_init_or_none (some vp) = is_init_voteproof vp.kind && stage_eq vp.point.stage init

abbrev pub is_accept_or_none : Option Voteproof → Bool
is_accept_or_none none = true
is_accept_or_none (some vp) = not (is_init_voteproof vp.kind) && stage_eq vp.point.stage accept

abbrev pub is_majority_or_none : Option Voteproof → Bool
is_majority_or_none none = true
is_majority_or_none (some vp) = result_eq (vote_result vp) majority

pub record IsKept (l : LastVoteproofs) : Type 0 where
  pub init_kept : is_init_or_none l.ivp ≡ true
  pub accept_kept : is_accept_or_none l.avp ≡ true
  pub majority_kept : is_majority_or_none l.mvp ≡ true

-- The Go type of a voteproof fits its stage.
pub record IsTyped (vp : Voteproof) : Type 0 where
  pub init_typed : vp.point.stage ≡ init → is_init_voteproof vp.kind ≡ true
  pub accept_typed : vp.point.stage ≡ accept → is_init_voteproof vp.kind ≡ false

module _ (c : Cache) where
  abbrev pub does_panic : Answer c → Bool
  does_panic panics = true
  does_panic (returns r) = false

  -- The handler after a call; after a panic, as it was.
  abbrev pub handler_after : Handler c → Answer c → Handler c
  handler_after l panics = l
  handler_after l (returns (l', taken)) = l'

  -- Each way out of `Set`.
  module _ (l : Handler c) (vp : Voteproof) where
    pub data SetCase : Type 0 where
      refused : set c l vp ≡ returns (l, false) → SetCase
      stored_first :
          cap l.last ≡ none
          → refuses_first c l.last vp ≡ false
          → set c l vp ≡ store c l vp.point.stage vp
          → SetCase
      stored :
          (lvp : Voteproof) (lp : LastPoint)
          → cap l.last ≡ some lvp
          → new_last_point_from_voteproof lvp ≡ some lp
          → is_new_voteproof lp vp ≡ true
          → set c l vp ≡ store c l vp.point.stage vp
          → SetCase
      filled :
          (lvp : Voteproof)
          → cap l.last ≡ some lvp
          → set c l vp ≡ fill_from c l (or_empty (c.get l.cache lvp.point)) lvp.point vp
          → SetCase

    set_after-cases :
        (lvp : Voteproof) (o : Option LastPoint)
        → cap l.last ≡ some lvp
        → new_last_point_from_voteproof lvp ≡ o
        → set c l vp ≡ set_after c o l lvp vp
        → SetCase
    unfolding set_after fill_missing
    set_after-cases lvp none e f s = refused s
    set_after-cases lvp (some lp) e f s = elim (Bool-cases (is_new_voteproof lp vp)) [
      | inl new ↦ stored lvp lp e f new (rw new at s)
      | inr old ↦ filled lvp e (rw old at s)
    ]

    cap-cases :
        (o : Option Voteproof)
        → cap l.last ≡ o
        → refuses_first c l.last vp ≡ false
        → refuses_other_round c l.last vp ≡ false
        → SetCase
    unfolding set
    cap-cases none e first round = stored_first e first (rw (first, round, e) refl)
    cap-cases (some lvp) e first round =
        set_after-cases lvp (new_last_point_from_voteproof lvp) e refl (rw (first, round, e) refl)

    pub set-cases : SetCase
    unfolding set
    set-cases = elim (Bool-cases (refuses_first c l.last vp)) [
      | inl no_first ↦ refused (rw no_first refl)
      | inr first ↦ elim (Bool-cases (refuses_other_round c l.last vp)) [
        | inl no_round ↦ refused (rw (first, no_round) refl)
        | inr round ↦ cap-cases (cap l.last) refl first round
      ]
    ]

  module _ (l : Handler c) (vp : Voteproof) (typed : IsTyped vp) (kept : IsKept l.last) where
    abbrev IsSound : Answer c → Type 0
    IsSound a = (does_panic a ≡ false) × IsKept (handler_after l a).last

    store-IsSound : IsSound (store c l vp.point.stage vp)
    unfolding store stage_eq
    store-IsSound = ground arith

    fill_from-IsSound :
        (cached : LastVoteproofs) (lvp : Voteproof) → IsSound (fill_from c l cached lvp.point vp)
    unfolding fill_from fills_init fills_accept stage_eq
    fill_from-IsSound cached lvp = ground arith

    set-IsSound : SetCase l vp → IsSound (set c l vp)
    set-IsSound (refused e) = rw e (refl, kept)
    set-IsSound (stored_first _ _ e) = rw e store-IsSound
    set-IsSound (stored _ _ _ _ _ e) = rw e store-IsSound
    set-IsSound (filled lvp _ e) = rw e (fill_from-IsSound (or_empty (c.get l.cache lvp.point)) lvp)

  -- `Set` of a voteproof whose type fits its stage does not panic, and leaves only voteproofs of the
  -- right type and stage, and a majority one, in their places.
  pub set-IsKept :
      (l : Handler c) (vp : Voteproof)
      → IsTyped vp
      → IsKept l.last
      → (does_panic (set c l vp) ≡ false) × IsKept (handler_after l (set c l vp)).last
  set-IsKept l vp typed kept = set-IsSound l vp typed kept (set-cases l vp)

  -- So does `ForceSetLast`.
  pub force_set_last-IsKept :
      (l : Handler c) (vp : Voteproof)
      → IsTyped vp
      → IsKept l.last
      → (does_panic (force_set_last c l vp) ≡ false)
        × IsKept (handler_after l (force_set_last c l vp)).last
  unfolding force_set_last force_next stage_eq
  force_set_last-IsKept l vp typed kept = ground arith
