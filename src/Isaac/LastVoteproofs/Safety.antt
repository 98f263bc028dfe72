-- ===== src/Isaac/LastVoteproofs/Safety.antt =====
-- What a call of `Set` may change.
use mathlib.Core.Path.{subst₂}
use mitum.Prelude.{
  is_some, ◌≡◌, ◌⊎◌, ◌∙◌, sym, ap, refl, Bool, true, false, Option, none, some, ◌≤ℤ◌, inl, inr,
  arith,
}
use mitum.Base.StagePoint.{Stage, init, StagePoint, is_zero, stage_eq}
use mitum.Base.Vote.{majority, result_eq}
use mitum.Isaac.Voteproof.{Voteproof, vote_result, is_suffrage_confirm_ballot_fact}
use mitum.Isaac.LastPoint.{
  LastPoint, new_last_point_from_voteproof, is_new_voteproof, is_new_voteproof_by_point,
}
use mitum.Isaac.LastVoteproofs.{
  returns, LastVoteproofs, find_last_voteproofs, cap, Cache, Handler, set, store, or_else,
  fill_from, or_empty, refuses_first,
}
use mitum.Isaac.LastVoteproofs.Kept.{SetCase, refused, stored_first, stored, filled, set-cases}

module _ (c : Cache) (l : Handler c) (vp : Voteproof) where
  store-refused : (s : Stage) (h : Handler c) → store c l s vp ≡ returns (h, false) → h ≡ l
  unfolding store
  store-refused s h e = ground arith

  fill_from-refused :
      (cached : LastVoteproofs) (lp : StagePoint) (h : Handler c)
      → fill_from c l cached lp vp ≡ returns (h, false)
      → h ≡ l
  unfolding fill_from
  fill_from-refused cached lp h e = ground arith

  refused-same : (h : Handler c) → SetCase c l vp → set c l vp ≡ returns (h, false) → h ≡ l
  refused-same h (refused e) r = cc
  refused-same h (stored_first _ _ e) r = store-refused vp.point.stage h (sym e ∙ r)
  refused-same h (stored _ _ _ _ _ e) r = store-refused vp.point.stage h (sym e ∙ r)
  refused-same h (filled lvp _ e) r =
      fill_from-refused (or_empty (c.get l.cache lvp.point)) lvp.point h (sym e ∙ r)

-- A voteproof that `Set` answers false to leaves the last voteproofs and the cache as they were.
pub set_refused :
    (c : Cache) (l h : Handler c) (vp : Voteproof) → set c l vp ≡ returns (h, false) → h ≡ l
set_refused c l h vp e = refused-same c l vp h (set-cases c l vp) e

new-height :
    (l : LastPoint) (p : StagePoint) (m confirm : Bool)
    → is_zero l.stage_point ≡ false
    → is_new_voteproof_by_point l p m confirm ≡ true
    → l.h ≤ℤ p.h
unfolding is_new_voteproof_by_point
new-height l p m confirm z h = ground arith

last_point-height :
    (vp : Voteproof) (lp : LastPoint)
    → new_last_point_from_voteproof vp ≡ some lp
    → lp.stage_point ≡ vp.point
unfolding new_last_point_from_voteproof
last_point-height vp lp e = ground arith

cap_init-height :
    (v b : Voteproof) (o : Option Voteproof)
    → find_last_voteproofs (some v) o ≡ some b
    → v.point.h ≤ℤ b.point.h
unfolding find_last_voteproofs
cap_init-height v b none e = ground arith
cap_init-height v b (some a) e = ground arith

cap_accept-height :
    (v b : Voteproof) (o : Option Voteproof)
    → find_last_voteproofs o (some v) ≡ some b
    → v.point.h ≤ℤ b.point.h
unfolding find_last_voteproofs
cap_accept-height v b none e = ground arith
cap_accept-height v b (some i) e = ground arith

-- Filling an empty place does not lower the cap.
fill_init-height :
    (v x b : Voteproof) (i a : Option Voteproof)
    → find_last_voteproofs i a ≡ some x
    → find_last_voteproofs (or_else i v) a ≡ some b
    → x.point.h ≤ℤ b.point.h
unfolding find_last_voteproofs or_else
fill_init-height v x b none none e f = ground arith
fill_init-height v x b none (some a) e f = ground arith
fill_init-height v x b (some i) none e f = ground arith
fill_init-height v x b (some i) (some a) e f = ground arith

fill_accept-height :
    (v x b : Voteproof) (i a : Option Voteproof)
    → find_last_voteproofs i a ≡ some x
    → find_last_voteproofs i (or_else a v) ≡ some b
    → x.point.h ≤ℤ b.point.h
unfolding find_last_voteproofs or_else
fill_accept-height v x b none none e f = ground arith
fill_accept-height v x b none (some a) e f = ground arith
fill_accept-height v x b (some i) none e f = ground arith
fill_accept-height v x b (some i) (some a) e f = ground arith

module _ (c : Cache) (l h : Handler c) (vp : Voteproof) where
  store-places :
      (s : Stage)
      → store c l s vp ≡ returns (h, true)
      → (h.last.ivp ≡ some vp) ⊎ (h.last.avp ≡ some vp)
  unfolding store
  store-places s e = ground arith

  store-height :
      (s : Stage) (b : Voteproof)
      → store c l s vp ≡ returns (h, true)
      → cap h.last ≡ some b
      → vp.point.h ≤ℤ b.point.h
  unfolding cap
  store-height s b e f = elim (store-places s e) [
    | inl i ↦ cap_init-height vp b h.last.avp (rw i at f)
    | inr a ↦ cap_accept-height vp b h.last.ivp (rw a at f)
  ]

  fill_from-places :
      (cached : LastVoteproofs) (lp : StagePoint)
      → fill_from c l cached lp vp ≡ returns (h, true)
      → ((h.last.ivp ≡ or_else l.last.ivp vp) × (h.last.avp ≡ l.last.avp))
        ⊎ ((h.last.ivp ≡ l.last.ivp) × (h.last.avp ≡ or_else l.last.avp vp))
  unfolding fill_from
  fill_from-places cached lp e = ground arith

  fill_from-height :
      (cached : LastVoteproofs) (lp : StagePoint) (a b : Voteproof)
      → fill_from c l cached lp vp ≡ returns (h, true)
      → cap l.last ≡ some a
      → cap h.last ≡ some b
      → a.point.h ≤ℤ b.point.h
  unfolding cap
  fill_from-height cached lp a b e f g = elim (fill_from-places cached lp e) [
    | inl (i, same) ↦
        fill_init-height vp a b l.last.ivp l.last.avp f
          (subst₂ (λ x y. find_last_voteproofs x y ≡ some b) i same g)
    | inr (same, i) ↦
        fill_accept-height vp a b l.last.ivp l.last.avp f
          (subst₂ (λ x y. find_last_voteproofs x y ≡ some b) same i g)
  ]

  taken-height :
      (a b : Voteproof)
      → SetCase c l vp
      → is_zero a.point ≡ false
      → set c l vp ≡ returns (h, true)
      → cap l.last ≡ some a
      → cap h.last ≡ some b
      → a.point.h ≤ℤ b.point.h
  unfolding is_new_voteproof
  taken-height a b (refused e) z t f g = cc
  taken-height a b (stored_first n _ _) z t f g = cc
  taken-height a b (stored lvp lp k p new e) z t f g =
      let same : lvp ≡ a = cc in
      let at : lp.stage_point ≡ a.point =
        last_point-height lvp lp p ∙ ap (λ (x : Voteproof). x.point) same in
      let up = store-height vp.point.stage b (sym e ∙ t) g in
      ground (
        arith,
        new-height lp vp.point (result_eq (vote_result vp) majority)
            (is_suffrage_confirm_ballot_fact vp.majority_fact),
      )
  taken-height a b (filled lvp _ e) z t f g =
      fill_from-height (or_empty (c.get l.cache lvp.point)) lvp.point a b (sym e ∙ t) f g

-- A voteproof that `Set` takes does not bring the highest of the last voteproofs to a lower height.
pub set-height :
    (c : Cache) (l h : Handler c) (vp a b : Voteproof)
    → is_zero a.point ≡ false
    → set c l vp ≡ returns (h, true)
    → cap l.last ≡ some a
    → cap h.last ≡ some b
    → a.point.h ≤ℤ b.point.h
set-height c l h vp a b = taken-height c l h vp a b (set-cases c l vp)

cap-none : (i a : Option Voteproof) → find_last_voteproofs i a ≡ none → (i ≡ none) × (a ≡ none)
unfolding find_last_voteproofs
cap-none none a e = (refl, e)
cap-none (some i) none e = cc
cap-none (some i) (some a) e = ground arith

first-accepted :
    (c : Cache) (l : LastVoteproofs) (vp : Voteproof)
    → l.ivp ≡ none
    → l.avp ≡ none
    → refuses_first c l vp ≡ false
    → (vp.point.stage ≡ init) × (is_some vp.majority_fact ≡ true)
unfolding refuses_first stage_eq
first-accepted c l vp i a f = ground arith

store_init :
    (c : Cache) (l h : Handler c) (s : Stage) (vp : Voteproof)
    → s ≡ init
    → store c l s vp ≡ returns (h, true)
    → (h.last.ivp ≡ some vp) × (h.last.avp ≡ l.last.avp)
unfolding store
store_init c l h s vp i e = ground arith

first-taken :
    (c : Cache) (l h : Handler c) (vp : Voteproof)
    → SetCase c l vp
    → cap l.last ≡ none
    → set c l vp ≡ returns (h, true)
    → (vp.point.stage ≡ init)
      × (is_some vp.majority_fact ≡ true)
      × (h.last.ivp ≡ some vp)
      × (h.last.avp ≡ none)
first-taken c l h vp (refused e) n t = cc
first-taken c l h vp (stored lvp lp k p new e) n t = cc
first-taken c l h vp (filled lvp k e) n t = cc
first-taken c l h vp (stored_first n f e) n' t =
    let (i, a) = cap-none l.last.ivp l.last.avp (unfold cap in n) in
    let (at_init, has_majority) = first-accepted c l.last vp i a f in
    let (placed, rest) = store_init c l h vp.point.stage vp at_init (sym e ∙ t) in
    (at_init, has_majority, placed, rest ∙ a)

-- The first voteproof that `Set` takes is of the INIT stage and has a majority.
pub set_first :
    (c : Cache) (l h : Handler c) (vp : Voteproof)
    → cap l.last ≡ none
    → set c l vp ≡ returns (h, true)
    → (vp.point.stage ≡ init)
      × (is_some vp.majority_fact ≡ true)
      × (h.last.ivp ≡ some vp)
      × (h.last.avp ≡ none)
set_first c l h vp = first-taken c l h vp (set-cases c l vp)
