-- ===== src/Base/Vote/Tally.antt =====
-- The second loop finds the most voted entry, whatever the order of the map.
use mitum.Prelude.{
  ℕ, ◌≡◌, ◌≤◌, ◌⊎◌, inl, inr, refl, sym, ap, ◌∙◌, true, false, List, [], ◌∷◌, Text, text_lt,
  text_lt_irrefl, text_lt_trans, text_lt_total, arith, Bool-cases,
}
use mitum.Base.Vote.{Entry, Top, visit, visit_all}
use mitum.Base.Vote.Count.{Holds}

visit-max :
    (t : Top) (e : Entry)
    → (t.max_count ≤ (visit t e).max_count) × (e.votes ≤ (visit t e).max_count)
unfolding visit
visit-max t e = ground arith

pub visit_all-max_start : (t : Top) (m : List Entry) → t.max_count ≤ (visit_all t m).max_count
unfolding visit_all
visit_all-max_start t [] = omega arith
visit_all-max_start t (e ∷ m) = omega (arith, visit_all-max_start (visit t e) m, visit-max t e)

-- No entry has more votes than the top.
pub visit_all-max :
    (t : Top) (m : List Entry) (e : Entry) → Holds m e → e.votes ≤ (visit_all t m).max_count
unfolding visit_all
visit_all-max t [] e h = absurd h
visit_all-max t (d ∷ m) e (inl p) =
    rw (← p) (omega (arith, visit_all-max_start (visit t d) m, visit-max t d))
visit_all-max t (d ∷ m) e (inr h) = visit_all-max (visit t d) m e h

-- The top is an entry, or what the loop started with.
abbrev pub IsFrom : Top → List Entry → Top → Type 0
IsFrom t m u =
    ((u.max_count ≡ t.max_count) × (u.mhs ≡ t.mhs))
    ⊎ ((e : Entry) × Holds m e × (e.votes ≡ u.max_count) × (e.key ≡ u.mhs))

visit-from :
    (t : Top) (e : Entry)
    → (((visit t e).max_count ≡ t.max_count) × ((visit t e).mhs ≡ t.mhs))
      ⊎ ((e.votes ≡ (visit t e).max_count) × (e.key ≡ (visit t e).mhs))
unfolding visit
visit-from t e = ground arith

pub visit_all-IsFrom : (t : Top) (m : List Entry) → IsFrom t m (visit_all t m)
unfolding visit_all
visit_all-IsFrom t [] = inl (refl, refl)
visit_all-IsFrom t (d ∷ m) = elim (visit_all-IsFrom (visit t d) m) [
  | inr (e, h, v, k) ↦ inr (e, inr h, v, k)
  | inl (v, k) ↦ elim (visit-from t d) [
    | inl (v', k') ↦ inl (v ∙ v', k ∙ k')
    | inr (v', k') ↦ inr (d, inl refl, v' ∙ sym v, k' ∙ sym k)
  ]
]

-- No key before `mhs` has as many votes.
NotBefore : Top → ℕ → Text → Type 0
NotBefore u votes key = votes ≡ u.max_count → text_lt key u.mhs ≡ false

lt-weaken : (k l r : Text) → text_lt l r ≡ false → text_lt k l ≡ false → text_lt k r ≡ false
lt-weaken k l r h g = elim (Bool-cases (text_lt k r)) [
  | inr e ↦ e
  | inl e ↦ elim (text_lt_total l k) [
    | inl lk ↦ cc (text_lt_trans l k r lk e)
    | inr (inl same) ↦ cc
    | inr (inr kl) ↦ cc
  ]
]

visit-least :
    (t : Top) (e : Entry)
    → NotBefore (visit t e) t.max_count t.mhs × NotBefore (visit t e) e.votes e.key
unfolding visit NotBefore
visit-least t e = (
  λ h. ground (arith, text_lt_irrefl t.mhs, asym t.mhs e.key),
  λ h. ground (arith, text_lt_irrefl e.key),
)
  where
    asym : (s u : Text) → text_lt u s ≡ true → text_lt s u ≡ false
    asym s u h = elim (Bool-cases (text_lt s u)) [
      | inr f ↦ f
      | inl f ↦ cc (text_lt_trans s u s f h, text_lt_irrefl s)
    ]

visit_all-least_start : (t : Top) (m : List Entry) → NotBefore (visit_all t m) t.max_count t.mhs
unfolding visit_all NotBefore
visit_all-least_start t [] h = text_lt_irrefl t.mhs
visit_all-least_start t (d ∷ m) h =
    let u : Top = visit t d in
    let grows = visit_all-max_start u m in
    let same : t.max_count ≡ u.max_count = omega (arith, visit-max t d) in
    lt-weaken t.mhs u.mhs (visit_all u m).mhs (visit_all-least_start u m (sym same ∙ h))
      ((visit-least t d).0 same)

-- Of the entries with the most votes the top has the first key.
pub visit_all-least :
    (t : Top) (m : List Entry) (e : Entry)
    → Holds m e
    → e.votes ≡ (visit_all t m).max_count
    → text_lt e.key (visit_all t m).mhs ≡ false
unfolding visit_all NotBefore
visit_all-least t [] e h v = absurd h
visit_all-least t (d ∷ m) e (inr h) v = visit_all-least (visit t d) m e h v
visit_all-least t (d ∷ m) e (inl p) v =
    let u : Top = visit t d in
    let grows = visit_all-max_start u m in
    let same : d.votes ≡ u.max_count =
      omega (arith, visit-max t d, ap (λ (x : Entry). x.votes) p) in
    rw (← p) (
      lt-weaken d.key u.mhs (visit_all u m).mhs
        (visit_all-least_start u m (sym same ∙ ap (λ (x : Entry). x.votes) p ∙ v))
        ((visit-least t d).1 same))
