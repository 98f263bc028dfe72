-- ===== src/Base/Vote/Tests.antt =====
-- Runs of base/vote.go.
use mitum.Prelude.{
  inl, inr, ◌↔◌, ◌≡◌, refl, List, [], ◌∷◌, ◌++◌, ◌≤◌, length, Text, text_eq, text_lt, arith,
}
use mitum.Base.Vote.{not_yet, draw, majority, Entry, capped, find_vote_result}
use mitum.Base.Vote.Count.{Holds}
use mitum.Base.Vote.Best.{IsRange}
use mitum.Base.Vote.Result.{IsResult, find_vote_result_order, find_vote_result_lem}
use mitum.Base.Vote.Future.{majority_stable, draw_final, not_yet_open}

abbrev a : Text
a = b'a' ∷ []

abbrev b : Text
b = b'b' ∷ []

abbrev in_order : List Entry → List Entry
in_order m = m

in_order-IsRange : IsRange in_order
in_order-IsRange = record { same = λ m e. (λ h. h, λ h. h) }

two_of_three : find_vote_result in_order 3 2 (a ∷ b ∷ a ∷ []) ≡ (majority, a)
unfolding find_vote_result text_eq text_lt
two_of_three = refl

-- Both keys reach the threshold: the first of them is chosen.
even_split : find_vote_result in_order 4 2 (b ∷ a ∷ b ∷ a ∷ []) ≡ (majority, a)
unfolding find_vote_result text_eq text_lt
even_split = refl

split : find_vote_result in_order 3 3 (a ∷ b ∷ []) ≡ (draw, [])
unfolding find_vote_result text_eq text_lt
split = refl

-- The entries but with the first one last
abbrev put_last : Entry → List Entry → List Entry
put_last d [] = d ∷ []
put_last d (c ∷ m) = c ∷ put_last d m

abbrev first_last : List Entry → List Entry
first_last [] = []
first_last (d ∷ m) = put_last d m

Holds-put_last : (d : Entry) (m : List Entry) (e : Entry) → Holds (put_last d m) e → Holds (d ∷ m) e
Holds-put_last d [] e h = h
Holds-put_last d (c ∷ m) e (inl p) = inr (inl p)
Holds-put_last d (c ∷ m) e (inr h) = elim (Holds-put_last d m e h) [
  | inl p ↦ inl p
  | inr q ↦ inr (inr q)
]

put_last-Holds : (d : Entry) (m : List Entry) (e : Entry) → Holds (d ∷ m) e → Holds (put_last d m) e
put_last-Holds d [] e h = h
put_last-Holds d (c ∷ m) e (inl p) = inr (put_last-Holds d m e (inl p))
put_last-Holds d (c ∷ m) e (inr (inl p)) = inl p
put_last-Holds d (c ∷ m) e (inr (inr q)) = inr (put_last-Holds d m e (inr q))

first_last-same : (m : List Entry) (e : Entry) → Holds (first_last m) e ↔ Holds m e
first_last-same [] e = (λ h. h, λ h. h)
first_last-same (d ∷ m) e = (Holds-put_last d m e, put_last-Holds d m e)

first_last-IsRange : IsRange first_last
first_last-IsRange = record { same = first_last-same }

one_vote : find_vote_result in_order 3 2 (a ∷ []) ≡ (not_yet, [])
unfolding find_vote_result text_eq text_lt
one_vote = refl

find_vote_result_order_example :
    find_vote_result in_order 2 2 (b ∷ a ∷ []) ≡ find_vote_result first_last 2 2 (b ∷ a ∷ [])
find_vote_result_order_example =
    find_vote_result_order in_order first_last 2 2 (b ∷ a ∷ []) in_order-IsRange first_last-IsRange

find_vote_result_lem_example :
    IsResult 3
      (capped 3 2)
      (a ∷ b ∷ a ∷ [])
      (find_vote_result in_order 3 2 (a ∷ b ∷ a ∷ [])).0
      (find_vote_result in_order 3 2 (a ∷ b ∷ a ∷ [])).1
find_vote_result_lem_example =
    find_vote_result_lem in_order 3 2 (a ∷ b ∷ a ∷ []) in_order-IsRange (omega arith) (λ e. cc)

majority_stable_example : find_vote_result in_order 3 2 ((a ∷ a ∷ []) ++ b ∷ []) ≡ (majority, a)
unfolding find_vote_result text_eq text_lt
majority_stable_example =
    majority_stable in_order 3 2 (a ∷ a ∷ []) (b ∷ []) a in_order-IsRange (omega arith) (λ e. cc)
      (omega arith) (omega arith) refl

draw_final_example : (find_vote_result in_order 3 3 ((a ∷ b ∷ []) ++ a ∷ [])).0 ≡ draw
unfolding find_vote_result text_eq text_lt
draw_final_example =
    draw_final in_order 3 3 (a ∷ b ∷ []) (a ∷ []) in_order-IsRange (omega arith) (λ e. cc)
      (omega arith) refl

not_yet_open_example :
    (t : List Text) × (length ((a ∷ []) ++ t) ≤ 3)
    × ((find_vote_result in_order 3 2 ((a ∷ []) ++ t)).0 ≡ majority)
unfolding find_vote_result text_eq text_lt
not_yet_open_example =
    not_yet_open in_order 3 2 (a ∷ []) in_order-IsRange (omega arith) (λ e. cc) (omega arith) refl
