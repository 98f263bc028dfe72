-- ===== src/Base/Vote/Best.antt =====
-- The best voted text of a vote, over every order in which the map is visited.
use mitum.Prelude.{
  ◌≡◌, ◌≤◌, ◌<◌, ◌↔◌, inl, inr, sym, ap, ◌∙◌, false, List, ◌∷◌, ltb, Text, text_eq_iff, text_lt,
  text_lt_total, arith, Bool-cases,
}
use mitum.Base.Vote.{Entry, Top, no_top, visit_all, count_votes}
use mitum.Base.Vote.Count.{votes_for, Holds, votes-count_votes, entry-count_votes}
use mitum.Base.Vote.Tally.{visit_all-max, visit_all-IsFrom, visit_all-least}

-- An order of `range`: it visits the entries of the map, and nothing else.
pub record IsRange (order : List Entry → List Entry) : Type 0 where
  pub same : (m : List Entry) (e : Entry) → Holds (order m) e ↔ Holds m e

-- The most voted text, and the first of those with as many votes.
pub record IsTop (s : List Text) (t : Top) : Type 0 where
  pub reached : votes_for t.mhs s ≡ t.max_count
  pub most : (k : Text) → votes_for k s ≤ t.max_count
  pub first : (k : Text) → 0 < votes_for k s → votes_for k s ≡ t.max_count → text_lt k t.mhs ≡ false

pub votes_pos : (v : Text) (s : List Text) → 0 < votes_for v (v ∷ s)
votes_pos v s = ground (arith, text_eq_iff v v)

module _ (order : List Entry → List Entry) (range : IsRange order) (v : Text) (s : List Text) where
  abbrev pub seen : Top
  seen = visit_all no_top (order (count_votes (v ∷ s)))

  most_votes : (k : Text) → votes_for k (v ∷ s) ≤ seen.max_count
  most_votes k = elim (Bool-cases (ltb 0 (votes_for k (v ∷ s)))) [
    | inr none_for ↦ ground arith
    | inl some_for ↦
        let (e, at, is) = entry-count_votes k (v ∷ s) (ground arith) in
        omega (
          arith,
          visit_all-max no_top (order (count_votes (v ∷ s))) e ((range.same _ e).1 at),
          votes-count_votes (v ∷ s) e at,
          ap (λ (x : Text). votes_for x (v ∷ s)) is,
        )
  ]

  pub visit_all-IsTop : IsTop (v ∷ s) seen
  visit_all-IsTop = elim (visit_all-IsFrom no_top (order (count_votes (v ∷ s)))) [
    | inl (zero_count, _) ↦ absurd (omega (arith, most_votes v, votes_pos v s, zero_count))
    | inr (e, at, votes, key) ↦ record {
      reached =
          sym (ap (λ (x : Text). votes_for x (v ∷ s)) key)
          ∙ sym (votes-count_votes (v ∷ s) e ((range.same _ e).0 at))
          ∙ votes;
      most = most_votes;
      first = λ k some_for top.
          let (d, there, is) = entry-count_votes k (v ∷ s) some_for in
          rw (← is) (
            visit_all-least no_top (order (count_votes (v ∷ s))) d ((range.same _ d).1 there) (
              votes-count_votes (v ∷ s) d there ∙ ap (λ (x : Text). votes_for x (v ∷ s)) is ∙ top));
    }
  ]

-- There is one top.
pub IsTop-unique :
    (s : List Text) (t u : Top)
    → 0 < t.max_count
    → IsTop s t
    → IsTop s u
    → (t.max_count ≡ u.max_count) × (t.mhs ≡ u.mhs)
IsTop-unique s t u p a b =
    let same : t.max_count ≡ u.max_count =
      omega (arith, a.most u.mhs, b.most t.mhs, a.reached, b.reached) in
    (
      same,
      elim (text_lt_total t.mhs u.mhs) [
        | inl before ↦ cc (before, b.first t.mhs (omega (arith, a.reached)) (a.reached ∙ same))
        | inr (inl e) ↦ e
        | inr (inr after) ↦
            cc (after, a.first u.mhs (omega (arith, b.reached)) (b.reached ∙ sym same))
      ],
    )
