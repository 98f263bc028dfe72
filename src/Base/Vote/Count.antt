-- ===== src/Base/Vote/Count.antt =====
-- The map of the first loop holds for each text how often it was voted for.
use mitum.Prelude.{
  ℕ, ◌+◌, ◌≡◌, ◌⊎◌, inl, inr, refl, false, List, [], ◌∷◌, if◌then◌else◌, Text, text_eq, text_eq_iff,
  text_eq_refl, arith, Bool-cases, ◌<◌,
}
use mitum.Base.Vote.{Entry, increment, count_into, count_votes}

-- How often a text was voted for.
abbrev pub votes_for : Text → List Text → ℕ
votes_for k [] = 0
votes_for k (v ∷ s) = (if text_eq v k then 1 else 0) + votes_for k s

-- What the map holds at a key; 0 where there is no entry.
abbrev pub held : Text → List Entry → ℕ
held k [] = 0
held k (e ∷ m) = if text_eq e.key k then e.votes else held k m

held-increment :
    (k v : Text) (m : List Entry)
    → held k (increment v m) ≡ (if text_eq v k then 1 else 0) + held k m
unfolding increment
held-increment k v [] = ground arith
held-increment k v (e ∷ m) =
    ground (arith, held-increment k v m, text_eq_iff e.key v, text_eq_iff e.key k, text_eq_iff v k)

held-count_into :
    (k : Text) (s : List Text) (m : List Entry) → held k (count_into m s) ≡ votes_for k s + held k m
unfolding count_into
held-count_into k [] m = omega arith
held-count_into k (v ∷ s) m =
    omega (arith, held-count_into k s (increment v m), held-increment k v m)

pub held-count_votes : (k : Text) (s : List Text) → held k (count_votes s) ≡ votes_for k s
unfolding count_votes
held-count_votes k s = omega (arith, held-count_into k s [])

-- An entry of the map, by recursion on the map.
abbrev pub Holds : List Entry → Entry → Type 0
Holds [] e = ⊥
Holds (d ∷ m) e = (d ≡ e) ⊎ Holds m e

-- No key has two entries.
abbrev pub Fresh : Text → List Entry → Type 0
Fresh k [] = Unit
Fresh k (e ∷ m) = (text_eq e.key k ≡ false) × Fresh k m

abbrev pub Distinct : List Entry → Type 0
Distinct [] = Unit
Distinct (e ∷ m) = Fresh e.key m × Distinct m

Fresh-increment :
    (k v : Text) (m : List Entry) → text_eq v k ≡ false → Fresh k m → Fresh k (increment v m)
unfolding increment
Fresh-increment k v [] h f = (h, tt)
Fresh-increment k v (e ∷ m) h f = elim (Bool-cases (text_eq e.key v)) [
  | inl same ↦ rw same f
  | inr differ ↦ rw differ (f.0, Fresh-increment k v m h f.1)
]

text_eq_sym : (s t : Text) → text_eq s t ≡ text_eq t s
text_eq_sym s t = ground (arith, text_eq_iff s t, text_eq_iff t s)

Distinct-increment : (v : Text) (m : List Entry) → Distinct m → Distinct (increment v m)
unfolding increment
Distinct-increment v [] d = (tt, tt)
Distinct-increment v (e ∷ m) d = elim (Bool-cases (text_eq e.key v)) [
  | inl same ↦ rw same d
  | inr differ ↦
      rw differ (
        Fresh-increment e.key v m (rw (text_eq_sym v e.key) differ) d.0,
        Distinct-increment v m d.1,
      )
]

Distinct-count_into : (s : List Text) (m : List Entry) → Distinct m → Distinct (count_into m s)
unfolding count_into
Distinct-count_into [] m d = d
Distinct-count_into (v ∷ s) m d = Distinct-count_into s (increment v m) (Distinct-increment v m d)

pub Distinct-count_votes : (s : List Text) → Distinct (count_votes s)
unfolding count_votes
Distinct-count_votes s = Distinct-count_into s [] tt

Fresh-Holds :
    (k : Text) (m : List Entry) (e : Entry) → Fresh k m → Holds m e → text_eq e.key k ≡ false
Fresh-Holds k [] e f h = absurd h
Fresh-Holds k (d ∷ m) e f (inl p) = rw (← p) f.0
Fresh-Holds k (d ∷ m) e f (inr h) = Fresh-Holds k m e f.1 h

-- What stands in the map is what it holds at the key.
held-Holds : (m : List Entry) (e : Entry) → Distinct m → Holds m e → held e.key m ≡ e.votes
held-Holds [] e d h = absurd h
held-Holds (c ∷ m) e d (inl p) = rw (p, text_eq_refl e.key)
held-Holds (c ∷ m) e d (inr h) =
    rw (text_eq_sym c.key e.key, Fresh-Holds c.key m e d.0 h) (held-Holds m e d.1 h)

-- Each entry of the count holds the number of votes for its key.
pub votes-count_votes :
    (s : List Text) (e : Entry) → Holds (count_votes s) e → e.votes ≡ votes_for e.key s
votes-count_votes s e h =
    omega (arith, held-Holds (count_votes s) e (Distinct-count_votes s) h, held-count_votes e.key s)

-- A key with a vote has an entry.
Holds-held : (k : Text) (m : List Entry) → 0 < held k m → (e : Entry) × Holds m e × (e.key ≡ k)
Holds-held k [] h = absurd (omega arith)
Holds-held k (e ∷ m) h = elim (Bool-cases (text_eq e.key k)) [
  | inl same ↦ (e, inl refl, (text_eq_iff e.key k).0 same)
  | inr differ ↦ let (d, at, is) = Holds-held k m (rw differ at h) in (d, inr at, is)
]

pub entry-count_votes :
    (k : Text) (s : List Text)
    → 0 < votes_for k s
    → (e : Entry) × Holds (count_votes s) e × (e.key ≡ k)
entry-count_votes k s h = Holds-held k (count_votes s) (rw (held-count_votes k s) h)
