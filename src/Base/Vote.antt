-- ===== src/Base/Vote.antt =====
-- base/vote.go: the result of a vote.
pub mod Count
pub mod Tally
pub mod Best
pub mod Result
pub mod Future
mod Tests
use mitum.Prelude.{
  ℕ, ◌+◌, ◌-◌, ◌%◌, ◌^◌, Bool, true, false, ◌&&◌, List, [], ◌∷◌, ltb, leb, ◌==◌, if◌then◌else◌,
  length, Text, text_eq, text_lt,
}

-- `type VoteResult string`
pub data VoteResult : Type 0 where
  not_yet draw majority : VoteResult

unfoldable pub result_eq : VoteResult → VoteResult → Bool
result_eq not_yet not_yet = true
result_eq draw draw = true
result_eq majority majority = true
result_eq _ _ = false

-- An entry of `map[string]uint`.
pub record Entry : Type 0 where
  pub key : Text
  pub votes : ℕ

-- `count[v]++`
pub increment : Text → List Entry → List Entry
increment v [] = record { key = v; votes = 1 } ∷ []
increment v (e ∷ m) =
    if text_eq e.key v then record e { votes = e.votes + 1 } ∷ m else e ∷ increment v m

-- `for _, v := range s { count[v]++ }`
count_into : List Entry → List Text → List Entry
unfolding increment
count_into m [] = m
count_into m (v ∷ s) = count_into (increment v m) s

pub count_votes : List Text → List Entry
unfolding count_into
count_votes s = count_into [] s

-- The local variables of the second loop.
pub record Top : Type 0 where
  pub max_count : ℕ
  pub top_ties : ℕ
  pub mhs : Text

abbrev pub no_top : Top
no_top = record { max_count = 0; top_ties = 0; mhs = [] }

pub visit : Top → Entry → Top
visit t e =
    if ltb t.max_count e.votes
    then record { max_count = e.votes; top_ties = 1; mhs = e.key }
    else if e.votes == t.max_count
    then record t { top_ties = t.top_ties + 1; mhs = if text_lt e.key t.mhs then e.key else t.mhs }
    else t

-- `for hs, cn := range count`, in the order in which the entries are given
pub visit_all : Top → List Entry → Top
unfolding visit
visit_all t [] = t
visit_all t (e ∷ m) = visit_all (visit t e) m

abbrev pub remaining : ℕ → ℕ → ℕ
remaining quorum total = if ltb total quorum then quorum - total else 0

abbrev pub capped : ℕ → ℕ → ℕ
capped quorum threshold = if ltb quorum threshold then quorum else threshold

pub conclude : ℕ → ℕ → Top → VoteResult × Text
conclude th remain t =
    if leb th t.max_count
    then (majority, t.mhs)
    else if remain == 0
    then (draw, [])
    else if ltb ((t.max_count + remain) % 2 ^ 64) th
    then (draw, [])
    else (not_yet, [])

-- `range` visits a map in any order: `order` is the one of this run.
unfoldable pub find_vote_result : (List Entry → List Entry) → ℕ → ℕ → List Text → VoteResult × Text
unfolding count_votes visit_all conclude
find_vote_result order quorum threshold s =
    if length s == 0
    then (not_yet, [])
    else conclude (capped quorum threshold) (remaining quorum (length s))
        (visit_all no_top (order (count_votes s)))
