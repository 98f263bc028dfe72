-- ===== src/Isaac/VoteproofValid/Quorum.antt =====
-- base/voteproof_isvalid.go: two majorities have a signer in common.
use mitum.Prelude.{
  ℕ, suc, ◌+◌, ◌^◌, ◌≤◌, ◌<◌, ◌≡◌, ◌≢◌, ◌⊎◌, inl, inr, refl, ap, sym, subst, ◌∙◌, Bool, true, false,
  not, arith, Option, none, some, List, [], ◌∷◌, ◌++◌, if◌then◌else◌, length, length-append, is_nil,
  Text, text_eq, text_eq_iff, text_eq_refl, lookup, any, times, times-append, times_some,
  times_none, Bool-cases,
}
use mitum.Base.Vote.{VoteResult, not_yet, draw, majority, result_eq, Entry, capped}
use mitum.Base.Vote.Count.{votes_for}
use mitum.Base.Vote.Best.{IsRange}
use mitum.Base.Threshold.{threshold_of, vote_result_of}
use mitum.Isaac.Voteproof.{BallotFact, SignFact, Voteproof, vote_result}
use mitum.Isaac.Suffrage.{Node, Suffrage, exists, len, addresses, is_duplicated}
use mitum.Isaac.Suffrage.Distinct.{is_duplicated-times}
use mitum.Isaac.Suffrage.Expels.{IsBuilt, has_address, exists-has_address}
use mitum.States.VoteRecords.Expels.{hashes, facts_by_hash}
use mitum.States.VoteRecords.Expels.Facts.{facts_by_hash-hash}
use mitum.States.VoteRecords.Count.Plain.{vote_result_of-wins}
use mitum.Isaac.VoteproofValid.{
  Valid, is_valid_voteproof, is_valid_in_suffrage, is_valid_voteproof_with_suffrage, sign_nodes,
  are_members, agrees, same_fact, is_stuck, expels_of_kind, with_expels_of, with_sign_facts,
}

-- Without one occurrence of the text
abbrev take_out : Text → List Text → List Text
take_out a [] = []
take_out a (x ∷ xs) = if text_eq a x then xs else x ∷ take_out a xs

length-take_out :
    (a : Text) (xs : List Text) → 0 < times a xs → length xs ≡ suc (length (take_out a xs))
length-take_out a [] h = absurd (omega arith)
length-take_out a (x ∷ xs) h = ground (arith, length-take_out a xs)

times-take_out :
    (a b : Text) (xs : List Text)
    → times b xs ≤ times b (take_out a xs) + (if text_eq b a then 1 else 0)
times-take_out a b [] = omega arith
times-take_out a b (x ∷ xs) =
    ground (arith, times-take_out a b xs, text_eq_iff a x, text_eq_iff b x, text_eq_iff b a)

-- Texts that are in a list as often are as many.
length_by_times :
    (xs ns : List Text) → ((a : Text) → times a xs ≤ times a ns) → length xs ≤ length ns
length_by_times [] ns h = omega arith
length_by_times (x ∷ xs) ns h =
    omega (arith, length-take_out x ns here, length_by_times xs (take_out x ns) rest)
  where
    here : 0 < times x ns
    here = ground (arith, h x, text_eq_refl x)

    rest : (a : Text) → times a xs ≤ times a (take_out x ns)
    rest a = ground (arith, h a, times-take_out x a ns)

-- The nodes that signed for a hash
pub voters : Text → List SignFact → List Text
voters k [] = []
voters k (sf ∷ sfs) = if text_eq sf.fact.hash k then sf.node ∷ voters k sfs else voters k sfs

length-voters : (k : Text) (sfs : List SignFact) → length (voters k sfs) ≡ votes_for k (hashes sfs)
unfolding voters hashes
length-voters k [] = refl
length-voters k (sf ∷ sfs) = ground (arith, length-voters k sfs)

times-voters :
    (k a : Text) (sfs : List SignFact) → times a (voters k sfs) ≤ times a (sign_nodes sfs)
unfolding voters
times-voters k a [] = omega arith
times-voters k a (sf ∷ sfs) = ground (arith, times-voters k a sfs)

member_signed :
    (suf : Suffrage) (a : Text) (sfs : List SignFact)
    → are_members suf sfs ≡ true
    → 0 < times a (sign_nodes sfs)
    → exists suf a ≡ true
unfolding are_members
member_signed suf a [] h s = absurd (omega arith)
member_signed suf a (sf ∷ sfs) h s = elim (Bool-cases (text_eq a sf.node)) [
  | inl e ↦ rw ((text_eq_iff a sf.node).0 e) (first h)
  | inr e ↦ member_signed suf a sfs (later h) (rw e at s)
]
  where
    first : are_members suf (sf ∷ sfs) ≡ true → exists suf sf.node ≡ true
    first h = ground arith

    later : are_members suf (sf ∷ sfs) ≡ true → are_members suf sfs ≡ true
    later h = ground arith

times-address : (a : Text) (ns : List Node) → has_address a ns ≡ true → 0 < times a (addresses ns)
unfolding addresses
times-address a [] h = ground arith
times-address a (n ∷ ns) h =
    ground (arith, times-address a ns, text_eq_iff n.address a, text_eq_iff a n.address)

length-addresses : (ns : List Node) → length (addresses ns) ≡ length ns
unfolding addresses
length-addresses [] = refl
length-addresses (n ∷ ns) = ap suc (length-addresses ns)

-- A text that is in both lists, or none is.
in_both :
    (xs ys : List Text)
    → ((a : Text) × (0 < times a xs) × (0 < times a ys))
      ⊎ ((a : Text) → 0 < times a xs → times a ys ≡ 0)
in_both [] ys = inr (λ a h. absurd (omega arith))
in_both (x ∷ xs) ys = elim (Bool-cases (any (text_eq x) ys)) [
  | inl there ↦ inl (x, ground (arith, text_eq_refl x), times_some x ys there)
  | inr absent ↦ elim (in_both xs ys) [
    | inl (a, h, k) ↦ inl (a, ground arith, k)
    | inr apart ↦ inr (λ a h. or_later a absent (apart a) h)
  ]
]
  where
    or_later :
        (a : Text)
        → any (text_eq x) ys ≡ false
        → (0 < times a xs → times a ys ≡ 0)
        → 0 < times a (x ∷ xs)
        → times a ys ≡ 0
    or_later a absent f h = elim (Bool-cases (text_eq a x)) [
      | inl e ↦ rw ((text_eq_iff a x).0 e) (times_none x ys absent)
      | inr e ↦ f (rw e at h)
    ]

-- What two tests that are nested give
both_hold : (p q : Bool) → (if p then q else false) ≡ true → (p ≡ true) × (q ≡ true)
both_hold true true h = (refl, refl)
both_hold true false h = absurd (ground arith)
both_hold false q h = absurd (ground arith)

not_hold : (p q : Bool) → (if p then false else q) ≡ true → (p ≡ false) × (q ≡ true)
not_hold true q h = absurd (ground arith)
not_hold false q h = (refl, h)

valid-distinct :
    (v : Valid) (vp : Voteproof)
    → is_valid_voteproof v vp ≡ true
    → (result_eq (vote_result vp) not_yet ≡ false)
      × (is_nil vp.sign_facts ≡ false)
      × (is_duplicated [] (sign_nodes vp.sign_facts) ≡ false)
unfolding is_valid_voteproof
valid-distinct v vp h =
    let (a, h1) = not_hold _ _ h in
    let (b, h2) = not_hold _ _ h1 in
    let (c, h3) = not_hold _ _ h2 in
    let (d, h4) = not_hold _ _ h3 in let (e, h5) = not_hold _ _ h4 in (c, d, e)

-- A voteproof of the records, without expels
pub record IsPlain (vp : Voteproof) : Type 0 where
  pub no_expels : expels_of_kind vp.kind vp.expels ≡ []
  pub not_stuck : is_stuck vp.kind ≡ false

module _ (order : List Entry → List Entry) (suf : Suffrage) (vp : Voteproof) where
  counted_valid :
      IsPlain vp
      → is_valid_voteproof_with_suffrage order vp suf ≡ true
      → (are_members suf vp.sign_facts ≡ true)
        × (agrees vp (vote_result_of order vp.threshold (len suf) (hashes vp.sign_facts)) ≡ true)
  unfolding is_valid_voteproof_with_suffrage with_expels_of with_sign_facts is_valid_in_suffrage
  counted_valid plain h =
      let h1 : with_sign_facts order vp suf suf vp.threshold [] ≡ true = rw plain.no_expels at h in
      let (members, h2) = not_hold _ _ (rw plain.not_stuck at h1) in (not_eq _ members, h2)
    where
      not_eq : (b : Bool) → not b ≡ false → b ≡ true
      not_eq true e = refl
      not_eq false e = absurd (ground arith)

  majority_result :
      (f : BallotFact)
      → result_eq (vote_result vp) not_yet ≡ false
      → vp.majority_fact ≡ some f
      → vote_result vp ≡ majority
  unfolding vote_result result_eq
  majority_result f finished m = ground arith

  counted_fact :
      (f : BallotFact) (key : Text) (o : Option BallotFact)
      → lookup key (facts_by_hash vp.sign_facts) ≡ o
      → same_fact (some f) o ≡ true
      → f.hash ≡ key
  unfolding same_fact
  counted_fact f key none e h = absurd (ground arith)
  counted_fact f key (some g) e h =
      (text_eq_iff f.hash g.hash).0 h ∙ facts_by_hash-hash key vp.sign_facts g e

  -- The majority is what was counted.
  agrees-majority :
      (r : VoteResult) (key : Text) (f : BallotFact)
      → result_eq (vote_result vp) not_yet ≡ false
      → vp.majority_fact ≡ some f
      → agrees vp (r, key) ≡ true
      → (r ≡ majority) × (f.hash ≡ key)
  unfolding agrees result_eq
  agrees-majority not_yet key f finished m h = absurd (no (rw (majority_result f finished m) at h))
    where
      no : false ≡ true → ⊥
      no e = ground arith
  agrees-majority draw key f finished m h = absurd (no (rw (majority_result f finished m) at h))
    where
      no : false ≡ true → ⊥
      no e = ground arith
  agrees-majority majority key f finished m h =
      (refl, counted_fact f key _ refl (rw (majority_result f finished m, m) at h))

hashes_signed : (sfs : List SignFact) → is_nil sfs ≡ false → hashes sfs ≢ []
unfolding hashes
hashes_signed [] h e = absurd (ground arith)
hashes_signed (sf ∷ sfs) h e = cc

module _ (v : Valid) (suf : Suffrage) (small : len suf < 2 ^ 64) where
  abbrev pub IsMajority : (List Entry → List Entry) → Voteproof → BallotFact → Type 0
  IsMajority order vp f =
      IsRange order
      × IsPlain vp
      × (is_valid_voteproof v vp ≡ true)
      × (is_valid_voteproof_with_suffrage order vp suf ≡ true)
      × (vp.majority_fact ≡ some f)

  abbrev pub threshold_in : Voteproof → ℕ
  threshold_in vp = capped (len suf) (threshold_of vp.threshold (len suf))

  majority_voters :
      (order : List Entry → List Entry) (vp : Voteproof) (f : BallotFact)
      → IsMajority order vp f
      → (threshold_in vp ≤ length (voters f.hash vp.sign_facts))
        × ((a : Text) → times a (voters f.hash vp.sign_facts) ≤ (if exists suf a then 1 else 0))
  majority_voters order vp f (range, plain, valid, in_suffrage, m) =
      (let (finished, some_signed, distinct) = valid-distinct v vp valid in
        let (members, agreed) = counted_valid order suf vp plain in_suffrage in
        let counted = vote_result_of order vp.threshold (len suf) (hashes vp.sign_facts) in
        let (won, key) = agrees-majority order suf vp counted.0 counted.1 f finished m agreed in
        let enough =
          vote_result_of-wins order vp.threshold (len suf) (hashes vp.sign_facts) range small
            (hashes_signed vp.sign_facts some_signed) won in
        (
          subst (λ n. threshold_in vp ≤ n) (sym (length-voters f.hash vp.sign_facts))
              (subst (λ k. threshold_in vp ≤ votes_for k (hashes vp.sign_facts)) (sym key) enough),
          λ a.
              once a (times-voters f.hash a vp.sign_facts)
                (is_duplicated-times [] (sign_nodes vp.sign_facts) a distinct)
                (member_signed suf a vp.sign_facts members),
        ))
    where
      once :
          (a : Text)
          → times a (voters f.hash vp.sign_facts) ≤ times a (sign_nodes vp.sign_facts)
          → times a (sign_nodes vp.sign_facts) ≤ 1
          → (0 < times a (sign_nodes vp.sign_facts) → exists suf a ≡ true)
          → times a (voters f.hash vp.sign_facts) ≤ (if exists suf a then 1 else 0)
      once a le few member = ground arith

  -- A member is among the addresses.
  member_address :
      (a : Text) → IsBuilt suf → (if exists suf a then 1 else 0) ≤ times a (addresses suf.ns)
  member_address a built = ground (arith, exists-has_address suf a built, times-address a suf.ns)

  -- Of two valid voteproofs in the same suffrage that have a majority, without expels, and whose
  -- thresholds are together more than the nodes of the suffrage, some node of the suffrage signed the
  -- facts of both.
  pub valid_voteproofs_overlap :
      (order order' : List Entry → List Entry) (vp vp' : Voteproof) (f f' : BallotFact)
      → IsBuilt suf
      → IsMajority order vp f
      → IsMajority order' vp' f'
      → len suf < threshold_in vp + threshold_in vp'
      → (a : Text) × (exists suf a ≡ true)
        × (0 < times a (voters f.hash vp.sign_facts))
        × (0 < times a (voters f'.hash vp'.sign_facts))
  unfolding len
  valid_voteproofs_overlap order order' vp vp' f f' built one other more = elim (in_both A B) [
    | inl (a, h, k) ↦ (a, ground (arith, (majority_voters order vp f one).1 a), h, k)
    | inr apart ↦ absurd (
        omega (
          arith,
          (majority_voters order vp f one).0,
          (majority_voters order' vp' f' other).0,
          length-append A B,
          length-addresses suf.ns,
          length_by_times (A ++ B) (addresses suf.ns) (fits apart),
        ))
  ]
    where
      A : List Text
      A = voters f.hash vp.sign_facts

      B : List Text
      B = voters f'.hash vp'.sign_facts

      fits :
          ((a : Text) → 0 < times a A → times a B ≡ 0)
          → (a : Text) → times a (A ++ B) ≤ times a (addresses suf.ns)
      fits apart a = ground (
        arith,
        times-append a A B,
        apart a,
        (majority_voters order vp f one).1 a,
        (majority_voters order' vp' f' other).1 a,
        member_address a built,
      )
