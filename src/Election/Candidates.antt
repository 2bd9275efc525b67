-- ===== src/Election/Candidates.antt =====
-- `getPrimaryCandidates` of plenum/server/primary_elector.py, and the nominations behind its candidates.
use plenum.Common.{
  ℕ, ◌≤◌, ◌<◌, ◌≡◌, Bool, true, false, String, List, [], ◌∷◌, none, some, length, arith, All,
  All-keep, All-map, ◌==◌, nat_eq, string_eq, pair_eq, eq_self, eq→path, inl, inr, Bool-cases,
  List-cases, Option-cases, keep, Eq,
}
use plenum.Common.Dict
use plenum.Common.Dict.{Dict, values, get_or}
use plenum.Quorum.{tally, most_common}
use plenum.Quorum.Majority.{
  occurrences, Counts, Counts-tally, get-tally, most_common-IsMode, tally_empty,
}
use plenum.Election.{Vote}
use plenum.Election.Deciding.{get_primary_candidates}

module _ {A : Type 0} where
  All-both : (P Q : A → Type 0) (xs : List A) → All P xs → All Q xs → All (λ x. P x × Q x) xs
  All-both P Q [] p q = tt
  All-both P Q (x ∷ xs) p q = ((p.0, q.0), All-both P Q xs p.1 q.1)

  keep_passes : (p : A → Bool) (xs : List A) → All (λ x. p x ≡ true) (keep p xs)
  keep_passes p [] = tt
  keep_passes p (x ∷ xs) = elim (Bool-cases (p x)) [
    | inl yes_kept ↦ rw yes_kept (yes_kept, keep_passes p xs)
    | inr dropped ↦ rw dropped (keep_passes p xs)
  ]

module _ {K V : Type 0} ⦃e : Eq K⦄ where
  -- An entry that is found and passes is found among those that pass.
  get-keep :
      (p : K × V → Bool) (k : K) (v : V) (d : Dict K V)
      → Dict.get k d ≡ some v
      → p (k, v) ≡ true
      → Dict.get k (keep p d) ≡ some v
  unfolding Dict.get
  get-keep p k v [] h pass = h
  get-keep p k v ((j, w) ∷ d) h pass = elim (Bool-cases (j == k)) [
    | inl same ↦
        let found = rw same at h in
        let pass' : p (j, w) ≡ true = rw (eq→path j k same, some_value w v found) pass in
        rw (pass', same) found
    | inr other ↦ elim (Bool-cases (p (j, w))) [
      | inl kept ↦ rw (kept, other) (get-keep p k v d (rw other at h) pass)
      | inr dropped ↦ rw dropped (get-keep p k v d (rw other at h) pass)
    ]
  ]
    where
      some_value : (a b : V) → some a ≡ some b → a ≡ b
      some_value a b q = cc

-- A candidate has the number of its nominations, and no vote has more.
abbrev pub Leads : Dict String Vote → Vote × ℕ → Type 0
Leads nominations c =
    (c.1 ≡ occurrences c.0 (values nominations))
    × ((w : Vote) → occurrences w (values nominations) ≤ c.1)

pub get_primary_candidates-Leads :
    (nominations : Dict String Vote) → All (Leads nominations) (get_primary_candidates nominations)
unfolding get_primary_candidates
get_primary_candidates-Leads nominations =
    let votes = values nominations in
    elim (List-cases (tally [] votes)) [
      | inl empty ↦ rw (get_primary_candidates, empty) tt
      | inr (first, rest, e) ↦
          let most = (most_common first rest).1 in
          let (count, bound) = most_common-IsMode votes first rest e in
          let test : Vote × ℕ → Bool = λ c. c.1 == most in
          let both =
            All-both (Counts votes) (λ c. test c ≡ true) (keep test (tally [] votes))
              (All-keep (Counts votes) test (tally [] votes) (Counts-tally votes))
              (keep_passes test (tally [] votes)) in
          rw (get_primary_candidates, e)
            (All-map {Q = Leads nominations}
              (λ c h. (h.0, λ w. rw (eq→path c.1 most h.1) (bound w))) (keep test (tally [] votes))
              both)
    ]

one_occurs :
    (nominations : Dict String Vote)
    → 0 < length nominations
    → (x : Vote) × (0 < occurrences x (values nominations))
unfolding occurrences
one_occurs [] h = absurd (omega arith)
one_occurs ((k, x) ∷ nominations) h = (x, rw (eq_self x) (omega arith))

-- With a sole candidate every other vote has fewer nominations.
pub sole_candidate :
    (nominations : Dict String Vote) (vote : Vote) (votes : ℕ)
    → 0 < length nominations
    → get_primary_candidates nominations ≡ (vote, votes) ∷ []
    → (w : Vote) → (vote == w) ≡ false
    → occurrences w (values nominations) < votes
unfolding get_primary_candidates Dict.get
sole_candidate nominations vote votes some_votes sole w other =
    let all = values nominations in
    let leads = rw sole at (get_primary_candidates-Leads nominations) in
    let (x, occurs) = one_occurs nominations some_votes in
    elim (List-cases (tally [] all)) [
      | inl empty ↦ absurd (omega (arith, tally_empty all x empty))
      | inr (first, rest, e) ↦
          let test : Vote × ℕ → Bool = λ c. c.1 == (most_common first rest).1 in
          let kept : keep test (tally [] all) ≡ (vote, votes) ∷ [] =
            rw (get_primary_candidates, e) at sole in
          let passes = rw kept at (keep_passes test (tally [] all)) in
          elim (Option-cases (Dict.get w (tally [] all))) [
            | inl absent ↦
                let zero_times = rw absent at (get-tally w all) in
                omega (arith, zero_times, leads.0.1 x)
            | inr (n, found) ↦
                let count = rw found at (get-tally w all) in
                elim (Bool-cases (test (w, n))) [
                  | inl top ↦
                      let there = rw kept at (get-keep test w n (tally [] all) found top) in
                      absurd (no_value n (rw other at there))
                  | inr less ↦ ground (arith, count, leads.0.1 w, passes.0, less)
                ]
          ]
    ]
  where
    no_value : (n : ℕ) → none ≡ some n → ⊥
    no_value n p = cc
