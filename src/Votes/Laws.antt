-- ===== src/Votes/Laws.antt =====
-- What the tracked votes count: after any history of votes, the distinct voters of the key.
use plenum.Common.{
  ℕ, ◌≡◌, refl, Bool, false, ◌&&◌, ◌||◌, String, List, [], ◌∷◌, none, some, arith, leb, length, Eq,
  ◌==◌, contains, add, Distinct, if◌then◌else◌, add-Distinct, Bool-cases, inl, inr, eq→path,
  string_eq, ap, ◌∙◌,
}
use mathlib.Core.Path.{ap₂}
use plenum.Common.Dict
use plenum.Common.Dict.{Dict, get_or}
use plenum.Votes.{Tracking, add_msg, has_vote, has_enough_votes, three_phase, instance_changes}

-- The two laws of the place where a subclass keeps its voters.
pub record IsTracking {M K V : Type 0} (t : Tracking M K V) : Type 0 where
  pub new_empty : (m : M) → t.voters (t.new_vote_msg m) ≡ []
  pub voters-with : (names : List String) (v : V) → t.voters (t.with_voters names v) ≡ names

module _ {M K V : Type 0} ⦃e : Eq K⦄ (t : Tracking M K V) (ok : IsTracking t) where
  -- The voters of a key, none if the key is not there.
  unfoldable pub voters_at : K → Dict K V → List String
  voters_at k d = elim (Dict.get k d) [ none ↦ [] | some v ↦ t.voters v ]

  pub voters_at-add_msg :
      (m : M) (voter : String) (k : K) (d : Dict K V)
      → voters_at k (add_msg t m voter d)
        ≡ (if t.get_key m == k then add voter (voters_at k d) else voters_at k d)
  unfolding voters_at add_msg
  voters_at-add_msg m voter k d =
      let j = t.get_key m in
      let votes = get_or (Dict.get j d) (t.new_vote_msg m) in
      let names = add voter (t.voters votes) in
      elim (Bool-cases (j == k)) [
        | inl same ↦
            let p = eq→path j k same in
            ground (
              arith,
              Dict.get-set j k (t.with_voters names votes) d,
              ap (λ i. Dict.get i d) p,
              ok.voters-with names votes,
              ok.new_empty m,
            )
        | inr other ↦ ground (arith, Dict.get-set j k (t.with_voters names votes) d)
      ]

  pub voters_at-Distinct :
      (m : M) (voter : String) (k : K) (d : Dict K V)
      → Distinct (voters_at k d)
      → Distinct (voters_at k (add_msg t m voter d))
  voters_at-Distinct m voter k d h = elim (Bool-cases (t.get_key m == k)) [
    | inl same ↦ rw (voters_at-add_msg m voter k d, same) (add-Distinct voter (voters_at k d) h)
    | inr other ↦ rw (voters_at-add_msg m voter k d, other) h
  ]

  pub has_vote-voters_at :
      (m : M) (voter : String) (d : Dict K V)
      → has_vote t m voter d ≡ contains (voters_at (t.get_key m) d) voter
  unfolding has_vote voters_at
  has_vote-voters_at m voter d = ground arith

  pub has_key-add_msg :
      (m : M) (voter : String) (k : K) (d : Dict K V)
      → Dict.has_key k (add_msg t m voter d) ≡ t.get_key m == k || Dict.has_key k d
  unfolding add_msg Dict.has_key
  has_key-add_msg m voter k d =
      let j = t.get_key m in
      let votes = get_or (Dict.get j d) (t.new_vote_msg m) in
      ground (arith, Dict.get-set j k (t.with_voters (add voter (t.voters votes)) votes) d)

  pub has_enough_votes-voters_at :
      (m : M) (count : ℕ) (d : Dict K V)
      → has_enough_votes t m count d
        ≡ Dict.has_key (t.get_key m) d && leb count (length (voters_at (t.get_key m) d))
  unfolding has_enough_votes Dict.has_key voters_at
  has_enough_votes-voters_at m count d = ground arith

  -- The votes of a history of messages and voters, the earliest first.
  unfoldable pub replay : Dict K V → List (M × String) → Dict K V
  replay d [] = d
  replay d ((m, voter) ∷ history) = replay (add_msg t m voter d) history

  -- The specification: those who voted for the key, each once.
  unfoldable pub electors : List String → K → List (M × String) → List String
  electors names k [] = names
  electors names k ((m, voter) ∷ history) =
      electors (if t.get_key m == k then add voter names else names) k history

  -- The history has a message with the key.
  unfoldable pub mentions : K → List (M × String) → Bool
  mentions k [] = false
  mentions k ((m, voter) ∷ history) = t.get_key m == k || mentions k history

  pub voters_at-replay :
      (k : K) (history : List (M × String)) (d : Dict K V)
      → voters_at k (replay d history) ≡ electors (voters_at k d) k history
  unfolding replay electors
  voters_at-replay k [] d = refl
  voters_at-replay k ((m, voter) ∷ history) d =
      voters_at-replay k history (add_msg t m voter d)
      ∙ ap (λ names. electors names k history) (voters_at-add_msg m voter k d)

  pub has_key-replay :
      (k : K) (history : List (M × String)) (d : Dict K V)
      → Dict.has_key k (replay d history) ≡ Dict.has_key k d || mentions k history
  unfolding replay mentions
  has_key-replay k [] d = ground arith
  has_key-replay k ((m, voter) ∷ history) d =
      ground (arith, has_key-replay k history (add_msg t m voter d), has_key-add_msg m voter k d)

  -- Whatever the order of a history of votes, and however often a vote is repeated: a message has
  -- enough votes exactly when its key was voted for and its distinct voters are as many.
  pub has_enough_votes-replay :
      (m : M) (count : ℕ) (history : List (M × String))
      → has_enough_votes t m count (replay [] history)
        ≡ mentions (t.get_key m) history && leb count (length (electors [] (t.get_key m) history))
  unfolding mentions Dict.has_key voters_at
  has_enough_votes-replay m count history =
      let d = replay [] history in
      let k = t.get_key m in
      has_enough_votes-voters_at m count d
      ∙ ap₂ (λ b names. b && leb count (length names)) (has_key-replay k history [])
          (voters_at-replay k history [])

  pub Distinct-electors :
      (names : List String) (k : K) (history : List (M × String))
      → Distinct names
      → Distinct (electors names k history)
  unfolding electors
  Distinct-electors names k [] h = h
  Distinct-electors names k ((m, voter) ∷ history) h = elim (Bool-cases (t.get_key m == k)) [
    | inl same ↦
        rw same (Distinct-electors (add voter names) k history (add-Distinct voter names h))
    | inr other ↦ rw other (Distinct-electors names k history h)
  ]

-- The laws hold of the dictionaries of `Prepares` and `Commits`, and of `InstanceChanges`.
pub three_phase-IsTracking : IsTracking three_phase
three_phase-IsTracking = record { new_empty = λ m. refl; voters-with = λ names v. refl }

pub instance_changes-IsTracking : IsTracking instance_changes
instance_changes-IsTracking = record { new_empty = λ m. refl; voters-with = λ names v. refl }
