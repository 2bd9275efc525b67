-- ===== src/Quorum/Majority.antt =====
-- What `checkIfMoreThanFSameItems` returns: an item that occurs more than `f` times, if there is one.
use plenum.Common.{
  ap, eq→path, All-map, ℕ, ◌+◌, ◌≤◌, ◌<◌, ◌≡◌, false, List, [], ◌∷◌, none, some, arith, All, Eq,
  ◌==◌, Distinct, if◌then◌else◌, ltb, inl, inr, Bool-cases, Option-cases, List-cases, length,
}
use plenum.Common.Dict
use plenum.Common.Dict.{Dict, keys, get_or}
use plenum.Quorum.{tally, leader, most_common, check_if_more_than_f_same_items}

module _ {ℓ} {A : Type ℓ} ⦃e : Eq A⦄ where
  -- How often an item occurs.
  unfoldable pub occurrences : A → List A → ℕ
  occurrences a [] = 0
  occurrences a (x ∷ xs) = (if x == a then 1 else 0) + occurrences a xs

  frequency : A → Dict A ℕ → ℕ
  frequency a counts = get_or (Dict.get a counts) 0

  frequency-set :
      (a x : A) (counts : Dict A ℕ)
      → frequency a (Dict.set x (frequency x counts + 1) counts)
        ≡ frequency a counts + (if x == a then 1 else 0)
  unfolding frequency
  frequency-set a x counts = elim (Bool-cases (x == a)) [
    | inl same ↦ ground (
      arith,
      Dict.get-set x a (get_or (Dict.get x counts) 0 + 1) counts,
      ap (λ b. Dict.get b counts) (eq→path x a same),
    )
    | inr other ↦ ground (arith, Dict.get-set x a (get_or (Dict.get x counts) 0 + 1) counts)
  ]

  frequency-tally :
      (a : A) (counts : Dict A ℕ) (items : List A)
      → frequency a (tally counts items) ≡ frequency a counts + occurrences a items
  unfolding tally occurrences frequency
  frequency-tally a counts [] = omega arith
  frequency-tally a counts (x ∷ items) = omega (
    arith,
    frequency-tally a (Dict.set x (frequency x counts + 1) counts) items,
    frequency-set a x counts,
  )

  tally-Distinct :
      (counts : Dict A ℕ) (items : List A)
      → Distinct (keys counts)
      → Distinct (keys (tally counts items))
  unfolding tally
  tally-Distinct counts [] h = h
  tally-Distinct counts (x ∷ items) h =
      tally-Distinct (Dict.set x _ counts) items (Dict.set-Distinct x _ counts h)

  -- The entries of a tally hold the number of occurrences.
  abbrev pub Counts : List A → A × ℕ → Type 0
  Counts items entry = entry.1 ≡ occurrences entry.0 items

  pub Counts-tally : (items : List A) → All (Counts items) (tally [] items)
  unfolding frequency Dict.get
  Counts-tally items =
      All-map (λ entry found. ground (arith, frequency-tally entry.0 [] items)) (tally [] items)
        (Dict.All-entries (tally [] items) (tally-Distinct [] items tt))

  pub get-tally :
      (a : A) (items : List A) → get_or (Dict.get a (tally [] items)) 0 ≡ occurrences a items
  unfolding frequency Dict.get
  get-tally a items = omega (arith, frequency-tally a [] items)

  most_common-Counts :
      (items : List A) (best : A × ℕ) (counts : Dict A ℕ)
      → Counts items best
      → All (Counts items) counts
      → Counts items (most_common best counts)
  unfolding most_common
  most_common-Counts items best [] h a = h
  most_common-Counts items best (entry ∷ counts) h a =
      most_common-Counts items (leader best entry) counts (ground arith) a.1

  most_common-ge : (best : A × ℕ) (counts : Dict A ℕ) → best.1 ≤ (most_common best counts).1
  unfolding most_common
  most_common-ge best [] = omega arith
  most_common-ge best (entry ∷ counts) = ground (arith, most_common-ge (leader best entry) counts)

  most_common-max :
      (best : A × ℕ) (counts : Dict A ℕ)
      → All (λ entry. entry.1 ≤ (most_common best counts).1) counts
  unfolding most_common
  most_common-max best [] = tt
  most_common-max best (entry ∷ counts) = (
    ground (arith, most_common-ge (leader best entry) counts),
    most_common-max (leader best entry) counts,
  )

  -- No item occurs more often than an entry that bounds the whole tally.
  occurrences-le :
      (a : A) (items : List A) (n : ℕ)
      → All (λ entry. entry.1 ≤ n) (tally [] items)
      → occurrences a items ≤ n
  unfolding frequency Dict.get
  occurrences-le a items n h = elim (Option-cases (Dict.get a (tally [] items))) [
    | inl absent ↦ ground (arith, frequency-tally a [] items)
    | inr (m, found) ↦ ground (
      arith,
      frequency-tally a [] items,
      Dict.All-get (λ entry. entry.1 ≤ n) a (tally [] items) h found,
    )
  ]

  chosen :
      (items : List A) (f : ℕ) (first : A × ℕ) (counts : Dict A ℕ) {a : A}
      → tally [] items ≡ first ∷ counts
      → (if ltb f (most_common first counts).1 then some (most_common first counts).0 else none)
        ≡ some a
      → f < occurrences a items
  chosen items f first counts e h =
      let all : All (Counts items) (first ∷ counts) = rw e at (Counts-tally items) in
      ground (arith, most_common-Counts items first counts all.0 all.1)

  passed_over :
      (items : List A) (f : ℕ) (first : A × ℕ) (counts : Dict A ℕ) (a : A)
      → tally [] items ≡ first ∷ counts
      → (if ltb f (most_common first counts).1 then some (most_common first counts).0 else none)
        ≡ none
      → occurrences a items ≤ f
  passed_over items f first counts a e h =
      let bound = (most_common first counts).1 in
      let all : All (λ entry. entry.1 ≤ bound) (tally [] items) =
        rw e (most_common-ge first counts, most_common-max first counts) in
      ground (arith, occurrences-le a items bound all)

  -- The entry that leads a tally has the number of its item, and no item occurs more often.
  pub most_common-IsMode :
      (items : List A) (first : A × ℕ) (counts : Dict A ℕ)
      → tally [] items ≡ first ∷ counts
      → ((most_common first counts).1 ≡ occurrences (most_common first counts).0 items)
        × ((b : A) → occurrences b items ≤ (most_common first counts).1)
  most_common-IsMode items first counts e =
      let bound = (most_common first counts).1 in
      let all : All (Counts items) (first ∷ counts) = rw e at (Counts-tally items) in
      let most : All (λ entry. entry.1 ≤ bound) (tally [] items) =
        rw e (most_common-ge first counts, most_common-max first counts) in
      (most_common-Counts items first counts all.0 all.1, λ b. occurrences-le b items bound most)

  -- Without a tally nothing occurs.
  pub tally_empty : (items : List A) (b : A) → tally [] items ≡ [] → occurrences b items ≡ 0
  unfolding Dict.get
  tally_empty items b e =
      let none_more = occurrences-le b items 0 (rw e tt) in omega (arith, none_more)

  -- Two different items share the places of a list.
  pub occurrences-share :
      (a b : A) (items : List A)
      → (a == b) ≡ false
      → occurrences a items + occurrences b items ≤ length items
  unfolding occurrences
  occurrences-share a b [] h = omega arith
  occurrences-share a b (x ∷ items) h =
      ground (arith, h, e.decides x a, e.decides x b, e.decides a b, occurrences-share a b items h)

  -- A result is an item that occurs more than `f` times.
  pub check_if_more_than_f_same_items_sound :
      (items : List A) (f : ℕ) {a : A}
      → check_if_more_than_f_same_items items f ≡ some a
      → f < occurrences a items
  unfolding check_if_more_than_f_same_items
  check_if_more_than_f_same_items_sound items f h = elim (List-cases (tally [] items)) [
    | inl empty ↦ absurd (ground arith)
    | inr (first, counts, e) ↦
        chosen items f first counts e (rw (e, check_if_more_than_f_same_items) at h)
  ]

  -- Without a result no item occurs more than `f` times.
  check_if_more_than_f_same_items_complete :
      (items : List A) (f : ℕ) (a : A)
      → check_if_more_than_f_same_items items f ≡ none
      → occurrences a items ≤ f
  unfolding check_if_more_than_f_same_items Dict.get
  check_if_more_than_f_same_items_complete items f a h = elim (List-cases (tally [] items)) [
    | inl empty ↦ occurrences-le a items f (rw empty tt)
    | inr (first, counts, e) ↦
        passed_over items f first counts a e (rw (e, check_if_more_than_f_same_items) at h)
  ]
