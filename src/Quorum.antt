-- ===== src/Quorum.antt =====
-- The quorum arithmetic of plenum/common/util.py: `getMaxFailures`, the two quorums, the number of
-- protocol instances, the number of connections, and `checkIfMoreThanFSameItems`.
pub mod Overlap
pub mod Majority
mod Tests
use plenum.Common.{
  ℕ, ◌+◌, ◌-◌, ◌*◌, ◌/◌, Bool, List, [], ◌∷◌, Option, none, some, leb, ltb, if◌then◌else◌, Eq, ◌==◌,
}
use plenum.Common.Dict
use plenum.Common.Dict.{Dict, get_or}

unfoldable pub get_max_failures : ℕ → ℕ
get_max_failures node_count = if leb 4 node_count then (node_count - 1) / 3 else 0

-- The value that `f` has when only the other argument of the two may be given.
unfoldable pub failures : Option ℕ → Option ℕ → Option ℕ
unfolding get_max_failures
failures none f = f
failures (some node_count) f = some (get_max_failures node_count)

unfoldable pub get_strong_quorum : Option ℕ → Option ℕ → Option ℕ
unfolding failures
get_strong_quorum node_count f = elim (failures node_count f) [
  | none ↦ none
  | some g ↦ some (2 * g + 1)
]

unfoldable pub get_weak_quorum : Option ℕ → Option ℕ → Option ℕ
unfolding failures
get_weak_quorum node_count f = elim (failures node_count f) [ none ↦ none | some g ↦ some (g + 1) ]

unfoldable pub get_no_instances : ℕ → ℕ
unfolding get_max_failures
get_no_instances node_count = get_max_failures node_count + 1

-- `ceil (n / 2)` is `(n + 1) / 2`.
unfoldable pub total_connections : ℕ → ℕ
total_connections node_count = (node_count * (node_count - 1) + 1) / 2

-- `checkIfMoreThanFSameItems`: the items are compared by their JSON text, so the model takes them
-- as values with an equality.
module _ {ℓ} {A : Type ℓ} ⦃e : Eq A⦄ where
  -- `counts[item] = counts.get(item, 0) + 1`
  unfoldable pub tally : Dict A ℕ → List A → Dict A ℕ
  tally counts [] = counts
  tally counts (item ∷ items) =
      tally (Dict.set item (get_or (Dict.get item counts) 0 + 1) counts) items

  -- `max(counts, key=counts.get)`: the first of the items with the highest count.
  unfoldable pub leader : A × ℕ → A × ℕ → A × ℕ
  leader best entry = if ltb best.1 entry.1 then entry else best

  unfoldable pub most_common : A × ℕ → Dict A ℕ → A × ℕ
  unfolding leader
  most_common best [] = best
  most_common best (entry ∷ counts) = most_common (leader best entry) counts

  unfoldable pub check_if_more_than_f_same_items : List A → ℕ → Option A
  unfolding tally most_common
  check_if_more_than_f_same_items items max_f = elim (tally [] items) [
    | [] ↦ none
    | first ∷ counts ↦
        let best = most_common first counts in if ltb max_f best.1 then some best.0 else none
  ]
