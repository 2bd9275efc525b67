-- ===== src/Quorum/Tests.antt =====
-- Concrete pools: the quorums of small pools, and the theorems on quorums at a pool of four nodes.
use plenum.Common.{
  ℕ, ◌+◌, ◌*◌, ◌%◌, ◌≤◌, ◌≡◌, refl, ◌↔◌, List, [], ◌∷◌, none, some, arith, length, nat_eq,
}
use plenum.Common.Dict
use plenum.Quorum.{
  get_max_failures, get_strong_quorum, get_weak_quorum, total_connections,
  check_if_more_than_f_same_items,
}
use plenum.Quorum.Overlap.{strong_quorum_margin, strong_quorums_overlap, shared}
use plenum.Quorum.Majority.{occurrences, check_if_more_than_f_same_items_sound}

small_pools :
    (get_max_failures 3 ≡ 0)
    × (get_max_failures 4 ≡ 1)
    × (get_max_failures 6 ≡ 1)
    × (get_strong_quorum (some 6) none ≡ some 3)
    × (get_weak_quorum none (some 2) ≡ some 3)
    × (total_connections 5 ≡ 10)
unfolding get_max_failures get_strong_quorum get_weak_quorum total_connections
small_pools = (refl, refl, refl, refl, refl, refl)

same_items :
    (check_if_more_than_f_same_items {A = ℕ} (7 ∷ 8 ∷ 8 ∷ []) 1 ≡ some 8)
    × (check_if_more_than_f_same_items {A = ℕ} (7 ∷ 8 ∷ 8 ∷ []) 2 ≡ none)
unfolding check_if_more_than_f_same_items Dict.set Dict.get
same_items = (refl, refl)

strong_quorum_margin_example : (6 + 2 ≤ 2 * 3) ↔ (6 % 3 ≡ 1)
unfolding get_strong_quorum get_weak_quorum
strong_quorum_margin_example = strong_quorum_margin 6 3 2 (omega arith) refl refl

abbrev four : List ℕ
four = 1 ∷ 2 ∷ 3 ∷ 4 ∷ []

strong_quorums_overlap_example : 2 ≤ length (shared {A = ℕ} (1 ∷ 2 ∷ 3 ∷ []) (2 ∷ 3 ∷ 4 ∷ []) four)
unfolding get_strong_quorum get_weak_quorum
strong_quorums_overlap_example =
    strong_quorums_overlap {A = ℕ} four (1 ∷ 2 ∷ 3 ∷ []) (2 ∷ 3 ∷ 4 ∷ []) 3 2 (omega arith) refl
      refl refl (refl, (refl, (refl, tt))) (refl, (refl, (refl, tt))) (refl, (refl, (refl, tt)))
      (refl, (refl, (refl, tt))) (omega arith) (omega arith)

check_if_more_than_f_same_items_sound_example : 1 + 1 ≤ occurrences {A = ℕ} 8 (7 ∷ 8 ∷ 8 ∷ [])
unfolding check_if_more_than_f_same_items Dict.set Dict.get
check_if_more_than_f_same_items_sound_example =
    check_if_more_than_f_same_items_sound {A = ℕ} (7 ∷ 8 ∷ 8 ∷ []) 1 refl
