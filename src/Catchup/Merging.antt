-- ===== src/Catchup/Merging.antt =====
-- The merge of received transactions, `heapq.merge` in plenum/common/ledger_manager.py.
use plenum.Common.{ℕ, ◌+◌, ◌≤◌, ◌≡◌, List, [], ◌∷◌, ◌++◌, ltb, nat_eq, arith, inl, inr, Bool-cases}
use plenum.Catchup.Coverage.{held}
use plenum.Catchup.Replies.{split_below, merge}

module _ {X : Type 0} where
  held-append : (n : ℕ) (xs ys : List (ℕ × X)) → held n (xs ++ ys) ≡ held n xs + held n ys
  unfolding held
  held-append n [] ys = omega arith
  held-append n ((s, txn) ∷ xs) ys = omega (arith, held-append n xs ys)

  -- Sorted by number from a bound on, with repetitions.
  abbrev pub IsSortedFrom : ℕ → List (ℕ × X) → Type 0
  IsSortedFrom n [] = Unit
  IsSortedFrom n ((s, txn) ∷ xs) = (n ≤ s) × IsSortedFrom s xs

  IsSortedFrom-weaken :
      (n m : ℕ) (xs : List (ℕ × X)) → n ≤ m → IsSortedFrom m xs → IsSortedFrom n xs
  IsSortedFrom-weaken n m [] le h = tt
  IsSortedFrom-weaken n m ((s, txn) ∷ xs) le h = (omega (arith, h.0), h.1)

  split_below_lem :
      (s n : ℕ) (ys : List (ℕ × X))
      → n ≤ s
      → IsSortedFrom n ys
      → IsSortedFrom s (split_below s ys).1
        × ((rest : List (ℕ × X))
            → IsSortedFrom s rest
            → IsSortedFrom n ((split_below s ys).0 ++ rest))
        × ((k : ℕ) → held k ys ≡ held k (split_below s ys).0 + held k (split_below s ys).1)
  unfolding split_below held
  split_below_lem s n [] le h = (tt, λ rest r. IsSortedFrom-weaken n s rest le r, λ k. omega arith)
  split_below_lem s n ((t, txn) ∷ ys) le h = elim (Bool-cases (ltb t s)) [
    | inr above ↦
        rw above
          ((ground arith, h.1), λ rest r. IsSortedFrom-weaken n s rest le r, λ k. omega arith)
    | inl under ↦
        let (others, front, count) = split_below_lem s t ys (ground arith) h.1 in
        rw under (others, λ rest r. (h.0, front rest r), λ k. omega (arith, count k))
  ]

  -- Two lists that are sorted by number merge into one that is sorted, and that holds each number as
  -- often as the two.
  pub merge-IsSortedFrom :
      (n : ℕ) (xs ys : List (ℕ × X))
      → IsSortedFrom n xs
      → IsSortedFrom n ys
      → IsSortedFrom n (merge xs ys) × ((k : ℕ) → held k (merge xs ys) ≡ held k xs + held k ys)
  unfolding merge held
  merge-IsSortedFrom n [] ys hx hy = (hy, λ k. omega arith)
  merge-IsSortedFrom n ((s, txn) ∷ xs) ys hx hy =
      let (others, front, count) = split_below_lem s n ys hx.0 hy in
      let (sorted, all) = merge-IsSortedFrom s xs (split_below s ys).1 hx.1 others in
      (
        front ((s, txn) ∷ merge xs (split_below s ys).1) (omega arith, sorted),
        λ k. omega (
          arith,
          count k,
          all k,
          held-append k (split_below s ys).0 ((s, txn) ∷ merge xs (split_below s ys).1),
        ),
      )
