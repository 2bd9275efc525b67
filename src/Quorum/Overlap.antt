-- ===== src/Quorum/Overlap.antt =====
-- Two strong quorums of one pool: how many members they must share.
use plenum.Common.{
  ℕ, ◌+◌, ◌*◌, ◌%◌, ◌≤◌, ◌≡◌, refl, ◌↔◌, true, false, ◌&&◌, List, [], ◌∷◌, none, some, arith,
  length, keep, All, Eq, ◌==◌, contains, Distinct, Bool-cases, inl, inr, ap, eq→path, eq_self,
}
use plenum.Quorum.{get_max_failures, get_strong_quorum, get_weak_quorum, get_no_instances}

-- With at least four nodes, `n = 3f + 1`, `3f + 2` or `3f + 3`.
get_max_failures_bounds :
    (n : ℕ) → 4 ≤ n → (3 * get_max_failures n + 1 ≤ n) × (n ≤ 3 * get_max_failures n + 3)
unfolding get_max_failures
get_max_failures_bounds n h = ground arith

module _ {ℓ} {A : Type ℓ} ⦃e : Eq A⦄ where
  -- The members of a pool that a list names.
  abbrev pub named : List A → List A → List A
  named xs pool = keep (contains xs) pool

  -- The members of a pool that both lists name.
  abbrev pub shared : List A → List A → List A → List A
  shared xs ys pool = keep (λ a. contains xs a && contains ys a) pool

  named_mono : (x : A) (xs pool : List A) → length (named xs pool) ≤ length (named (x ∷ xs) pool)
  named_mono x xs [] = omega arith
  named_mono x xs (a ∷ pool) = ground (arith, named_mono x xs pool)

  named-add :
      (x : A) (xs pool : List A)
      → contains xs x ≡ false
      → contains pool x ≡ true
      → length (named xs pool) + 1 ≤ length (named (x ∷ xs) pool)
  named-add x xs [] new h = absurd (ground arith)
  named-add x xs (a ∷ pool) new h = elim (Bool-cases (a == x)) [
    | inl same ↦
        let p = eq→path a x same in
        ground (arith, named_mono x xs pool, eq_self x, ap (contains xs) p, ap (◌==◌ x) p)
    | inr other ↦ ground (arith, named-add x xs pool new (ground arith))
  ]

  pub length-le-named :
      (xs pool : List A)
      → Distinct xs
      → All (λ x. contains pool x ≡ true) xs
      → length xs ≤ length (named xs pool)
  length-le-named [] pool d h = omega arith
  length-le-named (x ∷ xs) pool d h =
      omega (arith, named-add x xs pool d.0 h.0, length-le-named xs pool d.1 h.1)

  pub named_add_named :
      (xs ys pool : List A)
      → length (named xs pool) + length (named ys pool) ≤ length pool + length (shared xs ys pool)
  named_add_named xs ys [] = omega arith
  named_add_named xs ys (a ∷ pool) = ground (arith, named_add_named xs ys pool)

  -- Two lists of distinct members of a pool share all that the pool has no room for twice.
  pub shared_bound :
      (xs ys pool : List A)
      → Distinct xs
      → Distinct ys
      → All (λ x. contains pool x ≡ true) xs
      → All (λ y. contains pool y ≡ true) ys
      → length xs + length ys ≤ length pool + length (shared xs ys pool)
  shared_bound xs ys pool dx dy hx hy = omega (
    arith,
    length-le-named xs pool dx hx,
    length-le-named ys pool dy hy,
    named_add_named xs ys pool,
  )

-- For a pool of four nodes or more, twice the strong quorum covers the pool and a weak quorum
-- besides exactly when the number of nodes is one more than a multiple of three.
pub strong_quorum_margin :
    (n q w : ℕ)
    → 4 ≤ n
    → get_strong_quorum (some n) none ≡ some q
    → get_weak_quorum (some n) none ≡ some w
    → (n + w ≤ 2 * q) ↔ (n % 3 ≡ 1)
unfolding get_strong_quorum get_weak_quorum get_max_failures
strong_quorum_margin n q w h hq hw = (ground arith, ground arith)

-- In a pool of 3k + 1 nodes, k ≥ 1, any two strong quorums of distinct members share at least a
-- weak quorum of members: one more than the faulty nodes that the pool tolerates.
pub strong_quorums_overlap {ℓ} :
    {A : Type ℓ} ⦃e : Eq A⦄ (pool xs ys : List A) (q w : ℕ)
    → 4 ≤ length pool
    → length pool % 3 ≡ 1
    → get_strong_quorum (some (length pool)) none ≡ some q
    → get_weak_quorum (some (length pool)) none ≡ some w
    → Distinct xs
    → Distinct ys
    → All (λ x. contains pool x ≡ true) xs
    → All (λ y. contains pool y ≡ true) ys
    → q ≤ length xs
    → q ≤ length ys
    → w ≤ length (shared xs ys pool)
strong_quorums_overlap pool xs ys q w h m hq hw dx dy hx hy lx ly = omega (
  arith,
  (strong_quorum_margin (length pool) q w h hq hw).1 m,
  shared_bound xs ys pool dx dy hx hy,
)

-- The protocol instances are as many as a weak quorum has members.
pub get_no_instances-weak : (n : ℕ) → get_weak_quorum (some n) none ≡ some (get_no_instances n)
unfolding get_weak_quorum get_no_instances
get_no_instances-weak n = refl
