-- ===== src/Ledger/Tracking.antt =====
-- The uncommitted tree is the tree of the committed ledger with the uncommitted transactions.
use plenum.Common.{
  ℕ, zero, suc, ◌+◌, ◌-◌, min, ◌≡◌, ◌⊎◌, ◌≢◌, inl, inr, refl, ap, sym, ◌∙◌, true, false, List, [],
  ◌∷◌, ◌++◌, none, some, length, take, drop, if◌then◌else◌, nat_beq, arith, length-append,
}
use plenum.Ledger.{
  Base, Ledger, committed_size, uncommitted_size, grow_all, current_tree, tree_with_applied_txns,
  append_txns, append_all, commit_txns, drop_last, discard_last_txns, leave, reset,
}

-- A call of the ledger by the code around it.
pub data Call (X : Type 0) : Type 0 where
  append : List X → Call X
  commit discard : ℕ → Call X

-- What the ledger package documents: appending adds one transaction to the size and a leaf to the
-- tree, and a tree with a leaf is true.
pub record Laws {L T X : Type 0} (b : Base L T X) : Type 0 where
  pub size-append : (x : X) (l : L) → b.size (b.append x l) ≡ b.size l + 1
  pub tree-append : (x : X) (l : L) → b.tree (b.append x l) ≡ b.grow x (b.tree l)
  pub truthy-grow : (x : X) (t : T) → b.is_truthy (b.grow x t) ≡ true

module _ {X : Type 0} where
  pub take-drop : (n : ℕ) (xs : List X) → take n xs ++ drop n xs ≡ xs
  take-drop zero xs = refl
  take-drop (suc n) [] = refl
  take-drop (suc n) (x ∷ xs) = ap (λ ys. x ∷ ys) (take-drop n xs)

  pub take-append : (xs ys : List X) → take (length xs) (xs ++ ys) ≡ xs
  take-append [] ys = refl
  take-append (x ∷ xs) ys = ap (λ zs. x ∷ zs) (take-append xs ys)

module _ {L T X : Type 0} (b : Base L T X) where
  -- the ledger after a list of calls
  unfoldable pub run : List (Call X) → Ledger L T X → Ledger L T X
  unfolding append_txns commit_txns discard_last_txns
  run [] l = l
  run (append txns ∷ calls) l = run calls (append_txns b txns l).1
  run (commit count ∷ calls) l = run calls (commit_txns b count l).1
  run (discard count ∷ calls) l = run calls (discard_last_txns b count l)

  -- Either nothing is uncommitted and no tree is kept, or the tree that is kept is that of all the
  -- uncommitted transactions, and the root hash is its.
  pub record IsTracked (l : Ledger L T X) : Type 0 where
    pub kept :
        ((l.uncommitted_txns ≡ []) × (l.uncommitted_tree ≡ none) × (l.uncommitted_root_hash ≡ none))
        ⊎ ((l.uncommitted_tree ≡ some (grow_all b l.uncommitted_txns (b.tree l.base)))
            × (l.uncommitted_root_hash
                ≡ some (b.root_hash (grow_all b l.uncommitted_txns (b.tree l.base)))))

module _ {L T X : Type 0} (b : Base L T X) (laws : Laws b) where
  grow_all-append :
      (xs ys : List X) (t : T) → grow_all b (xs ++ ys) t ≡ grow_all b ys (grow_all b xs t)
  unfolding grow_all
  grow_all-append [] ys t = refl
  grow_all-append (x ∷ xs) ys t = grow_all-append xs ys (b.grow x t)

  truthy-grow_all : (x : X) (xs : List X) (t : T) → b.is_truthy (grow_all b (x ∷ xs) t) ≡ true
  unfolding grow_all
  truthy-grow_all x [] t = laws.truthy-grow x t
  truthy-grow_all x (y ∷ xs) t = truthy-grow_all y xs (b.grow x t)

  tree-append_all : (xs : List X) (l : L) → b.tree (append_all b xs l) ≡ grow_all b xs (b.tree l)
  unfolding append_all grow_all
  tree-append_all [] l = refl
  tree-append_all (x ∷ xs) l =
      tree-append_all xs (b.append x l) ∙ ap (grow_all b xs) (laws.tree-append x l)

  -- The tree that the next transactions are applied to.
  current_tree-tracked :
      (l : Ledger L T X)
      → IsTracked b l
      → current_tree b l.uncommitted_tree l ≡ grow_all b l.uncommitted_txns (b.tree l.base)
  unfolding current_tree grow_all
  current_tree-tracked l h = elim h.kept [
    | inl (empty, none_kept, _) ↦ rw (empty, none_kept) refl
    | inr (tree, _) ↦ rw tree (whichever l.uncommitted_txns)
  ]
    where
      whichever :
          (xs : List X)
          → (if b.is_truthy (grow_all b xs (b.tree l.base))
              then grow_all b xs (b.tree l.base)
              else b.tree l.base)
            ≡ grow_all b xs (b.tree l.base)
      whichever [] = ground arith
      whichever (x ∷ xs) = rw (truthy-grow_all x xs (b.tree l.base)) refl

  append_txns-IsTracked :
      (txns : List X) (l : Ledger L T X) → IsTracked b l → IsTracked b (append_txns b txns l).1
  unfolding append_txns tree_with_applied_txns
  append_txns-IsTracked txns l h =
      let grown : grow_all b txns (current_tree b l.uncommitted_tree l)
          ≡ grow_all b (l.uncommitted_txns ++ txns) (b.tree l.base) =
        ap (grow_all b txns) (current_tree-tracked l h)
        ∙ sym (grow_all-append l.uncommitted_txns txns (b.tree l.base)) in
      record { kept = inr (ap some grown, ap (λ t. some (b.root_hash t)) grown) }

  -- Committing moves leaves from the uncommitted transactions into the tree of the ledger.
  grow_all-commit :
      (n : ℕ) (xs : List X) (base : L)
      → grow_all b xs (b.tree base)
        ≡ grow_all b (drop n xs) (b.tree (append_all b (take n xs) base))
  grow_all-commit n xs base =
      ap (λ ys. grow_all b ys (b.tree base)) (sym (take-drop n xs))
      ∙ grow_all-append (take n xs) (drop n xs) (b.tree base)
      ∙ ap (grow_all b (drop n xs)) (sym (tree-append_all (take n xs) base))

  leave-IsTracked :
      (rest : List X) (l : Ledger L T X)
      → (rest ≢ [] → IsTracked b (record l { uncommitted_txns = rest }))
      → IsTracked b (leave b rest l)
  unfolding leave
  leave-IsTracked [] l h = record { kept = inl (refl, refl, refl) }
  leave-IsTracked (x ∷ rest) l h = h (λ p. cc)

  drop_empty : (n : ℕ) → drop {A = X} n [] ≡ []
  drop_empty zero = refl
  drop_empty (suc n) = refl

  commit_txns-IsTracked :
      (count : ℕ) (l : Ledger L T X) → IsTracked b l → IsTracked b (commit_txns b count l).1
  unfolding commit_txns
  commit_txns-IsTracked count l h =
      let grown = grow_all-commit count l.uncommitted_txns l.base in
      leave-IsTracked (drop count l.uncommitted_txns) _ (λ some_left. elim h.kept [
        | inl (none_left, _, _) ↦ absurd (some_left (ap (drop count) none_left ∙ drop_empty count))
        | inr (tree, root) ↦ record {
          kept = inr (tree ∙ ap some grown, root ∙ ap (λ t. some (b.root_hash t)) grown);
        }
      ])

  reset-IsTracked : (rest : List X) (l : Ledger L T X) → IsTracked b (reset b rest l)
  unfolding reset tree_with_applied_txns current_tree
  reset-IsTracked [] l = record { kept = inl (refl, refl, refl) }
  reset-IsTracked (x ∷ rest) l = record { kept = inr (refl, refl) }

  discard_last_txns-IsTracked :
      (count : ℕ) (l : Ledger L T X) → IsTracked b (discard_last_txns b count l)
  unfolding discard_last_txns
  discard_last_txns-IsTracked count l = reset-IsTracked (drop_last b count l.uncommitted_txns) l

  Ledger-path :
      (l m : Ledger L T X)
      → l.base ≡ m.base
      → l.uncommitted_txns ≡ m.uncommitted_txns
      → l.uncommitted_root_hash ≡ m.uncommitted_root_hash
      → l.uncommitted_tree ≡ m.uncommitted_tree
      → l ≡ m
  Ledger-path l m p q r t = λ i. record {
    base = p i;
    uncommitted_txns = q i;
    uncommitted_root_hash = r i;
    uncommitted_tree = t i;
  }

  -- The ledger is what `reset` makes of it with its own uncommitted transactions.
  reset-same :
      (xs : List X) (l m : Ledger L T X)
      → IsTracked b m
      → (xs ≡ [] → m.uncommitted_tree ≡ none)
      → m.uncommitted_txns ≡ xs
      → l.base ≡ m.base
      → reset b xs l ≡ m
  unfolding reset tree_with_applied_txns current_tree grow_all
  reset-same [] l m h fresh e same = elim h.kept [
    | inl (_, tree, root) ↦ Ledger-path _ m same (sym e) (sym root) (sym tree)
    | inr (tree, root) ↦ absurd (let none_kept = fresh refl in cc)
  ]
  reset-same (x ∷ xs) l m h fresh e same = elim h.kept [
    | inl (empty, _, _) ↦ absurd (cc)
    | inr (tree, root) ↦
        let t : grow_all b (x ∷ xs) (b.tree l.base)
            ≡ grow_all b m.uncommitted_txns (b.tree m.base) =
          cc in
        Ledger-path _ m same (sym e) (ap (λ u. some (b.root_hash u)) t ∙ sym root)
          (ap some t ∙ sym tree)
  ]

  drop_last-append :
      (xs : List X) (x : X) (txns : List X) → drop_last b (length (x ∷ txns)) (xs ++ x ∷ txns) ≡ xs
  unfolding drop_last
  drop_last-append xs x txns =
      let n : length (xs ++ x ∷ txns) - length (x ∷ txns) ≡ length xs =
        omega (arith, length-append xs (x ∷ txns)) in
      let some_count : nat_beq (length (x ∷ txns)) 0 ≡ false = ground arith in
      rw (some_count, n) (take-append xs (x ∷ txns))

  -- Discarding as many transactions as were appended last leaves the ledger as it was before.
  pub discard_last_txns-append_txns :
      (x : X) (txns : List X) (l : Ledger L T X)
      → IsTracked b l
      → (l.uncommitted_txns ≡ [] → l.uncommitted_tree ≡ none)
      → discard_last_txns b (length (x ∷ txns)) (append_txns b (x ∷ txns) l).1 ≡ l
  unfolding append_txns discard_last_txns
  discard_last_txns-append_txns x txns l h fresh =
      rw (drop_last-append l.uncommitted_txns x txns)
        (reset-same l.uncommitted_txns _ l h fresh refl refl)

  -- However transactions were applied, committed and discarded: the uncommitted tree and root hash
  -- are those of the committed ledger with all the uncommitted transactions, or nothing is
  -- uncommitted and neither is kept.
  pub run-IsTracked :
      (calls : List (Call X)) (l : Ledger L T X) → IsTracked b l → IsTracked b (run b calls l)
  unfolding run
  run-IsTracked [] l h = h
  run-IsTracked (append txns ∷ calls) l h = run-IsTracked calls _ (append_txns-IsTracked txns l h)
  run-IsTracked (commit count ∷ calls) l h = run-IsTracked calls _ (commit_txns-IsTracked count l h)
  run-IsTracked (discard count ∷ calls) l h =
      run-IsTracked calls _ (discard_last_txns-IsTracked count l)

  size-append_all : (xs : List X) (l : L) → b.size (append_all b xs l) ≡ b.size l + length xs
  unfolding append_all
  size-append_all [] l = omega arith
  size-append_all (x ∷ xs) l =
      omega (arith, size-append_all xs (b.append x l), laws.size-append x l)

  leave-sizes :
      (rest : List X) (l : Ledger L T X)
      → (committed_size b (leave b rest l) ≡ b.size l.base)
        × (uncommitted_size b (leave b rest l) ≡ b.size l.base + length rest)
  unfolding leave committed_size uncommitted_size
  leave-sizes [] l = (refl, refl)
  leave-sizes (x ∷ rest) l = (refl, refl)

  length-take : (n : ℕ) (xs : List X) → length (take n xs) ≡ min n (length xs)
  length-take zero xs = ground arith
  length-take (suc n) [] = ground arith
  length-take (suc n) (x ∷ xs) = ground (arith, length-take n xs)

  -- A commit moves the smaller of the count and the number of uncommitted transactions into the
  -- committed part, and the size that counts the uncommitted ones stays.
  pub commit_txns-sizes :
      (count : ℕ) (l : Ledger L T X)
      → (committed_size b (commit_txns b count l).1
          ≡ committed_size b l + min count (length l.uncommitted_txns))
        × (uncommitted_size b (commit_txns b count l).1 ≡ uncommitted_size b l)
  unfolding commit_txns committed_size uncommitted_size
  commit_txns-sizes count l =
      let xs = l.uncommitted_txns in
      let (s, u) =
        leave-sizes (drop count xs) (record l { base = append_all b (take count xs) l.base }) in
      let whole : length (take count xs) + length (drop count xs) ≡ length xs =
        sym (length-append (take count xs) (drop count xs)) ∙ ap length (take-drop count xs) in
      (
        omega (arith, s, size-append_all (take count xs) l.base, length-take count xs),
        omega (arith, u, size-append_all (take count xs) l.base, whole),
      )
