-- ===== src/Ledger.antt =====
-- plenum/common/ledger.py: the ledger with transactions that are applied to its Merkle tree but not
-- committed. The ledger it extends, its tree and the serialisation of leaves are the `ledger`
-- package: parameters, over the types of its ledgers, trees and transactions.
pub mod Tracking
pub mod Sample
mod Tests
use plenum.Common.{
  ℕ, ◌+◌, ◌-◌, ◌≡◌, Bool, true, false, String, List, [], ◌∷◌, ◌++◌, Option, none, some, length,
  take, drop, if◌then◌else◌, nat_beq,
}

pub record Base (L T X : Type 0) : Type 0 where
  pub size : L → ℕ
  pub tree : L → T
  pub append : X → L → L
  -- `tree.append(self.serializeLeaf(txn))` on a copy of the tree
  pub grow : X → T → T
  pub root_hash : T → String
  -- the truth value of a tree
  pub is_truthy : T → Bool

-- `base` is the ledger that is extended.
pub record Ledger (L T X : Type 0) : Type 0 where
  pub base : L
  pub uncommitted_txns : List X
  pub uncommitted_root_hash : Option String
  pub uncommitted_tree : Option T

module _ {L T X : Type 0} (b : Base L T X) where
  unfoldable pub committed_size : Ledger L T X → ℕ
  committed_size l = b.size l.base

  unfoldable pub uncommitted_size : Ledger L T X → ℕ
  unfolding committed_size
  uncommitted_size l = committed_size l + length l.uncommitted_txns

  unfoldable pub grow_all : List X → T → T
  grow_all [] t = t
  grow_all (x ∷ txns) t = grow_all txns (b.grow x t)

  -- `currentTree or self.tree`
  unfoldable pub current_tree : Option T → Ledger L T X → T
  current_tree none l = b.tree l.base
  current_tree (some t) l = if b.is_truthy t then t else b.tree l.base

  unfoldable pub tree_with_applied_txns : List X → Option T → Ledger L T X → T
  unfolding grow_all current_tree
  tree_with_applied_txns txns current l = grow_all txns (current_tree current l)

  unfoldable pub append_txns : List X → Ledger L T X → ((ℕ × ℕ) × List X) × Ledger L T X
  unfolding uncommitted_size tree_with_applied_txns
  append_txns txns l =
      let before = uncommitted_size l in
      let t = tree_with_applied_txns txns l.uncommitted_tree l in
      let range = elim txns as (λ _. ℕ × ℕ) [
        | [] ↦ (before, before)
        | _ ∷ _ ↦ (before + 1, before + length txns)
      ] in
      (
        (range, txns),
        record l {
          uncommitted_tree = some t;
          uncommitted_root_hash = some (b.root_hash t);
          uncommitted_txns = l.uncommitted_txns ++ txns;
        },
      )

  unfoldable pub append_all : List X → L → L
  append_all [] l = l
  append_all (x ∷ txns) l = append_all txns (b.append x l)

  -- `appendCommittedTxns`
  unfoldable pub append_committed_txns : List X → Ledger L T X → Ledger L T X
  unfolding append_all
  append_committed_txns txns l = record l { base = append_all txns l.base }

  -- the uncommitted transactions that a commit leaves
  unfoldable pub leave : List X → Ledger L T X → Ledger L T X
  leave [] l = record l {
    uncommitted_txns = [];
    uncommitted_tree = none;
    uncommitted_root_hash = none;
  }
  leave (x ∷ rest) l = record l { uncommitted_txns = x ∷ rest }

  unfoldable pub commit_txns : ℕ → Ledger L T X → ((ℕ × ℕ) × List X) × Ledger L T X
  unfolding committed_size append_all leave
  commit_txns count l =
      let before = committed_size l in
      let committed = take count l.uncommitted_txns in
      let l' = record l { base = append_all committed l.base } in
      ((((before + 1, before + count)), committed), leave (drop count l.uncommitted_txns) l')

  -- `xs[:-count]`, which is empty for a count of zero
  unfoldable pub drop_last : ℕ → List X → List X
  drop_last count xs = if nat_beq count 0 then [] else take (length xs - count) xs

  -- the uncommitted transactions are these, and their tree is made anew
  unfoldable pub reset : List X → Ledger L T X → Ledger L T X
  unfolding tree_with_applied_txns
  reset [] l = record l {
    uncommitted_txns = [];
    uncommitted_tree = none;
    uncommitted_root_hash = none;
  }
  reset (x ∷ rest) l =
      let t = tree_with_applied_txns (x ∷ rest) none l in
      record l {
        uncommitted_txns = x ∷ rest;
        uncommitted_tree = some t;
        uncommitted_root_hash = some (b.root_hash t);
      }

  unfoldable pub discard_last_txns : ℕ → Ledger L T X → Ledger L T X
  unfolding reset drop_last
  discard_last_txns count l = reset (drop_last count l.uncommitted_txns) l
