-- ===== src/Ledger/Tests.antt =====
-- The theorems on the ledger at two and three transactions.
use plenum.Common.{ℕ, ◌+◌, ◌≡◌, refl, inl, List, [], ◌∷◌, none, some, min}
use plenum.Ledger.{
  Ledger, committed_size, uncommitted_size, append_txns, discard_last_txns, commit_txns,
}
use plenum.Ledger.Sample.{list_base, list_base-Laws}
use plenum.Ledger.Tracking.{
  IsTracked, append, commit, discard, run, run-IsTracked, discard_last_txns-append_txns,
  commit_txns-sizes,
}

abbrev two_committed : Ledger (List ℕ) (List ℕ) ℕ
two_committed = record {
  base = 7 ∷ 8 ∷ [];
  uncommitted_txns = [];
  uncommitted_root_hash = none;
  uncommitted_tree = none;
}

two_committed-IsTracked : IsTracked list_base two_committed
two_committed-IsTracked = record { kept = inl (refl, refl, refl) }

run-IsTracked_example :
    IsTracked list_base
      (run list_base (append (1 ∷ 2 ∷ 3 ∷ []) ∷ commit 1 ∷ discard 1 ∷ []) two_committed)
run-IsTracked_example =
    run-IsTracked list_base list_base-Laws (append (1 ∷ 2 ∷ 3 ∷ []) ∷ commit 1 ∷ discard 1 ∷ [])
      two_committed two_committed-IsTracked

discard_last_txns-append_txns_example :
    discard_last_txns list_base 2 (append_txns list_base (1 ∷ 2 ∷ []) two_committed).1
    ≡ two_committed
discard_last_txns-append_txns_example =
    discard_last_txns-append_txns list_base list_base-Laws 1 (2 ∷ []) two_committed
      two_committed-IsTracked (λ _. refl)

abbrev two_more : Ledger (List ℕ) (List ℕ) ℕ
two_more = record two_committed {
  uncommitted_txns = 1 ∷ 2 ∷ [];
  uncommitted_root_hash = some "out of order";
  uncommitted_tree = some (7 ∷ 8 ∷ 1 ∷ 2 ∷ []);
}

commit_txns-sizes_example :
    (committed_size list_base (commit_txns list_base 1 two_more).1
      ≡ committed_size list_base two_more + min 1 2)
    × (uncommitted_size list_base (commit_txns list_base 1 two_more).1
        ≡ uncommitted_size list_base two_more)
commit_txns-sizes_example = commit_txns-sizes list_base list_base-Laws 1 two_more

-- Discarding no transactions discards them all.
discard_none : discard_last_txns list_base 0 two_more ≡ two_committed
unfolding discard_last_txns
discard_none = refl

partly_committed :
    run list_base (append (1 ∷ 2 ∷ 3 ∷ []) ∷ commit 1 ∷ discard 1 ∷ []) two_committed ≡ record {
      base = 7 ∷ 8 ∷ 1 ∷ [];
      uncommitted_txns = 2 ∷ [];
      uncommitted_root_hash = some "out of order";
      uncommitted_tree = some (7 ∷ 8 ∷ 1 ∷ 2 ∷ []);
    }
unfolding run
partly_committed = refl
