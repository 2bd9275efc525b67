-- ===== src/Catchup/Applying.antt =====
-- The loop over the merged replies ends, and says how many of them it is done with.
use plenum.Common.{
  ℕ, zero, suc, ◌+◌, ◌-◌, ◌≤◌, ◌<◌, ◌≡◌, refl, sym, ap, ◌∙◌, Bool, true, String, List, [], ◌∷◌,
  some, length, take, drop, keep, map, ◌==◌, nat_eq, string_eq, arith, inl, inr, Bool-cases,
  Option-cases, List-cases,
}
use plenum.Common.Dict
use plenum.Common.Dict.{Dict, is_some}
use plenum.Common.Program.{Program, key_error, attribute_error, type_error, index_error}
use plenum.Common.Program.Safety.{
  Ends, Anything, Ends-pure, Ends-read, Ends-modify, Ends-need, Ends-bind, Ends-for_each,
}
use plenum.Ledger
use plenum.Catchup.{LedgerManager, LedgerInfo, CatchupRep, Api}
use plenum.Catchup.State.{get_ledger_info_by_type, update_info}
use plenum.Catchup.Replies.{
  count_up_to, reply_with, get_catchup_reply_for_seq_no, batch_of, transform,
  has_valid_catchup_replies, remove_prcd_catchup_reply, add_txn, blacklist_node,
  process_catchup_replies, first_number, refuse_batch, add_batch, extend,
}

module _ {A : Type 0} where
  length-drop : (n : ℕ) (xs : List A) → length (drop n xs) ≡ length xs - n
  length-drop zero xs = omega arith
  length-drop (suc n) [] = omega arith
  length-drop (suc n) (x ∷ xs) = omega (arith, length-drop n xs)

  length-take_le : (n : ℕ) (xs : List A) → length (take n xs) ≤ length xs
  length-take_le zero xs = omega arith
  length-take_le (suc n) [] = omega arith
  length-take_le (suc n) (x ∷ xs) = omega (arith, length-take_le n xs)

  length-keep_le : (p : A → Bool) (xs : List A) → length (keep p xs) ≤ length xs
  length-keep_le p [] = omega arith
  length-keep_le p (x ∷ xs) = ground (arith, length-keep_le p xs)

  length-map : {B : Type 0} (g : A → B) (xs : List A) → length (map g xs) ≡ length xs
  length-map g [] = refl
  length-map g (x ∷ xs) = ap suc (length-map g xs)

module _ {X : Type 0} where
  count_up_to_le : (size : ℕ) (xs : List (ℕ × X)) → count_up_to size xs ≤ length xs
  unfolding count_up_to
  count_up_to_le size [] = omega arith
  count_up_to_le size ((s, txn) ∷ xs) = ground (arith, count_up_to_le size xs)

  reply_with-has_key :
      (seq_no : String) (reps : List (CatchupRep String X)) {rep : CatchupRep String X}
      → reply_with seq_no reps ≡ some rep
      → Dict.has_key seq_no rep.txns ≡ true
  unfolding reply_with
  reply_with-has_key seq_no [] e = absurd (cc)
  reply_with-has_key seq_no (r ∷ reps) {rep} e = elim (Bool-cases (Dict.has_key seq_no r.txns)) [
    | inl here ↦
        let p : r ≡ rep = some_path (rw here at e) in
        ap (λ q. Dict.has_key seq_no q.txns) (sym p) ∙ here
    | inr not_here ↦ reply_with-has_key seq_no reps (rw not_here at e)
  ]
    where
      some_path : {x y : CatchupRep String X} → some x ≡ some y → x ≡ y
      some_path p = cc

  found-has_key :
      (seq_no : String) (frm : Dict String (List (CatchupRep String X)))
      (found : String × CatchupRep String X)
      → get_catchup_reply_for_seq_no seq_no frm ≡ some found
      → Dict.has_key seq_no found.1.txns ≡ true
  unfolding get_catchup_reply_for_seq_no
  found-has_key seq_no [] found e = absurd (cc)
  found-has_key seq_no ((node, reps) ∷ rest) found e =
      elim (Option-cases (reply_with seq_no reps)) [
        | inl none_here ↦
            found-has_key seq_no rest found (rw (none_here, get_catchup_reply_for_seq_no) at e)
        | inr (rep, here) ↦
            let p : (node, rep) ≡ found =
              some_path (rw (here, get_catchup_reply_for_seq_no) at e) in
            ap (λ q. Dict.has_key seq_no q.1.txns) (sym p) ∙ reply_with-has_key seq_no reps here
      ]
    where
      some_path : {x y : String × CatchupRep String X} → some x ≡ some y → x ≡ y
      some_path p = cc

module _ {W L T X : Type 0} (api : Api W L T X) where
  -- A batch that is verified has the transaction that it is looked up by, and is from the replies.
  batch_of-length :
      (m : LedgerManager W L T X) (rep : CatchupRep String X) (seq_no : ℕ) (txn : X)
      (rest : List (ℕ × X))
      → Dict.has_key (api.str seq_no) rep.txns ≡ true
      → (0 < length (batch_of api m rep ((seq_no, txn) ∷ rest)))
        × (length (batch_of api m rep ((seq_no, txn) ∷ rest)) ≤ length ((seq_no, txn) ∷ rest))
  unfolding batch_of Dict.has_key
  batch_of-length m rep seq_no txn rest h = batch_length rep.txns h
    where
      batch_length :
          (txns : Dict String X)
          → Dict.has_key (api.str seq_no) txns ≡ true
          → (0
              < length (
                  map
                    (λ e. transform api m e.1)
                    (keep
                      (λ e. Dict.has_key (api.str e.0) txns)
                      (take (length txns) ((seq_no, txn) ∷ rest)))))
            × (length (
                  map
                    (λ e. transform api m e.1)
                    (keep
                      (λ e. Dict.has_key (api.str e.0) txns)
                      (take (length txns) ((seq_no, txn) ∷ rest))))
                ≤ length ((seq_no, txn) ∷ rest))
      batch_length [] k = absurd (ground arith)
      batch_length (t ∷ txns) k =
          let kept = keep (λ e. Dict.has_key (api.str e.0) (t ∷ txns)) (take (length txns) rest) in
          rw k (
            omega arith,
            omega (
              arith,
              length-map (λ e. transform api m e.1) kept,
              length-keep_le (λ e. Dict.has_key (api.str e.0) (t ∷ txns)) (take (length txns) rest),
              length-take_le (length txns) rest,
            ),
          )

  Ends-info :
      (ledger_id : ℕ)
      → Ends Anything (get_ledger_info_by_type {W = W} {L = L} {T = T} {X = X} ledger_id)
  unfolding get_ledger_info_by_type
  Ends-info ledger_id =
      Ends-bind Ends-read (λ m _. Ends-need Anything key_error _ (λ p. cc) (λ _ _. tt))

  update_info-Ends :
      (ledger_id : ℕ) (change : LedgerInfo L T X → LedgerInfo L T X)
      → Ends {S = LedgerManager W L T X} Anything (update_info ledger_id change)
  unfolding update_info
  update_info-Ends ledger_id change = Ends-modify _

  add_txn-Ends : (ledger_id : ℕ) (e : ℕ × X) → Ends Anything (add_txn api ledger_id e)
  unfolding add_txn
  add_txn-Ends ledger_id (s, txn) = Ends-bind (Ends-info ledger_id) λ info _.
      Ends-bind Ends-read λ m _. Ends-bind (update_info-Ends ledger_id _) λ _ _. Ends-modify _

  remove_prcd_catchup_reply-Ends :
      (ledger_id : ℕ) (node : String) (seq_no : ℕ)
      → Ends Anything (remove_prcd_catchup_reply api ledger_id node seq_no)
  unfolding remove_prcd_catchup_reply
  remove_prcd_catchup_reply-Ends ledger_id node seq_no = Ends-bind (Ends-info ledger_id) λ info _.
      Ends-bind (Ends-need Anything key_error _ (λ p. cc) (λ _ _. tt)) λ reps _.
        Ends-bind (Ends-need Anything index_error _ (λ p. cc) (λ _ _. tt))
          λ left _. update_info-Ends ledger_id _

  has_valid_catchup_replies-Ends :
      (ledger_id seq_no : ℕ) (txn : X) (rest : List (ℕ × X))
      → Ends
          (λ r. (0 < r.1.1) × (r.1.1 ≤ length ((seq_no, txn) ∷ rest)))
          (has_valid_catchup_replies api ledger_id seq_no ((seq_no, txn) ∷ rest))
  unfolding has_valid_catchup_replies
  has_valid_catchup_replies-Ends ledger_id seq_no txn rest =
      Ends-bind (Ends-info ledger_id) λ info _.
        Ends-bind
          (Ends-need (λ found. Dict.has_key (api.str seq_no) found.1.txns ≡ true) type_error _
            (λ p. cc) (found-has_key (api.str seq_no) info.recvd_catchup_replies_frm))
          λ found here. Ends-bind Ends-read λ m _.
            Ends-bind (Ends-need Anything attribute_error _ (λ p. cc) (λ _ _. tt))
              λ cp _. Ends-pure _ _ (batch_of-length m found.1 seq_no txn rest here)

  refuse_batch-Ends :
      (ledger_id seq_no done batch bound : ℕ) (node : String)
      → done + batch ≤ bound
      → Ends (λ n. n ≤ bound) (refuse_batch api ledger_id node seq_no done batch)
  unfolding refuse_batch blacklist_node
  refuse_batch-Ends ledger_id seq_no done batch bound node h = Ends-bind Ends-read λ m _.
      elim (Bool-cases m.owned_by_node) [
        | inl owned ↦ rw owned (
            Ends-bind (Ends-modify _) λ _ _.
              Ends-bind (remove_prcd_catchup_reply-Ends ledger_id node seq_no)
                λ _ _. Ends-pure _ (done + batch) h)
        | inr client ↦ rw client (Ends-pure _ done (omega arith))
      ]

  module _ (again : List (ℕ × X) → Program (LedgerManager W L T X) ℕ) (ledger_id : ℕ) where
    add_batch-Ends :
        (done batch bound : ℕ) (node : String) (replies : List (ℕ × X))
        → Ends (λ n. n ≤ length replies - batch) (again (drop batch replies))
        → batch ≤ length replies
        → done + length replies ≤ bound
        → Ends (λ n. n ≤ bound) (add_batch api again ledger_id node done batch replies)
    unfolding add_batch
    add_batch-Ends done batch bound node replies h few room =
        Ends-bind (Ends-for_each _ _ (add_txn-Ends ledger_id)) λ _ _.
          Ends-bind (remove_prcd_catchup_reply-Ends ledger_id node (first_number replies)) λ _ _.
            Ends-bind h λ more le. Ends-pure _ (done + batch + more) (omega (arith, le, few, room))

    extend-Ends :
        (done bound seq_no : ℕ) (txn : X) (rest : List (ℕ × X))
        → ((batch : ℕ)
            → 0 < batch
            → Ends
                (λ n. n ≤ length ((seq_no, txn) ∷ rest) - batch)
                (again (drop batch ((seq_no, txn) ∷ rest))))
        → done + length ((seq_no, txn) ∷ rest) ≤ bound
        → Ends (λ n. n ≤ bound) (extend api again ledger_id done ((seq_no, txn) ∷ rest))
    unfolding extend first_number
    extend-Ends done bound seq_no txn rest h room =
        Ends-bind (has_valid_catchup_replies-Ends ledger_id seq_no txn rest) λ r b.
          elim (Bool-cases r.0) [
            | inl valid ↦ rw valid (
                add_batch-Ends done r.1.1 bound r.1.0 ((seq_no, txn) ∷ rest) (h r.1.1 b.0) b.1 room)
            | inr invalid ↦ rw invalid (
                refuse_batch-Ends ledger_id seq_no done r.1.1 bound r.1.0
                  (omega (arith, b.1, room)))
          ]

  -- With more fuel than replies the loop never runs out of fuel, whatever the state, the callbacks
  -- and the replies; and the number that it returns is no more than that of the replies.
  pub process_catchup_replies-Ends :
      (fuel ledger_id : ℕ) (replies : List (ℕ × X))
      → length replies < fuel
      → Ends (λ done. done ≤ length replies) (process_catchup_replies api fuel ledger_id replies)
  unfolding process_catchup_replies
  process_catchup_replies-Ends zero ledger_id replies h = absurd (omega arith)
  process_catchup_replies-Ends (suc fuel) ledger_id replies h =
      Ends-bind (Ends-info ledger_id) λ info _.
        let size = Ledger.committed_size api.base info.ledger in
        let few = count_up_to_le size replies in
        let left = length-drop (count_up_to size replies) replies in
        elim (List-cases (drop (count_up_to size replies) replies)) [
          | inl empty ↦ rw empty (Ends-pure _ (count_up_to size replies) few)
          | inr ((seq_no, txn), rest, e) ↦
              let room : count_up_to size replies + length ((seq_no, txn) ∷ rest) ≡ length replies =
                omega (arith, few, left, ap length e) in
              elim (Bool-cases (seq_no == api.seq_no info.ledger.base + 1)) [
                | inr gap ↦ rw (e, gap) (Ends-pure _ (count_up_to size replies) few)
                | inl next ↦
                    rw (e, next)
                      (extend-Ends (process_catchup_replies api fuel ledger_id) ledger_id
                        (count_up_to size replies) (length replies) seq_no txn rest
                        (λ batch some_taken.
                          let size' = length-drop batch ((seq_no, txn) ∷ rest) in
                          rw size' at (
                            process_catchup_replies-Ends fuel ledger_id
                              (drop batch ((seq_no, txn) ∷ rest))
                              (omega (arith, some_taken, size', room))))
                        (omega (arith, room)))
              ]
        ]
