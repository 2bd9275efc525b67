-- ===== src/Catchup/Replies.antt =====
-- Catch-up replies: which are taken, how they are merged, verified and added to the ledger.
use plenum.Common.{
  ℕ, zero, suc, ◌+◌, Bool, true, false, not, ◌&&◌, ◌||◌, String, List, [], ◌∷◌, ◌++◌, Option, none,
  some, length, take, drop, keep, map, ltb, leb, if◌then◌else◌, ◌==◌, nat_eq, string_eq, last?, add,
}
use mathlib.Core.Option
use plenum.Common.Dict
use plenum.Common.Dict.{Dict, get_or}
use plenum.Common.Int.{ℤ, pos, negsuc, ltb_ℤ, distance_ℤ}
use plenum.Common.Program.{
  Program, key_error, attribute_error, type_error, value_error, index_error, out_of_fuel, read,
  modify, pure, raise, need, ◌>>=◌, ◌>>◌, when, for_each,
}
use plenum.Ledger
use plenum.Ledger.{Ledger, tree_with_applied_txns}
use plenum.Catchup.{CatchupRep, LedgerInfo, LedgerManager, Api}
use plenum.Catchup.State.{is_syncing, get_ledger_info_by_type, update_info, catchup_completed}

module _ {X : Type 0} where
  -- `int(s)` for each text, none where one is no number
  unfoldable pub read_numbers : (String → Option ℤ) → Dict String X → Option (List (ℤ × X))
  read_numbers int [] = some []
  read_numbers int ((s, txn) ∷ txns) =
      let rest = read_numbers int txns in
      elim (int s) as (λ _. Option (List (ℤ × X))) [
        | none ↦ none
        | some n ↦ Option.map (λ others. (n, txn) ∷ others) rest
      ]

  -- `sorted` by number: of equal numbers, the earlier one goes first
  unfoldable pub insert_number : ℤ × X → List (ℤ × X) → List (ℤ × X)
  insert_number a [] = a ∷ []
  insert_number a (b ∷ bs) = if ltb_ℤ b.0 a.0 then b ∷ insert_number a bs else a ∷ b ∷ bs

  unfoldable pub sorted_numbers : List (ℤ × X) → List (ℤ × X)
  unfolding insert_number
  sorted_numbers [] = []
  sorted_numbers (a ∷ rest) = insert_number a (sorted_numbers rest)

  unfoldable pub any_above : ℕ → List (ℤ × X) → Bool
  any_above size [] = false
  any_above size ((s, txn) ∷ txns) = ltb_ℤ (pos size) s || any_above size txns

  -- the number of the first, and of the last of sorted ones
  unfoldable pub no_gaps_or_dups : List (ℤ × X) → Bool
  no_gaps_or_dups [] = true
  no_gaps_or_dups ((s, txn) ∷ txns) = elim (last? ((s, txn) ∷ txns)) [
    | none ↦ true
    | some (t, _) ↦ length ((s, txn) ∷ txns) == distance_ℤ s t + 1
  ]

  -- Zero for a number below it. `_processCatchupReplies` counts both as done at once, before it looks
  -- up a text, and they stand in front of all others.
  unfoldable pub clamp : ℤ × X → ℕ × X
  clamp (pos n, txn) = (n, txn)
  clamp (negsuc n, txn) = (0, txn)

  -- the sorted transactions of a reply, if they are accepted
  unfoldable pub accepted_txns : ℕ → List (ℤ × X) → List (ℕ × X)
  unfolding any_above no_gaps_or_dups clamp
  accepted_txns size txns =
      if any_above size txns && no_gaps_or_dups txns then map clamp txns else []

  -- Those below `s` at the front of a list, and the others.
  unfoldable pub split_below : ℕ → List (ℕ × X) → List (ℕ × X) × List (ℕ × X)
  split_below s [] = ([], [])
  split_below s ((t, txn) ∷ txns) =
      let (front, others) = split_below s txns in
      if ltb t s then ((t, txn) ∷ front, others) else ([], (t, txn) ∷ txns)

  -- `heapq.merge` of two sorted lists: of equal numbers, those of the first list go first
  unfoldable pub merge : List (ℕ × X) → List (ℕ × X) → List (ℕ × X)
  unfolding split_below
  merge [] ys = ys
  merge ((s, txn) ∷ xs) ys =
      let (front, others) = split_below s ys in front ++ (s, txn) ∷ merge xs others

  -- `sum(1 for s, _ in catchUpReplies if s <= ledger.size)`
  unfoldable pub count_up_to : ℕ → List (ℕ × X) → ℕ
  count_up_to size [] = 0
  count_up_to size ((s, txn) ∷ txns) = (if leb s size then 1 else 0) + count_up_to size txns

  -- the first reply of a list with the text of a number
  unfoldable pub reply_with : String → List (CatchupRep String X) → Option (CatchupRep String X)
  reply_with seq_no [] = none
  reply_with seq_no (rep ∷ reps) =
      if Dict.has_key seq_no rep.txns then some rep else reply_with seq_no reps

  -- `_getCatchupReplyForSeqNo`
  unfoldable pub get_catchup_reply_for_seq_no :
      String → Dict String (List (CatchupRep String X)) → Option (String × CatchupRep String X)
  unfolding reply_with
  get_catchup_reply_for_seq_no seq_no [] = none
  get_catchup_reply_for_seq_no seq_no ((node, reps) ∷ rest) = elim (reply_with seq_no reps) [
    | some rep ↦ some (node, rep)
    | none ↦ get_catchup_reply_for_seq_no seq_no rest
  ]

  -- The list without its first reply with the text of a number, or without its last reply if none has it. The
  -- list must not be empty.
  unfoldable pub remove_reply :
      String → List (CatchupRep String X) → Option (List (CatchupRep String X))
  remove_reply seq_no [] = none
  remove_reply seq_no (rep ∷ []) = some []
  remove_reply seq_no (rep ∷ next ∷ reps) =
      if Dict.has_key seq_no rep.txns
      then some (next ∷ reps)
      else elim (remove_reply seq_no (next ∷ reps)) [ none ↦ none | some left ↦ some (rep ∷ left) ]

-- the number of the first of the replies, of which there are some
unfoldable pub first_number : {X : Type 0} → List (ℕ × X) → ℕ
first_number [] = 0
first_number ((s, txn) ∷ replies) = s

module _ {W L T X : Type 0} (api : Api W L T X) where
  -- `_transform`
  unfoldable pub transform : LedgerManager W L T X → X → X
  transform m txn = if m.owned_by_node then api.transform_txn_for_ledger txn m.world else txn

  -- `canProcessCatchupReply`: the sorted transactions, or none of them
  unfoldable pub can_process_catchup_reply :
      CatchupRep String X → Program (LedgerManager W L T X) (List (ℕ × X))
  unfolding get_ledger_info_by_type read_numbers sorted_numbers accepted_txns Ledger.committed_size
  can_process_catchup_reply rep = do
    info ← get_ledger_info_by_type rep.ledger_id
    if is_syncing info.state
        then (do
          txns ← need value_error (read_numbers api.int rep.txns)
          pure (accepted_txns (Ledger.committed_size api.base info.ledger) (sorted_numbers txns)))
        else pure []

  -- the transactions that are verified with a reply
  unfoldable pub batch_of : LedgerManager W L T X → CatchupRep String X → List (ℕ × X) → List X
  unfolding transform
  batch_of m rep replies =
      map (λ e. transform m e.1)
        (keep (λ e. Dict.has_key (api.str e.0) rep.txns) (take (length rep.txns) replies))

  -- `hasValidCatchupReplies`
  unfoldable pub has_valid_catchup_replies :
      ℕ → ℕ → List (ℕ × X) → Program (LedgerManager W L T X) (Bool × (String × ℕ))
  unfolding get_ledger_info_by_type get_catchup_reply_for_seq_no batch_of tree_with_applied_txns
  has_valid_catchup_replies ledger_id seq_no replies = do
    info ← get_ledger_info_by_type ledger_id
    (node, rep) ←
        need type_error
          (get_catchup_reply_for_seq_no (api.str seq_no) info.recvd_catchup_replies_frm)
    m ← read
    let txns = batch_of m rep replies
    let tree = tree_with_applied_txns api.base txns none info.ledger
    cp ← need attribute_error info.catch_up_till
    pure (
      api.verify_tree_consistency (api.tree_size tree) cp.seq_no_end (api.base.root_hash tree)
          cp.new_merkle_root rep.cons_proof,
      (node, length txns),
    )

  -- `_removePrcdCatchupReply`
  unfoldable pub remove_prcd_catchup_reply : ℕ → String → ℕ → Program (LedgerManager W L T X) Unit
  unfolding get_ledger_info_by_type update_info remove_reply
  remove_prcd_catchup_reply ledger_id node seq_no = do
    info ← get_ledger_info_by_type ledger_id
    reps ← need key_error (Dict.get node info.recvd_catchup_replies_frm)
    left ← need index_error (remove_reply (api.str seq_no) reps)
    update_info ledger_id (λ i. record i {
      recvd_catchup_replies_frm = Dict.set node left i.recvd_catchup_replies_frm;
    })

  -- one transaction is added to the ledger
  unfoldable pub add_txn : ℕ → ℕ × X → Program (LedgerManager W L T X) Unit
  unfolding get_ledger_info_by_type update_info transform
  add_txn ledger_id (_, txn) = do
    info ← get_ledger_info_by_type ledger_id
    m ← read
    let (base, seq_no) = api.add (transform m txn) info.ledger.base
    update_info ledger_id (λ i. record i { ledger = record i.ledger { base = base } })
    modify (api.post_txn_added ledger_id (api.set_seq_no seq_no txn))

  unfoldable pub blacklist_node : String → Program (LedgerManager W L T X) Unit
  blacklist_node node = modify (λ m. record m { blacklisted = add node m.blacklisted })

  -- a batch that could not be verified: a node blacklists its sender and drops it
  unfoldable pub refuse_batch : ℕ → String → ℕ → ℕ → ℕ → Program (LedgerManager W L T X) ℕ
  unfolding blacklist_node remove_prcd_catchup_reply
  refuse_batch ledger_id node seq_no done batch = do
    m ← read
    if m.owned_by_node
        then (do
          blacklist_node node
          remove_prcd_catchup_reply ledger_id node seq_no
          pure (done + batch))
        else pure done

  -- a batch that was verified: it is added, and `again` goes on with the replies behind it
  unfoldable pub add_batch :
      (List (ℕ × X) → Program (LedgerManager W L T X) ℕ)
      → ℕ
      → String
      → ℕ
      → ℕ
      → List (ℕ × X)
      → Program (LedgerManager W L T X) ℕ
  unfolding add_txn remove_prcd_catchup_reply first_number
  add_batch again ledger_id node done batch replies = do
    for_each (take batch replies) (add_txn ledger_id)
    remove_prcd_catchup_reply ledger_id node (first_number replies)
    more ← again (drop batch replies)
    pure (done + batch + more)

  -- the replies from the next transaction of the ledger on
  unfoldable pub extend :
      (List (ℕ × X) → Program (LedgerManager W L T X) ℕ)
      → ℕ
      → ℕ
      → List (ℕ × X)
      → Program (LedgerManager W L T X) ℕ
  unfolding has_valid_catchup_replies add_batch refuse_batch first_number
  extend again ledger_id done replies = do
    (valid, (node, batch)) ← has_valid_catchup_replies ledger_id (first_number replies) replies
    if valid
        then add_batch again ledger_id node done batch replies
        else refuse_batch ledger_id node (first_number replies) done batch

  -- `_processCatchupReplies`, on fuel: the number of replies that are done with
  unfoldable pub process_catchup_replies : ℕ → ℕ → List (ℕ × X) → Program (LedgerManager W L T X) ℕ
  unfolding get_ledger_info_by_type count_up_to extend Ledger.committed_size
  process_catchup_replies zero ledger_id replies = raise out_of_fuel
  process_catchup_replies (suc fuel) ledger_id replies = do
    info ← get_ledger_info_by_type ledger_id
    let done = count_up_to (Ledger.committed_size api.base info.ledger) replies
    let again = process_catchup_replies fuel ledger_id
    elim (drop done replies) as (λ _. Program (LedgerManager W L T X) ℕ) [
      | [] ↦ pure done
      | first ∷ rest ↦
          if first.0 == api.seq_no info.ledger.base + 1
          then extend again ledger_id done (first ∷ rest)
          else pure done
    ]

  -- the reply is kept under its sender
  unfoldable pub keep_reply : CatchupRep String X → String → LedgerInfo L T X → LedgerInfo L T X
  keep_reply rep frm info = record info {
    recvd_catchup_replies_frm =
        Dict.set frm (get_or (Dict.get frm info.recvd_catchup_replies_frm) [] ++ rep ∷ [])
          info.recvd_catchup_replies_frm;
  }

  -- `processCatchupRep`
  unfoldable pub process_catchup_rep :
      CatchupRep String X → String → Program (LedgerManager W L T X) Unit
  unfolding can_process_catchup_reply get_ledger_info_by_type update_info keep_reply merge
      process_catchup_replies catchup_completed Ledger.committed_size
  process_catchup_rep rep frm = do
    txns ← can_process_catchup_reply rep
    when (not (length txns == 0)) (do
      update_info rep.ledger_id (keep_reply rep frm)
      info ← get_ledger_info_by_type rep.ledger_id
      let replies = merge info.received_catch_up_replies txns
      done ← process_catchup_replies (length replies + 1) rep.ledger_id replies
      update_info rep.ledger_id (λ i. record i { received_catch_up_replies = drop done replies })
      after ← get_ledger_info_by_type rep.ledger_id
      cp ← need attribute_error after.catch_up_till
      when (cp.seq_no_end == Ledger.committed_size api.base after.ledger) (do
        update_info rep.ledger_id (λ i. record i { catch_up_till = none })
        catchup_completed api rep.ledger_id (some cp.pp_seq_no)))
