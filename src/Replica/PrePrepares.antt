-- ===== src/Replica/PrePrepares.antt =====
-- PRE-PREPAREs: their validation, those that wait for requests or for earlier ones, and the PREPARE
-- that answers them.
use plenum.Common.{
  last?, ℕ, zero, suc, ◌+◌, Bool, true, false, not, ◌&&◌, ◌||◌, String, List, [], ◌∷◌, ◌++◌, Option,
  none, some, if◌then◌else◌, ◌==◌, nat_eq, string_eq, pair_eq, option_eq, length, map, add, keep,
}
use mathlib.Core.List.{reverse}
use plenum.Common.Dict
use plenum.Common.Dict.{Dict, get_or, is_some}
use plenum.Messages.{ReqKey, ThreePhaseKey, PrePrepare, pre_prepare, ThreePhaseMsg}
use plenum.Propagator.{is_finalised}
use plenum.Replica.{
  Replica, NodeApi, M, suspicious_node, out_of_fuel, ppr_frm_non_primary, ppr_to_primary,
  duplicate_ppr_sent, ppr_reject_wrong, ppr_digest_wrong, ppr_state_wrong, ppr_txn_wrong, Suspicion,
  reject_msg, pre_prepare_rcvd, read, modify, pure, raise, ◌>>=◌, ◌>>◌, when, uncons, maybe,
}
use plenum.Replica.Status.{
  is_primary_for_msg, is_msg_from_primary, state_root_hash, txn_root_hash, is_next_pre_prepare,
  non_finalised_reqs, set_last_pre_prepare_seq_no, inc_stat, track_batches,
  can_pp_seq_no_be_in_view,
}
use plenum.Replica.Batch.{BatchLists, no_reqs, process_reqs, batch_digest, revert}
use plenum.Replica.Stash.{enqueue_pre_prepare}
use plenum.Replica.Prepares.{dequeue_prepares, try_prepare}
use plenum.Replica.Commits.{dequeue_commits}

abbrev pub pre_prepare_key : PrePrepare → ThreePhaseKey
pre_prepare_key pp = (pp.view_no, pp.pp_seq_no)

-- `status is True`
abbrev pub is_true : Option Bool → Bool
is_true none = false
is_true (some b) = b

module _ {W : Type 0} (node : NodeApi W) where
  -- What is wrong with a PRE-PREPARE whose requests were processed: the tests of
  -- `validatePrePrepare`, in their order.
  unfoldable pub pre_prepare_fault : PrePrepare → BatchLists → Replica W → Option Suspicion
  unfolding state_root_hash txn_root_hash
  pre_prepare_fault pp b s =
      if not (length b.valid_reqs == pp.discarded)
      then some ppr_reject_wrong
      else if not (batch_digest node (b.valid_reqs ++ b.invalid_reqs) == pp.digest)
      then some ppr_digest_wrong
      else if s.is_master && not (pp.state_root_hash == state_root_hash node pp.ledger_id s)
      then some ppr_state_wrong
      else if s.is_master && not (pp.txn_root_hash == txn_root_hash node pp.ledger_id s)
      then some ppr_txn_wrong
      else none

  unfoldable pub validate_pre_prepare : PrePrepare → String → M W Unit
  unfolding pre_prepare_fault
  validate_pre_prepare pp sender = do
    start ← read
    let old_state_root = state_root_hash node pp.ledger_id start
    b ← process_reqs node pp.req_idr no_reqs
    s ← read
    maybe
        (when s.is_master
          (modify (λ s'. record s' { out_box = s'.out_box ++ map reject_msg b.rejects })))
        (λ code. do
          when s.is_master (modify (revert node pp.ledger_id old_state_root (length b.valid_reqs)))
          raise (suspicious_node sender code (pre_prepare pp)))
        (pre_prepare_fault pp b s)

  -- `canProcessPrePrepare`
  unfoldable pub can_process_pre_prepare : PrePrepare → String → M W Bool
  unfolding validate_pre_prepare
  can_process_pre_prepare pp sender = do
    s ← read
    when (not (is_msg_from_primary sender s))
        (raise (suspicious_node sender ppr_frm_non_primary (pre_prepare pp)))
    status ← is_primary_for_msg pp.view_no
    when (is_true status) (raise (suspicious_node sender ppr_to_primary (pre_prepare pp)))
    when (Dict.has_key (pre_prepare_key pp) s.pre_prepares)
        (raise (suspicious_node sender duplicate_ppr_sent (pre_prepare pp)))
    let missing = non_finalised_reqs pp.req_idr s
    let late = not (is_next_pre_prepare pp.pp_seq_no s)
    if not s.is_participating
        then pure true
        else if is_some (last? missing) || late
        then (do modify (enqueue_pre_prepare pp sender missing); pure false)
        else (do validate_pre_prepare pp sender; pure true)

module _ {W : Type 0} (node : NodeApi W) (again : ThreePhaseMsg → String → M W Unit)
    (fuel : ℕ) where
  unfoldable pub add_to_pre_prepares : PrePrepare → M W Unit
  add_to_pre_prepares pp = do
    let key = pre_prepare_key pp
    modify (λ s. record s { pre_prepares = Dict.sorted_set (λ k. k.1) key pp s.pre_prepares })
    modify (set_last_pre_prepare_seq_no pp.pp_seq_no)
    dequeue_prepares node again fuel key
    dequeue_commits node again fuel key
    modify (inc_stat pre_prepare_rcvd)
    try_prepare node again pp

  -- the end of `processPrePrepare`
  unfoldable pub settle_pre_prepare : PrePrepare → Option String → M W Unit
  settle_pre_prepare pp old_state_root = do
    s ← read
    if not s.is_participating
        then modify (λ s'. record s' {
          stashing_while_catching_up = add (pre_prepare_key pp) s'.stashing_while_catching_up;
        })
        else (do
          when s.is_master (
              modify (λ s'. record s' {
                world =
                    node.on_batch_created pp.ledger_id (state_root_hash node pp.ledger_id s')
                      s'.world;
              }))
          modify (track_batches pp old_state_root))

  unfoldable pub process_pre_prepare : PrePrepare → String → M W Unit
  unfolding add_to_pre_prepares settle_pre_prepare
  process_pre_prepare pp sender = do
    s ← read
    valid ← can_process_pre_prepare node pp sender
    when valid
        (do add_to_pre_prepares pp; settle_pre_prepare pp (state_root_hash node pp.ledger_id s))

  -- the first loop of `dequeuePrePrepares`: the requests that are still missing
  unfoldable pub still_pending :
      Replica W → PrePrepare × String × List ReqKey → PrePrepare × String × List ReqKey
  still_pending s (pp, sender, req_ids) =
      (pp, sender, keep (λ k. not (is_finalised k s.requests)) req_ids)

  -- a PRE-PREPARE none of whose requests is missing
  unfoldable pub is_ready : PrePrepare × String × List ReqKey → Bool
  is_ready (pp, sender, []) = true
  is_ready (pp, sender, k ∷ ks) = false

  unfoldable pub queue_ready :
      List (PrePrepare × String × List ReqKey)
      → Dict ThreePhaseKey (PrePrepare × String)
      → Dict ThreePhaseKey (PrePrepare × String)
  queue_ready [] d = d
  queue_ready ((pp, sender, _) ∷ rest) d =
      queue_ready rest (Dict.sorted_set (λ k. k.1) (pre_prepare_key pp) (pp, sender) d)

  -- the first half of `dequeuePrePrepares`: the ready ones move, the last of them first
  unfoldable pub release_pending : Replica W → Replica W
  unfolding still_pending is_ready queue_ready
  release_pending s =
      let pending = map (still_pending s) s.pre_prepares_pending_fin_reqs in
      record s {
        pre_prepares_pending_fin_reqs = keep (λ item. not (is_ready item)) pending;
        pre_prepares_pending_prev_pp =
            queue_ready (reverse (keep is_ready pending)) s.pre_prepares_pending_prev_pp;
      }

  -- the `while` loop of `dequeuePrePrepares`, on fuel: each round takes one PRE-PREPARE
  unfoldable pub drain_pre_prepares : ℕ → ℕ → M W ℕ
  unfolding process_pre_prepare
  drain_pre_prepares zero r = raise out_of_fuel
  drain_pre_prepares (suc rounds) r = do
    s ← read
    uncons (pure r)
        (λ entry rest. if not (is_next_pre_prepare entry.0.1 s) then pure r else (do
          let (pp, sender) = entry.1
          modify (λ s'. record s' { pre_prepares_pending_prev_pp = rest })
          fits ← can_pp_seq_no_be_in_view pp.view_no pp.pp_seq_no
          when fits (process_pre_prepare pp sender)
          drain_pre_prepares rounds (if fits then r + 1 else r)))
        s.pre_prepares_pending_prev_pp

  unfoldable pub dequeue_pre_prepares : M W ℕ
  unfolding release_pending drain_pre_prepares
  dequeue_pre_prepares = do modify release_pending; drain_pre_prepares fuel 0
