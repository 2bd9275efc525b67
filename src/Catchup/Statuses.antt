-- ===== src/Catchup/Statuses.antt =====
-- The handler of ledger statuses, the stashed ones, and the two checks that run after a timeout.
use plenum.Common.{
  ℕ, zero, suc, ◌+◌, ◌-◌, ◌*◌, Bool, true, false, not, ◌&&◌, String, List, [], ◌∷◌, ◌++◌, Option,
  none, some, length, keep, ltb, if◌then◌else◌, ◌==◌, nat_eq, string_eq, add, contains,
}
use plenum.Common.Dict
use plenum.Common.Dict.{Dict, is_some}
use plenum.Common.Program.{
  Program, attribute_error, index_error, out_of_fuel, read, pure, raise, need, ◌>>=◌, ◌>>◌, when,
}
use plenum.Quorum.{get_max_failures}
use plenum.Ledger
use plenum.Catchup.{
  LedgerStatus, LedgerInfo, LedgerManager, Api, ledger_status, consistency_proof,
  cons_proof_request, all_nodes, txns_check, pool_ledger_id,
}
use plenum.Catchup.Ranges.{ceil_div, missing_reqs}
use plenum.Catchup.Proofs.{
  group_consistency_proofs, latest_reliable_proof, get_consistency_proof_request,
}
use plenum.Catchup.State.{
  is_synced, get_ledger_info_by_type, update_info, set_ledger_can_sync, send_msg, is_from_client,
  send_to, is_ledger_old, is_ledger_new, is_ledger_same, catchup_completed,
}
use plenum.Catchup.Serving.{get_consistency_proof}
use plenum.Catchup.Manager.{deal, send_reqs, schedule}

-- The list without its last entry, and that entry: `pop` of a deque.
unfoldable pub pop_last : {A : Type 0} → List A → Option (List A × A)
pop_last [] = none
pop_last (x ∷ xs) = elim (pop_last xs) [
  | none ↦ some ([], x)
  | some (front, last) ↦ some (x ∷ front, last)
]

module _ {W L T X : Type 0} where
  -- `stashLedgerStatus`
  unfoldable pub stash_ledger_status :
      ℕ → LedgerStatus → String → Program (LedgerManager W L T X) Unit
  unfolding get_ledger_info_by_type update_info
  stash_ledger_status ledger_id status frm = do
    _ ← get_ledger_info_by_type ledger_id
    update_info ledger_id (λ i. record i {
      stashed_ledger_statuses = i.stashed_ledger_statuses ++ (status, frm) ∷ [];
    })

  -- the status of the own ledger
  unfoldable pub own_status : Api W L T X → ℕ → Program (LedgerManager W L T X) LedgerStatus
  unfolding get_ledger_info_by_type Ledger.committed_size
  own_status api ledger_id = do
    info ← get_ledger_info_by_type ledger_id
    pure (record {
      ledger_id = ledger_id;
      txn_seq_no = Ledger.committed_size api.base info.ledger;
      merkle_root = api.base.root_hash (api.base.tree info.ledger.base);
    })

  -- The status of a node or a client that is at least as far as this ledger is compared with it.
  unfoldable pub settle_status :
      Api W L T X → LedgerStatus → String → Bool → Program (LedgerManager W L T X) Unit
  unfolding get_ledger_info_by_type update_info is_ledger_old set_ledger_can_sync own_status send_to
      catchup_completed
  settle_status api status frm from_client = do
    let ledger_id = status.ledger_id
    old ← is_ledger_old api status
    info ← get_ledger_info_by_type ledger_id
    if old
        then when (is_synced info.state) (do
          set_ledger_can_sync ledger_id true
          own ← own_status api ledger_id
          send_to (ledger_status own) frm)
        else when (not from_client) (do
          update_info ledger_id (λ i. record i {
            recvd_consistency_proofs = Dict.set frm none i.recvd_consistency_proofs;
            ledger_status_ok = add frm i.ledger_status_ok;
          })
          m ← read
          after ← get_ledger_info_by_type ledger_id
          when (length after.ledger_status_ok == 2 * m.f && not (is_synced after.state))
              (catchup_completed api ledger_id none))

  -- a client's status of the pool ledger that is the same as this node's is answered with it
  unfoldable pub answer_client :
      Api W L T X → LedgerStatus → String → Program (LedgerManager W L T X) LedgerStatus
  unfolding is_ledger_same own_status send_to
  answer_client api status frm = do
    same ← is_ledger_same api status
    if same
        then (do own ← own_status api pool_ledger_id; send_to (ledger_status own) frm; pure own)
        else pure status

  -- The rest of `processLedgerStatus`, for a ledger that is synced or can be: a node that is ahead
  -- sends a consistency proof, and returns if there is none.
  unfoldable pub compare_status :
      Api W L T X → LedgerStatus → String → Bool → Program (LedgerManager W L T X) Unit
  unfolding is_ledger_new get_consistency_proof send_to settle_status
  compare_status api status frm from_client = do
    m ← read
    newer ← if m.owned_by_node then is_ledger_new api status else pure false
    if newer
        then (do
          proof ← get_consistency_proof api status
          elim proof as (λ _. Program (LedgerManager W L T X) Unit) [
            | none ↦ pure tt
            | some p ↦ (do
              send_to (consistency_proof p) frm
              settle_status api status frm from_client)
          ])
        else settle_status api status frm from_client

  -- `processLedgerStatus`. Without a status the test of its number fails.
  unfoldable pub process_ledger_status :
      Api W L T X → Option LedgerStatus → String → Program (LedgerManager W L T X) Unit
  unfolding is_from_client answer_client get_ledger_info_by_type stash_ledger_status compare_status
  process_ledger_status api none frm = raise attribute_error
  process_ledger_status api (some status) frm = do
    m ← read
    let from_client = is_from_client frm m
    if m.owned_by_node && from_client && not (status.ledger_id == pool_ledger_id)
        then pure tt
        else (do
          status' ←
              if m.owned_by_node && from_client then answer_client api status frm else pure status
          info ← get_ledger_info_by_type status.ledger_id
          if not (is_synced info.state) && not info.can_sync
              then stash_ledger_status status.ledger_id status frm
              else compare_status api status' frm from_client)

  -- `processStashedLedgerStatuses`, on fuel: a status that is stashed again is taken again
  unfoldable pub process_stashed_ledger_statuses :
      ℕ → Api W L T X → ℕ → ℕ → Program (LedgerManager W L T X) ℕ
  unfolding get_ledger_info_by_type update_info pop_last process_ledger_status
  process_stashed_ledger_statuses zero api ledger_id i = raise out_of_fuel
  process_stashed_ledger_statuses (suc fuel) api ledger_id i = do
    info ← get_ledger_info_by_type ledger_id
    elim (pop_last info.stashed_ledger_statuses) as (λ _. Program (LedgerManager W L T X) ℕ) [
      | none ↦ pure i
      | some (left, (status, frm)) ↦ (do
        update_info ledger_id (λ info'. record info' { stashed_ledger_statuses = left })
        process_ledger_status api (some status) frm
        process_stashed_ledger_statuses fuel api ledger_id (i + 1))
    ]

  -- `checkIfCPsNeeded`
  unfoldable pub check_if_cps_needed : Api W L T X → ℕ → Program (LedgerManager W L T X) Unit
  unfolding get_ledger_info_by_type update_info send_msg get_max_failures group_consistency_proofs
      latest_reliable_proof get_consistency_proof_request Ledger.committed_size
  check_if_cps_needed api ledger_id = do
    m ← read
    info ← get_ledger_info_by_type ledger_id
    let (grouped, nulls) = group_consistency_proofs info.recvd_consistency_proofs
    let size = Ledger.committed_size api.base info.ledger
    when (info.consistency_proofs_timer && not (ltb (get_max_failures (m.total_nodes - 1)) nulls))
        (do
          when (not (is_some (latest_reliable_proof m.total_nodes grouped size))) (do
            req ← need index_error (get_consistency_proof_request ledger_id grouped size)
            send_msg (cons_proof_request req) all_nodes)
          update_info ledger_id (λ i. record i {
            recvd_consistency_proofs = [];
            consistency_proofs_timer = false;
            recvd_catchup_replies_frm = [];
          }))

  -- The end of `checkIfTxnsNeeded`: the requests for `missing` transactions, which is not zero, are
  -- dealt to the nodes.
  unfoldable pub request_missing :
      Api W L T X → ℕ → ℕ → ℕ → LedgerInfo L T X → Program (LedgerManager W L T X) Unit
  unfolding deal send_reqs update_info schedule missing_reqs ceil_div Ledger.committed_size
  request_missing api ledger_id end missing info = do
    m ← read
    let excluded = if m.owned_by_node then m.blacklisted else []
    let eligible = keep (λ n. not (contains excluded n)) m.conns
    let nodes = api.shuffle eligible m.world
    let batch_size = ceil_div missing (length nodes)
    let reqs =
        missing_reqs ledger_id end batch_size info.received_catch_up_replies
          (Ledger.committed_size api.base info.ledger)
    when (not (length nodes == 0)) (do
      send_reqs (deal reqs nodes nodes)
      update_info ledger_id (λ i. record i { catchup_reply_timer = true })
      schedule (txns_check ledger_id (length reqs) batch_size))

  -- `checkIfTxnsNeeded`, as long as no more replies are held than numbers are left: where there are
  -- more, which only repeated numbers bring about, the result is `none`, and what the code does with
  -- a negative batch size is not followed.
  unfoldable pub check_if_txns_needed_now :
      Api W L T X → ℕ → Program (LedgerManager W L T X) (Option Unit)
  unfolding get_ledger_info_by_type update_info request_missing Ledger.committed_size
  check_if_txns_needed_now api ledger_id = do
    m ← read
    info ← need attribute_error (Dict.get ledger_id m.ledger_registry)
    let gone = Ledger.committed_size api.base info.ledger + length info.received_catch_up_replies
    if not info.catchup_reply_timer then pure (some tt) else (do
      cp ← need attribute_error info.catch_up_till
      if cp.seq_no_end == gone
          then (do
            update_info ledger_id (λ i. record i { catchup_reply_timer = false })
            pure (some tt))
          else if ltb cp.seq_no_end gone
          then pure none
          else (do
            request_missing api ledger_id cp.seq_no_end (cp.seq_no_end - gone) info
            pure (some tt)))
