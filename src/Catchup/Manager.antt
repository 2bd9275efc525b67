-- ===== src/Catchup/Manager.antt =====
-- The handler of consistency proofs, and the start of a catch-up.
use plenum.Common.{
  ℕ, zero, suc, ◌+◌, ◌-◌, ◌*◌, Bool, true, false, not, ◌&&◌, String, List, [], ◌∷◌, ◌++◌, Option,
  none, some, length, ltb, if◌then◌else◌, ◌==◌, nat_eq, string_eq,
}
use plenum.Common.Dict
use plenum.Common.Dict.{Dict, is_some}
use plenum.Common.Program.{
  Program, zero_division_error, out_of_fuel, read, modify, pure, raise, need, ◌>>=◌, ◌>>◌, when,
  for_each,
}
use plenum.Quorum.{get_max_failures}
use plenum.Ledger
use plenum.Catchup.{
  ConsistencyProof, CatchupReq, not_synced, syncing, synced, LedgerManager, Api, catchup_req,
  to_node, Scheduled, cps_check, txns_check, domain_ledger_id,
}
use plenum.Catchup.Ranges.{get_catchup_reqs}
use plenum.Catchup.Proofs.{
  Range, ProofKey, group_consistency_proofs, latest_reliable_proof, check_ledger_is_out_of_sync,
}
use plenum.Catchup.State.{
  get_ledger_info_by_type, update_info, set_ledger_state, send_msg, catchup_completed,
}

-- The proof of a range and the rest of it.
unfoldable pub proof_of : ℕ → Range × ProofKey → ConsistencyProof
proof_of ledger_id ((start, end), (pp_seq_no, (old_root, (new_root, hashes)))) = record {
  ledger_id = ledger_id;
  seq_no_start = start;
  seq_no_end = end;
  pp_seq_no = pp_seq_no;
  old_merkle_root = old_root;
  new_merkle_root = new_root;
  hashes = hashes;
}

-- Requests and nodes in pairs, as far as both go.
unfoldable pub zip : List CatchupReq → List String → List (CatchupReq × String)
zip [] nodes = []
zip reqs [] = []
zip (req ∷ reqs) (node ∷ nodes) = (req, node) ∷ zip reqs nodes

-- Requests and nodes in pairs, the nodes in turns.
unfoldable pub deal : List CatchupReq → List String → List String → List (CatchupReq × String)
deal [] nodes all = []
deal (req ∷ reqs) (node ∷ nodes) all = (req, node) ∷ deal reqs nodes all
deal (req ∷ reqs) [] [] = []
deal (req ∷ reqs) [] (node ∷ all) = (req, node) ∷ deal reqs all (node ∷ all)

-- What `canStartCatchUpProcess` decides: whether a catch-up can start, and its proof, where none
-- stands for a ledger that is in a good state.
unfoldable pub start_decision :
    ℕ → ℕ → ℕ → Dict String (Option ConsistencyProof) → Bool × Option ConsistencyProof
unfolding get_max_failures group_consistency_proofs latest_reliable_proof proof_of
start_decision total_nodes ledger_id size proofs =
    let f = get_max_failures (total_nodes - 1) in
    let (grouped, nulls) = group_consistency_proofs proofs in
    if not (ltb (2 * f) (length proofs))
    then (false, none)
    else if ltb f nulls
    then (true, none)
    else elim (latest_reliable_proof total_nodes grouped size)
        as (λ _. Bool × Option ConsistencyProof) [
          | none ↦ (false, none)
          | some entry ↦ (true, some (proof_of ledger_id entry))
        ]

-- the size of a request
unfoldable pub batch_size_of : CatchupReq → ℕ
batch_size_of req = req.seq_no_end + 1 - req.seq_no_start

module _ {W L T X : Type 0} where
  unfoldable pub send_reqs : List (CatchupReq × String) → Program (LedgerManager W L T X) Unit
  unfolding send_msg
  send_reqs reqs = for_each reqs (λ r. send_msg (catchup_req r.0) (to_node r.1))

  unfoldable pub schedule : Scheduled → Program (LedgerManager W L T X) Unit
  schedule action = modify (λ m. record m { scheduled = m.scheduled ++ action ∷ [] })

  -- `canStartCatchUpProcess`
  unfoldable pub can_start_catch_up_process :
      (api : Api W L T X) → ℕ → Program (LedgerManager W L T X) (Bool × Option ConsistencyProof)
  unfolding get_ledger_info_by_type update_info schedule get_max_failures start_decision
      Ledger.committed_size
  can_start_catch_up_process api ledger_id = do
    m ← read
    info ← get_ledger_info_by_type ledger_id
    let proofs = info.recvd_consistency_proofs
    when (length proofs == get_max_failures (m.total_nodes - 1) + 1) (do
      update_info ledger_id (λ i. record i { consistency_proofs_timer = true })
      schedule (cps_check ledger_id))
    pure
        (start_decision m.total_nodes ledger_id (Ledger.committed_size api.base info.ledger) proofs)

  -- the end of `startCatchUpProcess`: a timer for the replies, if there are requests
  unfoldable pub await_replies : ℕ → List CatchupReq → Program (LedgerManager W L T X) Unit
  unfolding update_info schedule batch_size_of
  await_replies ledger_id [] = pure tt
  await_replies ledger_id (req ∷ reqs) = do
    update_info ledger_id (λ i. record i { catchup_reply_timer = true })
    schedule (txns_check ledger_id (length (req ∷ reqs)) (batch_size_of req))

  -- `startCatchUpProcess`
  unfoldable pub start_catch_up_process :
      Api W L T X → ℕ → Option ConsistencyProof → Program (LedgerManager W L T X) Unit
  unfolding get_ledger_info_by_type update_info catchup_completed get_catchup_reqs zip send_reqs
      await_replies
  start_catch_up_process api ledger_id proof = do
    m ← read
    when (Dict.has_key ledger_id m.ledger_registry)
        (elim proof as (λ _. Program (LedgerManager W L T X) Unit) [
          | none ↦ catchup_completed api ledger_id none
          | some p ↦ (do
            update_info ledger_id (λ i. record i {
              state = syncing;
              consistency_proofs_timer = false;
              recvd_consistency_proofs = [];
            })
            reqs ← need zero_division_error (get_catchup_reqs (length m.conns) p)
            send_reqs (zip reqs m.conns)
            update_info ledger_id (λ i. record i { catch_up_till = some p })
            await_replies ledger_id reqs)
        ])

  -- `canProcessConsistencyProof`, on fuel: the callback may bring the state back to synced
  unfoldable pub can_process_consistency_proof :
      ℕ → Api W L T X → ConsistencyProof → Program (LedgerManager W L T X) Bool
  unfolding get_ledger_info_by_type set_ledger_state check_ledger_is_out_of_sync
      Ledger.committed_size
  can_process_consistency_proof zero api proof = raise out_of_fuel
  can_process_consistency_proof (suc fuel) api proof = do
    m ← read
    info ← get_ledger_info_by_type proof.ledger_id
    let size = Ledger.committed_size api.base info.ledger
    if not info.can_sync
        then pure false
        else elim info.state as (λ _. Program (LedgerManager W L T X) Bool) [
          | syncing ↦ pure false
          | synced ↦
              if check_ledger_is_out_of_sync m.total_nodes info.recvd_consistency_proofs
              then (do
                set_ledger_state proof.ledger_id not_synced
                when (proof.ledger_id == domain_ledger_id)
                    (modify (api.pre_catchup_start proof.ledger_id))
                can_process_consistency_proof fuel api proof)
              else pure false
          | not_synced ↦
              pure (not (ltb size proof.seq_no_start) && ltb proof.seq_no_start proof.seq_no_end)
        ]

  -- `processConsistencyProof`
  unfoldable pub process_consistency_proof :
      Api W L T X → ConsistencyProof → String → Program (LedgerManager W L T X) Unit
  unfolding get_ledger_info_by_type update_info can_process_consistency_proof
      can_start_catch_up_process start_catch_up_process
  process_consistency_proof api proof frm = do
    info ← get_ledger_info_by_type proof.ledger_id
    update_info proof.ledger_id (λ i. record i {
      recvd_consistency_proofs = Dict.set frm (some proof) i.recvd_consistency_proofs;
    })
    can_process ← can_process_consistency_proof 2 api proof
    when can_process (do
      (can_catch_up, from) ← can_start_catch_up_process api proof.ledger_id
      when can_catch_up (start_catch_up_process api proof.ledger_id from))
