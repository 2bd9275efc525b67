-- ===== src/Catchup/Serving.antt =====
-- What a node sends to those that catch up: consistency proofs and transactions.
use plenum.Common.{
  ℕ, not, String, [], ◌∷◌, Option, none, some, ltb, if◌then◌else◌, ◌==◌, nat_eq, min, map,
}
use plenum.Common.Program.{Program, type_error, value_error, read, pure, need, ◌>>=◌, when}
use plenum.Ledger
use plenum.Catchup.{
  LedgerStatus, ConsistencyProof, CatchupReq, ConsProofRequest, LedgerManager, Api,
  consistency_proof, catchup_rep,
}
use plenum.Catchup.State.{get_ledger_info_by_type, get_ledger_for_msg, send_to}

module _ {W L T X : Type 0} (api : Api W L T X) where
  -- `_buildConsistencyProof`: none if the numbers do not fit the ledger
  unfoldable pub build_consistency_proof :
      ℕ → ℕ → ℕ → Program (LedgerManager W L T X) (Option ConsistencyProof)
  unfolding get_ledger_info_by_type Ledger.committed_size
  build_consistency_proof ledger_id start end = do
    info ← get_ledger_info_by_type ledger_id
    m ← read
    let size = Ledger.committed_size api.base info.ledger
    let tree = api.base.tree info.ledger.base
    if ltb size start
        then pure none
        else if ltb size end
        then pure none
        else if ltb end start
        then pure none
        else (do
          (old_root, hashes) ←
              if start == 0
              then pure (api.base.root_hash tree, api.base.root_hash tree ∷ [])
              else (do
                proof ← need value_error (api.consistency_proof start end tree)
                pure (api.merkle_tree_hash start tree, proof))
          pp_seq_no ← need type_error (api.pp_seq_no_for_txn_seq_no ledger_id end m.world)
          pure (
              some (record {
                ledger_id = ledger_id;
                seq_no_start = start;
                seq_no_end = end;
                pp_seq_no = pp_seq_no;
                old_merkle_root = old_root;
                new_merkle_root = api.merkle_tree_hash end tree;
                hashes = hashes;
              })))

  -- `getConsistencyProof`
  unfoldable pub get_consistency_proof :
      LedgerStatus → Program (LedgerManager W L T X) (Option ConsistencyProof)
  unfolding get_ledger_for_msg build_consistency_proof Ledger.committed_size
  get_consistency_proof status = do
    ledger ← get_ledger_for_msg status.ledger_id
    build_consistency_proof status.ledger_id status.txn_seq_no
        (Ledger.committed_size api.base ledger)

  -- a proof is sent if there is one
  unfoldable pub send_proof :
      Option ConsistencyProof → String → Program (LedgerManager W L T X) Unit
  unfolding send_to
  send_proof none frm = pure tt
  send_proof (some proof) frm = send_to (consistency_proof proof) frm

  -- `processConsistencyProofReq`
  unfoldable pub process_consistency_proof_req :
      ConsProofRequest → String → Program (LedgerManager W L T X) Unit
  unfolding build_consistency_proof send_proof
  process_consistency_proof_req req frm = do
    m ← read
    when m.owned_by_node (do
      proof ← build_consistency_proof req.ledger_id req.seq_no_start req.seq_no_end
      send_proof proof frm)

  -- `processCatchupReq`
  unfoldable pub process_catchup_req : CatchupReq → String → Program (LedgerManager W L T X) Unit
  unfolding get_ledger_for_msg send_to Ledger.committed_size
  process_catchup_req req frm = do
    m ← read
    when m.owned_by_node (do
      ledger ← get_ledger_for_msg req.ledger_id
      let size = Ledger.committed_size api.base ledger
      let end = min req.seq_no_end size
      when (not (ltb req.seq_no_end req.seq_no_start)) (
          when (not (ltb size req.seq_no_start)) (do
            proof ←
                need value_error
                  (api.consistency_proof end req.catchup_till (api.base.tree ledger.base))
            let txns =
                map (λ e. (e.0, api.update_txn_with_extra_data e.1 m.world))
                  (api.get_all_txn req.seq_no_start end ledger.base)
            send_to
                (catchup_rep
                  (record { ledger_id = req.ledger_id; txns = txns; cons_proof = proof }))
                frm)))
