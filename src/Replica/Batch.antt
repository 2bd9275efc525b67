-- ===== src/Replica/Batch.antt =====
-- Batches of requests: their validation, their creation by the primary, and their reversal.
use Prim.Native.String.{◌++◌ as join}
use plenum.Common.{
  ℕ, zero, suc, ◌+◌, Bool, not, ◌&&◌, ◌||◌, String, List, [], ◌∷◌, ◌++◌, Option, none, some, leb,
  ltb, if◌then◌else◌, ◌==◌, add, length, map, nat_eq, string_eq, pair_eq, option_eq, keep, last?,
}
use mathlib.Core.List.{reverse}
use plenum.Common.Dict
use plenum.Common.Dict.{Dict, get_or, is_some, keys, values}
use plenum.Messages.{ReqKey, Request, request_key, PrePrepare, Reject, ThreePhaseKey, pre_prepare}
use plenum.Votes.{has_enough_votes, three_phase}
use plenum.Replica.{
  Replica, NodeApi, M, key_error, attribute_error, reject_msg, three_phase_msg, pre_prepare_sent,
  read, modify, pure, need, ◌>>=◌, ◌>>◌, when, for_each, uncons, maybe,
}
use plenum.Replica.Status.{
  state_root_hash, txn_root_hash, set_last_pre_prepare_seq_no, send, track_batches,
}

-- The lists that `processReqDuringBatch` appends to.
pub record BatchLists : Type 0 where
  pub valid_reqs : List Request
  pub invalid_reqs : List Request
  pub rejects : List Reject

abbrev pub no_reqs : BatchLists
no_reqs = record { valid_reqs = []; invalid_reqs = []; rejects = [] }

unfoldable pub accept : Request → BatchLists → BatchLists
accept req b = record b { valid_reqs = b.valid_reqs ++ req ∷ [] }

unfoldable pub refuse : Request → String → BatchLists → BatchLists
refuse req reason b = record b {
  invalid_reqs = b.invalid_reqs ++ req ∷ [];
  rejects =
      b.rejects
      ++ record { identifier = req.identifier; req_id = req.req_id; reason = reason } ∷ [];
}

-- `l[:-1]`
unfoldable pub but_last {ℓ} : {A : Type ℓ} → List A → List A
but_last [] = []
but_last (x ∷ []) = []
but_last (x ∷ y ∷ rest) = x ∷ but_last (y ∷ rest)

module _ {W : Type 0} (node : NodeApi W) where
  -- `batchDigest`
  unfoldable pub batch_digest : List Request → String
  batch_digest reqs = node.sha256 (concat reqs)
    where
      concat : List Request → String
      concat [] = ""
      concat (r ∷ rs) = join r.digest (concat rs)

  -- `processReqDuringBatch`, on the world and the lists
  unfoldable pub process_req_during_batch : Bool → Request → W → BatchLists → W × BatchLists
  unfolding accept refuse
  process_req_during_batch is_master req w b =
      if is_master
      then elim (node.do_dynamic_validation req w) [
        | some reason ↦ (w, refuse req reason b)
        | none ↦
            let (w', failure) = node.apply_req req w in
            elim failure [ some reason ↦ (w', refuse req reason b) | none ↦ (w', accept req b) ]
      ]
      else (w, accept req b)

  -- `self.requests[key].finalised`, which is used as a request
  unfoldable pub finalised_request : ReqKey → M W Request
  finalised_request key = do
    s ← read
    state ← need key_error (Dict.get key s.requests)
    need attribute_error state.finalised

  unfoldable pub process_req : ReqKey → BatchLists → M W BatchLists
  unfolding finalised_request process_req_during_batch
  process_req key b = do
    req ← finalised_request key
    s ← read
    let result = process_req_during_batch s.is_master req s.world b
    modify (λ s'. record s' { world = result.0 })
    pure result.1

  -- the loop of `validatePrePrepare` over the keys of a PRE-PREPARE
  unfoldable pub process_reqs : List ReqKey → BatchLists → M W BatchLists
  unfolding process_req
  process_reqs [] b = pure b
  process_reqs (key ∷ keys) b = do b' ← process_req key b; process_reqs keys b'

  unfoldable pub revert : ℕ → Option String → ℕ → Replica W → Replica W
  revert ledger_id state_root_hash req_count s = record s {
    world = node.on_batch_rejected ledger_id (
        node.discard_txns ledger_id req_count
          (node.revert_to_head ledger_id state_root_hash s.world));
  }

  -- the `while` loop of `create3PCBatch`: at most as many rounds as a batch may have requests
  unfoldable pub fill_batch : ℕ → ℕ → BatchLists → M W BatchLists
  unfolding process_req
  fill_batch ledger_id zero b = pure b
  fill_batch ledger_id (suc room) b = do
    s ← read
    queue ← need key_error (Dict.get ledger_id s.request_queues)
    uncons (pure b)
        (λ key rest. do
          modify (λ s'. record s' { request_queues = Dict.set ledger_id rest s'.request_queues })
          b' ← process_req key b
          fill_batch ledger_id room b')
        queue

  -- `create3PCBatch` at the time `tm` of day
  unfoldable pub create_3pc_batch : ℕ → ℕ → M W PrePrepare
  unfolding fill_batch batch_digest
  create_3pc_batch tm ledger_id = do
    start ← read
    let pp_seq_no = start.last_pre_prepare_seq_no + 1
    b ← fill_batch ledger_id start.config.max_3pc_batch_size no_reqs
    s ← read
    let reqs = b.valid_reqs ++ b.invalid_reqs
    let pp : PrePrepare = record {
      inst_id = s.inst_id;
      view_no = s.view_no;
      pp_seq_no = pp_seq_no;
      pp_time = tm;
      req_idr = map request_key reqs;
      discarded = length b.valid_reqs;
      digest = batch_digest reqs;
      ledger_id = ledger_id;
      state_root_hash = state_root_hash node ledger_id s;
      txn_root_hash = txn_root_hash node ledger_id s;
    }
    modify (set_last_pre_prepare_seq_no pp_seq_no)
    when s.is_master (
        modify (λ s'. record s' {
          out_box = s'.out_box ++ map reject_msg b.rejects;
          world = node.on_batch_created ledger_id (state_root_hash node ledger_id s') s'.world;
        }))
    pure pp

  unfoldable pub send_pre_prepare : PrePrepare → M W Unit
  send_pre_prepare pp = do
    modify (λ s. record s {
      sent_pre_prepares =
          Dict.sorted_set (λ k. k.1) (pp.view_no, pp.pp_seq_no) pp s.sent_pre_prepares;
    })
    send (three_phase_msg (pre_prepare pp)) pre_prepare_sent

  -- one round of `send3PCBatch`: a batch is due if the queue is long enough, or if it is not empty
  -- and the last batch is old enough
  unfoldable pub batch_is_due : ℕ → List ReqKey → Replica W → Bool
  batch_is_due now queue s =
      leb s.config.max_3pc_batch_size (length queue)
      || ltb (s.last_batch_created + s.config.max_3pc_batch_wait) now && ltb 0 (length queue)

  unfoldable pub send_batch : ℕ → ℕ → M W Unit
  unfolding create_3pc_batch send_pre_prepare
  send_batch tm ledger_id = do
    s ← read
    let old_state_root_hash = state_root_hash node ledger_id s
    pp ← create_3pc_batch tm ledger_id
    send_pre_prepare pp
    modify (track_batches pp old_state_root_hash)

  unfoldable pub send_batches : ℕ → ℕ → List ℕ → ℕ → M W ℕ
  unfolding batch_is_due send_batch
  send_batches tm now [] r = pure r
  send_batches tm now (ledger_id ∷ ledger_ids) r = do
    s ← read
    queue ← need key_error (Dict.get ledger_id s.request_queues)
    due ← (if batch_is_due now queue s then (do send_batch tm ledger_id; pure 1) else pure 0)
    send_batches tm now ledger_ids (r + due)

  -- `send3PCBatch`, with one reading of each clock: `tm` of day, and `now` of the counter
  unfoldable pub send_3pc_batch : ℕ → ℕ → M W ℕ
  unfolding send_batches
  send_3pc_batch tm now = do
    s ← read
    r ← send_batches tm now (keys s.request_queues) 0
    when (ltb 0 r) (modify (λ s'. record s' { last_batch_created = now }))
    pure r

  -- `readyFor3PC`
  unfoldable pub ready_for_3pc : ReqKey → M W Unit
  unfolding finalised_request
  ready_for_3pc key = do
    req ← finalised_request key
    s ← read
    let ledger_id = node.ledger_id_for_request req
    queue ← need key_error (Dict.get ledger_id s.request_queues)
    modify
        (λ s'. record s' { request_queues = Dict.set ledger_id (add key queue) s'.request_queues })

  -- the batches that `removeObsoletePpReqs` takes back: sent in the view, with too few PREPAREs
  unfoldable pub obsolete_keys : ℕ → Replica W → List ThreePhaseKey
  obsolete_keys view_no s =
      map (λ pp. (pp.view_no, pp.pp_seq_no))
        (keep
          (λ pp.
            pp.view_no == view_no
            && not (has_enough_votes three_phase (pp.view_no, pp.pp_seq_no) s.f s.prepares))
          (values s.sent_pre_prepares))

  unfoldable pub remove_obsolete : ThreePhaseKey → M W Unit
  unfolding revert
  remove_obsolete key = do
    s ← read
    pp ← need key_error (Dict.get key s.sent_pre_prepares)
    (count, _, prev_state_root) ← need key_error (Dict.get key.1 s.batches)
    modify (λ s'. record s' { batches = Dict.del key.1 s'.batches })
    modify (revert pp.ledger_id prev_state_root count)
    modify (λ s'. record s' {
      sent_pre_prepares = Dict.del key s'.sent_pre_prepares;
      prepares = Dict.del key s'.prepares;
    })

  -- `removeObsoletePpReqs`: the keys stand in the order of their sequence numbers, and are taken
  -- from the highest
  unfoldable pub remove_obsolete_pp_reqs : M W Unit
  unfolding obsolete_keys remove_obsolete
  remove_obsolete_pp_reqs = do
    s ← read
    maybe (pure tt)
        (λ (last_view_no, name).
          when (name == some s.name)
            (for_each (reverse (obsolete_keys last_view_no s)) remove_obsolete))
        (last? (but_last s.primary_names))
