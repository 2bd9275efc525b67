-- ===== src/Replica/Consistency/Reached.antt =====
-- Every state that a replica reaches is consistent.
use plenum.Common.{ℕ, refl, Bool, String, List}
use plenum.Messages.{ReqKey}
use plenum.Replica.{Config, Replica, NodeApi}
use plenum.Replica.Rules.{Keeps, Keeps-modify, Keeps-pure, Keeps-bind, keeps_rules}
use plenum.Replica.Status.{caught_up_till_pp_seq_no}
use plenum.Replica.Batch.{ready_for_3pc}
use plenum.Replica.History.{
  NodeView, new_replica, Event, three_phase_rcvd, checkpoint_rcvd, req_key_rcvd, batch_timer,
  primary_set, primary_elected, stashed_commits_due, pending_pre_prepares_due, caught_up,
  node_changed, serve, serves, Reaches, at_start, and_then,
}
use plenum.Replica.Consistency.{core, IsConsistent, ordered_keys}
use plenum.Replica.Consistency.Frames.{finalised_request-OnCore}
use plenum.Replica.Consistency.Steps.{add_to_ordered-IsConsistent}
use plenum.Replica.Consistency.Batches.{Inv, send_3pc_batch-Inv, process_checkpoint-Inv}
use plenum.Replica.Consistency.Ordering.{process_stashed_out_of_order_commits-Inv}
use plenum.Replica.Consistency.Handlers.{dequeue_pre_prepares-Inv}
use plenum.Replica.Consistency.Dispatching.{
  dispatch_three_phase_msg-Inv, process_three_phase_msg-Inv, set_primary_name-Inv,
  primary_changed-Inv,
}

module _ {W : Type 0} where
  new_replica-IsConsistent :
      (config : Config) (node_name : String) (inst_id : ℕ) (is_master : Bool) (view : NodeView W)
      (ledger_ids : List ℕ) (now : ℕ)
      → Inv (new_replica config node_name inst_id is_master view ledger_ids now)
  unfolding ordered_keys
  new_replica-IsConsistent config node_name inst_id is_master view ledger_ids now = record {
    marks = refl;
    sent_keyed = tt;
    received_keyed = tt;
    prepare_voters = tt;
    commit_voters = tt;
    ordered_distinct = tt;
    ordered_bound = tt;
    announced_once = tt;
    announced_ordered = tt;
  }

  module _ (node : NodeApi W) where
    ready_for_3pc-Inv : (key : ReqKey) → Keeps Inv (ready_for_3pc node key)
    unfolding ready_for_3pc
    ready_for_3pc-Inv key = search (keeps_rules, Keeps-modify, finalised_request-OnCore) depth 9

    caught_up-Inv : (last : ℕ) (s : Replica W) → Inv s → Inv (caught_up_till_pp_seq_no last s)
    unfolding caught_up_till_pp_seq_no
    caught_up-Inv last s h = add_to_ordered-IsConsistent s h (s.view_no, last)

    serve-Inv : (fuel : ℕ) (event : Event W) → Keeps Inv (serve node fuel event)
    unfolding serve
    serve-Inv fuel (three_phase_rcvd msg sender) = process_three_phase_msg-Inv node fuel msg sender
    serve-Inv fuel (checkpoint_rcvd msg sender) =
        process_checkpoint-Inv node _ (dispatch_three_phase_msg-Inv node fuel) msg sender
    serve-Inv fuel (req_key_rcvd key) = ready_for_3pc-Inv key
    serve-Inv fuel (batch_timer tm now) =
        Keeps-bind _ _ (send_3pc_batch-Inv node tm now) (λ _. Keeps-pure tt)
    serve-Inv fuel (primary_set value) = set_primary_name-Inv node fuel value
    serve-Inv fuel (primary_elected name last) = primary_changed-Inv node fuel name last
    serve-Inv fuel stashed_commits_due =
        process_stashed_out_of_order_commits-Inv node _ (dispatch_three_phase_msg-Inv node fuel)
    serve-Inv fuel pending_pre_prepares_due =
        Keeps-bind _ _
          (dequeue_pre_prepares-Inv node _ (dispatch_three_phase_msg-Inv node fuel) fuel)
          (λ _. Keeps-pure tt)
    serve-Inv fuel (caught_up last) = Keeps-modify _ (caught_up-Inv last)
    serve-Inv fuel (node_changed view) = Keeps-modify _ (λ t h. h)

    Reaches-Inv : {start s : Replica W} → Inv start → Reaches node start s → Inv s
    Reaches-Inv h at_start = h
    Reaches-Inv h (and_then before (serves fuel event)) =
        (serve-Inv fuel event).at _ (Reaches-Inv h before)

  -- A replica is consistent in every state that it reaches from its initial state by serving
  -- events of its node, however each call ends: its high water mark stands the size of the log
  -- above the low one; every PRE-PREPARE stands under its own key; no sender is counted twice among
  -- the votes for a key; a key is ordered once, and not above the last ordered sequence number; no
  -- key is announced in two Ordered messages; and a key that is announced was ordered.
  pub reached-IsConsistent :
      (node : NodeApi W) (config : Config) (node_name : String) (inst_id : ℕ) (is_master : Bool)
      (view : NodeView W) (ledger_ids : List ℕ) (now : ℕ) {s : Replica W}
      → Reaches node (new_replica config node_name inst_id is_master view ledger_ids now) s
      → IsConsistent (core s)
  reached-IsConsistent node config node_name inst_id is_master view ledger_ids now reached =
      Reaches-Inv node
        (new_replica-IsConsistent config node_name inst_id is_master view ledger_ids now) reached
