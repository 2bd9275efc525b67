-- ===== src/Replica/History.antt =====
-- The life of a replica: the state that `__init__` makes, the calls that its node makes, and what
-- the node changes by itself between them.
use plenum.Common.{ℕ, ◌+◌, Bool, false, String, List, [], ◌∷◌, Option, none, map}
use plenum.Common.Dict.{Dict}
use plenum.Messages.{ReqKey, ThreePhaseMsg, Checkpoint}
use plenum.Propagator.{Requests}
use plenum.Replica.{Config, Replica, NodeApi, M, ◌>>◌, modify, pure}
use plenum.Replica.Status.{generate_name, caught_up_till_pp_seq_no}
use plenum.Replica.Batch.{send_3pc_batch, ready_for_3pc}
use plenum.Replica.Checkpoints.{process_checkpoint}
use plenum.Replica.Order.{process_stashed_out_of_order_commits}
use plenum.Replica.PrePrepares.{dequeue_pre_prepares}
use plenum.Replica.Dispatch.{
  dispatch_three_phase_msg, process_three_phase_msg, set_primary_name, primary_changed,
}

-- What a replica reads of its node, and the node changes.
pub record NodeView (W : Type 0) : Type 0 where
  pub is_participating : Bool
  pub view_no : ℕ
  pub f : ℕ
  pub requests : Requests
  pub world : W
  pub view_ends_at : Dict ℕ ℕ

module _ {W : Type 0} where
  -- `__init__`, at the counter's reading `now`
  abbrev pub new_replica : Config → String → ℕ → Bool → NodeView W → List ℕ → ℕ → Replica W
  new_replica config node_name inst_id is_master node ledger_ids now = record {
    config = config;
    name = generate_name node_name inst_id;
    inst_id = inst_id;
    is_master = is_master;
    is_participating = node.is_participating;
    view_no = node.view_no;
    f = node.f;
    requests = node.requests;
    world = node.world;
    reported = [];
    stats = map (λ code. (code, 0)) (0 ∷ 1 ∷ 2 ∷ 3 ∷ 4 ∷ 5 ∷ 6 ∷ 7 ∷ []);
    out_box = [];
    primary_name = none;
    primary_names = [];
    post_election_msgs = [];
    pre_prepares_pending_fin_reqs = [];
    pre_prepares_pending_prev_pp = [];
    prepares_waiting_for_pre_prepare = [];
    commits_waiting_for_prepare = [];
    sent_pre_prepares = [];
    pre_prepares = [];
    prepares = [];
    commits = [];
    ordered = [];
    stashing_while_catching_up = [];
    stashed_out_of_order_commits = [];
    is_repeating = false;
    checkpoints = [];
    stashed_recvd_checkpoints = [];
    stashing_while_outside_water_marks = [];
    low = 0;
    high = 0 + config.log_size;
    last_pre_prepare_seq_no = 0;
    request_queues = map (λ ledger_id. (ledger_id, [])) ledger_ids;
    batches = [];
    last_batch_created = now;
    last_ordered_pp_seq_no = 0;
    view_ends_at = [];
  }

  -- the node's own changes, as the replica sees them
  abbrev pub see_node : NodeView W → Replica W → Replica W
  see_node node s = record s {
    is_participating = node.is_participating;
    view_no = node.view_no;
    f = node.f;
    requests = node.requests;
    world = node.world;
    view_ends_at = node.view_ends_at;
  }

-- A call that reaches a replica, or a change of its node.
pub data Event (W : Type 0) : Type 0 where
  three_phase_rcvd : ThreePhaseMsg → String → Event W
  checkpoint_rcvd : Checkpoint → String → Event W
  req_key_rcvd : ReqKey → Event W
  batch_timer : ℕ → ℕ → Event W
  primary_set : Option String → Event W
  primary_elected : Option String → ℕ → Event W
  stashed_commits_due : Event W
  pending_pre_prepares_due : Event W
  caught_up : ℕ → Event W
  node_changed : NodeView W → Event W

module _ {W : Type 0} (node : NodeApi W) (fuel : ℕ) where
  -- the method that serves an event, whose result nobody uses
  unfoldable pub serve : Event W → M W Unit
  serve (three_phase_rcvd msg sender) = process_three_phase_msg node fuel msg sender
  serve (checkpoint_rcvd msg sender) =
      process_checkpoint node (dispatch_three_phase_msg node fuel) msg sender
  serve (req_key_rcvd key) = ready_for_3pc node key
  serve (batch_timer tm now) = do send_3pc_batch node tm now; pure tt
  serve (primary_set value) = set_primary_name node fuel value
  serve (primary_elected name last_ordered) = primary_changed node fuel name last_ordered
  serve stashed_commits_due =
      process_stashed_out_of_order_commits node (dispatch_three_phase_msg node fuel)
  serve pending_pre_prepares_due = do
    dequeue_pre_prepares node (dispatch_three_phase_msg node fuel) fuel
    pure tt
  serve (caught_up last) = modify (caught_up_till_pp_seq_no last)
  serve (node_changed view) = modify (see_node view)

-- One step of a replica: it serves an event, and goes on from where that left it, also after an
-- exception.
pub data Step {W : Type 0} (node : NodeApi W) (s : Replica W) : Replica W → Type 0 where
  serves : (fuel : ℕ) (event : Event W) → Step node s (serve node fuel event s).1

-- The states that the steps reach from a state.
pub data Reaches {W : Type 0} (node : NodeApi W) (start : Replica W) : Replica W → Type 0 where
  at_start : Reaches node start start
  and_then : {s t : Replica W} → Reaches node start s → Step node s t → Reaches node start t
