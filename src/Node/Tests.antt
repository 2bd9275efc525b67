-- ===== src/Node/Tests.antt =====
-- A node of a pool of four, and the theorems at it.
use plenum.Common.{
  contains, string_eq, ℕ, ◌+◌, ◌*◌, ◌≤◌, ◌<◌, All, ◌≡◌, refl, Bool, true, false, String, List, [],
  ◌∷◌, ◌++◌, Option, none, some, length, arith, ◌==◌, nat_eq,
}
use plenum.Common.Dict
use plenum.Common.Int.{pos}
use plenum.Node.{
  election_kind, three_phase_kind, NodeMsg, Deque, Node, process_stashed_msgs_for_view,
  adjust_replicas, valid_number,
}
use plenum.Node.ViewChange.{ViewApi}
use plenum.Node.Delivery.{waiting_for, IsDrained, process_stashed_msgs_for_view-IsDrained}
use plenum.Node.Advancing.{Advances}
use plenum.Node.Advancing.{voters_for, backers}
use plenum.Node.Moving.{process_instance_change-moves}
use plenum.Node.ViewChange.{process_instance_change}
use plenum.Node.Events.{ViewEvent, received, handle_events, handle_events-Advances}

-- the world is the clock and whether the master is slow
abbrev api : ViewApi (ℕ × Bool)
api = record {
  perf_counter = λ w. w.0;
  has_master = λ w. true;
  is_master_degraded = λ w. w.1;
  reset_monitor = λ w. (w.0, false);
  send_node_request_spike = λ w. w;
  first_primary = λ w. none;
  set_has_master_primary = λ found w. w;
  all_instances_have_primary = λ w. true;
  view_changed = λ v w. w;
  new_ins_chng_throttler = record { window_size = 10; delay_function = λ _. 10; actions_log = [] };
  tolerate_primary_disconnection = 2;
}

abbrev a_prepare : String → ℕ → ℕ → NodeMsg
a_prepare body inst_id view_no = record {
  kind = three_phase_kind;
  inst_id = some (pos inst_id);
  view_no = some (pos view_no);
  body = body;
}

abbrev nominate : NodeMsg
nominate = record {
  kind = election_kind;
  inst_id = some (pos 0);
  view_no = some (pos 1);
  body = "nominate";
}

abbrev early : Deque
early =
    (a_prepare "p" 0 1, "Beta")
    ∷ (nominate, "Gamma")
    ∷ (a_prepare "q" 5 1, "Beta")
    ∷ (a_prepare "r" 1 1, "Delta")
    ∷ []

abbrev alpha : ℕ → Bool → Node (ℕ × Bool)
alpha view_no slow = record {
  name = "Alpha";
  f = 1;
  view_no = view_no;
  is_participating = true;
  world = (100, slow);
  msgs_to_replicas = [] ∷ [] ∷ [];
  msgs_to_elector = [];
  msgs_for_future_replicas = [];
  msgs_for_future_views = (1, early) ∷ [];
  instance_changes = [];
  view_change_in_progress = false;
  primary_replica_no = none;
  ins_chng_throttler = record { window_size = 10; delay_function = λ _. 10; actions_log = [] };
  lost_primary_at = none;
  sent = [];
  scheduled = [];
}

-- Two other nodes ask for view 1, and the node's own vote makes the quorum.
abbrev votes : List ViewEvent
votes = received (some (pos 1)) "Beta" ∷ received (some (pos 1)) "Gamma" ∷ []

moved_on : (handle_events api votes (alpha 0 true)).view_no ≡ 1
unfolding handle_events Dict.get Dict.has_key Dict.set plenum.Common.add
moved_on = refl

stays_put : (handle_events api votes (alpha 0 false)).view_no ≡ 0
unfolding handle_events Dict.get Dict.has_key Dict.set plenum.Common.add
stays_put = refl

handle_events-Advances_example : Advances (alpha 0 true) (handle_events api votes (alpha 0 true))
handle_events-Advances_example = handle_events-Advances api votes (alpha 0 true)

sorted :
    (process_stashed_msgs_for_view 5 1 (alpha 1 false)).msgs_to_replicas
    ≡ ((a_prepare "p" 0 1, "Beta") ∷ []) ∷ ((a_prepare "r" 1 1, "Delta") ∷ []) ∷ []
unfolding process_stashed_msgs_for_view Dict.get Dict.set
sorted = refl

early-IsForOne : All (λ x. valid_number x.0.view_no ≡ some 1) (waiting_for 1 (alpha 1 false))
unfolding Dict.get valid_number
early-IsForOne = (refl, (refl, (refl, (refl, tt))))

early-IsShort : length (waiting_for 1 (alpha 1 false)) < 5
unfolding Dict.get
early-IsShort = omega arith

process_stashed_msgs_for_view-IsDrained_example :
    IsDrained 1 (alpha 1 false) (process_stashed_msgs_for_view 5 1 (alpha 1 false))
process_stashed_msgs_for_view-IsDrained_example =
    process_stashed_msgs_for_view-IsDrained 1 (alpha 1 false) 5 early-IsForOne refl early-IsShort

grows : (adjust_replicas 6 (alpha 1 false)).msgs_to_replicas ≡ [] ∷ [] ∷ [] ∷ [] ∷ [] ∷ [] ∷ []
unfolding adjust_replicas Dict.get
grows = refl

-- two other nodes have asked for view 1
abbrev asked : Node (ℕ × Bool)
asked = record (alpha 0 false) {
  instance_changes = (1, record { view_no = 1; voters = "Beta" ∷ "Gamma" ∷ [] }) ∷ [];
}

Delta-IsNew : contains (voters_for 1 asked) "Delta" ≡ false
unfolding voters_for Dict.get
Delta-IsNew = refl

two-AreEnough : 2 * asked.f ≤ backers 1 asked
unfolding voters_for Dict.get
two-AreEnough = omega arith

process_instance_change-moves_example :
    (process_instance_change api (some (pos 1)) "Delta" asked).view_no ≡ 1
process_instance_change-moves_example =
    process_instance_change-moves api 1 "Delta" asked (omega arith) Delta-IsNew two-AreEnough
