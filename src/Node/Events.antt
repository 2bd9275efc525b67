-- ===== src/Node/Events.antt =====
-- The events of plenum/server/node.py that may change a node's view, one after the other.
use plenum.Common.{refl, String, List, [], ◌∷◌, Option, nat_eq, string_eq}
use plenum.Common.Int.{ℤ}
use plenum.Node.{Node}
use plenum.Node.ViewChange.{
  ViewApi, process_instance_change, check_performance, lost_master_primary, propose_view_change,
}
use plenum.Node.Advancing.{
  Advances, Advances-trans, Same-Advances, process_instance_change-Advances,
  check_performance-Advances, propose_view_change-Advances,
}

-- What may lead a node to another view.
pub data ViewEvent : Type 0 where
  received : Option ℤ → String → ViewEvent
  checked_performance lost_primary waited_for_primary : ViewEvent

module _ {W : Type 0} (api : ViewApi W) where
  unfoldable pub handle_event : ViewEvent → Node W → Node W
  unfolding process_instance_change check_performance lost_master_primary propose_view_change
  handle_event (received view_no frm) n = process_instance_change api view_no frm n
  handle_event checked_performance n = check_performance api n
  handle_event lost_primary n = lost_master_primary api n
  handle_event waited_for_primary n = propose_view_change api n

  unfoldable pub handle_events : List ViewEvent → Node W → Node W
  unfolding handle_event
  handle_events [] n = n
  handle_events (event ∷ events) n = handle_events events (handle_event event n)

  handle_event-Advances : (event : ViewEvent) (n : Node W) → Advances n (handle_event event n)
  unfolding handle_event lost_master_primary
  handle_event-Advances (received view_no frm) n =
      process_instance_change-Advances api view_no frm n
  handle_event-Advances checked_performance n = check_performance-Advances api n
  handle_event-Advances lost_primary n = Same-Advances n _ (refl, refl, refl)
  handle_event-Advances waited_for_primary n = propose_view_change-Advances api n

  -- After any sequence of InstanceChange messages from any senders, checks of the performance, losses
  -- of the primary and waits for it, in any order: the voters for each view that a node had counted
  -- are still counted, and distinct if they were; and its view is the one it had, or a later one for
  -- which at least 2f + 1 voters are counted.
  pub handle_events-Advances :
      (events : List ViewEvent) (n : Node W) → Advances n (handle_events events n)
  unfolding handle_events
  handle_events-Advances [] n = Same-Advances n n (refl, refl, refl)
  handle_events-Advances (event ∷ events) n =
      Advances-trans (handle_event-Advances event n)
        (handle_events-Advances events (handle_event event n))
