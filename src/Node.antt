-- ===== src/Node.antt =====
-- plenum/server/node.py: how a `Node` hands the messages of other nodes to its replicas and its
-- elector, and keeps those for views and instances that it has not yet. Node/ViewChange models its
-- view changes.
pub mod ViewChange
pub mod Queues
pub mod Placing
pub mod Dispatching
pub mod Delivery
pub mod Keeping
pub mod Advancing
pub mod Events
pub mod Moving
mod Tests
use plenum.Common.{
  ℕ, zero, suc, ◌+◌, ◌-◌, Bool, true, false, not, String, List, [], ◌∷◌, ◌++◌, Option, none, some,
  length, ltb, leb, if◌then◌else◌, nat_eq, get_elem?, set_elem, keep,
}
use plenum.Common.Dict
use plenum.Common.Dict.{Dict, get_or}
use plenum.Common.Int.{ℤ, pos, negsuc}
use plenum.Throttler.{Throttler}
use plenum.Votes.{InsChgVotes}

-- `ElectionType`, `ThreePhaseType` (plenum/common/types.py), and other messages.
pub data MsgKind : Type 0 where
  election_kind three_phase_kind other_kind : MsgKind

-- A message, with its `instId` and `viewNo`, none where it has no such attribute, or one that is no
-- integer.
pub record NodeMsg : Type 0 where
  pub kind : MsgKind
  pub inst_id : Option ℤ
  pub view_no : Option ℤ
  pub body : String

-- Messages and their senders, the first to be taken at the front.
abbrev pub Deque : Type 0
Deque = List (NodeMsg × String)

-- The fields of a node that route messages and change views. The world holds the clock, the monitor
-- and the elector. `sent` has the InstanceChange messages, each by its view and the code of its
-- suspicion, and `scheduled` the delays of `propose_view_change`.
pub record Node (W : Type 0) : Type 0 where
  pub name : String
  pub f : ℕ
  pub view_no : ℕ
  pub is_participating : Bool
  pub world : W
  pub msgs_to_replicas : List Deque
  pub msgs_to_elector : Deque
  pub msgs_for_future_replicas : Dict ℕ Deque
  pub msgs_for_future_views : Dict ℕ Deque
  pub instance_changes : Dict ℕ InsChgVotes
  pub view_change_in_progress : Bool
  pub primary_replica_no : Option ℕ
  pub ins_chng_throttler : Throttler
  pub lost_primary_at : Option ℕ
  pub sent : List (ℕ × ℕ)
  pub scheduled : List ℕ

-- The number of an attribute that `is_valid_view_or_inst` accepts.
unfoldable pub valid_number : Option ℤ → Option ℕ
valid_number none = none
valid_number (some (pos n)) = some n
valid_number (some (negsuc n)) = none

-- `if k not in d: d[k] = deque()`, and `d[k].append(x)`
unfoldable pub append_at : ℕ → NodeMsg × String → Dict ℕ Deque → Dict ℕ Deque
append_at k x d = Dict.set k (get_or (Dict.get k d) [] ++ x ∷ []) d

-- `pop_keys` of plenum/common/util.py
unfoldable pub pop_keys : (ℕ → Bool) → Dict ℕ Deque → Dict ℕ Deque
pop_keys cond d = keep (λ entry. not (cond entry.0)) d

-- `removeReplica`, for the queue of the last replica
unfoldable pub remove_last : List Deque → List Deque
remove_last [] = []
remove_last (q ∷ []) = []
remove_last (q ∷ r ∷ qs) = q ∷ remove_last (r ∷ qs)

module _ {W : Type 0} where
  -- `msgHasAcceptableInstId`: the instance if it is acceptable
  unfoldable pub msg_has_acceptable_inst_id : NodeMsg → String → Node W → Option ℕ × Node W
  unfolding valid_number append_at
  msg_has_acceptable_inst_id msg frm n = elim (valid_number msg.inst_id) [
    | none ↦ (none, n)
    | some inst_id ↦ if ltb inst_id (length n.msgs_to_replicas) then (some inst_id, n) else (
      none,
      record n {
        msgs_for_future_replicas = append_at inst_id (msg, frm) n.msgs_for_future_replicas;
      },
    )
  ]

  -- `msgHasAcceptableViewNo`
  unfoldable pub msg_has_acceptable_view_no : NodeMsg → String → Node W → Bool × Node W
  unfolding valid_number append_at
  msg_has_acceptable_view_no msg frm n = elim (valid_number msg.view_no) [
    | none ↦ (false, n)
    | some view_no ↦
        if ltb 1 (n.view_no - view_no)
        then (false, n)
        else if ltb n.view_no view_no
        then (
          false,
          record n { msgs_for_future_views = append_at view_no (msg, frm) n.msgs_for_future_views },
        )
        else (true, n)
  ]

  -- `self.msgsToReplicas[instId].append`
  unfoldable pub push_to_replica : ℕ → NodeMsg × String → Node W → Node W
  push_to_replica inst_id x n = record n {
    msgs_to_replicas = elim (get_elem? n.msgs_to_replicas inst_id) as (λ _. List Deque) [
      | none ↦ n.msgs_to_replicas
      | some q ↦ set_elem n.msgs_to_replicas inst_id (q ++ x ∷ [])
    ];
  }

  -- what both senders do, where the message is acceptable
  unfoldable pub send_acceptable :
      (ℕ → NodeMsg × String → Node W → Node W) → NodeMsg → String → Node W → Node W
  unfolding msg_has_acceptable_inst_id msg_has_acceptable_view_no
  send_acceptable push msg frm n =
      let (inst, n₁) = msg_has_acceptable_inst_id msg frm n in
      elim inst as (λ _. Node W) [
        | none ↦ n₁
        | some inst_id ↦
            let (fits, n₂) = msg_has_acceptable_view_no msg frm n₁ in
            if fits then push inst_id (msg, frm) n₂ else n₂
      ]

  -- `sendToReplica`
  unfoldable pub send_to_replica : NodeMsg → String → Node W → Node W
  unfolding send_acceptable push_to_replica
  send_to_replica msg frm n = send_acceptable push_to_replica msg frm n

  -- `sendToElector`
  unfoldable pub send_to_elector : NodeMsg → String → Node W → Node W
  unfolding send_acceptable
  send_to_elector msg frm n =
      send_acceptable (λ inst_id x n'. record n' { msgs_to_elector = n'.msgs_to_elector ++ x ∷ [] })
        msg frm n

  -- `_dispatch_stashed_msg`; a message of another type is discarded
  unfoldable pub dispatch_stashed_msg : NodeMsg × String → Node W → Node W
  unfolding send_to_replica send_to_elector
  dispatch_stashed_msg (msg, frm) n = elim msg.kind [
    | election_kind ↦ send_to_elector msg frm n
    | three_phase_kind ↦ send_to_replica msg frm n
    | other_kind ↦ n
  ]

  -- The loop of `processStashedMsgsForReplica`, on fuel, since a message may be put back.
  unfoldable pub process_stashed_msgs_for_replica : ℕ → ℕ → Node W → Node W
  unfolding dispatch_stashed_msg
  process_stashed_msgs_for_replica zero inst_id n = n
  process_stashed_msgs_for_replica (suc fuel) inst_id n =
      elim (get_or (Dict.get inst_id n.msgs_for_future_replicas) []) as (λ _. Node W) [
        | [] ↦ n
        | x ∷ rest ↦ process_stashed_msgs_for_replica fuel inst_id (
            dispatch_stashed_msg x (record n {
              msgs_for_future_replicas = Dict.set inst_id rest n.msgs_for_future_replicas;
            }))
      ]

  -- The loop of `processStashedMsgsForView`, on fuel for the same reason.
  unfoldable pub process_stashed_msgs_for_view : ℕ → ℕ → Node W → Node W
  unfolding dispatch_stashed_msg
  process_stashed_msgs_for_view zero view_no n = n
  process_stashed_msgs_for_view (suc fuel) view_no n =
      elim (get_or (Dict.get view_no n.msgs_for_future_views) []) as (λ _. Node W) [
        | [] ↦ n
        | x ∷ rest ↦ process_stashed_msgs_for_view fuel view_no (
            dispatch_stashed_msg x
              (record n { msgs_for_future_views = Dict.set view_no rest n.msgs_for_future_views }))
      ]

  -- `addReplica`, less the replica itself and its monitor
  unfoldable pub add_replica : Node W → Node W
  add_replica n = record n { msgs_to_replicas = n.msgs_to_replicas ++ [] ∷ [] }

  unfoldable pub remove_replica : Node W → Node W
  unfolding remove_last
  remove_replica n = record n { msgs_to_replicas = remove_last n.msgs_to_replicas }

  -- the first loop of `adjustReplicas`, as often as replicas are missing
  unfoldable pub add_replicas : ℕ → Node W → Node W
  unfolding add_replica process_stashed_msgs_for_replica
  add_replicas zero n = n
  add_replicas (suc missing) n =
      let inst_id = length n.msgs_to_replicas in
      let fuel = suc (length (get_or (Dict.get inst_id n.msgs_for_future_replicas) [])) in
      add_replicas missing (process_stashed_msgs_for_replica fuel inst_id (add_replica n))

  unfoldable pub remove_replicas : ℕ → Node W → Node W
  unfolding remove_replica
  remove_replicas zero n = n
  remove_replicas (suc more) n = remove_replicas more (remove_replica n)

  -- `adjustReplicas`, for the number of instances that `f` requires
  unfoldable pub adjust_replicas : ℕ → Node W → Node W
  unfolding add_replicas remove_replicas pop_keys
  adjust_replicas required n =
      let n₁ = add_replicas (required - length n.msgs_to_replicas) n in
      let n₂ = remove_replicas (length n₁.msgs_to_replicas - required) n₁ in
      record n₂ {
        msgs_for_future_replicas =
            pop_keys (λ i. ltb i (length n₂.msgs_to_replicas)) n₂.msgs_for_future_replicas;
      }
