-- ===== src/Node/ViewChange.antt =====
-- View changes of plenum/server/node.py: InstanceChange messages, their quorum, and the change.
use plenum.Common.{
  ℕ, suc, ◌+◌, ◌-◌, Bool, true, false, not, ◌&&◌, String, [], ◌∷◌, ◌++◌, Option, none, some, length,
  ltb, leb, if◌then◌else◌, ◌==◌, nat_eq,
}
use plenum.Common.Dict
use plenum.Common.Dict.{Dict, get_or}
use plenum.Common.Int.{ℤ, pos, negsuc}
use plenum.Throttler.{Throttler, acquire}
use plenum.Votes.{add_msg, has_vote, has_enough_votes, instance_changes, commit_quorum}
use plenum.Node.{Node, pop_keys, process_stashed_msgs_for_view}

-- What the methods use besides the node's fields: the clock, the monitor, `viewChanged` of the
-- elector, the throttler that `initInsChngThrottling` makes, and the configuration, in ticks.
pub record ViewApi (W : Type 0) : Type 0 where
  pub perf_counter : W → ℕ
  -- `instances.masterId is not None`
  pub has_master : W → Bool
  pub is_master_degraded : W → Bool
  pub reset_monitor : W → W
  pub send_node_request_spike : W → W
  -- the place of the first replica that is primary
  pub first_primary : W → Option ℕ
  -- `monitor.hasMasterPrimary = ...`
  pub set_has_master_primary : Bool → W → W
  pub all_instances_have_primary : W → Bool
  pub view_changed : ℕ → W → W
  pub new_ins_chng_throttler : Throttler
  pub tolerate_primary_disconnection : ℕ

-- `Suspicions.PRIMARY_DEGRADED` and `Suspicions.PRIMARY_DISCONNECTED`
abbrev pub primary_degraded : ℕ
primary_degraded = 21

abbrev pub primary_disconnected : ℕ
primary_disconnected = 22

module _ {W : Type 0} (api : ViewApi W) where
  -- `canViewChange`
  unfoldable pub can_view_change : ℕ → Node W → Bool
  unfolding has_enough_votes
  can_view_change proposed n =
      has_enough_votes instance_changes proposed (commit_quorum n.f) n.instance_changes
      && ltb n.view_no proposed

  -- `startViewChange`; the fuel is enough for the messages of the view
  unfoldable pub start_view_change : ℕ → Node W → Node W
  unfolding process_stashed_msgs_for_view pop_keys
  start_view_change proposed n =
      let n₁ : Node W = record n {
        view_change_in_progress = true;
        view_no = proposed;
        world = api.reset_monitor n.world;
      } in
      let fuel = suc (length (get_or (Dict.get proposed n₁.msgs_for_future_views) [])) in
      let n₂ = process_stashed_msgs_for_view fuel proposed n₁ in
      record n₂ {
        world = api.view_changed n₂.view_no n₂.world;
        primary_replica_no = none;
        msgs_for_future_views = pop_keys (λ v. leb v n₂.view_no) n₂.msgs_for_future_views;
        ins_chng_throttler = api.new_ins_chng_throttler;
      }

  -- `do_view_change_if_possible`
  unfoldable pub do_view_change_if_possible : ℕ → Node W → Node W
  unfolding can_view_change start_view_change
  do_view_change_if_possible view_no n =
      if can_view_change view_no n then start_view_change view_no n else n

  -- `_record_inst_change_msg`
  unfoldable pub record_inst_change_msg : ℕ → String → Node W → Node W
  unfolding add_msg do_view_change_if_possible
  record_inst_change_msg view_no frm n =
      let n₁ : Node W = record n {
        instance_changes = add_msg instance_changes view_no frm n.instance_changes;
      } in
      if ltb n₁.view_no view_no then do_view_change_if_possible view_no n₁ else n₁

  -- `sendInstanceChange`, for the code of a suspicion
  unfoldable pub send_instance_change : ℕ → ℕ → Node W → Node W
  unfolding acquire record_inst_change_msg
  send_instance_change view_no code n =
      let ((granted, wait), throttler) = acquire (api.perf_counter n.world) n.ins_chng_throttler in
      let n₁ : Node W = record n { ins_chng_throttler = throttler } in
      if granted
      then record_inst_change_msg view_no n.name
          (record n₁ { sent = n₁.sent ++ (view_no, code) ∷ [] })
      else n₁

  -- what `processInstanceChange` does with a view number that is above its own
  unfoldable pub count_instance_change : ℕ → String → Node W → Node W
  unfolding has_vote record_inst_change_msg send_instance_change
  count_instance_change view_no frm n =
      let n₁ =
        if has_vote instance_changes view_no frm n.instance_changes
        then n
        else record_inst_change_msg view_no frm n in
      if api.is_master_degraded n₁.world
        && not (has_vote instance_changes view_no n₁.name n₁.instance_changes)
      then send_instance_change view_no primary_degraded n₁
      else n₁

  -- `processInstanceChange`, for a view number, none where it is no integer
  unfoldable pub process_instance_change : Option ℤ → String → Node W → Node W
  unfolding count_instance_change
  process_instance_change none frm n = n
  process_instance_change (some (negsuc v)) frm n = n
  process_instance_change (some (pos v)) frm n =
      if leb v n.view_no then n else count_instance_change v frm n

  -- `checkPerformance`
  unfoldable pub check_performance : Node W → Node W
  unfolding send_instance_change do_view_change_if_possible
  check_performance n =
      let n₁ : Node W = record n { world = api.send_node_request_spike n.world } in
      let n₂ = send_instance_change (n₁.view_no + 1) primary_degraded n₁ in
      if n.is_participating && api.has_master n.world
      then if api.is_master_degraded n₁.world
        then do_view_change_if_possible (n₂.view_no + 1) n₂
        else n₁
      else n

  -- `lost_master_primary`
  unfoldable pub lost_master_primary : Node W → Node W
  lost_master_primary n = record n {
    lost_primary_at = some (api.perf_counter n.world);
    scheduled = n.scheduled ++ api.tolerate_primary_disconnection ∷ [];
  }

  -- whether the primary is lost for long enough; a time of zero counts as none
  unfoldable pub is_lost_long : Node W → Bool
  is_lost_long n = elim n.lost_primary_at [
    | none ↦ false
    | some t ↦ not (t == 0) && leb api.tolerate_primary_disconnection (api.perf_counter n.world - t)
  ]

  -- `propose_view_change`
  unfoldable pub propose_view_change : Node W → Node W
  unfolding is_lost_long send_instance_change do_view_change_if_possible
  propose_view_change n =
      let view_no = n.view_no + 1 in
      if is_lost_long n
      then do_view_change_if_possible view_no (send_instance_change view_no primary_disconnected n)
      else n

  -- `on_view_change_complete`
  unfoldable pub on_view_change_complete : ℕ → Node W → Node W
  on_view_change_complete view_no n = record n {
    view_change_in_progress = false;
    instance_changes =
        if view_no == 0 then n.instance_changes else Dict.del (view_no - 1) n.instance_changes;
  }

  -- `primaryReplicaNo`, which keeps the place that it finds
  unfoldable pub get_primary_replica_no : Node W → Option ℕ × Node W
  get_primary_replica_no n = elim n.primary_replica_no [
    | some place ↦ (some place, n)
    | none ↦
        let found = api.first_primary n.world in (found, record n { primary_replica_no = found })
  ]

  -- `primary_found`
  unfoldable pub primary_found : Node W → Node W
  unfolding get_primary_replica_no on_view_change_complete
  primary_found n =
      let (place, n₁) = get_primary_replica_no n in
      let n₂ : Node W = record n₁ {
        world = api.set_has_master_primary (elim place [ none ↦ false | some i ↦ i == 0 ]) n₁.world;
      } in
      if n₂.view_change_in_progress && api.all_instances_have_primary n₂.world
      then on_view_change_complete n₂.view_no n₂
      else n₂
