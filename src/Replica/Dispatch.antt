-- ===== src/Replica/Dispatch.antt =====
-- The entry points: three-phase messages, messages that waited for the election, a new primary.
use plenum.Common.{
  ℕ, zero, suc, not, String, [], ◌∷◌, ◌++◌, Option, some, ltb, leb, if◌then◌else◌, ◌==◌, nat_eq,
  string_eq, option_eq,
}
use plenum.Common.Dict
use plenum.Common.Dict.{Dict, is_some}
use plenum.Messages.{ThreePhaseMsg, pre_prepare, prepare, commit, msg_view_no, msg_pp_seq_no}
use plenum.Replica.{
  NodeApi, M, out_of_fuel, assertion_error, exception_msg, read, modify, pure, raise, ◌>>=◌, ◌>>◌,
  when, catch_suspicious, uncons,
}
use plenum.Replica.Status.{
  generate_name, is_primary, is_pp_seq_no_stable, is_pp_seq_no_between_water_marks,
  can_pp_seq_no_be_in_view, report_suspicious_node_ex, put_out,
}
use plenum.Replica.Batch.{remove_obsolete_pp_reqs}
use plenum.Replica.Stash.{stash_outside_watermarks}
use plenum.Replica.Commits.{process_commit}
use plenum.Replica.Prepares.{process_prepare}
use plenum.Replica.PrePrepares.{process_pre_prepare}

module _ {W : Type 0} (node : NodeApi W) where
  module _ (again : ThreePhaseMsg → String → M W Unit) (fuel : ℕ) where
    -- `threePhaseRouter`
    unfoldable pub route : ThreePhaseMsg → String → M W Unit
    route (pre_prepare pp) sender = process_pre_prepare node again fuel pp sender
    route (prepare p) sender = process_prepare node again p sender
    route (commit c) sender = process_commit node again c sender

    -- one call of `dispatchThreePhaseMsg`, whose nested calls are `again`
    unfoldable pub dispatch_once : ThreePhaseMsg → String → M W Unit
    unfolding route
    dispatch_once msg sender = do
      s ← read
      let inside = is_pp_seq_no_between_water_marks (msg_pp_seq_no msg) s
      let body : M W Unit = do
        fits ← can_pp_seq_no_be_in_view (msg_view_no msg) (msg_pp_seq_no msg)
        when fits (route msg (generate_name sender s.inst_id))
      let inside_body = catch_suspicious report_suspicious_node_ex body
      let stash = modify (stash_outside_watermarks (msg, sender))
      if is_pp_seq_no_stable (msg_pp_seq_no msg) s
          then pure tt
          else if inside
          then inside_body
          else stash

  -- `dispatchThreePhaseMsg`, on fuel for the depth of its nested calls
  unfoldable pub dispatch_three_phase_msg : ℕ → ThreePhaseMsg → String → M W Unit
  unfolding dispatch_once
  dispatch_three_phase_msg zero msg sender = raise out_of_fuel
  dispatch_three_phase_msg (suc fuel) msg sender =
      dispatch_once (dispatch_three_phase_msg fuel) fuel msg sender

  module _ (fuel : ℕ) where
    -- `processThreePhaseMsg`
    unfoldable pub process_three_phase_msg : ThreePhaseMsg → String → M W Unit
    unfolding dispatch_three_phase_msg
    process_three_phase_msg msg sender = do
      s ← read
      let pend : M W Unit =
          modify
            (λ s'. record s' { post_election_msgs = s'.post_election_msgs ++ (msg, sender) ∷ [] })
      if is_some (is_primary s) then dispatch_three_phase_msg fuel msg sender else pend

    -- `processPostElectionMsgs`: a `while` loop, on fuel
    unfoldable pub process_post_election_msgs : ℕ → M W Unit
    unfolding dispatch_three_phase_msg
    process_post_election_msgs zero = raise out_of_fuel
    process_post_election_msgs (suc rounds) = do
      s ← read
      uncons (pure tt)
          (λ (msg, sender) rest. do
            modify (λ s'. record s' { post_election_msgs = rest })
            dispatch_three_phase_msg fuel msg sender
            process_post_election_msgs rounds)
          s.post_election_msgs

    -- `_stateChanged`, but for the stash of the inbox
    unfoldable pub state_changed : M W Unit
    unfolding process_post_election_msgs
    state_changed = do
      s ← read
      when (is_some (is_primary s)) (
          catch_suspicious (λ e s'. put_out (exception_msg e) s') (process_post_election_msgs fuel))

    -- `primaryName.setter`
    unfoldable pub set_primary_name : Option String → M W Unit
    unfolding state_changed
    set_primary_name value = do
      s ← read
      modify (λ s'. record s' { primary_names = Dict.set s'.view_no value s'.primary_names })
      when (not (value == s.primary_name)) (do
        modify (λ s'. record s' { primary_name = value })
        when s.is_master (remove_obsolete_pp_reqs node)
        state_changed)

    -- `primaryChanged`
    unfoldable pub primary_changed : Option String → ℕ → M W Unit
    unfolding set_primary_name
    primary_changed primary_name last_ordered = do
      modify (λ s.
          if ltb s.last_ordered_pp_seq_no last_ordered
          then record s { last_ordered_pp_seq_no = last_ordered }
          else s)
      set_primary_name primary_name
      s ← read
      when (primary_name == some s.name) (do
        when (not (leb last_ordered s.last_ordered_pp_seq_no)) (raise assertion_error)
        modify (λ s'. record s' { last_pre_prepare_seq_no = s'.last_ordered_pp_seq_no }))
