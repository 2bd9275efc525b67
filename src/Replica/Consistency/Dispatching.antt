-- ===== src/Replica/Consistency/Dispatching.antt =====
-- The entry points keep a replica consistent: three-phase messages, the messages that waited for
-- the election, a new primary.
use plenum.Common.{ℕ, zero, suc, refl, String, Option}
use plenum.Messages.{ThreePhaseMsg, pre_prepare, prepare, commit}
use plenum.Replica.{Replica, NodeApi, M, Exn, exception_msg}
use plenum.Replica.Rules.{
  Keeps, Keeps-modify, Keeps-read, Keeps-raise, Keeps-pure, Keeps-bind, Keeps-uncons, keeps_rules,
}
use plenum.Replica.Status.{report_suspicious_node_ex, put_out}
use plenum.Replica.Stash.{stash_outside_watermarks}
use plenum.Replica.Dispatch.{
  route, dispatch_once, dispatch_three_phase_msg, process_three_phase_msg,
  process_post_election_msgs, state_changed, set_primary_name, primary_changed,
}
use plenum.Replica.Consistency.{IsConsistent, ordered_keys}
use plenum.Replica.Consistency.Frames.{can_pp_seq_no_be_in_view-OnCore, put_out-OnCore}
use plenum.Replica.Consistency.Steps.{raise_last_ordered-IsConsistent}
use plenum.Replica.Consistency.Batches.{Inv, remove_obsolete_pp_reqs-Inv}
use plenum.Replica.Consistency.Handlers.{
  process_commit-Inv, process_prepare-Inv, process_pre_prepare-Inv,
}

module _ {W : Type 0} (node : NodeApi W) where
  module _ (again : ThreePhaseMsg → String → M W Unit)
      (again-Inv : (msg : ThreePhaseMsg) (sender : String) → Keeps Inv (again msg sender))
      (fuel : ℕ) where
    route-Inv :
        (msg : ThreePhaseMsg) (sender : String) → Keeps Inv (route node again fuel msg sender)
    unfolding route
    route-Inv (pre_prepare pp) sender = process_pre_prepare-Inv node again again-Inv fuel pp sender
    route-Inv (prepare p) sender = process_prepare-Inv node again again-Inv p sender
    route-Inv (commit c) sender = process_commit-Inv node again again-Inv c sender

    dispatch_once-Inv :
        (msg : ThreePhaseMsg) (sender : String)
        → Keeps Inv (dispatch_once node again fuel msg sender)
    unfolding dispatch_once report_suspicious_node_ex stash_outside_watermarks
    dispatch_once-Inv msg sender =
        search (keeps_rules, Keeps-modify, can_pp_seq_no_be_in_view-OnCore, route-Inv) depth 12

  pub dispatch_three_phase_msg-Inv :
      (fuel : ℕ) (msg : ThreePhaseMsg) (sender : String)
      → Keeps Inv (dispatch_three_phase_msg node fuel msg sender)
  unfolding dispatch_three_phase_msg
  dispatch_three_phase_msg-Inv zero msg sender = Keeps-raise _
  dispatch_three_phase_msg-Inv (suc fuel) msg sender =
      dispatch_once-Inv (dispatch_three_phase_msg node fuel) (dispatch_three_phase_msg-Inv fuel)
        fuel msg sender

  module _ (fuel : ℕ) where
    pub process_three_phase_msg-Inv :
        (msg : ThreePhaseMsg) (sender : String)
        → Keeps Inv (process_three_phase_msg node fuel msg sender)
    unfolding process_three_phase_msg
    process_three_phase_msg-Inv msg sender =
        search (keeps_rules, Keeps-modify, dispatch_three_phase_msg-Inv) depth 9

    process_post_election_msgs-Inv :
        (rounds : ℕ) → Keeps Inv (process_post_election_msgs node fuel rounds)
    unfolding process_post_election_msgs
    process_post_election_msgs-Inv zero = Keeps-raise _
    process_post_election_msgs-Inv (suc rounds) = Keeps-bind _ _ Keeps-read (λ s.
        Keeps-uncons _ _ _ (Keeps-pure _) (λ x rest.
          Keeps-bind _ _ (Keeps-modify _ (λ t h. h)) (λ _.
            Keeps-bind _ _ (dispatch_three_phase_msg-Inv fuel x.0 x.1)
              (λ _. process_post_election_msgs-Inv rounds))))

    put_exception : (e : Exn) (s : Replica W) → Inv s → Inv (put_out (exception_msg e) s)
    put_exception e s h =
        put_out-OnCore IsConsistent (exception_msg e) s (unfold ordered_keys in refl) h

    pub state_changed-Inv : Keeps Inv (state_changed node fuel)
    unfolding state_changed
    state_changed-Inv = search (keeps_rules, put_exception, process_post_election_msgs-Inv) depth 9

    pub set_primary_name-Inv :
        (value : Option String) → Keeps Inv (set_primary_name node fuel value)
    unfolding set_primary_name
    set_primary_name-Inv value =
        search (keeps_rules, Keeps-modify, remove_obsolete_pp_reqs-Inv, state_changed-Inv) depth 12

    pub primary_changed-Inv :
        (primary_name : Option String) (last_ordered : ℕ)
        → Keeps Inv (primary_changed node fuel primary_name last_ordered)
    unfolding primary_changed
    primary_changed-Inv primary_name last_ordered =
        search (keeps_rules, Keeps-modify, raise_last_ordered-IsConsistent, set_primary_name-Inv)
          depth 12
