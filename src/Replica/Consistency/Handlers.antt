-- ===== src/Replica/Consistency/Handlers.antt =====
-- COMMITs, PREPAREs and PRE-PREPAREs keep a replica consistent, given that nested calls do.
use plenum.Common.{ℕ, zero, suc, refl, Bool, String, List, [], ◌∷◌, Option, none, some}
use plenum.Messages.{
  ReqKey, ThreePhaseKey, PrePrepare, Prepare, Commit, ThreePhaseMsg, prepare, commit,
}
use plenum.Replica.{Replica, NodeApi, M, three_phase_msg, commit_sent, prepare_sent}
use plenum.Replica.Rules.{
  Keeps, Keeps-modify, Keeps-read, Keeps-raise, Keeps-bind, Keeps-need, Keeps-uncons, keeps_rules,
}
use plenum.Replica.Status.{send, inc_stat, report_suspicious_node_ex, track_batches}
use plenum.Replica.Stash.{enqueue_commit, enqueue_prepare, enqueue_pre_prepare}
use plenum.Replica.Commits.{
  validate_commit, add_to_commits, process_commit, do_commit, try_commit, drain_commits,
  dequeue_commits,
}
use plenum.Replica.Prepares.{
  match_prepare, judge_prepare, validate_prepare, add_to_prepares, process_prepare, do_prepare,
  try_prepare, drain_prepares, dequeue_prepares,
}
use plenum.Replica.PrePrepares.{
  validate_pre_prepare, can_process_pre_prepare, add_to_pre_prepares, settle_pre_prepare,
  process_pre_prepare, release_pending, drain_pre_prepares, dequeue_pre_prepares,
}
use plenum.Replica.Batch.{revert}
use plenum.Replica.Consistency.{IsConsistent, ordered_keys}
use plenum.Replica.Consistency.Frames.{
  send-OnCore, process_reqs-OnCore, is_primary_for_msg-OnCore, can_pp_seq_no_be_in_view-OnCore,
}
use plenum.Replica.Consistency.Steps.{
  vote_commit-IsConsistent, vote_prepare-IsConsistent, store_received-IsConsistent,
}
use plenum.Replica.Consistency.Batches.{Inv, set_last-Inv, put_rejects-Inv}
use plenum.Replica.Consistency.Ordering.{try_order-Inv}

module _ {W : Type 0} where
  validate_commit-Inv :
      (msg : Commit) (sender : String) → Keeps {W = W} Inv (validate_commit msg sender)
  unfolding validate_commit enqueue_commit
  validate_commit-Inv msg sender = search (keeps_rules, Keeps-modify) depth 9

  judge_prepare-Inv :
      (msg : Prepare) (sender : String) (twice : Bool) (status : Option Bool)
      (found : Option PrePrepare)
      → Keeps {W = W} Inv (judge_prepare msg sender twice status found)
  unfolding judge_prepare match_prepare enqueue_prepare
  judge_prepare-Inv msg sender twice (some b) (some pp) = search keeps_rules depth 9
  judge_prepare-Inv msg sender twice (some b) none = search (keeps_rules, Keeps-modify) depth 9
  judge_prepare-Inv msg sender twice none (some pp) = search keeps_rules depth 9
  judge_prepare-Inv msg sender twice none none = search (keeps_rules, Keeps-modify) depth 9

  validate_prepare-Inv :
      (msg : Prepare) (sender : String) → Keeps {W = W} Inv (validate_prepare msg sender)
  unfolding validate_prepare
  validate_prepare-Inv msg sender =
      search (keeps_rules, judge_prepare-Inv, is_primary_for_msg-OnCore) depth 9

  module _ (node : NodeApi W) (again : ThreePhaseMsg → String → M W Unit)
      (again-Inv : (msg : ThreePhaseMsg) (sender : String) → Keeps Inv (again msg sender)) where
    add_to_commits-Inv :
        (msg : Commit) (sender : String) → Keeps Inv (add_to_commits node again msg sender)
    unfolding add_to_commits
    add_to_commits-Inv msg sender =
        search (keeps_rules, Keeps-modify, vote_commit-IsConsistent, try_order-Inv) depth 9

    pub process_commit-Inv :
        (msg : Commit) (sender : String) → Keeps Inv (process_commit node again msg sender)
    unfolding process_commit inc_stat
    process_commit-Inv msg sender =
        search (keeps_rules, Keeps-modify, validate_commit-Inv, add_to_commits-Inv) depth 9

    send_commit :
        (own : Commit) → Keeps Inv (send {W = W} (three_phase_msg (commit own)) commit_sent)
    send_commit own =
        send-OnCore IsConsistent (three_phase_msg (commit own)) commit_sent
          (unfold ordered_keys in refl)

    try_commit-Inv : (p : Prepare) → Keeps Inv (try_commit node again p)
    unfolding try_commit do_commit
    try_commit-Inv p = search (keeps_rules, send_commit, add_to_commits-Inv) depth 9

    drain_commits-Inv :
        (fuel : ℕ) (key : ThreePhaseKey) → Keeps Inv (drain_commits node again fuel key)
    unfolding drain_commits
    drain_commits-Inv zero key = Keeps-raise _
    drain_commits-Inv (suc fuel) key = Keeps-bind _ _ Keeps-read (λ s.
        Keeps-bind _ _ (Keeps-need _ _) (λ waiting.
          Keeps-uncons _ _ _ (Keeps-modify _ (λ t h. h)) (λ x rest.
            Keeps-bind _ _ (Keeps-modify _ (λ t h. h)) (λ _.
              Keeps-bind _ _ (process_commit-Inv x.0 x.1) (λ _. drain_commits-Inv fuel key)))))

    dequeue_commits-Inv :
        (fuel : ℕ) (key : ThreePhaseKey) → Keeps Inv (dequeue_commits node again fuel key)
    unfolding dequeue_commits
    dequeue_commits-Inv fuel key = search (keeps_rules, drain_commits-Inv)

    add_to_prepares-Inv :
        (msg : Prepare) (sender : String) → Keeps Inv (add_to_prepares node again msg sender)
    unfolding add_to_prepares
    add_to_prepares-Inv msg sender =
        search (keeps_rules, Keeps-modify, vote_prepare-IsConsistent, try_commit-Inv) depth 9

    pub process_prepare-Inv :
        (msg : Prepare) (sender : String) → Keeps Inv (process_prepare node again msg sender)
    unfolding process_prepare inc_stat report_suspicious_node_ex
    process_prepare-Inv msg sender =
        search (keeps_rules, Keeps-modify, validate_prepare-Inv, add_to_prepares-Inv) depth 12

    send_prepare :
        (own : Prepare) → Keeps Inv (send {W = W} (three_phase_msg (prepare own)) prepare_sent)
    send_prepare own =
        send-OnCore IsConsistent (three_phase_msg (prepare own)) prepare_sent
          (unfold ordered_keys in refl)

    try_prepare-Inv : (pp : PrePrepare) → Keeps Inv (try_prepare node again pp)
    unfolding try_prepare do_prepare
    try_prepare-Inv pp = search (keeps_rules, send_prepare, add_to_prepares-Inv) depth 9

    drain_prepares-Inv :
        (fuel : ℕ) (key : ThreePhaseKey) → Keeps Inv (drain_prepares node again fuel key)
    unfolding drain_prepares
    drain_prepares-Inv zero key = Keeps-raise _
    drain_prepares-Inv (suc fuel) key = Keeps-bind _ _ Keeps-read (λ s.
        Keeps-bind _ _ (Keeps-need _ _) (λ waiting.
          Keeps-uncons _ _ _ (Keeps-modify _ (λ t h. h)) (λ x rest.
            Keeps-bind _ _ (Keeps-modify _ (λ t h. h)) (λ _.
              Keeps-bind _ _ (process_prepare-Inv x.0 x.1) (λ _. drain_prepares-Inv fuel key)))))

    dequeue_prepares-Inv :
        (fuel : ℕ) (key : ThreePhaseKey) → Keeps Inv (dequeue_prepares node again fuel key)
    unfolding dequeue_prepares
    dequeue_prepares-Inv fuel key = search (keeps_rules, drain_prepares-Inv)

  enqueue_pre_prepare-Inv :
      (pp : PrePrepare) (sender : String) (missing : List ReqKey) (s : Replica W)
      → Inv s
      → Inv (enqueue_pre_prepare pp sender missing s)
  unfolding enqueue_pre_prepare
  enqueue_pre_prepare-Inv pp sender [] s h = h
  enqueue_pre_prepare-Inv pp sender (key ∷ rest) s h = h

  module _ (node : NodeApi W) where
    validate_pre_prepare-Inv :
        (pp : PrePrepare) (sender : String) → Keeps Inv (validate_pre_prepare node pp sender)
    unfolding validate_pre_prepare revert
    validate_pre_prepare-Inv pp sender =
        search (keeps_rules, Keeps-modify, put_rejects-Inv, process_reqs-OnCore) depth 12

    can_process_pre_prepare-Inv :
        (pp : PrePrepare) (sender : String) → Keeps Inv (can_process_pre_prepare node pp sender)
    unfolding can_process_pre_prepare
    can_process_pre_prepare-Inv pp sender =
        search
          (
            keeps_rules, Keeps-modify, is_primary_for_msg-OnCore, enqueue_pre_prepare-Inv,
            validate_pre_prepare-Inv,
          )
          depth 14

    module _ (again : ThreePhaseMsg → String → M W Unit)
        (again-Inv : (msg : ThreePhaseMsg) (sender : String) → Keeps Inv (again msg sender))
        (fuel : ℕ) where
      add_to_pre_prepares-Inv :
          (pp : PrePrepare) → Keeps Inv (add_to_pre_prepares node again fuel pp)
      unfolding add_to_pre_prepares inc_stat
      add_to_pre_prepares-Inv pp =
          search
            (
              keeps_rules, Keeps-modify, store_received-IsConsistent, set_last-Inv,
              dequeue_prepares-Inv, dequeue_commits-Inv, try_prepare-Inv,
            )
            depth 14

      settle_pre_prepare-Inv :
          (pp : PrePrepare) (root : Option String)
          → Keeps Inv (settle_pre_prepare node again fuel pp root)
      unfolding settle_pre_prepare track_batches
      settle_pre_prepare-Inv pp root = search (keeps_rules, Keeps-modify) depth 9

      pub process_pre_prepare-Inv :
          (pp : PrePrepare) (sender : String)
          → Keeps Inv (process_pre_prepare node again fuel pp sender)
      unfolding process_pre_prepare
      process_pre_prepare-Inv pp sender =
          search
            (
              keeps_rules, can_process_pre_prepare-Inv, add_to_pre_prepares-Inv,
              settle_pre_prepare-Inv,
            )
            depth 9

      release_pending-Inv : (s : Replica W) → Inv s → Inv (release_pending node again fuel s)
      unfolding release_pending
      release_pending-Inv s h = h

      drain_pre_prepares-Inv :
          (rounds r : ℕ) → Keeps Inv (drain_pre_prepares node again fuel rounds r)
      unfolding drain_pre_prepares
      drain_pre_prepares-Inv zero r = Keeps-raise _
      drain_pre_prepares-Inv (suc rounds) r =
          let later = drain_pre_prepares-Inv rounds in
          search
            (
              keeps_rules, Keeps-modify, can_pp_seq_no_be_in_view-OnCore, process_pre_prepare-Inv,
              later,
            )
            depth 14

      -- `dequeuePrePrepares` keeps a replica consistent, given that nested calls do.
      pub dequeue_pre_prepares-Inv : Keeps Inv (dequeue_pre_prepares node again fuel)
      unfolding dequeue_pre_prepares
      dequeue_pre_prepares-Inv =
          search (keeps_rules, Keeps-modify, release_pending-Inv, drain_pre_prepares-Inv)
