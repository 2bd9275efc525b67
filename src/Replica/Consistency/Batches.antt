-- ===== src/Replica/Consistency/Batches.antt =====
-- Batches, garbage collection and checkpoints keep a replica consistent.
use plenum.Common.{
  ℕ, zero, suc, ◌≡◌, refl, sym, Bool, true, false, String, List, [], ◌∷◌, ◌++◌, map, ltb,
  if◌then◌else◌,
}
use mathlib.Core.Path.{subst}
use plenum.Messages.{ThreePhaseKey, PrePrepare, Reject, Checkpoint, ThreePhaseMsg, pre_prepare}
use plenum.Replica.{
  Replica, NodeApi, M, three_phase_msg, pre_prepare_sent, reject_msg, checkpoint_msg,
}
use plenum.Replica.Rules.{
  Keeps, Keeps-modify, Keeps-read, Keeps-raise, Keeps-bind, Keeps-uncons, keeps_rules,
}
use plenum.Replica.Status.{set_last_pre_prepare_seq_no, track_batches, send_plain}
use plenum.Replica.Batch.{
  revert, create_3pc_batch, send_pre_prepare, send_batch, send_batches, send_3pc_batch,
  remove_obsolete, remove_obsolete_pp_reqs,
}
use plenum.Replica.Stash.{gc, stash_checkpoint}
use plenum.Replica.Checkpoints.{
  put_checkpoint, process_stashed_msgs, process_stashed_msgs_for_new_water_marks,
  mark_checkpoint_stable, check_if_checkpoint_stable, process_checkpoint,
  process_stashed_checkpoints, add_to_checkpoint,
}
use plenum.Replica.Consistency.{core, OnCore, IsConsistent, ordered_keys, ordered_keys_quiet}
use plenum.Replica.Consistency.Frames.{
  send-OnCore, send_plain-OnCore, fill_batch-OnCore, release_request-OnCore,
}
use plenum.Replica.Consistency.Steps.{
  set_low-IsConsistent, forget-IsConsistent, store_sent-IsConsistent, drop_sent-IsConsistent,
}

pub rejects_quiet : (rejects : List Reject) → ordered_keys (map reject_msg rejects) ≡ []
unfolding ordered_keys
rejects_quiet [] = refl
rejects_quiet (r ∷ rejects) = rejects_quiet rejects

module _ {W : Type 0} where
  abbrev pub Inv : Replica W → Type 0
  Inv = OnCore IsConsistent

  pub put_rejects-Inv :
      (rejects : List Reject) (s : Replica W)
      → Inv s
      → Inv (record s { out_box = s.out_box ++ map reject_msg rejects })
  put_rejects-Inv rejects s h =
      subst (λ keys. IsConsistent (record (core s) { announced = keys }))
        (sym (ordered_keys_quiet s.out_box (map reject_msg rejects) (rejects_quiet rejects))) h

  if-Inv : (b : Bool) (x y : Replica W) → Inv x → Inv y → Inv (if b then x else y)
  if-Inv true x y hx hy = hx
  if-Inv false x y hx hy = hy

  pub set_last-Inv : (n : ℕ) (s : Replica W) → Inv s → Inv (set_last_pre_prepare_seq_no n s)
  unfolding set_last_pre_prepare_seq_no
  set_last-Inv n s h = if-Inv (ltb s.last_pre_prepare_seq_no n) _ s h h

  module _ (node : NodeApi W) where
    pub create_3pc_batch-Inv : (tm ledger_id : ℕ) → Keeps Inv (create_3pc_batch node tm ledger_id)
    unfolding create_3pc_batch
    create_3pc_batch-Inv tm ledger_id =
        search (keeps_rules, Keeps-modify, fill_batch-OnCore, set_last-Inv, put_rejects-Inv) depth
          12

    send_pre_prepare-Inv : (pp : PrePrepare) → Keeps Inv (send_pre_prepare node pp)
    unfolding send_pre_prepare
    send_pre_prepare-Inv pp =
        Keeps-bind _ _ (Keeps-modify _ (λ s h. store_sent-IsConsistent s h pp)) (λ _.
          send-OnCore IsConsistent (three_phase_msg (pre_prepare pp)) pre_prepare_sent
            (unfold ordered_keys in refl))

    send_batch-Inv : (tm ledger_id : ℕ) → Keeps Inv (send_batch node tm ledger_id)
    unfolding send_batch track_batches
    send_batch-Inv tm ledger_id =
        search (keeps_rules, Keeps-modify, create_3pc_batch-Inv, send_pre_prepare-Inv) depth 9

    send_batches-Inv :
        (tm now : ℕ) (ids : List ℕ) (r : ℕ) → Keeps Inv (send_batches node tm now ids r)
    unfolding send_batches
    send_batches-Inv tm now [] r = search keeps_rules
    send_batches-Inv tm now (i ∷ ids) r =
        let rest = send_batches-Inv tm now ids in search (keeps_rules, send_batch-Inv, rest) depth 9

    -- `send3PCBatch` keeps a replica consistent, however it ends.
    pub send_3pc_batch-Inv : (tm now : ℕ) → Keeps Inv (send_3pc_batch node tm now)
    unfolding send_3pc_batch
    send_3pc_batch-Inv tm now = search (keeps_rules, Keeps-modify, send_batches-Inv) depth 9

    remove_obsolete-Inv : (key : ThreePhaseKey) → Keeps Inv (remove_obsolete node key)
    unfolding remove_obsolete revert
    remove_obsolete-Inv key = search (keeps_rules, Keeps-modify, drop_sent-IsConsistent) depth 12

    pub remove_obsolete_pp_reqs-Inv : Keeps Inv (remove_obsolete_pp_reqs node)
    unfolding remove_obsolete_pp_reqs
    remove_obsolete_pp_reqs-Inv = search (keeps_rules, remove_obsolete-Inv) depth 9

  gc-Inv : (till : ℕ) → Keeps Inv (gc till)
  unfolding gc
  gc-Inv till =
      search (keeps_rules, Keeps-modify, forget-IsConsistent, release_request-OnCore) depth 9

  module _ (node : NodeApi W) (again : ThreePhaseMsg → String → M W Unit)
      (again-Inv : (msg : ThreePhaseMsg) (sender : String) → Keeps Inv (again msg sender)) where
    process_stashed_msgs-Inv : (n : ℕ) → Keeps Inv (process_stashed_msgs node again n)
    unfolding process_stashed_msgs
    process_stashed_msgs-Inv zero = search keeps_rules
    process_stashed_msgs-Inv (suc n) = Keeps-bind _ _ Keeps-read (λ s.
        Keeps-uncons _ _ _ (Keeps-raise _) (λ x rest.
          Keeps-bind _ _ (Keeps-modify _ (λ t h. h))
            (λ _. Keeps-bind _ _ (again-Inv x.0 x.1) (λ _. process_stashed_msgs-Inv n))))

    mark_checkpoint_stable-Inv : (n : ℕ) → Keeps Inv (mark_checkpoint_stable node again n)
    unfolding mark_checkpoint_stable process_stashed_msgs_for_new_water_marks put_checkpoint
    mark_checkpoint_stable-Inv n =
        search (keeps_rules, Keeps-modify, set_low-IsConsistent, gc-Inv, process_stashed_msgs-Inv)
          depth 14

    pub process_checkpoint-Inv :
        (msg : Checkpoint) (sender : String) → Keeps Inv (process_checkpoint node again msg sender)
    unfolding process_checkpoint check_if_checkpoint_stable put_checkpoint stash_checkpoint
    process_checkpoint-Inv msg sender =
        search (keeps_rules, Keeps-modify, mark_checkpoint_stable-Inv) depth 14

    process_stashed_checkpoints-Inv :
        (key : ℕ × ℕ) → Keeps Inv (process_stashed_checkpoints node again key)
    unfolding process_stashed_checkpoints
    process_stashed_checkpoints-Inv key = search (keeps_rules, process_checkpoint-Inv)

    pub add_to_checkpoint-Inv :
        (n : ℕ) (digest : String) → Keeps Inv (add_to_checkpoint node again n digest)
    unfolding add_to_checkpoint put_checkpoint
    add_to_checkpoint-Inv n digest =
        search (keeps_rules, Keeps-modify, send_plain_checkpoint, process_stashed_checkpoints-Inv)
          depth 12
      where
        send_plain_checkpoint : (c : Checkpoint) → Keeps Inv (send_plain {W = W} (checkpoint_msg c))
        send_plain_checkpoint c =
            send_plain-OnCore IsConsistent (checkpoint_msg c) (unfold ordered_keys in refl)
