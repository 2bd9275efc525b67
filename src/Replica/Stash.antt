-- ===== src/Replica/Stash.antt =====
-- What a replica keeps for later: PRE-PREPAREs, PREPAREs and COMMITs that came too early, messages
-- outside the water marks, checkpoints; and the garbage collection behind a stable checkpoint.
use plenum.Common.{
  ℕ, not, String, List, [], ◌∷◌, ◌++◌, leb, if◌then◌else◌, contains, add, nat_eq, string_eq,
  pair_eq, keep, keep,
}
use plenum.Common.Int.{pred_ℤ, is_zero}
use plenum.Common.Dict
use plenum.Common.Dict.{Dict, get_or, keys}
use plenum.Messages.{ReqKey, ThreePhaseKey, PrePrepare, Prepare, Commit, Checkpoint, ThreePhaseMsg}
use plenum.Replica.{Replica, M, key_error, read, modify, need, ◌>>=◌, ◌>>◌, for_each}

-- the requests of the batches up to a number, each once, after those that are known already
unfoldable pub add_all : List ReqKey → List ReqKey → List ReqKey
add_all known [] = known
add_all known (key ∷ rest) = add_all (add key known) rest

unfoldable pub reqs_till : ℕ → List ReqKey → Dict ThreePhaseKey PrePrepare → List ReqKey
unfolding add_all
reqs_till till known [] = known
reqs_till till known ((key, pp) ∷ d) =
    reqs_till till (if leb key.1 till then add_all known pp.req_idr else known) d

-- the keys of a dictionary up to a number
unfoldable pub till_keys : {V : Type 0} → ℕ → Dict ThreePhaseKey V → List ThreePhaseKey
till_keys till d = keep (λ key. leb key.1 till) (keys d)

-- every entry with one of the keys is removed
unfoldable pub del_all :
    {V : Type 0} → List ThreePhaseKey → Dict ThreePhaseKey V → Dict ThreePhaseKey V
del_all ks d = keep (λ entry. not (contains ks entry.0)) d

module _ {W : Type 0} where
  -- `enqueuePrePrepare`: with requests that are not finalised, and without
  unfoldable pub enqueue_pre_prepare : PrePrepare → String → List ReqKey → Replica W → Replica W
  enqueue_pre_prepare pp sender [] s = record s {
    pre_prepares_pending_prev_pp =
        Dict.sorted_set (λ k. k.1) (pp.view_no, pp.pp_seq_no) (pp, sender)
          s.pre_prepares_pending_prev_pp;
  }
  enqueue_pre_prepare pp sender (key ∷ rest) s = record s {
    pre_prepares_pending_fin_reqs =
        s.pre_prepares_pending_fin_reqs ++ (pp, sender, key ∷ rest) ∷ [];
  }

  unfoldable pub enqueue_prepare : Prepare → String → Replica W → Replica W
  enqueue_prepare msg sender s =
      let key : ThreePhaseKey = (msg.view_no, msg.pp_seq_no) in
      record s {
        prepares_waiting_for_pre_prepare =
            Dict.set key
              (get_or (Dict.get key s.prepares_waiting_for_pre_prepare) [] ++ (msg, sender) ∷ [])
              s.prepares_waiting_for_pre_prepare;
      }

  unfoldable pub enqueue_commit : Commit → String → Replica W → Replica W
  enqueue_commit msg sender s =
      let key : ThreePhaseKey = (msg.view_no, msg.pp_seq_no) in
      record s {
        commits_waiting_for_prepare =
            Dict.set key
              (get_or (Dict.get key s.commits_waiting_for_prepare) [] ++ (msg, sender) ∷ [])
              s.commits_waiting_for_prepare;
      }

  unfoldable pub stash_checkpoint : Checkpoint → String → Replica W → Replica W
  stash_checkpoint ck sender s =
      let key : ℕ × ℕ = (ck.seq_no_start, ck.seq_no_end) in
      record s {
        stashed_recvd_checkpoints =
            Dict.set key (Dict.set sender ck (get_or (Dict.get key s.stashed_recvd_checkpoints) []))
              s.stashed_recvd_checkpoints;
      }

  unfoldable pub stash_outside_watermarks : ThreePhaseMsg × String → Replica W → Replica W
  stash_outside_watermarks item s = record s {
    stashing_while_outside_water_marks = s.stashing_while_outside_water_marks ++ item ∷ [];
  }

  -- `self.requests[k].forwardedTo -= 1`, and the removal of the request at zero
  unfoldable pub release_request : ReqKey → M W Unit
  release_request key = do
    s ← read
    state ← need key_error (Dict.get key s.requests)
    let left = pred_ℤ state.forwarded_to
    modify (λ s'. record s' {
      requests =
          if is_zero left
          then Dict.del key s'.requests
          else Dict.set key (record state { forwarded_to = left }) s'.requests;
    })

  unfoldable pub forget : List ThreePhaseKey → Replica W → Replica W
  unfolding del_all
  forget ks s = record s {
    sent_pre_prepares = del_all ks s.sent_pre_prepares;
    pre_prepares = del_all ks s.pre_prepares;
    prepares = del_all ks s.prepares;
    commits = del_all ks s.commits;
  }

  unfoldable pub gc : ℕ → M W Unit
  unfolding reqs_till release_request till_keys forget
  gc till_seq_no = do
    s ← read
    modify
        (forget (till_keys till_seq_no s.sent_pre_prepares ++ till_keys till_seq_no s.pre_prepares))
    for_each (reqs_till till_seq_no (reqs_till till_seq_no [] s.sent_pre_prepares) s.pre_prepares)
        release_request
