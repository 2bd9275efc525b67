-- ===== src/Replica/Prepares.antt =====
-- PREPAREs: their validation, the votes, those that waited for a PRE-PREPARE, and the replica's own.
use plenum.Common.{
  ℕ, zero, suc, Bool, true, false, not, ◌&&◌, String, Option, none, some, if◌then◌else◌, ◌==◌,
  nat_eq, string_eq, pair_eq, option_eq,
}
use plenum.Common.Dict
use plenum.Common.Dict.{Dict, get_or, is_some}
use plenum.Messages.{ThreePhaseKey, PrePrepare, Prepare, prepare, ThreePhaseMsg}
use plenum.Votes.{add_msg, has_vote, three_phase}
use plenum.Replica.{
  Replica, NodeApi, M, key_error, suspicious_node, out_of_fuel, pr_frm_primary, duplicate_pr_sent,
  unknown_pr_sent, pr_digest_wrong, pr_state_wrong, pr_txn_wrong, three_phase_msg, prepare_rcvd,
  prepare_sent, read, modify, pure, raise, need, ◌>>=◌, ◌>>◌, when, uncons, catch_suspicious,
}
use plenum.Replica.Status.{
  get_pre_prepare, is_pp_seq_no_stable, should_participate, send, inc_stat, is_primary_for_msg,
  is_msg_from_primary, report_suspicious_node_ex,
}
use plenum.Replica.Stash.{enqueue_prepare}
use plenum.Replica.Commits.{prepare_key, try_commit}

unfoldable pub prepare_for : PrePrepare → ℕ → Prepare
prepare_for pp inst_id = record {
  inst_id = inst_id;
  view_no = pp.view_no;
  pp_seq_no = pp.pp_seq_no;
  digest = pp.digest;
  state_root_hash = pp.state_root_hash;
  txn_root_hash = pp.txn_root_hash;
}

module _ {W : Type 0} where
  -- the end of `validatePrepare`: the PREPARE against the PRE-PREPARE
  unfoldable pub match_prepare : Prepare → String → PrePrepare → M W Bool
  match_prepare msg sender pp =
      if not (msg.digest == pp.digest)
      then raise (suspicious_node sender pr_digest_wrong (prepare msg))
      else if not (msg.state_root_hash == pp.state_root_hash)
      then raise (suspicious_node sender pr_state_wrong (prepare msg))
      else if not (msg.txn_root_hash == pp.txn_root_hash)
      then raise (suspicious_node sender pr_txn_wrong (prepare msg))
      else pure true

  -- the middle of `validatePrepare`, by the primary status and the PRE-PREPARE
  unfoldable pub judge_prepare :
      Prepare → String → Bool → Option Bool → Option PrePrepare → M W Bool
  unfolding match_prepare
  judge_prepare msg sender twice (some is_primary) found =
      if twice then raise (suspicious_node sender duplicate_pr_sent (prepare msg)) else elim found [
        | some pp ↦ match_prepare msg sender pp
        | none ↦
            if is_primary
            then raise (suspicious_node sender unknown_pr_sent (prepare msg))
            else (do modify (enqueue_prepare msg sender); pure false)
      ]
  judge_prepare msg sender twice none (some pp) = match_prepare msg sender pp
  judge_prepare msg sender twice none none = do modify (enqueue_prepare msg sender); pure false

  unfoldable pub validate_prepare : Prepare → String → M W Bool
  unfolding judge_prepare
  validate_prepare msg sender = do
    status ← is_primary_for_msg msg.view_no
    s ← read
    let key = prepare_key msg
    if is_msg_from_primary sender s
        then raise (suspicious_node sender pr_frm_primary (prepare msg))
        else judge_prepare msg sender (has_vote three_phase key sender s.prepares) status
            (get_pre_prepare key s)

  unfoldable pub has_prepared : ThreePhaseKey → Replica W → Bool
  has_prepared key s = has_vote three_phase key s.name s.prepares

  -- `canPrepare`, without the reason that it gives
  unfoldable pub can_prepare : PrePrepare → Replica W → Bool
  unfolding has_prepared
  can_prepare pp s =
      should_participate pp.view_no pp.pp_seq_no s
      && not (has_prepared (pp.view_no, pp.pp_seq_no) s)

  unfoldable pub vote_prepare : ThreePhaseKey → String → Replica W → Replica W
  vote_prepare key sender s = record s { prepares = add_msg three_phase key sender s.prepares }

module _ {W : Type 0} (node : NodeApi W) (again : ThreePhaseMsg → String → M W Unit) where
  unfoldable pub add_to_prepares : Prepare → String → M W Unit
  unfolding vote_prepare
  add_to_prepares msg sender = do
    modify (vote_prepare (prepare_key msg) sender)
    try_commit node again msg

  unfoldable pub process_prepare : Prepare → String → M W Unit
  unfolding add_to_prepares
  process_prepare msg sender = do
    s ← read
    let body : M W Unit = do
      valid ← validate_prepare msg sender
      when valid (do add_to_prepares msg sender; modify (inc_stat prepare_rcvd))
    if is_pp_seq_no_stable msg.pp_seq_no s
        then pure tt
        else catch_suspicious report_suspicious_node_ex body

  unfoldable pub do_prepare : PrePrepare → M W Unit
  unfolding prepare_for add_to_prepares
  do_prepare pp = do
    s ← read
    send (three_phase_msg (prepare (prepare_for pp s.inst_id))) prepare_sent
    add_to_prepares (prepare_for pp s.inst_id) s.name

  unfoldable pub try_prepare : PrePrepare → M W Unit
  unfolding do_prepare
  try_prepare pp = do s ← read; when (can_prepare pp s) (do_prepare pp)

  -- the `while` loop of `dequeuePrepares`, on fuel: each round takes one waiting PREPARE
  unfoldable pub drain_prepares : ℕ → ThreePhaseKey → M W Unit
  unfolding process_prepare
  drain_prepares zero key = raise out_of_fuel
  drain_prepares (suc fuel) key = do
    s ← read
    waiting ← need key_error (Dict.get key s.prepares_waiting_for_pre_prepare)
    uncons
        (modify (λ s'. record s' {
          prepares_waiting_for_pre_prepare = Dict.del key s'.prepares_waiting_for_pre_prepare;
        }))
        (λ (msg, sender) rest. do
          modify (λ s'. record s' {
            prepares_waiting_for_pre_prepare =
                Dict.set key rest s'.prepares_waiting_for_pre_prepare;
          })
          process_prepare msg sender
          drain_prepares fuel key)
        waiting

  unfoldable pub dequeue_prepares : ℕ → ThreePhaseKey → M W Unit
  unfolding drain_prepares
  dequeue_prepares fuel key = do
    s ← read
    when (Dict.has_key key s.prepares_waiting_for_pre_prepare) (drain_prepares fuel key)
