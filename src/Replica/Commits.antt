-- ===== src/Replica/Commits.antt =====
-- COMMITs: their validation, the votes, those that waited for a PRE-PREPARE, and the replica's own.
use plenum.Common.{
  ℕ, zero, suc, Bool, true, false, not, ◌&&◌, String, if◌then◌else◌, nat_eq, string_eq, pair_eq,
}
use plenum.Common.Dict
use plenum.Common.Dict.{Dict, get_or, is_some}
use plenum.Messages.{ThreePhaseKey, Prepare, Commit, commit, ThreePhaseMsg}
use plenum.Votes.{add_msg, has_vote, has_enough_votes, three_phase, prepare_quorum}
use plenum.Replica.{
  Replica, NodeApi, M, key_error, suspicious_node, out_of_fuel, duplicate_cm_sent, three_phase_msg,
  commit_rcvd, commit_sent, read, modify, pure, raise, need, ◌>>=◌, ◌>>◌, when, uncons,
}
use plenum.Replica.Status.{get_pre_prepare, is_pp_seq_no_stable, should_participate, send, inc_stat}
use plenum.Replica.Stash.{enqueue_commit}
use plenum.Replica.Order.{try_order}

abbrev pub commit_key : Commit → ThreePhaseKey
commit_key c = (c.view_no, c.pp_seq_no)

abbrev pub prepare_key : Prepare → ThreePhaseKey
prepare_key p = (p.view_no, p.pp_seq_no)

module _ {W : Type 0} where
  unfoldable pub validate_commit : Commit → String → M W Bool
  validate_commit msg sender = do
    s ← read
    let key = commit_key msg
    if not (is_some (get_pre_prepare key s))
        then (do modify (enqueue_commit msg sender); pure false)
        else if not (Dict.has_key key s.prepares)
            && not (Dict.has_key key s.prepares_waiting_for_pre_prepare)
        then pure false
        else if has_vote three_phase key sender s.commits
        then raise (suspicious_node sender duplicate_cm_sent (commit msg))
        else pure true

  unfoldable pub has_committed : ThreePhaseKey → Replica W → Bool
  has_committed key s = has_vote three_phase key s.name s.commits

  -- `canCommit`, without the reason that it gives
  unfoldable pub can_commit : ThreePhaseKey → Replica W → Bool
  unfolding has_committed
  can_commit key s =
      should_participate key.0 key.1 s
      && has_enough_votes three_phase key (prepare_quorum s.f) s.prepares
      && not (has_committed key s)

  unfoldable pub vote_commit : ThreePhaseKey → String → Replica W → Replica W
  vote_commit key sender s = record s { commits = add_msg three_phase key sender s.commits }

module _ {W : Type 0} (node : NodeApi W) (again : ThreePhaseMsg → String → M W Unit) where
  unfoldable pub add_to_commits : Commit → String → M W Unit
  unfolding vote_commit
  add_to_commits msg sender = do
    modify (vote_commit (commit_key msg) sender)
    try_order node again msg
    pure tt

  unfoldable pub process_commit : Commit → String → M W Unit
  unfolding add_to_commits
  process_commit msg sender = do
    s ← read
    if is_pp_seq_no_stable msg.pp_seq_no s then pure tt else (do
      valid ← validate_commit msg sender
      when valid (do modify (inc_stat commit_rcvd); add_to_commits msg sender))

  unfoldable pub do_commit : Prepare → M W Unit
  unfolding add_to_commits
  do_commit p = do
    s ← read
    let own : Commit = record { inst_id = s.inst_id; view_no = p.view_no; pp_seq_no = p.pp_seq_no }
    send (three_phase_msg (commit own)) commit_sent
    add_to_commits own s.name

  unfoldable pub try_commit : Prepare → M W Unit
  unfolding do_commit
  try_commit p = do s ← read; when (can_commit (prepare_key p) s) (do_commit p)

  -- the `while` loop of `dequeueCommits`, on fuel: each round takes one waiting COMMIT
  unfoldable pub drain_commits : ℕ → ThreePhaseKey → M W Unit
  unfolding process_commit
  drain_commits zero key = raise out_of_fuel
  drain_commits (suc fuel) key = do
    s ← read
    waiting ← need key_error (Dict.get key s.commits_waiting_for_prepare)
    uncons
        (modify (λ s'. record s' {
          commits_waiting_for_prepare = Dict.del key s'.commits_waiting_for_prepare;
        }))
        (λ (msg, sender) rest. do
          modify (λ s'. record s' {
            commits_waiting_for_prepare = Dict.set key rest s'.commits_waiting_for_prepare;
          })
          process_commit msg sender
          drain_commits fuel key)
        waiting

  unfoldable pub dequeue_commits : ℕ → ThreePhaseKey → M W Unit
  unfolding drain_commits
  dequeue_commits fuel key = do
    s ← read
    when (Dict.has_key key s.commits_waiting_for_prepare) (drain_commits fuel key)
