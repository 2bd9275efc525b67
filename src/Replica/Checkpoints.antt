-- ===== src/Replica/Checkpoints.antt =====
-- Checkpoints: from an ordered batch to a stable checkpoint, the new water marks and the messages
-- that were stashed for them. `again` stands for `dispatchThreePhaseMsg`, which these methods reach
-- through `processStashedMsgsForNewWaterMarks`; `Dispatch` ties the knot.
use Prim.Native.String.{◌++◌ as join}
use plenum.Common.{
  ℕ, zero, suc, ◌+◌, ◌-◌, ◌*◌, Bool, true, false, ◌&&◌, String, List, [], ◌∷◌, ◌++◌, Option, none,
  some, leb, if◌then◌else◌, ◌==◌, length, nat_eq, string_eq, pair_eq, option_eq,
}
use plenum.Common.Dict
use plenum.Common.Dict.{Dict, get_or, keys, is_some}
use plenum.Messages.{Checkpoint, CheckpointState, ThreePhaseMsg}
use plenum.Replica.{
  Replica, NodeApi, M, key_error, index_error, raise, checkpoint_msg, read, modify, pure, need,
  ◌>>=◌, ◌>>◌, when, for_each, uncons, maybe,
}
use plenum.Replica.Status.{set_low, is_pp_seq_no_stable, send_plain}
use plenum.Replica.Stash.{stash_checkpoint, gc}

-- `serialize` of a list of texts (plenum/common/signing.py)
unfoldable pub serialize : List String → String
serialize [] = ""
serialize (x ∷ []) = x
serialize (x ∷ y ∷ rest) = join x (join "," (serialize (y ∷ rest)))

-- The first checkpoint that satisfies a test on its range, with its state.
unfoldable pub find_checkpoint :
    (ℕ × ℕ → Bool) → Dict (ℕ × ℕ) CheckpointState → Option ((ℕ × ℕ) × CheckpointState)
find_checkpoint test [] = none
find_checkpoint test ((key, state) ∷ d) =
    if test key then some (key, state) else find_checkpoint test d

-- The ranges before the first that satisfies a test.
unfoldable pub keys_before : (ℕ × ℕ → Bool) → Dict (ℕ × ℕ) CheckpointState → List (ℕ × ℕ)
keys_before test [] = []
keys_before test ((key, state) ∷ d) = if test key then [] else key ∷ keys_before test d

-- every entry with one of the keys is removed
unfoldable pub pop_all : List (ℕ × ℕ) → Dict (ℕ × ℕ) CheckpointState → Dict (ℕ × ℕ) CheckpointState
pop_all [] d = d
pop_all (k ∷ ks) d = pop_all ks (Dict.del k d)

module _ {W : Type 0} where
  unfoldable pub put_checkpoint : ℕ × ℕ → CheckpointState → Replica W → Replica W
  put_checkpoint key state s = record s {
    checkpoints = Dict.sorted_set (λ k. k.0) key state s.checkpoints;
  }

  -- the first half of `addToCheckpoint`, with `_newCheckpointState`: the range that takes the batch,
  -- and its state with the batch's digest
  unfoldable pub extend_checkpoint : ℕ → String → Replica W → (ℕ × ℕ) × CheckpointState
  unfolding find_checkpoint
  extend_checkpoint pp_seq_no digest s =
      elim (find_checkpoint (λ key. leb key.0 pp_seq_no && leb pp_seq_no key.1) s.checkpoints) [
        | some (key, state) ↦
            (key, record state { digests = state.digests ++ digest ∷ []; seq_no = pp_seq_no })
        | none ↦ (
          (pp_seq_no, pp_seq_no + s.config.chk_freq - 1),
          record {
            seq_no = pp_seq_no;
            digests = digest ∷ [];
            digest = none;
            received_digests = [];
            is_stable = false;
          },
        )
      ]

module _ {W : Type 0} (node : NodeApi W) (again : ThreePhaseMsg → String → M W Unit) where
  -- The loop of `processStashedMsgsForNewWaterMarks`. `popleft` fails on an empty deque, which a
  -- nested run of this method may leave behind.
  unfoldable pub process_stashed_msgs : ℕ → M W Unit
  process_stashed_msgs zero = pure tt
  process_stashed_msgs (suc items_to_consume) = do
    s ← read
    uncons (raise index_error)
        (λ (msg, sender) rest. do
          modify (λ s'. record s' { stashing_while_outside_water_marks = rest })
          again msg sender
          process_stashed_msgs items_to_consume)
        s.stashing_while_outside_water_marks

  unfoldable pub process_stashed_msgs_for_new_water_marks : M W Unit
  unfolding process_stashed_msgs
  process_stashed_msgs_for_new_water_marks = do
    s ← read
    process_stashed_msgs (length s.stashing_while_outside_water_marks)

  -- `markCheckPointStable`: without the checkpoint it only logs
  unfoldable pub mark_checkpoint_stable : ℕ → M W Unit
  unfolding find_checkpoint keys_before pop_all process_stashed_msgs_for_new_water_marks
  mark_checkpoint_stable seq_no = do
    s ← read
    maybe (pure tt)
        (λ (key, state). do
          modify (put_checkpoint key (record state { is_stable = true }))
          modify (set_low seq_no)
          modify (λ s'. record s' {
            checkpoints = pop_all (keys_before (λ k. k.1 == seq_no) s.checkpoints) s'.checkpoints;
          })
          gc seq_no
          process_stashed_msgs_for_new_water_marks)
        (find_checkpoint (λ key. key.1 == seq_no) s.checkpoints)

  -- `checkIfCheckpointStable`; no caller uses its result
  unfoldable pub check_if_checkpoint_stable : ℕ × ℕ → M W Unit
  unfolding mark_checkpoint_stable
  check_if_checkpoint_stable key = do
    s ← read
    state ← need key_error (Dict.get key s.checkpoints)
    when (length state.received_digests == 2 * s.f) (mark_checkpoint_stable state.seq_no)

  unfoldable pub process_checkpoint : Checkpoint → String → M W Unit
  unfolding check_if_checkpoint_stable
  process_checkpoint msg sender = do
    s ← read
    let key : ℕ × ℕ = (msg.seq_no_start, msg.seq_no_end)
    let accept : CheckpointState → M W Unit = λ state. do
      modify (
          put_checkpoint key
            (record state { received_digests = Dict.set sender msg.digest state.received_digests }))
      check_if_checkpoint_stable key
    let stash = modify (stash_checkpoint msg sender)
    let compare_digests : CheckpointState → M W Unit =
        λ state. maybe stash (λ digest. when (digest == msg.digest) (accept state)) state.digest
    if is_pp_seq_no_stable msg.seq_no_end s
        then pure tt
        else maybe stash compare_digests (Dict.get key s.checkpoints)

  -- `processStashedCheckpoints`; no caller uses its result
  unfoldable pub process_stashed_checkpoints : ℕ × ℕ → M W Unit
  unfolding process_checkpoint
  process_stashed_checkpoints key = do
    s ← read
    for_each (get_or (Dict.get key s.stashed_recvd_checkpoints) [])
        (λ entry. process_checkpoint entry.1 entry.0)

  unfoldable pub add_to_checkpoint : ℕ → String → M W Unit
  unfolding extend_checkpoint process_stashed_checkpoints
  add_to_checkpoint pp_seq_no digest = do
    s ← read
    let (key, state) = extend_checkpoint pp_seq_no digest s
    modify (put_checkpoint key state)
    let final = node.sha256 (serialize state.digests)
    when (length state.digests == s.config.chk_freq) (do
      modify (put_checkpoint key (record state { digest = some final; digests = [] }))
      send_plain (
          checkpoint_msg (record {
            inst_id = s.inst_id;
            view_no = s.view_no;
            seq_no_start = key.0;
            seq_no_end = key.1;
            digest = final;
          }))
      process_stashed_checkpoints key)
