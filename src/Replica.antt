-- ===== src/Replica.antt =====
-- plenum/server/replica.py: the state of a `Replica`, and the effects of its methods. The modules
-- below model the methods, each file a group of them.
pub mod Status
pub mod Batch
pub mod Stash
pub mod Checkpoints
pub mod Order
pub mod Commits
pub mod Prepares
pub mod PrePrepares
pub mod Dispatch
pub mod History
pub mod Rules
pub mod Returning
pub mod Consistency
pub mod Behaviour
use plenum.Common.{
  ℕ, ◌+◌, Bool, true, false, String, List, [], ◌∷◌, ◌++◌, Option, none, some, if◌then◌else◌,
}
use plenum.Common.Dict.{Dict}
use plenum.Messages.{
  ReqKey, ThreePhaseKey, Request, PrePrepare, Prepare, Commit, Ordered, Checkpoint, CheckpointState,
  Reject, ThreePhaseMsg,
}
use plenum.Votes.{ThreePhaseVotes}
use plenum.Propagator.{Requests}

-- The suspicions that a replica raises (plenum/server/suspicion_codes.py).
pub data Suspicion : Type 0 where
  ppr_to_primary duplicate_ppr_sent duplicate_pr_sent unknown_pr_sent pr_digest_wrong : Suspicion
  duplicate_cm_sent ppr_frm_non_primary pr_frm_primary ppr_digest_wrong : Suspicion
  ppr_reject_wrong ppr_state_wrong ppr_txn_wrong pr_state_wrong pr_txn_wrong : Suspicion

-- `request_error` is the exception of a request's validation or application, with its text.
-- `out_of_fuel` is no exception of the program: it ends a run that is deeper than the fuel given.
pub data Exn : Type 0 where
  suspicious_node : String → Suspicion → ThreePhaseMsg → Exn
  request_error : String → Exn
  key_error index_error attribute_error assertion_error runtime_error out_of_fuel : Exn

pub data OutMsg : Type 0 where
  three_phase_msg : ThreePhaseMsg → OutMsg
  ordered_msg : Ordered → OutMsg
  checkpoint_msg : Checkpoint → OutMsg
  reject_msg : Reject → OutMsg
  exception_msg : Exn → OutMsg

-- `TPCStat`, less the first, which nothing counts.
pub data TpcStat : Type 0 where
  pre_prepare_sent pre_prepare_rcvd prepare_rcvd prepare_sent commit_rcvd commit_sent : TpcStat
  order_sent : TpcStat

abbrev pub stat_code : TpcStat → ℕ
stat_code pre_prepare_sent = 1
stat_code pre_prepare_rcvd = 2
stat_code prepare_rcvd = 3
stat_code prepare_sent = 4
stat_code commit_rcvd = 5
stat_code commit_sent = 6
stat_code order_sent = 7

-- plenum/config.py
pub record Config : Type 0 where
  pub log_size : ℕ
  pub chk_freq : ℕ
  pub max_3pc_batch_size : ℕ
  pub max_3pc_batch_wait : ℕ

-- What a replica uses of its node's ledgers and states, over the world `W` that they stand in, and
-- the hash. A root hash is its hexadecimal text.
pub record NodeApi (W : Type 0) : Type 0 where
  -- the text of the exception that `doDynamicValidation` raises, if it does
  pub do_dynamic_validation : Request → W → Option String
  -- `applyReq`: the world after it, and the text of the exception that it raises, if it does
  pub apply_req : Request → W → W × Option String
  -- `getState(ledger).headHash`
  pub head_hash : ℕ → W → String
  -- `getLedger(ledger)`: `uncommittedRootHash`, or `tree.root_hash` if there is none
  pub root_hash : ℕ → W → String
  -- `getState(ledger).revertToHead`
  pub revert_to_head : ℕ → Option String → W → W
  -- `getLedger(ledger).discardTxns`
  pub discard_txns : ℕ → ℕ → W → W
  pub on_batch_created : ℕ → Option String → W → W
  pub on_batch_rejected : ℕ → W → W
  pub ledger_id_for_request : Request → ℕ
  -- `sha256(text).hexdigest()`
  pub sha256 : String → String

-- The fields of a replica, and those of its node that it reads: `is_participating`, `view_no`, `f`,
-- `requests` and the world. `reported` holds the calls of `node.reportSuspiciousNodeEx`, and
-- `is_repeating` says that `process_stashed_out_of_order_commits` is a repeating action.
pub record Replica (W : Type 0) : Type 0 where
  pub config : Config
  pub name : String
  pub inst_id : ℕ
  pub is_master : Bool
  pub is_participating : Bool
  pub view_no : ℕ
  pub f : ℕ
  pub requests : Requests
  pub world : W
  pub reported : List Exn
  pub stats : Dict ℕ ℕ
  pub out_box : List OutMsg
  pub primary_name : Option String
  pub primary_names : Dict ℕ (Option String)
  pub post_election_msgs : List (ThreePhaseMsg × String)
  pub pre_prepares_pending_fin_reqs : List (PrePrepare × String × List ReqKey)
  pub pre_prepares_pending_prev_pp : Dict ThreePhaseKey (PrePrepare × String)
  pub prepares_waiting_for_pre_prepare : Dict ThreePhaseKey (List (Prepare × String))
  pub commits_waiting_for_prepare : Dict ThreePhaseKey (List (Commit × String))
  pub sent_pre_prepares : Dict ThreePhaseKey PrePrepare
  pub pre_prepares : Dict ThreePhaseKey PrePrepare
  pub prepares : Dict ThreePhaseKey ThreePhaseVotes
  pub commits : Dict ThreePhaseKey ThreePhaseVotes
  pub ordered : List ThreePhaseKey
  pub stashing_while_catching_up : List ThreePhaseKey
  pub stashed_out_of_order_commits : Dict ℕ (Dict ℕ Commit)
  pub is_repeating : Bool
  pub checkpoints : Dict (ℕ × ℕ) CheckpointState
  pub stashed_recvd_checkpoints : Dict (ℕ × ℕ) (Dict String Checkpoint)
  pub stashing_while_outside_water_marks : List (ThreePhaseMsg × String)
  -- the water marks `h` and `H`
  pub low : ℕ
  pub high : ℕ
  pub last_pre_prepare_seq_no : ℕ
  pub request_queues : Dict ℕ (List ReqKey)
  -- a batch by its sequence number: accepted requests, time, state root before it
  pub batches : Dict ℕ (ℕ × ℕ × Option String)
  pub last_batch_created : ℕ
  pub last_ordered_pp_seq_no : ℕ
  -- the last sequence number that was ordered in a view that has ended
  pub view_ends_at : Dict ℕ ℕ

-- A method changes the replica and returns or raises. What it did before it raised stays done.
pub data Result (A : Type 0) : Type 0 where
  ok : A → Result A
  raised : Exn → Result A

abbrev pub M : Type 0 → Type 0 → Type 0
M W A = Replica W → Result A × Replica W

module _ {W : Type 0} where
  unfoldable pub read : M W (Replica W)
  read s = (ok s, s)

  unfoldable pub modify : (Replica W → Replica W) → M W Unit
  modify g s = (ok tt, g s)

module _ {W A : Type 0} where
  unfoldable pub pure : A → M W A
  pure a s = (ok a, s)

  unfoldable pub raise : Exn → M W A
  raise e s = (raised e, s)

  -- `d[k]` and the like, where a missing value raises.
  unfoldable pub need : Exn → Option A → M W A
  unfolding raise pure
  need e none = raise e
  need e (some a) = pure a

module _ {W A B : Type 0} where
  abbrev pub continue : Result A → (A → M W B) → M W B
  continue (ok a) g s = g a s
  continue (raised e) g s = (raised e, s)

  -- To open this is to open all the effects.
  infixl 5 ◌>>=◌ ◌>>◌
  unfoldable pub ◌>>=◌ : M W A → (A → M W B) → M W B
  unfolding read modify pure raise need
  ◌>>=◌ m g s = let (r, s') = m s in continue r g s'

  abbrev pub ◌>>◌ : M W A → M W B → M W B
  m >> n = m >>= λ _. n

-- A value that may be missing, and a list that may be empty.
module _ {ℓ} {A : Type 0} {B : Type ℓ} where
  abbrev pub maybe : B → (A → B) → Option A → B
  maybe b g none = b
  maybe b g (some a) = g a

  abbrev pub uncons : B → (A → List A → B) → List A → B
  uncons b g [] = b
  uncons b g (x ∷ xs) = g x xs

module _ {W : Type 0} where
  abbrev pub when : Bool → M W Unit → M W Unit
  when b m = if b then m else pure tt

  -- What an `except SuspiciousNode` clause does with the outcome of its `try`.
  abbrev pub handle : (Exn → Replica W → Replica W) → Result Unit → M W Unit
  handle report (raised (suspicious_node sender code msg)) s =
      (ok tt, report (suspicious_node sender code msg) s)
  handle report r s = (r, s)

  -- `try: m` / `except SuspiciousNode as ex: report(ex)`
  unfoldable pub catch_suspicious : (Exn → Replica W → Replica W) → M W Unit → M W Unit
  catch_suspicious report m s = let (r, s') = m s in handle report r s'

module _ {W A : Type 0} where
  -- `for x in xs: body(x)`
  unfoldable pub for_each : List A → (A → M W Unit) → M W Unit
  for_each [] body = pure tt
  for_each (x ∷ xs) body = do body x; for_each xs body
