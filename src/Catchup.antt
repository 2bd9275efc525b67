-- ===== src/Catchup.antt =====
-- plenum/common/ledger_manager.py and ledger_info.py: the state of a `LedgerManager`, which brings
-- the ledgers of its owner up to those of the other nodes. The modules below model its methods.
pub mod State
pub mod Ranges
pub mod Proofs
pub mod Replies
pub mod Serving
pub mod Manager
pub mod Statuses
pub mod Coverage
pub mod Start
pub mod Grouping
pub mod Latest
pub mod Backing
pub mod Merging
pub mod Applying
mod Tests
use plenum.Common.{ℕ, Bool, String, List, Option}
use plenum.Common.Dict.{Dict}
use plenum.Common.Int.{ℤ}
use plenum.Ledger.{Base, Ledger}

pub record LedgerStatus : Type 0 where
  pub ledger_id : ℕ
  pub txn_seq_no : ℕ
  pub merkle_root : String

pub record ConsistencyProof : Type 0 where
  pub ledger_id : ℕ
  pub seq_no_start : ℕ
  pub seq_no_end : ℕ
  pub pp_seq_no : ℕ
  pub old_merkle_root : String
  pub new_merkle_root : String
  pub hashes : List String

pub record CatchupReq : Type 0 where
  pub ledger_id : ℕ
  pub seq_no_start : ℕ
  pub seq_no_end : ℕ
  pub catchup_till : ℕ

-- A reply has integers as the keys of `txns` where it is sent, and their texts where it arrives.
pub record CatchupRep (K X : Type 0) : Type 0 where
  pub ledger_id : ℕ
  pub txns : Dict K X
  pub cons_proof : List String

pub record ConsProofRequest : Type 0 where
  pub ledger_id : ℕ
  pub seq_no_start : ℕ
  pub seq_no_end : ℕ

pub data LedgerState : Type 0 where
  not_synced syncing synced : LedgerState

-- `LedgerInfo`. Of the two timers it matters only whether they are set. The callbacks and the
-- verifier are in `Api`.
pub record LedgerInfo (L T X : Type 0) : Type 0 where
  pub ledger : Ledger L T X
  pub state : LedgerState
  pub can_sync : Bool
  pub stashed_ledger_statuses : List (LedgerStatus × String)
  pub ledger_status_ok : List String
  pub recvd_consistency_proofs : Dict String (Option ConsistencyProof)
  pub catch_up_till : Option ConsistencyProof
  pub received_catch_up_replies : List (ℕ × X)
  pub recvd_catchup_replies_frm : Dict String (List (CatchupRep String X))
  pub consistency_proofs_timer : Bool
  pub catchup_reply_timer : Bool

-- What is sent: to all nodes, to a node, or to a client.
pub data Message (X : Type 0) : Type 0 where
  ledger_status : LedgerStatus → Message X
  consistency_proof : ConsistencyProof → Message X
  catchup_req : CatchupReq → Message X
  catchup_rep : CatchupRep ℕ X → Message X
  cons_proof_request : ConsProofRequest → Message X

pub data Destination : Type 0 where
  all_nodes : Destination
  to_node to_client : String → Destination

-- The actions that `_schedule` is given: the check, its ledger, and what its delay is computed from.
pub data Scheduled : Type 0 where
  cps_check : ℕ → Scheduled
  txns_check : ℕ → ℕ → ℕ → Scheduled

-- The fields of a manager, those of its owner that it reads, and what it did to its owner: messages
-- sent, nodes blacklisted and actions scheduled. `last_caught_up_pp_seq_no` is none for -1.
pub record LedgerManager (W L T X : Type 0) : Type 0 where
  pub world : W
  pub owned_by_node : Bool
  pub ledger_registry : Dict ℕ (LedgerInfo L T X)
  pub last_caught_up_pp_seq_no : Option ℕ
  pub total_nodes : ℕ
  pub f : ℕ
  pub conns : List String
  pub node_remotes : List String
  pub client_remotes : List String
  pub blacklisted : List String
  pub sent : List (Message X × Destination)
  pub scheduled : List Scheduled

-- What the manager calls: the ledger package, its owner, and the callbacks, which may change the
-- manager. Hashes stand as the texts that `hashToStr` gives.
pub record Api (W L T X : Type 0) : Type 0 where
  pub base : Base L T X
  -- `int` of a text, none for a ValueError, and `str` of a number
  pub int : String → Option ℤ
  pub str : ℕ → String
  -- `ledger.seqNo`
  pub seq_no : L → ℕ
  -- `ledger.add`: the ledger, and the sequence number in the Merkle info
  pub add : X → L → L × ℕ
  pub set_seq_no : ℕ → X → X
  pub tree_size : T → ℕ
  -- `tree.consistency_proof`, which may raise
  pub consistency_proof : ℕ → ℕ → T → Option (List String)
  -- `tree.merkle_tree_hash(0, n)`
  pub merkle_tree_hash : ℕ → T → String
  pub get_all_txn : ℕ → ℕ → L → Dict ℕ X
  -- `verify_tree_consistency`, false where it raises
  pub verify_tree_consistency : ℕ → ℕ → String → String → List String → Bool
  pub transform_txn_for_ledger : X → W → X
  pub update_txn_with_extra_data : X → W → X
  -- `ppSeqNoForTxnSeqNo`, none for a number that a message must not have
  pub pp_seq_no_for_txn_seq_no : ℕ → ℕ → W → Option ℕ
  -- `random.shuffle`
  pub shuffle : List String → W → List String
  pub pre_catchup_start : ℕ → LedgerManager W L T X → LedgerManager W L T X
  pub post_txn_added : ℕ → X → LedgerManager W L T X → LedgerManager W L T X
  pub post_catchup_complete : ℕ → LedgerManager W L T X → LedgerManager W L T X
  pub post_all_ledgers_caught_up : LedgerManager W L T X → LedgerManager W L T X

abbrev pub pool_ledger_id : ℕ
pool_ledger_id = 0

abbrev pub domain_ledger_id : ℕ
domain_ledger_id = 1
