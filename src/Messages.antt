-- ===== src/Messages.antt =====
-- The messages of the three-phase commit: plenum/common/types.py, and `Request` and `ReqKey` of
-- plenum/common/request.py. A name, a digest and a root hash are texts.
use plenum.Common.{ℕ, Bool, String, List, Option}

-- (identifier, reqId)
abbrev pub ReqKey : Type 0
ReqKey = String × ℕ

-- (viewNo, ppSeqNo)
abbrev pub ThreePhaseKey : Type 0
ThreePhaseKey = ℕ × ℕ

-- `operation` is the operation's serialized text.
pub record Request : Type 0 where
  pub identifier : String
  pub req_id : ℕ
  pub operation : String
  pub digest : String
  pub signature : Option String

abbrev pub request_key : Request → ReqKey
request_key r = (r.identifier, r.req_id)

pub record PrePrepare : Type 0 where
  pub inst_id : ℕ
  pub view_no : ℕ
  pub pp_seq_no : ℕ
  pub pp_time : ℕ
  pub req_idr : List ReqKey
  pub discarded : ℕ
  pub digest : String
  pub ledger_id : ℕ
  pub state_root_hash : Option String
  pub txn_root_hash : Option String

pub record Prepare : Type 0 where
  pub inst_id : ℕ
  pub view_no : ℕ
  pub pp_seq_no : ℕ
  pub digest : String
  pub state_root_hash : Option String
  pub txn_root_hash : Option String

pub record Commit : Type 0 where
  pub inst_id : ℕ
  pub view_no : ℕ
  pub pp_seq_no : ℕ

pub record Ordered : Type 0 where
  pub inst_id : ℕ
  pub view_no : ℕ
  pub req_idr : List ReqKey
  pub pp_seq_no : ℕ
  pub pp_time : ℕ
  pub ledger_id : ℕ
  pub state_root_hash : Option String
  pub txn_root_hash : Option String

pub record Checkpoint : Type 0 where
  pub inst_id : ℕ
  pub view_no : ℕ
  pub seq_no_start : ℕ
  pub seq_no_end : ℕ
  pub digest : String

pub record CheckpointState : Type 0 where
  pub seq_no : ℕ
  pub digests : List String
  pub digest : Option String
  pub received_digests : List (String × String)
  pub is_stable : Bool

-- `Reject`: the reason is the text of the exception.
pub record Reject : Type 0 where
  pub identifier : String
  pub req_id : ℕ
  pub reason : String

pub record Propagate : Type 0 where
  pub request : Request
  pub sender_client : String

-- `ThreePhaseMsg`
pub data ThreePhaseMsg : Type 0 where
  pre_prepare : PrePrepare → ThreePhaseMsg
  prepare : Prepare → ThreePhaseMsg
  commit : Commit → ThreePhaseMsg

abbrev pub msg_view_no : ThreePhaseMsg → ℕ
msg_view_no (pre_prepare pp) = pp.view_no
msg_view_no (prepare p) = p.view_no
msg_view_no (commit c) = c.view_no

abbrev pub msg_pp_seq_no : ThreePhaseMsg → ℕ
msg_pp_seq_no (pre_prepare pp) = pp.pp_seq_no
msg_pp_seq_no (prepare p) = p.pp_seq_no
msg_pp_seq_no (commit c) = c.pp_seq_no
