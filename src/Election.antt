-- ===== src/Election.antt =====
-- plenum/server/primary_elector.py, with its base plenum/server/primary_decider.py: the state of a
-- `PrimaryElector`, which chooses a primary for each protocol instance. The modules below model its
-- methods.
pub mod Names
pub mod Sending
pub mod Deciding
pub mod Nominating
pub mod Handlers
pub mod Views
pub mod Agreement
pub mod Safety
pub mod Candidates
pub mod Verdicts
pub mod Sent
pub mod Decisions
mod Tests
use plenum.Common.{ℕ, Bool, String, List, Option}
use plenum.Common.Dict.{Dict}
use plenum.Common.Program.{Program}
use plenum.ActionQueue.{ActionQueue}

-- A candidate and the last sequence number that it ordered.
abbrev pub Vote : Type 0
Vote = String × ℕ

pub record Nomination : Type 0 where
  pub name : String
  pub inst_id : ℕ
  pub view_no : ℕ
  pub ord_seq_no : ℕ

pub record Primary : Type 0 where
  pub name : String
  pub inst_id : ℕ
  pub view_no : ℕ
  pub ord_seq_no : ℕ

pub record Reelection : Type 0 where
  pub inst_id : ℕ
  pub round : ℕ
  pub tie_among : List Vote
  pub view_no : ℕ

pub data ElectionMsg : Type 0 where
  nominate : Nomination → ElectionMsg
  declare : Primary → ElectionMsg
  reelect : Reelection → ElectionMsg

-- The methods that the elector schedules.
pub data ElectionAction : Type 0 where
  start_election nominate_itself : ElectionAction
  nominate_replica decide_primary : ℕ → ElectionAction

-- An entry of `scheduledPrimaryDecisions`: None, the empty dictionary that `decidePrimary` puts in,
-- or the time of the schedule.
pub data Decision : Type 0 where
  unset empty : Decision
  since : ℕ → Decision

-- The fields of an elector, and of its node that it reads: `is_participating`, and the world `W`,
-- which holds the clock, the random numbers, and what `primary_found` of the node changes.
pub record Elector (R W : Type 0) : Type 0 where
  pub name : String
  pub f : ℕ
  pub replicas : List R
  pub view_no : ℕ
  pub node_count : ℕ
  pub is_participating : Bool
  pub world : W
  pub in_box : List (ElectionMsg × String)
  pub out_box : List ElectionMsg
  pub actions : ActionQueue ElectionAction
  pub replica_nominated_for_itself : Option ℕ
  pub nominations : Dict ℕ (Dict String Vote)
  pub primary_declarations : Dict ℕ (Dict String Vote)
  pub scheduled_primary_decisions : Dict ℕ Decision
  pub re_election_proposals : Dict ℕ (Dict String (List Vote))
  pub re_election_rounds : Dict ℕ ℕ
  -- by the kind of the message, the instance and the sender
  pub duplicate_msgs : Dict ((String × ℕ) × String) ℕ
  pub previous_master_primary : Option String

-- What the elector uses of its replicas, of its node, of the clock and of `random`. Times are in
-- ticks, `second` of them to a second.
pub record ElectionApi (R W : Type 0) : Type 0 where
  pub replica_name : R → String
  pub inst_id : R → ℕ
  pub primary_name : R → Option String
  pub last_ordered_pp_seq_no : R → ℕ
  -- `replica.primaryName = None`, and `replica.primaryChanged`
  pub reset_primary : Program R Unit
  pub primary_changed : String → ℕ → Program R Unit
  -- `node.primary_found`
  pub primary_found : List R → W → W
  pub perf_counter : W → ℕ
  pub second : ℕ
  -- `random.choice`, and the delays by `random.random` and `random.randint(1, 3)`
  pub choice : List ℕ → W → ℕ
  pub short_delay : W → ℕ
  pub long_delay : W → ℕ
