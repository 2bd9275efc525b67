-- ===== src/Election/Sending.antt =====
-- What the methods of an elector share: its replicas, its own votes, scheduling, and what it sends.
use plenum.Common.{
  ℕ, ◌+◌, ◌*◌, Bool, true, false, String, List, [], ◌∷◌, ◌++◌, Option, none, some, if◌then◌else◌,
  ◌==◌, nat_eq, string_eq, pair_eq, option_eq, get_elem?, set_elem,
}
use plenum.Common.Dict
use plenum.Common.Dict.{Dict, get_or, is_some}
use plenum.Common.Program.{
  Program, failed, index_error, key_error, read, modify, pure, need, ◌>>=◌, ◌>>◌,
}
use plenum.ActionQueue.{once, schedule_action}
use plenum.Election.{
  Vote, ElectionMsg, declare, reelect, ElectionAction, unset, Elector, ElectionApi,
}
use plenum.Election.Names.{get_node_name}

module _ {A : Type 0} where
  -- a vote is put into `d[instId]`, which must be there
  unfoldable pub put_vote :
      ℕ → String → A → Dict ℕ (Dict String A) → Option (Dict ℕ (Dict String A))
  put_vote inst_id voter vote d = elim (Dict.get inst_id d) [
    | none ↦ none
    | some votes ↦ some (Dict.set inst_id (Dict.set voter vote votes) d)
  ]

  -- whether `d[instId]` is there and holds a vote of a name
  unfoldable pub has_voted : ℕ → String → Dict ℕ (Dict String A) → Bool
  has_voted inst_id voter d = elim (Dict.get inst_id d) [
    | none ↦ false
    | some votes ↦ Dict.has_key voter votes
  ]

module _ {R W : Type 0} where
  -- `self.replicas[instId]`
  unfoldable pub replica_at : ℕ → Program (Elector R W) R
  replica_at inst_id = do e ← read; need index_error (get_elem? e.replicas inst_id)

  -- a method of a replica, which may raise
  unfoldable pub on_replica : ℕ → Program R Unit → Program (Elector R W) Unit
  on_replica inst_id method e = elim (get_elem? e.replicas inst_id) [
    | none ↦ (failed index_error, e)
    | some r ↦ let (o, r') = method r in (o, record e { replicas = set_elem e.replicas inst_id r' })
  ]

  -- `self.send`
  unfoldable pub send_out : ElectionMsg → Elector R W → Elector R W
  send_out msg e = record e { out_box = e.out_box ++ msg ∷ [] }

  -- `quorum`
  unfoldable pub quorum : Elector R W → ℕ
  quorum e = 2 * e.f + 1

  -- `setElectionDefaults`
  unfoldable pub set_election_defaults : ℕ → Elector R W → Elector R W
  set_election_defaults inst_id e = record e {
    nominations = Dict.set inst_id [] e.nominations;
    primary_declarations = Dict.set inst_id [] e.primary_declarations;
    scheduled_primary_decisions = Dict.set inst_id unset e.scheduled_primary_decisions;
    re_election_proposals = Dict.set inst_id [] e.re_election_proposals;
    duplicate_msgs = [];
  }

  -- `setDefaults`
  unfoldable pub set_defaults : ℕ → Elector R W → Elector R W
  unfolding set_election_defaults
  set_defaults inst_id e =
      set_election_defaults inst_id
        (record e { re_election_rounds = Dict.set inst_id 0 e.re_election_rounds })

  -- `self.duplicateMsgs[key] = self.duplicateMsgs.get(key, 0) + 1`
  unfoldable pub count_duplicate : String → ℕ → String → Elector R W → Elector R W
  count_duplicate kind inst_id sender e = record e {
    duplicate_msgs =
        Dict.set ((kind, inst_id), sender)
          (get_or (Dict.get ((kind, inst_id), sender) e.duplicate_msgs) 0 + 1) e.duplicate_msgs;
  }

  unfoldable pub add_nomination : ℕ → String → Vote → Program (Elector R W) Unit
  unfolding put_vote
  add_nomination inst_id voter vote = do
    e ← read
    d ← need key_error (put_vote inst_id voter vote e.nominations)
    modify (λ e'. record e' { nominations = d })

  unfoldable pub add_declaration : ℕ → String → Vote → Program (Elector R W) Unit
  unfolding put_vote
  add_declaration inst_id voter vote = do
    e ← read
    d ← need key_error (put_vote inst_id voter vote e.primary_declarations)
    modify (λ e'. record e' { primary_declarations = d })

  unfoldable pub add_proposal : ℕ → String → List Vote → Program (Elector R W) Unit
  unfolding put_vote
  add_proposal inst_id voter tie = do
    e ← read
    d ← need key_error (put_vote inst_id voter tie e.re_election_proposals)
    modify (λ e'. record e' { re_election_proposals = d })

module _ {R W : Type 0} (api : ElectionApi R W) where
  -- `_schedule`, in ticks
  unfoldable pub schedule_in : ℕ → ElectionAction → Elector R W → Elector R W
  unfolding schedule_action
  schedule_in ticks action e = record e {
    actions = (schedule_action (api.perf_counter e.world) (once action) ticks e.actions).1;
  }

  -- `replica.isPrimary is None` is that the replica has no primary
  unfoldable pub has_primary : R → Bool
  has_primary r = is_some (api.primary_name r)

  -- `replica.isPrimary`, as a test
  unfoldable pub is_own_primary : R → Bool
  is_own_primary r = api.primary_name r == some (api.replica_name r)

  unfoldable pub any_own_primary : List R → Bool
  unfolding is_own_primary
  any_own_primary [] = false
  any_own_primary (r ∷ replicas) = if is_own_primary r then true else any_own_primary replicas

  -- `hasPrimaryReplica`
  unfoldable pub has_primary_replica : Elector R W → Bool
  unfolding any_own_primary
  has_primary_replica e = any_own_primary e.replicas

  -- `was_master_primary_in_prev_view`
  unfoldable pub was_master_primary_in_prev_view : Elector R W → Bool
  was_master_primary_in_prev_view e = e.previous_master_primary == some e.name

  -- the guard of `processNominate` and `processPrimary`: the candidate was primary of the master
  -- instance in the previous view
  unfoldable pub was_primary_before : ℕ → String → Elector R W → Bool
  unfolding get_node_name
  was_primary_before inst_id name e =
      if inst_id == 0 then e.previous_master_primary == some (get_node_name name) else false

  -- `didReplicaNominate`
  unfoldable pub did_replica_nominate : ℕ → Program (Elector R W) Bool
  unfolding has_voted replica_at
  did_replica_nominate inst_id = do
    e ← read
    if Dict.has_key inst_id e.nominations
        then (do
          r ← replica_at inst_id
          pure (has_voted inst_id (api.replica_name r) e.nominations))
        else pure false

  -- `didReplicaDeclarePrimary`
  unfoldable pub did_replica_declare_primary : ℕ → Program (Elector R W) Bool
  unfolding has_voted replica_at
  did_replica_declare_primary inst_id = do
    e ← read
    if Dict.has_key inst_id e.primary_declarations
        then (do
          r ← replica_at inst_id
          pure (has_voted inst_id (api.replica_name r) e.primary_declarations))
        else pure false

  -- `sendPrimary`
  unfoldable pub send_primary : ℕ → String → ℕ → Program (Elector R W) Unit
  unfolding replica_at add_declaration send_out
  send_primary inst_id primary_name last_ordered = do
    r ← replica_at inst_id
    add_declaration inst_id (api.replica_name r) (primary_name, last_ordered)
    modify (λ e. record e {
      scheduled_primary_decisions = Dict.set inst_id unset e.scheduled_primary_decisions;
    })
    modify (λ e.
        send_out
          (declare (record {
            name = primary_name;
            inst_id = inst_id;
            view_no = e.view_no;
            ord_seq_no = last_ordered;
          }))
          e)

  -- `sendReelection`; an empty list of candidates is recomputed, and is empty again
  unfoldable pub send_reelection : ℕ → List Vote → Program (Elector R W) Unit
  unfolding replica_at add_proposal send_out
  send_reelection inst_id candidates = do
    r ← replica_at inst_id
    e ← read
    round ← need key_error (Dict.get inst_id e.re_election_rounds)
    modify (λ e'. record e' {
      re_election_rounds = Dict.set inst_id (round + 1) e'.re_election_rounds;
    })
    add_proposal inst_id (api.replica_name r) candidates
    modify (λ e'. record e' {
      scheduled_primary_decisions = Dict.set inst_id unset e'.scheduled_primary_decisions;
    })
    modify (λ e'.
        send_out
          (reelect (record {
            inst_id = inst_id;
            round = round + 1;
            tie_among = candidates;
            view_no = e'.view_no;
          }))
          e')
