-- ===== src/Election/Views.antt =====
-- View changes, the messages for nodes that lag behind, and the inbox of an elector.
use plenum.Common.{
  ℕ, zero, suc, String, List, [], ◌∷◌, ◌++◌, Option, none, some, length, ltb, if◌then◌else◌, ◌==◌,
  nat_eq, string_eq, keep,
}
use plenum.Common.Dict
use plenum.Common.Dict.{Dict, get_or}
use plenum.Common.Program.{Program, index_error, read, modify, pure, need, ◌>>=◌, ◌>>◌, when}
use plenum.Election.{
  Vote, ElectionMsg, nominate, declare, reelect, ElectionAction, start_election, nominate_itself,
  nominate_replica, decide_primary, Elector, ElectionApi,
}
use plenum.Election.Names.{get_node_name}
use plenum.Election.Sending.{on_replica, set_defaults}
use plenum.Election.Deciding.{decide_primary_now}
use plenum.Election.Nominating.{
  nominate_random_replica, nominate_itself_now, start_election_now, nominate_replica_now,
}
use plenum.Election.Handlers.{process_nominate, process_primary, process_reelection}

unfoldable pub election_view_no : ElectionMsg → ℕ
election_view_no (nominate m) = m.view_no
election_view_no (declare m) = m.view_no
election_view_no (reelect m) = m.view_no

module _ {R W : Type 0} where
  -- `filterMsgs`
  unfoldable pub filter_msgs :
      List (ElectionMsg × String) → Elector R W → List (ElectionMsg × String)
  unfolding election_view_no
  filter_msgs msgs e = keep (λ m. election_view_no m.0 == e.view_no) msgs

module _ {R W : Type 0} (api : ElectionApi R W) where
  -- the handler of a message, by `inBoxRouter`
  unfoldable pub handle_msg : ElectionMsg × String → Program (Elector R W) Unit
  unfolding process_nominate process_primary process_reelection
  handle_msg (nominate m, sender) = process_nominate api m sender
  handle_msg (declare m, sender) = process_primary api m sender
  handle_msg (reelect m, sender) = process_reelection api m sender

  unfoldable pub handle_all : List (ElectionMsg × String) → Program (Elector R W) Unit
  unfolding handle_msg
  handle_all [] = pure tt
  handle_all (msg ∷ msgs) = do handle_msg msg; handle_all msgs

  -- `serviceQueues` without a limit: the inbox is emptied first. The number of messages handled.
  unfoldable pub service_queues : Program (Elector R W) ℕ
  unfolding filter_msgs handle_all
  service_queues = do
    e ← read
    let msgs = filter_msgs {R = R} {W = W} e.in_box e
    modify (λ e'. record e' { in_box = [] })
    handle_all msgs
    pure (length msgs)

  -- a scheduled method is run
  unfoldable pub run_election_action : ElectionAction → Program (Elector R W) Unit
  unfolding start_election_now nominate_itself_now nominate_replica_now decide_primary_now
  run_election_action start_election = modify (start_election_now api)
  run_election_action nominate_itself = modify (nominate_itself_now api)
  run_election_action (nominate_replica inst_id) = nominate_replica_now api inst_id
  run_election_action (decide_primary inst_id) = decide_primary_now api inst_id

  -- `master_primary` of the node (plenum/server/node.py), an IndexError without replicas; an empty
  -- name counts as none
  unfoldable pub master_primary : List R → Option (Option String)
  unfolding get_node_name
  master_primary [] = none
  master_primary (r ∷ replicas) = some (elim (api.primary_name r) [
    | none ↦ none
    | some name ↦ if name == "" then none else some (get_node_name name)
  ])

  -- the replicas from a place on get no primary, as many as the number says
  unfoldable pub reset_primaries : ℕ → ℕ → Program (Elector R W) Unit
  unfolding on_replica
  reset_primaries zero i = pure tt
  reset_primaries (suc left) i = do on_replica i api.reset_primary; reset_primaries left (suc i)

  unfoldable pub set_all_defaults : List R → Elector R W → Elector R W
  unfolding set_defaults
  set_all_defaults [] e = e
  set_all_defaults (r ∷ replicas) e = set_all_defaults replicas (set_defaults (api.inst_id r) e)

  -- `viewChanged`
  unfoldable pub view_changed : ℕ → Program (Elector R W) Unit
  unfolding master_primary reset_primaries set_all_defaults nominate_random_replica
  view_changed view_no = do
    e ← read
    when (ltb e.view_no view_no) (do
      previous ← need index_error (master_primary e.replicas)
      modify (λ e'. record e' { previous_master_primary = previous; view_no = view_no })
      reset_primaries (length e.replicas) 0
      modify (λ e'. set_all_defaults e'.replicas e')
      modify (λ e'. record e' { replica_nominated_for_itself = none })
      modify (nominate_random_replica api))

  -- the vote of a name in `d[instId]`, if there is one
  unfoldable pub vote_of : ℕ → String → Dict ℕ (Dict String Vote) → Option Vote
  vote_of inst_id voter d = elim (Dict.get inst_id d) [
    | none ↦ none
    | some votes ↦ Dict.get voter votes
  ]

  -- `getElectionMsgsForInstance`, for a replica
  unfoldable pub election_msgs_of : R → ℕ → Elector R W → List ElectionMsg
  unfolding vote_of
  election_msgs_of r inst_id e = elim (api.primary_name r) [
    | some name ↦
        declare (record {
          name = name;
          inst_id = inst_id;
          view_no = e.view_no;
          ord_seq_no = api.last_ordered_pp_seq_no r;
        })
        ∷ []
    | none ↦
        elim (vote_of inst_id (api.replica_name r) e.nominations) as (λ _. List ElectionMsg) [
          | none ↦ []
          | some (name, seq_no) ↦
              nominate (record {
                name = name;
                inst_id = inst_id;
                view_no = e.view_no;
                ord_seq_no = seq_no;
              })
              ∷ []
        ]
        ++ elim (vote_of inst_id (api.replica_name r) e.primary_declarations)
            as (λ _. List ElectionMsg) [
              | none ↦ []
              | some (name, seq_no) ↦
                  declare (record {
                    name = name;
                    inst_id = inst_id;
                    view_no = e.view_no;
                    ord_seq_no = seq_no;
                  })
                  ∷ []
            ]
  ]

  unfoldable pub election_msgs_from : ℕ → List R → Elector R W → List ElectionMsg
  unfolding election_msgs_of
  election_msgs_from i [] e = []
  election_msgs_from i (r ∷ replicas) e =
      election_msgs_of r i e ++ election_msgs_from (suc i) replicas e

  -- `getElectionMsgsForLaggedNodes`
  unfoldable pub get_election_msgs_for_lagged_nodes : Elector R W → List ElectionMsg
  unfolding election_msgs_from
  get_election_msgs_for_lagged_nodes e = election_msgs_from 0 e.replicas e
