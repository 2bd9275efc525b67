-- ===== src/Election/Nominating.antt =====
-- The start of an election: a node nominates one of its replicas.
use plenum.Common.{
  ℕ, suc, not, String, List, [], ◌∷◌, Option, none, some, if◌then◌else◌, ◌==◌, nat_eq, option_eq,
  string_eq, keep,
}
use plenum.Common.Dict
use plenum.Common.Dict.{Dict}
use plenum.Common.Program.{Program, modify, ◌>>=◌, ◌>>◌, when}
use plenum.Election.{
  nominate, start_election, nominate_itself, nominate_replica, Elector, ElectionApi,
}
use plenum.Election.Sending.{
  replica_at, add_nomination, send_out, set_defaults, schedule_in, has_primary, has_primary_replica,
  was_master_primary_in_prev_view, did_replica_nominate,
}

module _ {R W : Type 0} where
  -- `sendNomination`
  unfoldable pub send_nomination : String → ℕ → ℕ → ℕ → Elector R W → Elector R W
  unfolding send_out
  send_nomination name inst_id view_no last_ordered e =
      send_out
        (nominate
          (record { name = name; inst_id = inst_id; view_no = view_no; ord_seq_no = last_ordered }))
        e

  -- `prepareReplicaForElection`, for the instance of the replica
  unfoldable pub prepare_replica_for_election : ℕ → Elector R W → Elector R W
  unfolding set_defaults
  prepare_replica_for_election inst_id e =
      if Dict.has_key inst_id e.nominations then e else set_defaults inst_id e

module _ {R W : Type 0} (api : ElectionApi R W) where
  -- the places of the replicas that have no primary, from a place on
  unfoldable pub undecided_from : ℕ → List R → List ℕ
  unfolding has_primary
  undecided_from i [] = []
  undecided_from i (r ∷ replicas) =
      let rest = undecided_from (suc i) replicas in if has_primary api r then rest else i ∷ rest

  -- the candidates of `_get_undecided_inst_id`
  unfoldable pub undecideds : Elector R W → List ℕ
  unfolding undecided_from was_master_primary_in_prev_view
  undecideds e =
      let ids = undecided_from 0 e.replicas in
      if was_master_primary_in_prev_view api e then keep (λ i. not (i == 0)) ids else ids

  -- `_get_undecided_inst_id`: the chosen instance, none where all are decided
  unfoldable pub get_undecided_inst_id : Elector R W → Option ℕ
  unfolding undecideds
  get_undecided_inst_id e = elim (undecideds e) [
    | [] ↦ none
    | i ∷ ids ↦ some (api.choice (i ∷ ids) e.world)
  ]

  -- `nominateRandomReplica`
  unfoldable pub nominate_random_replica : Elector R W → Elector R W
  unfolding get_undecided_inst_id schedule_in
  nominate_random_replica e =
      if e.is_participating
      then elim (get_undecided_inst_id e) [
        | none ↦ e
        | some chosen ↦
            schedule_in api 0 (nominate_replica chosen)
              (record e { replica_nominated_for_itself = some chosen })
      ]
      else e

  -- `nominateItself`
  unfoldable pub nominate_itself_now : Elector R W → Elector R W
  unfolding nominate_random_replica has_primary_replica
  nominate_itself_now e =
      if e.replica_nominated_for_itself == none
      then if has_primary_replica api e then e else nominate_random_replica e
      else e

  unfoldable pub prepare_all : List R → Elector R W → Elector R W
  unfolding prepare_replica_for_election
  prepare_all [] e = e
  prepare_all (r ∷ replicas) e =
      prepare_all replicas (prepare_replica_for_election (api.inst_id r) e)

  -- `startElection`
  unfoldable pub start_election_now : Elector R W → Elector R W
  unfolding prepare_all nominate_itself_now
  start_election_now e = nominate_itself_now (prepare_all e.replicas e)

  -- `scheduleElection`, and `decidePrimaries`
  unfoldable pub schedule_election : Elector R W → Elector R W
  unfolding schedule_in
  schedule_election e = schedule_in api 0 start_election e

  -- `start_election_for_instance`
  unfoldable pub start_election_for_instance : ℕ → Program (Elector R W) Unit
  unfolding replica_at prepare_replica_for_election schedule_in
  start_election_for_instance inst_id = do
    r ← replica_at inst_id
    modify (prepare_replica_for_election (api.inst_id r))
    modify (λ e. schedule_in api (api.short_delay e.world) nominate_itself e)

  -- `nominateReplica`
  unfoldable pub nominate_replica_now : ℕ → Program (Elector R W) Unit
  unfolding replica_at did_replica_nominate add_nomination send_nomination
  nominate_replica_now inst_id = do
    r ← replica_at inst_id
    nominated ← did_replica_nominate api inst_id
    when (not nominated) (do
      add_nomination inst_id (api.replica_name r) (api.replica_name r, api.last_ordered_pp_seq_no r)
      modify (λ e.
          send_nomination (api.replica_name r) inst_id e.view_no (api.last_ordered_pp_seq_no r) e))
