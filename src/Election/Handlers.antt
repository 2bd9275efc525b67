-- ===== src/Election/Handlers.antt =====
-- The handlers of the three election messages.
use plenum.Common.{
  ℕ, ◌+◌, Bool, not, ◌&&◌, String, List, [], ◌∷◌, Option, none, some, length, leb, if◌then◌else◌,
  ◌==◌, nat_eq, string_eq, pair_eq, option_eq, list_eq, contains, map,
}
use plenum.Common.Dict
use plenum.Common.Dict.{Dict, values, keys}
use plenum.Common.Program.{Program, key_error, index_error, read, modify, need, ◌>>=◌, ◌>>◌, when}
use plenum.Quorum.{tally, most_common}
use plenum.Replica.Status.{generate_name}
use plenum.Election.{
  Vote, Nomination, Primary, Reelection, nominate_replica, decide_primary, Elector, ElectionApi,
}
use plenum.Election.Sending.{
  replica_at, on_replica, quorum, set_defaults, set_election_defaults, count_duplicate,
  add_nomination, add_declaration, add_proposal, has_voted, schedule_in, has_primary,
  has_primary_replica, was_master_primary_in_prev_view, was_primary_before, did_replica_nominate,
}
use plenum.Election.Deciding.{most_common_element}
use plenum.Election.Nominating.{send_nomination, schedule_election, nominate_replica_now}

-- `mostCommonElement` of ties
unfoldable pub most_common_tie : List (List Vote) → Option (List Vote)
unfolding tally most_common
most_common_tie ties = elim (tally [] ties) [
  | [] ↦ none
  | first ∷ counts ↦ some (most_common first counts).0
]

module _ {R W : Type 0} where
  -- `if instId not in d: self.setDefaults(instId)`
  unfoldable pub set_defaults_unless : Bool → ℕ → Elector R W → Elector R W
  unfolding set_defaults
  set_defaults_unless present inst_id e = if present then e else set_defaults inst_id e

  -- `hasReelectionQuorum`, `hasNominationQuorum` and `hasPrimaryQuorum`, for the votes
  unfoldable pub has_quorum : {A : Type 0} → Dict String A → Elector R W → Bool
  unfolding quorum
  has_quorum votes e = leb (quorum e) (length votes)

module _ {R W : Type 0} (api : ElectionApi R W) where
  -- the first nomination that arrives is taken over
  unfoldable pub follow_nomination : Nomination → Program (Elector R W) Unit
  unfolding replica_at did_replica_nominate set_defaults_unless add_nomination send_nomination
  follow_nomination nom = do
    r ← replica_at nom.inst_id
    nominated ← did_replica_nominate api nom.inst_id
    when (not nominated) (do
      modify (λ e. set_defaults_unless (Dict.has_key nom.inst_id e.nominations) nom.inst_id e)
      add_nomination nom.inst_id (api.replica_name r) (nom.name, nom.ord_seq_no)
      modify (send_nomination nom.name nom.inst_id nom.view_no nom.ord_seq_no))

  -- `processNominate`
  unfoldable pub process_nominate : Nomination → String → Program (Elector R W) Unit
  unfolding replica_at was_primary_before follow_nomination add_nomination schedule_in
      count_duplicate has_voted
  process_nominate nom sender = do
    replica_at nom.inst_id
    e ← read
    let sender_rep = generate_name sender nom.inst_id
    when (not (was_primary_before api nom.inst_id nom.name e)) (do
      follow_nomination nom
      e' ← read
      let again = has_voted nom.inst_id sender_rep e'.nominations
      if again then modify (count_duplicate "NOMINATE" nom.inst_id sender_rep) else (do
        add_nomination nom.inst_id sender_rep (nom.name, nom.ord_seq_no)
        modify (schedule_in api 0 (decide_primary nom.inst_id))))

  -- the selection of a primary, once there are enough declarations
  unfoldable pub select_primary : ℕ → Dict String Vote → Program (Elector R W) Unit
  unfolding most_common_element on_replica schedule_election
  select_primary inst_id declarations = do
    vote ← need index_error (most_common_element (values declarations))
    on_replica inst_id (api.primary_changed vote.0 vote.1)
    modify (λ e. if inst_id == 0 then record e { previous_master_primary = none } else e)
    modify (λ e.
        if e.replica_nominated_for_itself == some inst_id
        then record e { replica_nominated_for_itself = none }
        else e)
    modify (λ e. record e { world = api.primary_found e.replicas e.world })
    modify (schedule_election api)

  -- a declaration is recorded, and counted if the replica has no primary
  unfoldable pub count_declaration : ℕ → String → Vote → Program (Elector R W) Unit
  unfolding replica_at add_declaration has_primary has_quorum select_primary
  count_declaration inst_id sender_rep vote = do
    add_declaration inst_id sender_rep vote
    r ← replica_at inst_id
    e ← read
    when (not (has_primary api r)) (do
      declarations ← need key_error (Dict.get inst_id e.primary_declarations)
      when (has_quorum declarations e) (select_primary inst_id declarations))

  -- `processPrimary`
  unfoldable pub process_primary : Primary → String → Program (Elector R W) Unit
  unfolding replica_at was_primary_before set_defaults_unless has_voted count_duplicate
      count_declaration
  process_primary prim sender = do
    replica_at prim.inst_id
    e ← read
    let sender_rep = generate_name sender prim.inst_id
    when (not (was_primary_before api prim.inst_id prim.name e)) (do
      modify (λ e'.
          set_defaults_unless (Dict.has_key prim.inst_id e'.primary_declarations) prim.inst_id e')
      e' ← read
      let again = has_voted prim.inst_id sender_rep e'.primary_declarations
      if again
          then modify (count_duplicate "PRIMARY" prim.inst_id sender_rep)
          else count_declaration prim.inst_id sender_rep (prim.name, prim.ord_seq_no))

  -- what a quorum of reelection proposals starts
  unfoldable pub start_reelection : ℕ → Dict String (List Vote) → Program (Elector R W) Unit
  unfolding replica_at most_common_tie set_election_defaults has_primary_replica
      was_master_primary_in_prev_view schedule_in nominate_replica_now
  start_reelection inst_id proposals = do
    r ← replica_at inst_id
    tie_among ← need index_error (most_common_tie (values proposals))
    modify (set_election_defaults inst_id)
    e ← read
    when (not (has_primary_replica api e) && not (was_master_primary_in_prev_view api e)) (
        if contains (map (λ v. v.0) tie_among) (api.replica_name r)
        then modify (schedule_in api (api.long_delay e.world) (nominate_replica inst_id))
        else nominate_replica_now api inst_id)

  -- `processReelection`
  unfoldable pub process_reelection : Reelection → String → Program (Elector R W) Unit
  unfolding replica_at set_defaults_unless has_voted add_proposal has_quorum start_reelection
  process_reelection reelection sender = do
    let inst_id = reelection.inst_id
    r ← replica_at inst_id
    let sender_rep = generate_name sender inst_id
    modify (λ e. set_defaults_unless (Dict.has_key inst_id e.re_election_proposals) inst_id e)
    e ← read
    round ← need key_error (Dict.get inst_id e.re_election_rounds)
    let own = has_voted inst_id (api.replica_name r) e.re_election_proposals
    let expected = if own then round else round + 1
    let again = has_voted inst_id sender_rep e.re_election_proposals
    when (reelection.round == expected && not again) (do
      add_proposal inst_id sender_rep reelection.tie_among
      e' ← read
      proposals ← need key_error (Dict.get inst_id e'.re_election_proposals)
      when (has_quorum proposals e') (start_reelection inst_id proposals))
