-- ===== src/Election/Deciding.antt =====
-- `decidePrimary`: what an elector does with the nominations that it has.
use plenum.Common.{
  ℕ, ◌+◌, ◌*◌, ◌/◌, Bool, true, false, String, List, [], ◌∷◌, Option, none, some, length, leb, ltb,
  if◌then◌else◌, ◌==◌, ◌||◌, nat_eq, string_eq, pair_eq, keep, map,
}
use plenum.Common.Dict
use plenum.Common.Dict.{Dict, values}
use plenum.Common.Program.{
  Program, key_error, type_error, read, modify, pure, raise, need, ◌>>=◌, ◌>>◌, when,
}
use plenum.Quorum.{tally, most_common}
use plenum.Election.{Vote, Decision, unset, empty, since, Elector, ElectionApi, decide_primary}
use plenum.Election.Sending.{
  replica_at, quorum, has_voted, schedule_in, send_primary, send_reelection,
}

-- `mostCommonElement` of plenum/common/util.py: none where there is no element
unfoldable pub most_common_element : List Vote → Option Vote
unfolding tally most_common
most_common_element votes = elim (tally [] votes) [
  | [] ↦ none
  | first ∷ counts ↦ some (most_common first counts).0
]

-- `getPrimaryCandidates` for the nominations: those with the most votes, and their votes. They stand
-- in the order in which they came, which the stable sort of `most_common` keeps among equals.
unfoldable pub get_primary_candidates : Dict String Vote → List (Vote × ℕ)
unfolding tally most_common
get_primary_candidates nominations =
    let counts = tally [] (values nominations) in
    elim counts as (λ _. List (Vote × ℕ)) [
      | [] ↦ []
      | first ∷ rest ↦ keep (λ c. c.1 == (most_common first rest).1) counts
    ]

-- `math.ceil((n + 1) / 2.0)`
unfoldable pub votes_needed : ℕ → ℕ
votes_needed n = (n + 2) / 2

-- What `decidePrimary` goes on to do; `breaks` is the TypeError of a time that is no number.
pub data Verdict : Type 0 where
  too_few wait breaks : Verdict
  choose : Vote → Verdict
  tie : List Vote → Verdict

-- `hasPrimaryDecisionTimerExpired`, from now and the time that is waited; none is a TypeError
unfoldable pub has_timer_expired : ℕ → ℕ → Decision → Option Bool
has_timer_expired now delay unset = none
has_timer_expired now delay empty = none
has_timer_expired now delay (since t) = some (ltb (t + delay) now)

-- The time is not up, where `is not None` comes first.
unfoldable pub timer_test : ℕ → ℕ → Decision → Option Bool
unfolding has_timer_expired
timer_test now delay unset = some false
timer_test now delay empty = has_timer_expired now delay empty
timer_test now delay (since t) = has_timer_expired now delay (since t)

-- `v` if all nominated or the time is up, and the other verdict if it is not
unfoldable pub if_settled : Bool → Option Bool → Verdict → Verdict → Verdict
if_settled all expired v other =
    if all
    then v
    else elim expired as (λ _. Verdict) [ none ↦ breaks | some true ↦ v | some false ↦ other ]

-- The tests of `decidePrimary`, for the quorum, the number of nodes, the result of the timer test,
-- and the nominations.
unfoldable pub judge_nominations : ℕ → ℕ → Option Bool → Dict String Vote → Verdict
unfolding get_primary_candidates votes_needed if_settled
judge_nominations q node_count expired nominations =
    let all = length nominations == node_count in
    if leb q (length nominations)
    then elim (get_primary_candidates nominations) as (λ _. Verdict) [
      | [] ↦ if_settled all expired (tie []) wait
      | (vote, votes) ∷ rest ↦ elim rest as (λ _. Verdict) [
        | [] ↦
            if_settled all expired (choose vote)
              (if leb (votes_needed node_count) votes then choose vote else wait)
        | _ ∷ _ ↦
            if_settled all expired (tie (map (λ c. c.0) (get_primary_candidates nominations))) wait
      ]
    ]
    else too_few

-- `if instId not in d: d[instId] = v`
unfoldable pub set_missing : {V : Type 0} → ℕ → V → Dict ℕ V → Dict ℕ V
set_missing inst_id v d = if Dict.has_key inst_id d then d else Dict.set inst_id v d

-- whether `schedulePrimaryDecision` takes an entry as not scheduled
unfoldable pub is_unscheduled : Decision → Bool
is_unscheduled unset = true
is_unscheduled empty = true
is_unscheduled (since t) = t == 0

module _ {R W : Type 0} (api : ElectionApi R W) where
  -- `1 * self.nodeCount`, in ticks
  unfoldable pub decision_delay : Elector R W → ℕ
  decision_delay e = e.node_count * api.second

  -- `schedulePrimaryDecision`
  unfoldable pub schedule_primary_decision : ℕ → Program (Elector R W) Unit
  unfolding replica_at schedule_in is_unscheduled has_timer_expired decision_delay
  schedule_primary_decision inst_id = do
    replica_at inst_id
    e ← read
    decision ← need key_error (Dict.get inst_id e.scheduled_primary_decisions)
    let now = api.perf_counter e.world
    if is_unscheduled decision
        then (do
          modify (λ e'. record e' {
            scheduled_primary_decisions =
                Dict.set inst_id (since now) e'.scheduled_primary_decisions;
          })
          modify (schedule_in api (decision_delay e) (decide_primary inst_id)))
        else (do
          expired ← need type_error (has_timer_expired now (decision_delay e) decision)
          when expired (modify (schedule_in api 0 (decide_primary inst_id))))

  -- what follows the verdict
  unfoldable pub carry_out : ℕ → Verdict → Program (Elector R W) Unit
  unfolding send_primary send_reelection schedule_primary_decision
  carry_out inst_id too_few = pure tt
  carry_out inst_id wait = schedule_primary_decision inst_id
  carry_out inst_id breaks = raise type_error
  carry_out inst_id (choose vote) = send_primary api inst_id vote.0 vote.1
  carry_out inst_id (tie candidates) = send_reelection api inst_id candidates

  -- the entries that `decidePrimary` puts in where they are missing
  unfoldable pub fill_missing : ℕ → Elector R W → Elector R W
  unfolding set_missing
  fill_missing inst_id e = record e {
    primary_declarations = set_missing inst_id [] e.primary_declarations;
    re_election_proposals = set_missing inst_id [] e.re_election_proposals;
    scheduled_primary_decisions = set_missing inst_id empty e.scheduled_primary_decisions;
    re_election_rounds = set_missing inst_id 0 e.re_election_rounds;
  }

  -- the nominations of an instance, judged
  unfoldable pub judge : ℕ → Program (Elector R W) Verdict
  unfolding judge_nominations timer_test decision_delay quorum
  judge inst_id = do
    e ← read
    nominations ← need key_error (Dict.get inst_id e.nominations)
    decision ← need key_error (Dict.get inst_id e.scheduled_primary_decisions)
    pure (
        judge_nominations (quorum e) e.node_count
          (timer_test (api.perf_counter e.world) (decision_delay e) decision) nominations)

  -- `decidePrimary`
  unfoldable pub decide_primary_now : ℕ → Program (Elector R W) Unit
  unfolding replica_at fill_missing has_voted judge carry_out
  decide_primary_now inst_id = do
    r ← replica_at inst_id
    modify (fill_missing inst_id)
    e ← read
    let voted =
        has_voted inst_id (api.replica_name r) e.primary_declarations
        || has_voted inst_id (api.replica_name r) e.re_election_proposals
    if voted then pure tt else (do verdict ← judge inst_id; carry_out inst_id verdict)
