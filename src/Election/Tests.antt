-- ===== src/Election/Tests.antt =====
-- An elector of a pool of four nodes, and the theorems at it.
use plenum.Common.{
  ℕ, ◌≡◌, refl, true, String, [], ◌∷◌, Option, none, some, arith, nat_eq, string_eq, pair_eq,
}
use plenum.Common.Dict
use plenum.Common.Dict.{Dict, values}
use plenum.Common.Program.{returned, modify, ◌>>=◌}
use plenum.ActionQueue.{new_action_queue}
use plenum.Quorum.{tally, most_common}
use plenum.Quorum.Majority.{occurrences}
use plenum.Replica.Status.{generate_name}
use plenum.Election.{Vote, Primary, declare, unset, Elector, ElectionApi}
use plenum.Election.Sending.{was_primary_before}
use plenum.Election.Deciding.{decide_primary_now, carry_out}
use plenum.Election.Handlers.{process_primary}
use plenum.Election.Agreement.{process_primary-elects}
use plenum.Election.Safety.{IsElected, process_primary-IsElected}
use plenum.Election.Decisions.{IsDecided, decide_primary_now-IsDecided}

record Seat : Type 0 where
  seat_name : String
  seat_inst_id : ℕ
  seat_primary : Option String
  seat_last_ordered : ℕ

abbrev api : ElectionApi Seat ℕ
api = record {
  replica_name = λ r. r.seat_name;
  inst_id = λ r. r.seat_inst_id;
  primary_name = λ r. r.seat_primary;
  last_ordered_pp_seq_no = λ r. r.seat_last_ordered;
  reset_primary = modify (λ r. record r { seat_primary = none });
  primary_changed = λ name last. λ r. (returned tt, record r { seat_primary = some name });
  primary_found = λ replicas w. w;
  perf_counter = λ w. w;
  second = 1;
  choice = λ ids w. 0;
  short_delay = λ w. 1;
  long_delay = λ w. 2;
}

abbrev seat : ℕ → String → Seat
seat i name = record {
  seat_name = name;
  seat_inst_id = i;
  seat_primary = none;
  seat_last_ordered = 0;
}

abbrev alpha : Dict String Vote → Dict String Vote → Elector Seat ℕ
alpha nominations declarations = record {
  name = "Alpha";
  f = 1;
  replicas = seat 0 "Alpha:0" ∷ seat 1 "Alpha:1" ∷ [];
  view_no = 0;
  node_count = 4;
  is_participating = true;
  world = 10;
  in_box = [];
  out_box = [];
  actions = new_action_queue;
  replica_nominated_for_itself = none;
  nominations = (0, nominations) ∷ [];
  primary_declarations = (0, declarations) ∷ [];
  scheduled_primary_decisions = (0, unset) ∷ [];
  re_election_proposals = (0, []) ∷ [];
  re_election_rounds = (0, 0) ∷ [];
  duplicate_msgs = [];
  previous_master_primary = none;
}

abbrev two_declared : Dict String Vote
two_declared = ("Beta:0", ("Beta:0", 0)) ∷ ("Delta:0", ("Delta:0", 0)) ∷ []

abbrev for_beta : Primary
for_beta = record { name = "Beta:0"; inst_id = 0; view_no = 0; ord_seq_no = 0 }

process_primary-elects_example :
    ((process_primary api for_beta "Gamma" (alpha [] two_declared)).0 ≡ returned tt)
    × ((process_primary api for_beta "Gamma" (alpha [] two_declared)).1.replicas
        ≡ record (seat 0 "Alpha:0") { seat_primary = some "Beta:0" } ∷ seat 1 "Alpha:1" ∷ [])
unfolding was_primary_before Dict.get Dict.set Dict.has_key generate_name occurrences
process_primary-elects_example =
    process_primary-elects api for_beta "Gamma" ("Beta:0", 0) (alpha [] two_declared) two_declared
      (seat 0 "Alpha:0") (record (seat 0 "Alpha:0") { seat_primary = some "Beta:0" }) refl refl refl
      refl refl (omega arith) (omega arith) refl

process_primary-IsElected_example :
    IsElected api 0
      (alpha [] two_declared)
      (process_primary api for_beta "Gamma" (alpha [] two_declared)).1
process_primary-IsElected_example =
    process_primary-IsElected api for_beta "Gamma" (alpha [] two_declared)

abbrev three_nominated : Dict String Vote
three_nominated =
    ("Alpha:0", ("Beta:0", 0)) ∷ ("Beta:0", ("Beta:0", 0)) ∷ ("Gamma:0", ("Beta:0", 0)) ∷ []

declares : (decide_primary_now api 0 (alpha three_nominated [])).1.out_box ≡ declare for_beta ∷ []
unfolding decide_primary_now carry_out Dict.get Dict.set Dict.has_key tally most_common ◌>>=◌
declares = refl

decide_primary_now-IsDecided_example :
    IsDecided api 0
      (alpha three_nominated [])
      (decide_primary_now api 0 (alpha three_nominated [])).1
decide_primary_now-IsDecided_example = decide_primary_now-IsDecided api 0 (alpha three_nominated [])
