-- ===== src/Catchup/Tests.antt =====
-- A manager that catches up from two transactions to five, and the theorems at it.
use plenum.Common.{
  ℕ, ◌+◌, ◌*◌, ◌≤◌, ◌<◌, ◌≡◌, refl, true, false, String, List, [], ◌∷◌, ◌++◌, Option, none, some,
  length, arith, ◌==◌, nat_eq, string_eq, add, if◌then◌else◌, ◌||◌,
}
use plenum.Common.Dict
use plenum.Common.Int.{ℤ, pos}
use plenum.Common.Dict.{Dict}
use plenum.Common.Program.{returned, failed, value_error, ◌>>=◌, for_each}
use plenum.Common.Program.Safety.{Ends}
use plenum.Quorum.{get_max_failures}
use plenum.Ledger.Sample.{list_base}
use plenum.Catchup.{
  ConsistencyProof, CatchupReq, CatchupRep, LedgerInfo, LedgerManager, Api, not_synced, syncing,
  synced,
}
use plenum.Catchup.Ranges.{get_catchup_reqs, missing_reqs, req_for}
use plenum.Catchup.Proofs.{range_of, key_of, group_consistency_proofs, latest_reliable_proof}
use plenum.Catchup.Replies.{
  merge, can_process_catchup_reply, process_catchup_replies, process_catchup_rep,
}
use plenum.Catchup.Manager.{start_decision, start_catch_up_process}
use plenum.Catchup.Start.{IsStarted, start_catch_up_process-IsStarted}
use plenum.Catchup.Statuses.{check_if_txns_needed_now}
use plenum.Catchup.Coverage.{
  IsPlan, asked, held, inside, get_catchup_reqs-IsPlan, missing_reqs-asked,
}
use plenum.Catchup.Backing.{
  backers, IsBacked, latest_reliable_proof-ReachesTo, start_decision-IsBacked,
}
use plenum.Catchup.Latest.{ReachesTo}
use plenum.Catchup.Merging.{IsSortedFrom, merge-IsSortedFrom}
use plenum.Catchup.Applying.{process_catchup_replies-Ends}

abbrev Txns : Type 0
Txns = List ℕ

abbrev five : ConsistencyProof
five = record {
  ledger_id = 1;
  seq_no_start = 2;
  seq_no_end = 5;
  pp_seq_no = 9;
  old_merkle_root = "in order";
  new_merkle_root = "in order";
  hashes = "h" ∷ [];
}

-- the numbers of the tests, and their texts
abbrev text_of : ℕ → String
text_of n = if n == 3 then "3" else if n == 4 then "4" else if n == 5 then "5" else "other"

abbrev number_of : String → Option ℤ
number_of s =
    if s == "3" || s == "03"
    then some (pos 3)
    else if s == "4"
    then some (pos 4)
    else if s == "5"
    then some (pos 5)
    else none

abbrev list_api : Api Unit Txns Txns ℕ
list_api = record {
  base = list_base;
  int = number_of;
  str = text_of;
  seq_no = λ l. length l;
  add = λ x l. (l ++ x ∷ [], length l + 1);
  set_seq_no = λ n x. x;
  tree_size = λ t. length t;
  consistency_proof = λ start end t. some [];
  merkle_tree_hash = λ n t. list_base.root_hash t;
  get_all_txn = λ start end l. [];
  verify_tree_consistency = λ size end root new_root proof. root == new_root;
  transform_txn_for_ledger = λ x w. x;
  update_txn_with_extra_data = λ x w. x;
  pp_seq_no_for_txn_seq_no = λ ledger_id n w. some 9;
  shuffle = λ nodes w. nodes;
  pre_catchup_start = λ ledger_id m. m;
  post_txn_added = λ ledger_id x m. m;
  post_catchup_complete = λ ledger_id m. m;
  post_all_ledgers_caught_up = λ m. m;
}

abbrev reply : List (String × ℕ) → CatchupRep String ℕ
reply txns = record { ledger_id = 1; txns = txns; cons_proof = [] }

abbrev behind : LedgerInfo Txns Txns ℕ
behind = record {
  ledger = record {
    base = 101 ∷ 102 ∷ [];
    uncommitted_txns = [];
    uncommitted_root_hash = none;
    uncommitted_tree = none;
  };
  state = syncing;
  can_sync = true;
  stashed_ledger_statuses = [];
  ledger_status_ok = [];
  recvd_consistency_proofs = [];
  catch_up_till = some five;
  received_catch_up_replies = [];
  recvd_catchup_replies_frm = [];
  consistency_proofs_timer = false;
  catchup_reply_timer = true;
}

abbrev manager_of : LedgerInfo Txns Txns ℕ → LedgerManager Unit Txns Txns ℕ
manager_of info = record {
  world = tt;
  owned_by_node = true;
  ledger_registry = (1, info) ∷ [];
  last_caught_up_pp_seq_no = none;
  total_nodes = 7;
  f = 2;
  conns = "A" ∷ "B" ∷ "C" ∷ [];
  node_remotes = "A" ∷ "B" ∷ "C" ∷ [];
  client_remotes = [];
  blacklisted = [];
  sent = [];
  scheduled = [];
}

abbrev up_to_date : LedgerInfo Txns Txns ℕ
up_to_date = record behind {
  ledger = record behind.ledger { base = 101 ∷ 102 ∷ 103 ∷ 104 ∷ 105 ∷ [] };
  state = synced;
  can_sync = false;
  catch_up_till = none;
  recvd_catchup_replies_frm = ("A", []) ∷ [];
  catchup_reply_timer = false;
}

-- One reply with all that is missing completes the catch-up.
caught_up :
    (process_catchup_rep list_api
      (reply (("4", 104) ∷ ("3", 103) ∷ ("5", 105) ∷ []))
      "A"
      (manager_of behind))
    ≡ (returned tt, record (manager_of up_to_date) { last_caught_up_pp_seq_no = some 9 })
unfolding process_catchup_rep ◌>>=◌ for_each Dict.get Dict.set Dict.has_key
caught_up = refl

-- The same two replies wait from two nodes, and the one before them arrives.
abbrev twice : LedgerInfo Txns Txns ℕ
twice = record behind {
  received_catch_up_replies = (4, 104) ∷ (4, 104) ∷ (5, 105) ∷ (5, 105) ∷ [];
  recvd_catchup_replies_frm =
      ("A", reply (("4", 104) ∷ ("5", 105) ∷ []) ∷ [])
      ∷ ("B", reply (("4", 104) ∷ ("5", 105) ∷ []) ∷ [])
      ∷ [];
}

-- The node that sent the right transactions is blacklisted.
blacklisted_wrongly :
    (process_catchup_rep list_api (reply (("3", 103) ∷ [])) "C" (manager_of twice)).1.blacklisted
    ≡ "A" ∷ []
unfolding process_catchup_rep ◌>>=◌ for_each Dict.get Dict.set Dict.has_key add
blacklisted_wrongly = refl

-- With one transaction twice and another missing, nothing is asked for any more.
abbrev one_twice : LedgerInfo Txns Txns ℕ
one_twice = record behind { received_catch_up_replies = (4, 104) ∷ (4, 104) ∷ (5, 105) ∷ [] }

nothing_asked :
    check_if_txns_needed_now list_api 1 (manager_of one_twice)
    ≡ (returned (some tt), manager_of (record one_twice { catchup_reply_timer = false }))
unfolding check_if_txns_needed_now ◌>>=◌ Dict.get Dict.set
nothing_asked = refl

planned : get_catchup_reqs 2 five ≡ some (req_for 1 5 2 3 4 ∷ req_for 1 5 2 5 5 ∷ [])
unfolding get_catchup_reqs req_for
planned = refl

get_catchup_reqs-IsPlan_example :
    (reqs : List CatchupReq) × (get_catchup_reqs 2 five ≡ some reqs) × IsPlan 2 five reqs
get_catchup_reqs-IsPlan_example = get_catchup_reqs-IsPlan 1 five (omega arith)

abbrev held_back : List (ℕ × ℕ)
held_back = (5, 105) ∷ (7, 107) ∷ []

missing_reqs-asked_example :
    asked 4 (missing_reqs 1 9 2 held_back 2) + held 4 held_back ≡ inside 2 9 4
missing_reqs-asked_example =
    missing_reqs-asked 1 9 2 (omega arith) 4 held_back 2 (omega arith, (omega arith, omega arith))

merge-IsSortedFrom_example :
    IsSortedFrom {X = ℕ} 3 (merge ((4, 104) ∷ (6, 106) ∷ []) ((3, 103) ∷ (4, 104) ∷ []))
    × ((k : ℕ)
        → held {X = ℕ} k (merge ((4, 104) ∷ (6, 106) ∷ []) ((3, 103) ∷ (4, 104) ∷ []))
          ≡ held {X = ℕ} k ((4, 104) ∷ (6, 106) ∷ []) + held {X = ℕ} k ((3, 103) ∷ (4, 104) ∷ []))
merge-IsSortedFrom_example =
    merge-IsSortedFrom {X = ℕ} 3 ((4, 104) ∷ (6, 106) ∷ []) ((3, 103) ∷ (4, 104) ∷ [])
      (omega arith, (omega arith, tt)) (omega arith, (omega arith, tt))

-- Two texts of one number are a repetition, and a text that is no number is a ValueError.
repeated_number :
    can_process_catchup_reply list_api (reply (("3", 103) ∷ ("03", 103) ∷ [])) (manager_of behind)
    ≡ (returned [], manager_of behind)
unfolding can_process_catchup_reply ◌>>=◌ Dict.get
repeated_number = refl

no_number :
    can_process_catchup_reply list_api (reply (("3", 103) ∷ ("x", 103) ∷ [])) (manager_of behind)
    ≡ (failed value_error, manager_of behind)
unfolding can_process_catchup_reply ◌>>=◌ Dict.get
no_number = refl

process_catchup_replies-Ends_example :
    Ends (λ done. done ≤ 2) (process_catchup_replies list_api 3 1 ((3, 103) ∷ (4, 104) ∷ []))
process_catchup_replies-Ends_example =
    process_catchup_replies-Ends list_api 3 1 ((3, 103) ∷ (4, 104) ∷ []) (omega arith)

abbrev three_proofs : Dict String (Option ConsistencyProof)
three_proofs =
    ("A", some five)
    ∷ ("B", some (record five { seq_no_end = 8 }))
    ∷ ("C", some five)
    ∷ ("D", none)
    ∷ ("E", some five)
    ∷ []

latest_reliable_proof-ReachesTo_example :
    ReachesTo 5 (latest_reliable_proof 7 (group_consistency_proofs three_proofs).0 2)
unfolding backers get_max_failures
latest_reliable_proof-ReachesTo_example =
    latest_reliable_proof-ReachesTo 7 three_proofs 2 5 (key_of five) (omega arith)

start_decision-IsBacked_example :
    (five.seq_no_start ≡ 2)
    × IsBacked 7 three_proofs (range_of five, key_of five)
    × (2 * get_max_failures 6 < 5)
unfolding start_decision Dict.get Dict.set get_max_failures
start_decision-IsBacked_example = start_decision-IsBacked 7 three_proofs 1 2 five refl

abbrev to_start : LedgerInfo Txns Txns ℕ
to_start = record behind { state = not_synced; catch_up_till = none; catchup_reply_timer = false }

start_catch_up_process-IsStarted_example :
    IsStarted 1 five
      (manager_of to_start)
      to_start
      (start_catch_up_process list_api 1 (some five) (manager_of to_start))
unfolding Dict.get
start_catch_up_process-IsStarted_example =
    start_catch_up_process-IsStarted list_api 1 2 five (manager_of to_start) to_start refl refl
      (omega arith)
