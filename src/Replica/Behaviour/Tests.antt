-- ===== src/Replica/Behaviour/Tests.antt =====
-- A replica of a pool with f = 1 over a world that holds the uncommitted transactions, which are
-- discarded as a ledger does, and the theorems at its states.
use plenum.Common.{
  ℕ, zero, suc, ◌-◌, ◌≤◌, ◌<◌, List, ◌++◌, take, length, ◌∙◌, ◌≡◌, refl, sym, ap, length-append,
  true, false, [], ◌∷◌, none, some, arith, nat_eq, string_eq, pair_eq, option_eq, contains,
}
use plenum.Common.Dict
use plenum.Common.Dict.{Dict}
use plenum.Messages.{Request, PrePrepare, Commit, pre_prepare}
use plenum.Votes.{has_enough_votes, has_vote}
use plenum.Propagator.{req_state}
use plenum.Replica.{Config, Replica, NodeApi, ok, raised, suspicious_node, duplicate_cm_sent, ◌>>=◌}
use plenum.Replica.Status.{
  get_pre_prepare, is_pp_seq_no_stable, is_msg_from_primary, is_primary_for_msg, is_primary,
  has_ordered, should_participate, state_root_hash, txn_root_hash,
}
use plenum.Replica.Batch.{fill_batch, create_3pc_batch, process_reqs, batch_digest}
use plenum.Replica.Stash.{gc}
use plenum.Replica.Commits.{prepare_key, can_commit}
use plenum.Replica.Prepares.{prepare_for, validate_prepare}
use plenum.Replica.Order.{can_order, has_commit_quorum, all_prev_ordered}
use plenum.Propagator.{is_finalised}
use plenum.Ledger.{drop_last}
use plenum.Ledger.Sample.{list_base}
use plenum.Replica.Batch.{BatchLists, no_reqs}
use plenum.Replica.Status.{is_next_pre_prepare, non_finalised_reqs}
use plenum.Replica.PrePrepares.{can_process_pre_prepare, validate_pre_prepare}
use plenum.Replica.History.{
  NodeView, new_replica, serve, at_start, and_then, serves, three_phase_rcvd, primary_set,
}
use plenum.Replica.Consistency.{core, IsConsistent, ordered_keys}
use plenum.Replica.Consistency.Reached.{reached-IsConsistent}
use plenum.Replica.Behaviour.{is_suspicion}
use plenum.Replica.Behaviour.Voting.{Voted, IsNextInOrder, can_order-Voted}
use plenum.Replica.Behaviour.Acceptance.{Agrees, validate_prepare-accepts}
use plenum.Replica.Behaviour.Batching.{IsBatchOf, create_3pc_batch-IsBatchOf}
use plenum.Replica.Behaviour.Admission.{IsAdmitted, can_process_pre_prepare-IsAdmitted}
use plenum.Replica.Behaviour.Collection.{IsCollected, gc-IsCollected}
use plenum.Replica.Behaviour.Reversal.{IsReversible, validate_pre_prepare-restores}

abbrev Txns : Type 0
Txns = List ℕ

abbrev node : NodeApi Txns
node = record {
  do_dynamic_validation = λ req w. none;
  apply_req = λ req w. (w ++ req.req_id ∷ [], none);
  head_hash = λ ledger_id w. "state";
  root_hash = λ ledger_id w. "txns";
  revert_to_head = λ ledger_id root w. w;
  discard_txns = λ ledger_id n w. drop_last list_base n w;
  on_batch_created = λ ledger_id root w. w;
  on_batch_rejected = λ ledger_id w. w;
  ledger_id_for_request = λ req. 1;
  sha256 = λ text. text;
}

take-append : (xs : Txns) (x n : ℕ) → n ≤ length xs → take n (xs ++ x ∷ []) ≡ take n xs
take-append xs x zero h = refl
take-append [] x (suc n) h = absurd (omega arith)
take-append (y ∷ xs) x (suc n) h = ap (λ l. y ∷ l) (take-append xs x n (omega arith))

take-all : (xs : Txns) → take (length xs) xs ≡ xs
take-all [] = refl
take-all (x ∷ xs) = ap (λ l. x ∷ l) (take-all xs)

drop_last-take : (xs : Txns) (n : ℕ) → drop_last list_base (suc n) xs ≡ take (length xs - suc n) xs
unfolding drop_last
drop_last-take xs n = ground arith

-- one transaction is appended, and one more discarded
drop_last-snoc :
    (xs : Txns) (x n : ℕ) → drop_last list_base (suc n) (xs ++ x ∷ []) ≡ take (length xs - n) xs
drop_last-snoc xs x n =
    let count : length (xs ++ x ∷ []) - suc n ≡ length xs - n =
      omega (arith, length-append xs (x ∷ [])) in
    drop_last-take (xs ++ x ∷ []) n
    ∙ ap (λ k. take k (xs ++ x ∷ [])) count
    ∙ take-append xs x (length xs - n) (omega arith)

node-IsReversible : IsReversible node
node-IsReversible = record {
  discards = λ req w w' root n e.
      ap (λ o. drop_last list_base (suc (suc n)) o.0) (sym e)
      ∙ drop_last-snoc w req.req_id (suc n)
      ∙ sym (drop_last-take w n);
  discards_one = λ req w w' root e.
      let full : length w - 0 ≡ length w = omega arith in
      ap (λ o. drop_last list_base 1 o.0) (sym e)
      ∙ drop_last-snoc w req.req_id 0
      ∙ ap (λ k. take k w) full
      ∙ take-all w;
  fails = λ req w w' root reason e. absurd (let p = ap (λ o. o.1) e in ground arith);
  stays = λ ledger_id w. refl;
}

abbrev req : Request
req = record { identifier = "client"; req_id = 1; operation = "op"; digest = "d"; signature = none }

abbrev view : NodeView Txns
view = record {
  is_participating = true;
  view_no = 0;
  f = 1;
  requests = (("client", 1), record (req_state req) { finalised = some req }) ∷ [];
  world = [];
  view_ends_at = [];
}

abbrev config : Config
config = record { log_size = 300; chk_freq = 100; max_3pc_batch_size = 10; max_3pc_batch_wait = 1 }

abbrev start : Replica Txns
start = new_replica config "Alpha" 0 true view (1 ∷ []) 0

abbrev batch : PrePrepare
batch = record {
  inst_id = 0;
  view_no = 0;
  pp_seq_no = 1;
  pp_time = 9;
  req_idr = ("client", 1) ∷ [];
  discarded = 1;
  digest = "d";
  ledger_id = 1;
  state_root_hash = some "state";
  txn_root_hash = some "txns";
}

reached-IsConsistent_example : IsConsistent (
    core
      (serve node 5
        (three_phase_rcvd (pre_prepare batch) "Beta")
        (serve node 5 (primary_set (some "Beta:0")) start).1).1)
reached-IsConsistent_example = reached-IsConsistent node config "Alpha" 0 true view (1 ∷ []) 0 (
    and_then (and_then at_start (serves 5 (primary_set (some "Beta:0"))))
      (serves 5 (three_phase_rcvd (pre_prepare batch) "Beta")))

-- The PRE-PREPARE of the primary arrived, and enough PREPAREs and COMMITs.
abbrev voted : Replica Txns
voted = record start {
  name = "Alpha:0";
  primary_name = some "Beta:0";
  pre_prepares = ((0, 1), batch) ∷ [];
  prepares = ((0, 1), record { voters = "Alpha:0" ∷ "Gamma:0" ∷ [] }) ∷ [];
  commits = ((0, 1), record { voters = "Beta:0" ∷ "Gamma:0" ∷ "Delta:0" ∷ [] }) ∷ [];
}

abbrev own : Commit
own = record { inst_id = 0; view_no = 0; pp_seq_no = 1 }

voted-IsConsistent : IsConsistent (core voted)
unfolding ordered_keys
voted-IsConsistent = record {
  marks = refl;
  sent_keyed = tt;
  received_keyed = (refl, tt);
  prepare_voters = ((refl, (refl, tt)), tt);
  commit_voters = ((refl, (refl, (refl, tt))), tt);
  ordered_distinct = tt;
  ordered_bound = tt;
  announced_once = tt;
  announced_ordered = tt;
}

program : Unit {0}
unfolding can_order has_commit_quorum all_prev_ordered has_ordered can_commit should_participate
    has_enough_votes has_vote Dict.get Dict.has_key Dict.set validate_prepare is_primary_for_msg
    is_primary is_msg_from_primary get_pre_prepare is_pp_seq_no_stable validate_pre_prepare
    process_reqs batch_digest state_root_hash txn_root_hash is_suspicion ◌>>=◌
program = tt

can_order-Voted_example :
    Voted (0, 1) 3 voted.commits
    × (contains voted.ordered (0, 1) ≡ false)
    × IsNextInOrder (0, 1) voted
    × (can_order own voted ≡ (ok true, voted))
unfolding program
can_order-Voted_example = can_order-Voted own voted voted-IsConsistent refl

validate_prepare-accepts_example :
    (is_msg_from_primary "Delta:0" voted ≡ false)
    × ((pp : PrePrepare) × (get_pre_prepare (prepare_key (prepare_for batch 0)) voted ≡ some pp)
        × Agrees (prepare_for batch 0) pp
        × ((validate_prepare (prepare_for batch 0) "Delta:0" voted).1 ≡ voted))
unfolding program prepare_for
validate_prepare-accepts_example =
    validate_prepare-accepts (prepare_for batch 0) "Delta:0" voted refl

-- The batch with a digest of other requests.
abbrev wrong : PrePrepare
wrong = record batch { digest = "other" }

wrong-HasValid :
    (b : BatchLists)
    → (process_reqs node wrong.req_idr no_reqs voted).0 ≡ ok b
    → 0 < length b.valid_reqs
unfolding program
wrong-HasValid b e =
    let p = ap (λ r. elim r as (λ _. ℕ) [ ok b' ↦ length b'.valid_reqs | raised x ↦ 0 ]) e in
    omega (arith, p)

validate_pre_prepare-restores_example : (validate_pre_prepare node wrong "Beta:0" voted).1 ≡ voted
unfolding program
validate_pre_prepare-restores_example =
    validate_pre_prepare-restores node node-IsReversible wrong "Beta:0" voted refl
      ((λ state r found final. refl), tt) wrong-HasValid refl

-- A rejected batch without a valid request takes the transactions of earlier batches with it.
earlier_lost :
    (validate_pre_prepare node
      (record wrong { req_idr = []; discarded = 0 })
      "Beta:0"
      (record voted { world = 7 ∷ [] })).1.world
    ≡ []
unfolding program drop_last plenum.Replica.Batch.revert
earlier_lost = refl

-- The key of the request waits in the queue of its ledger.
abbrev queued : Replica Txns
queued = record start { request_queues = (1, ("client", 1) ∷ []) ∷ [] }

create_3pc_batch-IsBatchOf_example : IsBatchOf node 9 1 queued batch
unfolding create_3pc_batch fill_batch batch_digest state_root_hash txn_root_hash Dict.get Dict.set
    ◌>>=◌
create_3pc_batch-IsBatchOf_example = create_3pc_batch-IsBatchOf node 9 1 queued batch refl

gc-IsCollected_example : IsCollected 1 (0, 1) voted (core (gc 1 voted).1)
gc-IsCollected_example = gc-IsCollected 1 (0, 1) voted

-- The primary is known, and its first batch arrives.
abbrev follower : Replica Txns
follower = record start { name = "Alpha:0"; primary_name = some "Beta:0" }

can_process_pre_prepare-IsAdmitted_example : IsAdmitted node batch "Beta:0" follower
unfolding can_process_pre_prepare is_next_pre_prepare non_finalised_reqs is_finalised program
can_process_pre_prepare-IsAdmitted_example =
    can_process_pre_prepare-IsAdmitted node batch "Beta:0" follower refl refl
