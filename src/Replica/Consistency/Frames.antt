-- ===== src/Replica/Consistency/Frames.antt =====
-- The methods that leave the core of a replica alone: they keep whatever is said of it.
use plenum.Common.{ℕ, zero, suc, ◌≡◌, sym, List, [], ◌∷◌}
use mathlib.Core.Path.{subst}
use plenum.Messages.{ReqKey, ThreePhaseKey, PrePrepare}
use plenum.Replica.{Replica, NodeApi, M, OutMsg, TpcStat}
use plenum.Replica.Rules.{Keeps, Keeps-modify, Keeps-bind, keeps_rules}
use plenum.Replica.Status.{
  is_primary_in_view, is_primary_for_msg, can_pp_seq_no_be_in_view, send, inc_stat, put_out,
  send_plain,
}
use plenum.Replica.Batch.{BatchLists, process_req, process_reqs, finalised_request, fill_batch}
use plenum.Replica.Stash.{release_request}
use plenum.Replica.Order.{apply_finalised, settle_catch_up, discard_requests, stop_repeating}
use plenum.Replica.Consistency.{Core, core, OnCore, ordered_keys, ordered_keys_quiet}

-- The message announces no order.
abbrev pub Quiet : OutMsg → Type 0
Quiet msg = ordered_keys (msg ∷ []) ≡ []

module _ {W : Type 0} (P : Core → Type 0) where
  abbrev On : {A : Type 0} → M W A → Type 0
  On m = Keeps (OnCore P) m

  pub put_out-OnCore :
      (msg : OutMsg) (s : Replica W) → Quiet msg → OnCore P s → OnCore P (put_out msg s)
  unfolding put_out
  put_out-OnCore msg s q h =
      subst (λ keys. P (record (core s) { announced = keys }))
        (sym (ordered_keys_quiet s.out_box (msg ∷ []) q)) h

  pub send-OnCore : (msg : OutMsg) (stat : TpcStat) → Quiet msg → On (send msg stat)
  unfolding send inc_stat
  send-OnCore msg stat q = Keeps-modify _ (λ s h. put_out-OnCore msg (inc_stat stat s) q h)

  pub send_plain-OnCore : (msg : OutMsg) → Quiet msg → On (send_plain msg)
  unfolding send_plain
  send_plain-OnCore msg q = Keeps-modify _ (λ s h. put_out-OnCore msg s q h)

  pub is_primary_for_msg-OnCore : (view_no : ℕ) → On (is_primary_for_msg view_no)
  unfolding is_primary_for_msg is_primary_in_view
  is_primary_for_msg-OnCore view_no = search keeps_rules

  pub can_pp_seq_no_be_in_view-OnCore :
      (view_no pp_seq_no : ℕ) → On (can_pp_seq_no_be_in_view view_no pp_seq_no)
  unfolding can_pp_seq_no_be_in_view
  can_pp_seq_no_be_in_view-OnCore view_no pp_seq_no = search keeps_rules

  pub stop_repeating-OnCore : On stop_repeating
  unfolding stop_repeating
  stop_repeating-OnCore = search (keeps_rules, Keeps-modify)

  pub release_request-OnCore : (key : ReqKey) → On (release_request key)
  unfolding release_request
  release_request-OnCore key = search (keeps_rules, Keeps-modify)

  module _ (node : NodeApi W) where
    pub finalised_request-OnCore : (key : ReqKey) → On (finalised_request node key)
    unfolding finalised_request
    finalised_request-OnCore key = search keeps_rules

    pub process_req-OnCore : (key : ReqKey) (b : BatchLists) → On (process_req node key b)
    unfolding process_req
    process_req-OnCore key b = search (keeps_rules, Keeps-modify, finalised_request-OnCore)

    pub process_reqs-OnCore : (keys : List ReqKey) (b : BatchLists) → On (process_reqs node keys b)
    unfolding process_reqs
    process_reqs-OnCore [] b = search keeps_rules
    process_reqs-OnCore (key ∷ keys) b =
        Keeps-bind _ _ (process_req-OnCore key b) (λ b'. process_reqs-OnCore keys b')

    pub fill_batch-OnCore :
        (ledger_id room : ℕ) (b : BatchLists) → On (fill_batch node ledger_id room b)
    unfolding fill_batch
    fill_batch-OnCore ledger_id zero b = search keeps_rules
    fill_batch-OnCore ledger_id (suc room) b =
        let rest = fill_batch-OnCore ledger_id room in
        search (keeps_rules, Keeps-modify, process_req-OnCore, rest) depth 9

    pub apply_finalised-OnCore : (key : ReqKey) → On (apply_finalised node key)
    unfolding apply_finalised
    apply_finalised-OnCore key = search (keeps_rules, Keeps-modify, finalised_request-OnCore)

    pub settle_catch_up-OnCore :
        (key : ThreePhaseKey) (pp : PrePrepare) → On (settle_catch_up node key pp)
    unfolding settle_catch_up
    settle_catch_up-OnCore key pp =
        search (keeps_rules, Keeps-modify, apply_finalised-OnCore) depth 9

    pub discard_requests-OnCore : (pp : PrePrepare) → On (discard_requests pp)
    unfolding discard_requests
    discard_requests-OnCore pp = search (keeps_rules, Keeps-modify)
