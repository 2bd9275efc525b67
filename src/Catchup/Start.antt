-- ===== src/Catchup/Start.antt =====
-- The start of a catch-up in `startCatchUpProcess`, with a consistency proof: what is sent to the
-- connected nodes, and what the entry of the ledger holds afterwards.
use plenum.Common.{
  ℕ, suc, ◌≤◌, ◌<◌, ◌≡◌, refl, true, false, String, List, [], ◌∷◌, ◌++◌, map, some, length, arith,
  nat_eq, eq_self, sym, ap, ◌∙◌,
}
use mathlib.Core.Path.{subst}
use mathlib.Core.List.{append-nil, append_assoc}
use plenum.Common.Dict
use plenum.Common.Dict.{is_some}
use plenum.Common.Program.{Outcome, returned, ◌>>=◌, for_each}
use plenum.Catchup.{
  ConsistencyProof, CatchupReq, syncing, LedgerInfo, Message, Destination, LedgerManager, Api,
  catchup_req, to_node,
}
use plenum.Catchup.State.{change_info, update_info, send_msg}
use plenum.Catchup.Ranges.{get_catchup_reqs}
use plenum.Catchup.Manager.{zip, send_reqs, schedule, await_replies, start_catch_up_process}
use plenum.Catchup.Coverage.{Tiles, IsPlan, get_catchup_reqs-IsPlan}

-- With enough nodes every request has one.
map-zip :
    (reqs : List CatchupReq) (nodes : List String)
    → length reqs ≤ length nodes
    → map (λ r. r.0) (zip reqs nodes) ≡ reqs
unfolding zip
map-zip [] nodes h = refl
map-zip (req ∷ reqs) [] h = absurd (omega arith)
map-zip (req ∷ reqs) (node ∷ nodes) h = ap (λ rest. req ∷ rest) (map-zip reqs nodes (omega arith))

abbrev pub addressed : {X : Type 0} → CatchupReq × String → Message X × Destination
addressed (req, node) = (catchup_req req, to_node node)

module _ {L T X : Type 0} where
  abbrev syncing_info : LedgerInfo L T X → LedgerInfo L T X
  syncing_info i = record i {
    state = syncing;
    consistency_proofs_timer = false;
    recvd_consistency_proofs = [];
  }

  abbrev till : ConsistencyProof → LedgerInfo L T X → LedgerInfo L T X
  till p i = record i { catch_up_till = some p }

  abbrev waiting : LedgerInfo L T X → LedgerInfo L T X
  waiting i = record i { catchup_reply_timer = true }

module _ {W L T X : Type 0} where
  send_reqs_lem :
      (reqs : List (CatchupReq × String)) (m : LedgerManager W L T X)
      → send_reqs reqs m ≡ (returned tt, record m { sent = m.sent ++ map addressed reqs })
  unfolding send_reqs for_each ◌>>=◌ send_msg
  send_reqs_lem [] m = ap (λ s. (returned tt, record m { sent = s })) (sym (append-nil m.sent))
  send_reqs_lem (r ∷ reqs) m =
      rw
        (
          send_reqs_lem reqs (record m { sent = m.sent ++ addressed r ∷ [] }),
          append_assoc m.sent (addressed r ∷ []) (map addressed reqs),
        )
        refl

  change_info_lem :
      (id : ℕ) (change : LedgerInfo L T X → LedgerInfo L T X) (m : LedgerManager W L T X)
      (info : LedgerInfo L T X)
      → Dict.get id m.ledger_registry ≡ some info
      → change_info id change m
        ≡ record m { ledger_registry = Dict.set id (change info) m.ledger_registry }
  unfolding change_info
  change_info_lem id change m info h = rw (change_info, h) refl

  registered :
      (id : ℕ) (m : LedgerManager W L T X) (info : LedgerInfo L T X)
      → Dict.get id m.ledger_registry ≡ some info
      → Dict.has_key id m.ledger_registry ≡ true
  unfolding Dict.has_key
  registered id m info h = rw h refl

  get-change_info :
      (id : ℕ) (change : LedgerInfo L T X → LedgerInfo L T X) (m : LedgerManager W L T X)
      (info : LedgerInfo L T X)
      → Dict.get id m.ledger_registry ≡ some info
      → Dict.get id (change_info id change m).ledger_registry ≡ some (change info)
  get-change_info id change m info h =
      rw (change_info_lem id change m info h, Dict.get-set id id (change info) m.ledger_registry)
        (rw (eq_self id) refl)

  sent-change_info :
      (id : ℕ) (change : LedgerInfo L T X → LedgerInfo L T X) (m : LedgerManager W L T X)
      (info : LedgerInfo L T X)
      → Dict.get id m.ledger_registry ≡ some info
      → (change_info id change m).sent ≡ m.sent
  sent-change_info id change m info h = rw (change_info_lem id change m info h) refl

  abbrev sent_all : List (CatchupReq × String) → LedgerManager W L T X → LedgerManager W L T X
  sent_all reqs m = record m { sent = m.sent ++ map addressed reqs }

  start_catch_up_process_lem :
      (api : Api W L T X) (id : ℕ) (p : ConsistencyProof) (m : LedgerManager W L T X)
      (info : LedgerInfo L T X) (reqs : List CatchupReq)
      → Dict.get id m.ledger_registry ≡ some info
      → get_catchup_reqs (length m.conns) p ≡ some reqs
      → start_catch_up_process api id (some p) m
        ≡ await_replies id reqs
            (change_info id (till p) (sent_all (zip reqs m.conns) (change_info id syncing_info m)))
  unfolding start_catch_up_process ◌>>=◌ update_info
  start_catch_up_process_lem api id p m info reqs h plan =
      rw
        (
          registered id m info h,
          plan,
          send_reqs_lem (zip reqs m.conns) (change_info id syncing_info m),
        )
        refl

  await_replies_lem :
      (id : ℕ) (reqs : List CatchupReq) (p : ConsistencyProof) (m : LedgerManager W L T X)
      (info : LedgerInfo L T X)
      → Tiles p.seq_no_start reqs p.seq_no_end
      → p.seq_no_start < p.seq_no_end
      → Dict.get id m.ledger_registry ≡ some info
      → ((await_replies id reqs m).0 ≡ returned tt)
        × ((await_replies id reqs m).1.sent ≡ m.sent)
        × (Dict.get id (await_replies id reqs m).1.ledger_registry ≡ some (waiting info))
  unfolding await_replies ◌>>=◌ update_info schedule
  await_replies_lem id [] p m info tiles below h = absurd (omega (arith, tiles))
  await_replies_lem id (req ∷ reqs) p m info tiles below h =
      (refl, sent-change_info id waiting m info h, get-change_info id waiting m info h)

  -- What a start of a catch-up did, where `requests` went out: each to one connected node, as the
  -- last messages sent; and the entry of the ledger waits for the replies to them.
  pub record IsStarted (id : ℕ) (p : ConsistencyProof) (m : LedgerManager W L T X)
      (info : LedgerInfo L T X) (result : Outcome Unit × LedgerManager W L T X) : Type 0 where
    pub requests : List CatchupReq
    pub planned : IsPlan (length m.conns) p requests
    pub returns : result.0 ≡ returned tt
    pub sends : result.1.sent ≡ m.sent ++ map addressed (zip requests m.conns)
    pub complete : map (λ r. r.0) (zip requests m.conns) ≡ requests
    pub entry :
        Dict.get id result.1.ledger_registry
        ≡ some (record info {
          state = syncing;
          consistency_proofs_timer = false;
          recvd_consistency_proofs = [];
          catch_up_till = some p;
          catchup_reply_timer = true;
        })

  -- For a ledger that is registered, with at least one connected node and a proof that ends above its
  -- start, startCatchUpProcess returns; each request of a plan of the whole gap is sent to one
  -- connected node, in order; and the ledger's entry is syncing up to the proof, with the proofs
  -- dropped, their timer stopped, and the timer for the replies running.
  pub start_catch_up_process-IsStarted :
      (api : Api W L T X) (id nodes : ℕ) (p : ConsistencyProof) (m : LedgerManager W L T X)
      (info : LedgerInfo L T X)
      → Dict.get id m.ledger_registry ≡ some info
      → length m.conns ≡ suc nodes
      → p.seq_no_start < p.seq_no_end
      → IsStarted id p m info (start_catch_up_process api id (some p) m)
  start_catch_up_process-IsStarted api id nodes p m info h connected below =
      let (reqs, plan, is_plan) = get_catchup_reqs-IsPlan nodes p below in
      let all = subst (λ n. IsPlan n p reqs) (sym connected) is_plan in
      let first = change_info id syncing_info m in
      let second = sent_all (zip reqs m.conns) first in
      let entry = get-change_info id syncing_info m info h in
      let (returns, sends, waits) =
        await_replies_lem id reqs p (change_info id (till p) second) (till p (syncing_info info))
          all.tiles below (get-change_info id (till p) second (syncing_info info) entry) in
      subst (IsStarted id p m info)
        (sym (start_catch_up_process_lem api id p m info reqs h (rw connected plan)))
        (record {
          requests = reqs;
          planned = all;
          returns = returns;
          sends =
              sends
              ∙ sent-change_info id (till p) second (syncing_info info) entry
              ∙ ap (λ s. s ++ map addressed (zip reqs m.conns))
                  (sent-change_info id syncing_info m info h);
          complete = map-zip reqs m.conns all.few;
          entry = waits;
        })
