-- ===== src/Replica/Behaviour/Reversal.antt =====
-- A PRE-PREPARE that the master instance rejects leaves no trace in its ledger and state.
use plenum.Common.{
  map, ℕ, zero, suc, ◌+◌, ◌<◌, ◌≡◌, refl, ◌∙◌, sym, ap, true, false, String, List, [], ◌∷◌, ◌++◌,
  Option, none, some, Option-cases, inl, inr, nat_eq, pair_eq, string_eq, option_eq, arith,
  if◌then◌else◌, length, All, length-append,
}
use plenum.Common.Dict
use plenum.Common.Dict.{Dict}
use plenum.Messages.{ReqKey, Request, PrePrepare, pre_prepare}
use plenum.Propagator.{ReqState, Requests}
use plenum.Replica.{
  Replica, NodeApi, M, Result, ok, raised, suspicious_node, continue, raise, maybe, reject_msg,
  modify, ◌>>=◌, ◌>>◌, pure,
}
use plenum.Replica.Status.{state_root_hash}
use plenum.Replica.Batch.{
  BatchLists, no_reqs, accept, refuse, process_req_during_batch, finalised_request, process_req,
  process_reqs, revert,
}
use plenum.Replica.PrePrepares.{pre_prepare_fault, validate_pre_prepare}
use plenum.Replica.Behaviour.{is_suspicion}

-- What the reversal of a batch relies on, of one request at a time, for a positive number of
-- transactions to discard: to discard one more takes a request back that was applied; a request whose
-- application failed left no transaction, and changed the state at most; and to revert to the present
-- head takes nothing back. Nothing is said of discarding no transaction, which discards all.
pub record IsReversible {W : Type 0} (node : NodeApi W) : Type 0 where
  pub discards :
      (req : Request) (w w' : W) (root : Option String) (n : ℕ)
      → node.apply_req req w ≡ (w', none)
      → node.discard_txns
          (node.ledger_id_for_request req)
          (suc (suc n))
          (node.revert_to_head (node.ledger_id_for_request req) root w')
        ≡ node.discard_txns
            (node.ledger_id_for_request req)
            (suc n)
            (node.revert_to_head (node.ledger_id_for_request req) root w)
  pub discards_one :
      (req : Request) (w w' : W) (root : Option String)
      → node.apply_req req w ≡ (w', none)
      → node.discard_txns
          (node.ledger_id_for_request req)
          1
          (node.revert_to_head (node.ledger_id_for_request req) root w')
        ≡ node.revert_to_head (node.ledger_id_for_request req) root w
  pub fails :
      (req : Request) (w w' : W) (root : Option String) (reason : String)
      → node.apply_req req w ≡ (w', some reason)
      → node.revert_to_head (node.ledger_id_for_request req) root w'
        ≡ node.revert_to_head (node.ledger_id_for_request req) root w
  pub stays :
      (ledger_id : ℕ) (w : W)
      → node.on_batch_rejected ledger_id
          (node.revert_to_head ledger_id (some (node.head_hash ledger_id w)) w)
        ≡ w

module _ {W : Type 0} (node : NodeApi W) where
  -- The request of a key belongs to a ledger.
  abbrev pub BelongsTo : ℕ → Requests → ReqKey → Type 0
  BelongsTo ledger_id requests key =
      (state : ReqState) (req : Request)
      → Dict.get key requests ≡ some state
      → state.finalised ≡ some req
      → node.ledger_id_for_request req ≡ ledger_id

  -- the world without the last transactions of a ledger, none of them for zero, and with an earlier
  -- state
  undo : ℕ → Option String → ℕ → W → W
  undo ledger_id root zero w = node.revert_to_head ledger_id root w
  undo ledger_id root (suc n) w =
      node.discard_txns ledger_id (suc n) (node.revert_to_head ledger_id root w)

  undo-nothing :
      (ledger_id : ℕ) (root : Option String) (w : W)
      → undo ledger_id root 0 w ≡ node.revert_to_head ledger_id root w
  unfolding undo
  undo-nothing ledger_id root w = refl

  undo-positive :
      (ledger_id : ℕ) (root : Option String) (n : ℕ) (w : W)
      → 0 < n
      → undo ledger_id root n w
        ≡ node.discard_txns ledger_id n (node.revert_to_head ledger_id root w)
  unfolding undo
  undo-positive ledger_id root zero w h = absurd (omega arith)
  undo-positive ledger_id root (suc n) w h = refl

  module _ (rev : IsReversible node) (ledger_id : ℕ) (root : Option String) where
    -- What a batch has done so far can be taken back.
    IsUndone : W → BatchLists → W × BatchLists → Type 0
    IsUndone w b (w', b') =
        undo ledger_id root (length b'.valid_reqs) w' ≡ undo ledger_id root (length b.valid_reqs) w

    undo-applied :
        (req : Request) (w w' : W) (n : ℕ)
        → node.ledger_id_for_request req ≡ ledger_id
        → node.apply_req req w ≡ (w', none)
        → undo ledger_id root (n + 1) w' ≡ undo ledger_id root n w
    unfolding undo
    undo-applied req w w' zero l e = rw (← l) (rev.discards_one req w w' root e)
    undo-applied req w w' (suc n) l e =
        let next : suc n + 1 ≡ suc (suc n) = omega arith in
        rw (next, ← l) (rev.discards req w w' root n e)

    undo-failed :
        (req : Request) (w w' : W) (n : ℕ) (reason : String)
        → node.ledger_id_for_request req ≡ ledger_id
        → node.apply_req req w ≡ (w', some reason)
        → undo ledger_id root n w' ≡ undo ledger_id root n w
    unfolding undo
    undo-failed req w w' zero reason l e = rw (← l) (rev.fails req w w' root reason e)
    undo-failed req w w' (suc n) reason l e = rw (← l) (
        ap (node.discard_txns (node.ledger_id_for_request req) (suc n))
          (rev.fails req w w' root reason e))

    process_req_during_batch-IsUndone :
        (req : Request) (w : W) (b : BatchLists)
        → node.ledger_id_for_request req ≡ ledger_id
        → IsUndone w b (process_req_during_batch node true req w b)
    unfolding IsUndone process_req_during_batch accept refuse
    process_req_during_batch-IsUndone req w b l =
        elim (Option-cases (node.do_dynamic_validation req w)) [
          | inr (reason, v) ↦ rw v refl
          | inl v ↦ elim (Option-cases (node.apply_req req w).1) [
            | inl a ↦
                rw (v, a, length-append b.valid_reqs (req ∷ []))
                  (undo-applied req w _ (length b.valid_reqs) l
                    (ap (λ o. ((node.apply_req req w).0, o)) a))
            | inr (reason, a) ↦
                rw (v, a)
                  (undo-failed req w _ (length b.valid_reqs) reason l
                    (ap (λ o. ((node.apply_req req w).0, o)) a))
          ]
        ]

    -- The outcome of the loop over the keys of a PRE-PREPARE.
    Undone : Replica W → BatchLists → Result BatchLists → Replica W → Type 0
    Undone s b (ok b') s' = (s' ≡ record s { world = s'.world }) × IsUndone s.world b (s'.world, b')
    Undone s b (raised e) s' = is_suspicion {A = Unit} (raised e) ≡ false

    process_req-Undone :
        (key : ReqKey) (b : BatchLists) (s : Replica W)
        → s.is_master ≡ true
        → BelongsTo ledger_id s.requests key
        → Undone s b (process_req node key b s).0 (process_req node key b s).1
    unfolding process_req finalised_request Undone IsUndone is_suspicion ◌>>=◌
    process_req-Undone key b s master belongs = elim (Option-cases (Dict.get key s.requests)) [
      | inl absent ↦ rw absent refl
      | inr (state, found) ↦ elim (Option-cases state.finalised) [
        | inl pending ↦ rw (found, pending) refl
        | inr (req, final) ↦
            rw (found, final, master)
              (
                refl,
                process_req_during_batch-IsUndone req s.world b (belongs state req found final),
              )
      ]
    ]

    chain-Undone :
        (s s' s'' : Replica W) (b b' : BatchLists) (r : Result BatchLists)
        → Undone s b (ok b') s'
        → Undone s' b' r s''
        → Undone s b r s''
    unfolding Undone IsUndone
    chain-Undone s s' s'' b b' (raised e) u v = v
    chain-Undone s s' s'' b b' (ok b'') u v =
        (v.0 ∙ ap {A = Replica W} (λ t. record t { world = s''.world }) u.0, v.1 ∙ u.1)

    continue-Undone :
        (s s' : Replica W) (b : BatchLists) (r : Result BatchLists)
        (g : BatchLists → M W BatchLists)
        → Undone s b r s'
        → ((b' : BatchLists)
            → s' ≡ record s { world = s'.world }
            → Undone s' b' (g b' s').0 (g b' s').1)
        → Undone s b (continue r g s').0 (continue r g s').1
    unfolding Undone
    continue-Undone s s' b (raised e) g u k = u
    continue-Undone s s' b (ok b') g u k =
        chain-Undone s s' (g b' s').1 b b' (g b' s').0 u (k b' u.0)

    process_reqs-Undone :
        (keys : List ReqKey) (b : BatchLists) (s : Replica W)
        → s.is_master ≡ true
        → All (BelongsTo ledger_id s.requests) keys
        → Undone s b (process_reqs node keys b s).0 (process_reqs node keys b s).1
    unfolding process_reqs Undone IsUndone ◌>>=◌
    process_reqs-Undone [] b s master belong = (refl, refl)
    process_reqs-Undone (key ∷ keys) b s master belong =
        continue-Undone s _ b (process_req node key b s).0 (λ b'. process_reqs node keys b')
          (process_req-Undone key b s master belong.0)
          (λ b' same.
            process_reqs-Undone keys b' (process_req node key b s).1
              (ap (λ t. t.is_master) same ∙ master) (rw (ap (λ t. t.requests) same) belong.1))

  -- `validatePrePrepare` after the loop over the requests
  settled : PrePrepare → String → Option String → Result BatchLists → M W Unit
  settled pp sender old_root r = continue r (λ b s.
      maybe
        (if s.is_master
          then modify (λ s'. record s' { out_box = s'.out_box ++ map reject_msg b.rejects })
          else pure tt)
        (λ code.
          (if s.is_master
            then modify (revert node pp.ledger_id old_root (length b.valid_reqs))
            else pure tt)
          >> raise (suspicious_node sender code (pre_prepare pp)))
        (pre_prepare_fault node pp b s) s)

  settled_lem :
      (pp : PrePrepare) (sender : String) (s : Replica W)
      → validate_pre_prepare node pp sender s
        ≡ settled pp sender
            (state_root_hash node pp.ledger_id s)
            (process_reqs node pp.req_idr no_reqs s).0
            (process_reqs node pp.req_idr no_reqs s).1
  unfolding validate_pre_prepare settled ◌>>=◌
  settled_lem pp sender s = refl

  settled-restores :
      (rev : IsReversible node) (pp : PrePrepare) (sender : String) (s s' : Replica W)
      (r : Result BatchLists)
      → s.is_master ≡ true
      → Undone rev pp.ledger_id (some (node.head_hash pp.ledger_id s.world)) s no_reqs r s'
      → ((b : BatchLists) → r ≡ ok b → 0 < length b.valid_reqs)
      → is_suspicion (settled pp sender (some (node.head_hash pp.ledger_id s.world)) r s').0 ≡ true
      → (settled pp sender (some (node.head_hash pp.ledger_id s.world)) r s').1 ≡ s
  unfolding settled Undone IsUndone revert is_suspicion ◌>>=◌
  settled-restores rev pp sender s s' (raised e) master u some_valid h = absurd (ground arith)
  settled-restores rev pp sender s s' (ok b) master u some_valid h =
      let m : s'.is_master ≡ true = ap (λ t. t.is_master) u.0 ∙ master in
      elim (Option-cases (pre_prepare_fault node pp b s')) [
        | inl fine ↦ absurd (let no : false ≡ true = rw (fine, m) at h in ground arith)
        | inr (code, fault) ↦
            let back = node.on_batch_rejected pp.ledger_id in
            let old = some (node.head_hash pp.ledger_id s.world) in
            let count =
              undo-positive pp.ledger_id old (length b.valid_reqs) s'.world (some_valid b refl) in
            let first : undo pp.ledger_id old 0 s.world
                ≡ node.revert_to_head pp.ledger_id old s.world =
              undo-nothing pp.ledger_id old s.world in
            let p = ap back (sym count ∙ u.1 ∙ first) ∙ rev.stays pp.ledger_id s.world in
            rw (fault, m)
              (ap {A = Replica W}
                  (λ t. record t {
                    is_master = true;
                    world = back (
                        node.discard_txns pp.ledger_id (length b.valid_reqs)
                          (node.revert_to_head pp.ledger_id old s'.world));
                  })
                  u.0
                ∙ ap {B = Replica W} (λ w. record s { is_master = true; world = w }) p
                ∙ ap {B = Replica W} (λ b. record s { is_master = b }) (sym master))
      ]

  -- Where the ledgers and states of the node can take back what one request did, and the requests of
  -- a PRE-PREPARE belong to its ledger and some are valid: if `validatePrePrepare` on the master
  -- instance ends with the exception of a suspicious node, then the replica is left as it was, its
  -- world included.
  pub validate_pre_prepare-restores :
      (rev : IsReversible node) (pp : PrePrepare) (sender : String) (s : Replica W)
      → s.is_master ≡ true
      → All (BelongsTo pp.ledger_id s.requests) pp.req_idr
      → ((b : BatchLists)
          → (process_reqs node pp.req_idr no_reqs s).0 ≡ ok b
          → 0 < length b.valid_reqs)
      → is_suspicion (validate_pre_prepare node pp sender s).0 ≡ true
      → (validate_pre_prepare node pp sender s).1 ≡ s
  unfolding state_root_hash
  validate_pre_prepare-restores rev pp sender s master belong some_valid h =
      let root = some (node.head_hash pp.ledger_id s.world) in
      let same : state_root_hash node pp.ledger_id s ≡ root = rw master refl in
      let e = settled_lem pp sender s in
      rw (e, same)
        (settled-restores rev pp sender s _ _ master
          (process_reqs-Undone rev pp.ledger_id root pp.req_idr no_reqs s master belong) some_valid
          (rw (e, same) at h))
