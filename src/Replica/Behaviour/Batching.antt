-- ===== src/Replica/Behaviour/Batching.antt =====
-- What a batch of the primary holds: its number, and no more requests than a batch may have.
use plenum.Common.{
  ℕ, zero, suc, ◌+◌, ◌≤◌, ◌≡◌, refl, Bool, true, false, List, [], ◌∷◌, ◌++◌, map, length,
  length-append, Option-cases, inl, inr, arith,
}
use mathlib.Core.Path.{subst}
use plenum.Messages.{ReqKey, Request, request_key, PrePrepare}
use plenum.Replica.{Replica, NodeApi, ok}
use plenum.Replica.Returning.{
  Returns, Gives, Gives-pure, Gives-bind, Gives-then, Gives-uncons, Returns-read,
}
use plenum.Replica.Batch.{
  BatchLists, no_reqs, accept, refuse, process_req_during_batch, process_req, fill_batch,
  create_3pc_batch,
}

abbrev size : BatchLists → ℕ
size b = length b.valid_reqs + length b.invalid_reqs

module _ {W : Type 0} (node : NodeApi W) where
  size-process_req_during_batch :
      (is_master : Bool) (req : Request) (w : W) (b : BatchLists)
      → size (process_req_during_batch node is_master req w b).1 ≡ size b + 1
  unfolding process_req_during_batch accept refuse
  size-process_req_during_batch false req w b = omega (arith, length-append b.valid_reqs (req ∷ []))
  size-process_req_during_batch true req w b =
      elim (Option-cases (node.do_dynamic_validation req w)) [
        | inr (reason, v) ↦ rw v (omega (arith, length-append b.invalid_reqs (req ∷ [])))
        | inl v ↦ elim (Option-cases (node.apply_req req w).1) [
          | inl a ↦ rw (v, a) (omega (arith, length-append b.valid_reqs (req ∷ [])))
          | inr (reason, a) ↦ rw (v, a) (omega (arith, length-append b.invalid_reqs (req ∷ [])))
        ]
      ]

  size-process_req :
      (key : ReqKey) (b : BatchLists) → Gives (λ b'. size b' ≡ size b + 1) (process_req node key b)
  unfolding process_req
  size-process_req key b = Gives-then _ _ (λ req. Gives-then _ _ (λ s.
      Gives-then _ _ (λ _. Gives-pure _ (size-process_req_during_batch s.is_master req s.world b))))

  size-fill_batch :
      (ledger_id room : ℕ) (b : BatchLists)
      → Gives (λ b'. size b' ≤ size b + room) (fill_batch node ledger_id room b)
  unfolding fill_batch
  size-fill_batch ledger_id zero b = Gives-pure _ (omega arith)
  size-fill_batch ledger_id (suc room) b = Gives-then _ _ (λ s. Gives-then _ _ (λ queue.
      Gives-uncons _ _ _ (Gives-pure _ (omega arith)) (λ key rest. Gives-then _ _ (λ _.
        Gives-bind (λ b'. size b' ≡ size b + 1) _ _ (size-process_req key b)
          (λ b' grown.
            subst (λ n. Gives (λ b''. size b'' ≤ n) (fill_batch node ledger_id room b'))
              (omega arith) (size-fill_batch ledger_id room b'))))))

  length-map : {A B : Type 0} (g : A → B) (xs : List A) → length (map g xs) ≡ length xs
  length-map g [] = omega arith
  length-map g (x ∷ xs) = omega (arith, length-map g xs)

  -- What is said of a batch for a ledger, by the state before it.
  pub record IsBatchOf (tm ledger_id : ℕ) (s : Replica W) (pp : PrePrepare) : Type 0 where
    pub number : pp.pp_seq_no ≡ s.last_pre_prepare_seq_no + 1
    pub ledger : pp.ledger_id ≡ ledger_id
    pub time : pp.pp_time ≡ tm
    pub room : length pp.req_idr ≤ s.config.max_3pc_batch_size
    pub accepted : pp.discarded ≤ length pp.req_idr

  created :
      (tm ledger_id : ℕ) (s : Replica W)
      → Returns (IsBatchOf tm ledger_id s) (create_3pc_batch node tm ledger_id s).0
  unfolding create_3pc_batch
  created tm ledger_id s = Returns-read _ s (
      Gives-bind (λ b. size b ≤ 0 + s.config.max_3pc_batch_size) _ _
        (size-fill_batch ledger_id s.config.max_3pc_batch_size no_reqs)
        (λ b fits. Gives-then _ _ (λ s'. Gives-then _ _ (λ _. Gives-then _ _ (λ _.
          let held = length-map request_key (b.valid_reqs ++ b.invalid_reqs) in
          let both = length-append b.valid_reqs b.invalid_reqs in
          Gives-pure _ (record {
            number = refl;
            ledger = refl;
            time = refl;
            room = omega (arith, held, both);
            accepted = omega (arith, held, both);
          }))))))

  -- A batch that `create3PCBatch` makes has the number after that of the last PRE-PREPARE, is of
  -- the ledger and the time asked for, holds no more requests than a batch may have, and counts no
  -- more accepted requests than it holds.
  pub create_3pc_batch-IsBatchOf :
      (tm ledger_id : ℕ) (s : Replica W) (pp : PrePrepare)
      → (create_3pc_batch node tm ledger_id s).0 ≡ ok pp
      → IsBatchOf tm ledger_id s pp
  create_3pc_batch-IsBatchOf tm ledger_id s pp e =
      subst (Returns (IsBatchOf tm ledger_id s)) e (created tm ledger_id s)
