-- ===== src/Replica/Consistency/Ordering.antt =====
-- Ordering keeps a replica consistent: a batch is announced once, and only when it was ordered.
use plenum.Common.Dict.{Dict}
use plenum.Common.{
  ℕ, ◌≡◌, refl, ap, ◌⊎◌, inl, inr, Bool, true, false, String, List, [], ◌∷◌, Option, none, some,
  if◌then◌else◌, contains, contains-add, eq_self, Bool-cases, nat_eq, pair_eq, All, ne→false,
}
use plenum.Messages.{ThreePhaseKey, PrePrepare, Commit, ThreePhaseMsg}
use plenum.Replica.{
  Replica, NodeApi, M, ok, ordered_msg, order_sent, assertion_error, need, ◌>>=◌, ◌>>◌, modify,
  pure,
}
use plenum.Replica.Rules.{
  Keeps, Moves, Moves-after, Moves-then, Keeps-modify, Keeps-pure, keeps_rules,
}
use plenum.Replica.Status.{send, inc_stat, add_to_ordered, get_pre_prepare, has_ordered}
use plenum.Replica.Order.{
  can_order, has_commit_quorum, all_prev_ordered, do_order, try_order, order_stashed,
  order_stashed_all, order_views, drop_commits, process_stashed_out_of_order_commits, ordered_for,
  settle_catch_up, discard_requests, stash_out_of_order,
}
use plenum.Replica.Checkpoints.{add_to_checkpoint}
use plenum.Replica.Consistency.{Core, OnCore, IsConsistent, IsKeyed, ordered_keys}
use plenum.Replica.Consistency.Frames.{
  settle_catch_up-OnCore, discard_requests-OnCore, stop_repeating-OnCore,
}
use plenum.Replica.Consistency.Steps.{
  add_to_ordered-IsConsistent, announce-IsConsistent, get_pre_prepare-IsKeyed,
}
use plenum.Replica.Consistency.Batches.{Inv, add_to_checkpoint-Inv}

-- The batch was ordered, and not announced yet.
abbrev Fresh : ThreePhaseKey → Core → Type 0
Fresh key c = IsConsistent c × (contains c.ordered key ≡ true) × (contains c.announced key ≡ false)

-- What was not ordered was not announced.
not_announced :
    (key : ThreePhaseKey) (ordered keys : List ThreePhaseKey)
    → All (λ k. contains ordered k ≡ true) keys
    → contains ordered key ≡ false
    → contains keys key ≡ false
not_announced key ordered [] h n = refl
not_announced key ordered (k ∷ keys) h n =
    rw (ne→false k key (λ p. cc (ap (contains ordered) p, h.0, n)))
      (not_announced key ordered keys h.1 n)

module _ {W : Type 0} where
  add_to_ordered-Fresh :
      (key : ThreePhaseKey) (s : Replica W)
      → Inv s
      → contains s.ordered key ≡ false
      → OnCore (Fresh key) (add_to_ordered key s)
  unfolding add_to_ordered
  add_to_ordered-Fresh key s h n = (
    unfold add_to_ordered in add_to_ordered-IsConsistent s h key,
    rw (contains-add key key s.ordered, eq_self) refl,
    not_announced key s.ordered (ordered_keys s.out_box) h.announced_ordered n,
  )

  announce-Moves :
      (key : ThreePhaseKey) (pp : PrePrepare) (inst_id : ℕ)
      → IsKeyed (key, pp)
      → Moves {W = W}
          (OnCore (Fresh key))
          Inv
          (send (ordered_msg (ordered_for pp inst_id)) order_sent)
  unfolding send modify ordered_for inc_stat
  announce-Moves key pp inst_id keyed = record {
    at = λ s (h, there, fresh).
        announce-IsConsistent (inc_stat order_sent s) h (ordered_for pp inst_id)
          (rw (← keyed) there) (rw (← keyed) fresh);
  }

  -- What `canOrder` may do: it says yes only of a key that was not ordered, and then changes nothing.
  can_order-cases :
      (c : Commit) (s : Replica W)
      → (can_order c s ≡ (ok true, s)) × (contains s.ordered (c.view_no, c.pp_seq_no) ≡ false)
        ⊎ (can_order c s ≡ (ok false, s))
        ⊎ (can_order c s ≡ (ok false, stash_out_of_order c s))
  unfolding can_order has_ordered ◌>>=◌
  can_order-cases c s =
      let key : ThreePhaseKey = (c.view_no, c.pp_seq_no) in
      elim (Bool-cases (has_commit_quorum key s)) [
        | inr q ↦ inr (inl (rw q refl))
        | inl q ↦ elim (Bool-cases (contains s.ordered key)) [
          | inl o ↦ inr (inl (rw (q, o) refl))
          | inr o ↦ elim (Bool-cases (all_prev_ordered key s)) [
            | inl a ↦ inl (rw (q, o, a) refl, o)
            | inr a ↦ inr (inr (rw (q, o, a) refl))
          ]
        ]
      ]

  module _ (node : NodeApi W) (again : ThreePhaseMsg → String → M W Unit)
      (again-Inv : (msg : ThreePhaseMsg) (sender : String) → Keeps Inv (again msg sender)) where
    -- `doOrder` after the PRE-PREPARE was found and the key was added to the ordered ones
    finish_order : Commit → ThreePhaseKey → PrePrepare → ℕ → M W Unit
    finish_order commit key pp inst_id = do
      settle_catch_up node key pp
      discard_requests pp
      send (ordered_msg (ordered_for pp inst_id)) order_sent
      add_to_checkpoint node again pp.pp_seq_no pp.digest

    finish_order-Moves :
        (commit : Commit) (key : ThreePhaseKey) (pp : PrePrepare) (inst_id : ℕ)
        → IsKeyed (key, pp)
        → Moves (OnCore (Fresh key)) Inv (finish_order commit key pp inst_id)
    unfolding finish_order
    finish_order-Moves commit key pp inst_id keyed =
        Moves-after _ _ (λ s h. h.0) (settle_catch_up-OnCore (Fresh key) node key pp)
          (λ _.
            Moves-after _ _ (λ s h. h.0) (discard_requests-OnCore (Fresh key) node pp)
              (λ _.
                Moves-then _ _ (announce-Moves key pp inst_id keyed)
                  (λ _. add_to_checkpoint-Inv node again again-Inv pp.pp_seq_no pp.digest)))

    -- `doOrder` on the PRE-PREPARE that was looked up
    order_found :
        (c : Commit) (s : Replica W) (o : Option PrePrepare)
        → Inv s
        → contains s.ordered (c.view_no, c.pp_seq_no) ≡ false
        → get_pre_prepare (c.view_no, c.pp_seq_no) s ≡ o
        → Inv
            ((need assertion_error o >>= λ pp.
                modify (add_to_ordered (c.view_no, c.pp_seq_no))
                >> finish_order c (c.view_no, c.pp_seq_no) pp s.inst_id)
              s).1
    unfolding ◌>>=◌
    order_found c s none h n e = h
    order_found c s (some pp) h n e =
        let key : ThreePhaseKey = (c.view_no, c.pp_seq_no) in
        (finish_order-Moves c key pp s.inst_id (get_pre_prepare-IsKeyed s h key e)).at
          (add_to_ordered key s) (add_to_ordered-Fresh key s h n)

    do_order-Inv :
        (c : Commit) (s : Replica W)
        → Inv s
        → contains s.ordered (c.view_no, c.pp_seq_no) ≡ false
        → Inv (do_order node again c s).1
    unfolding do_order finish_order ◌>>=◌
    do_order-Inv c s h n = order_found c s (get_pre_prepare (c.view_no, c.pp_seq_no) s) h n refl

    -- `tryOrder` after `canOrder`
    try_order_after :
        (c : Commit) (b : Bool) (s s' : Replica W)
        → can_order c s ≡ (ok b, s')
        → try_order node again c s ≡ ((if b then do_order node again c else pure tt) >> pure b) s'
    unfolding try_order ◌>>=◌
    try_order_after c b s s' e = rw e refl

    pub try_order-Inv : (c : Commit) → Keeps Inv (try_order node again c)
    try_order-Inv c = record {
      at = λ s h. elim (can_order-cases c s) [
        | inl (e, n) ↦ rw (try_order_after c true s s e) (
            (Moves-then {A = Unit}
                {P = λ t. Inv t × (contains t.ordered (c.view_no, c.pp_seq_no) ≡ false)} {Q = Inv}
                (do_order node again c) _ (record { at = λ t k. do_order-Inv c t k.0 k.1 })
                (λ _. Keeps-pure true)).at
              s (h, n))
        | inr (inl e) ↦ rw (try_order_after c false s s e) (unfold ◌>>=◌ in h)
        | inr (inr e) ↦
            rw (try_order_after c false s (stash_out_of_order c s) e)
              (unfold ◌>>=◌ stash_out_of_order in h)
      ];
    }

    order_stashed-Inv :
        (v : ℕ) (entry : ℕ × Commit) (progress : ThreePhaseKey × List ℕ)
        → Keeps Inv (order_stashed node again v entry progress)
    unfolding order_stashed
    order_stashed-Inv v entry progress = search (keeps_rules, try_order-Inv) depth 9

    order_stashed_all-Inv :
        (v size : ℕ) (entries : Dict ℕ Commit) (progress : ThreePhaseKey × List ℕ)
        → Keeps Inv (order_stashed_all node again v size entries progress)
    unfolding order_stashed_all
    order_stashed_all-Inv v size [] progress = search keeps_rules
    order_stashed_all-Inv v size (entry ∷ entries) progress =
        let rest = order_stashed_all-Inv v size entries in
        search (keeps_rules, order_stashed-Inv, rest) depth 9

    order_views-Inv :
        (size : ℕ) (views : List (ℕ × Dict ℕ Commit)) (last : ThreePhaseKey) (empty : List ℕ)
        → Keeps Inv (order_views node again size views last empty)
    unfolding order_views drop_commits
    order_views-Inv size [] last empty = search keeps_rules
    order_views-Inv size ((v, _) ∷ views) last empty =
        let rest = order_views-Inv size views in
        search (keeps_rules, Keeps-modify, order_stashed_all-Inv, rest) depth 14

    -- Ordering the commits that were stashed out of order keeps a replica consistent.
    pub process_stashed_out_of_order_commits-Inv :
        Keeps Inv (process_stashed_out_of_order_commits node again)
    unfolding process_stashed_out_of_order_commits
    process_stashed_out_of_order_commits-Inv =
        search (keeps_rules, Keeps-modify, order_views-Inv, stop_repeating-OnCore) depth 12
