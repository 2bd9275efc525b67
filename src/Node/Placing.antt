-- ===== src/Node/Placing.antt =====
-- Where a message of a node's own view is put, by its kind and its instance.
use plenum.Common.{
  ℕ, ◌<◌, ◌≡◌, refl, ◌⊎◌, sym, ap, Bool, true, false, String, [], ◌∷◌, ◌++◌, none, some, length,
  ltb, ltb→lt, arith, ◌==◌, nat_eq, eq_self, eq→path, inl, inr, Bool-cases, Option-cases, get_elem?,
  set_elem, keep, if◌then◌else◌,
}
use mathlib.Core.List.{append-nil}
use plenum.Common.Dict
use plenum.Common.Dict.{Dict, get_or}
use plenum.Node.{
  election_kind, three_phase_kind, NodeMsg, Deque, Node, valid_number, append_at,
  msg_has_acceptable_inst_id, msg_has_acceptable_view_no, push_to_replica, send_acceptable,
}
use plenum.Node.Queues.{
  is_other, for_elector, for_replica, for_later, replica_queue, later_queue, IsDelivered,
  length-set_elem, get_elem-set_elem,
}

stays :
    (p : NodeMsg × String → Bool) (x : NodeMsg × String) (q : Deque)
    → p x ≡ false
    → q ≡ q ++ keep p (x ∷ [])
stays p x q h = rw h (sym (append-nil q))

gets :
    (p : NodeMsg × String → Bool) (x : NodeMsg × String) (q : Deque)
    → p x ≡ true
    → q ++ x ∷ [] ≡ q ++ keep p (x ∷ [])
gets p x q h = rw h refl

module _ {W : Type 0} where
  view_fits :
      (msg : NodeMsg) (frm : String) (n : Node W)
      → valid_number msg.view_no ≡ some n.view_no
      → msg_has_acceptable_view_no msg frm n ≡ (true, n)
  unfolding msg_has_acceptable_view_no
  view_fits msg frm n h = rw (msg_has_acceptable_view_no, h) (ground arith)

  pub put_later : ℕ → NodeMsg × String → Node W → Node W
  put_later i x n = record n { msgs_for_future_replicas = append_at i x n.msgs_for_future_replicas }

  inst_missing :
      (msg : NodeMsg) (frm : String) (n : Node W)
      → valid_number msg.inst_id ≡ none
      → msg_has_acceptable_inst_id msg frm n ≡ (none, n)
  unfolding msg_has_acceptable_inst_id
  inst_missing msg frm n h = rw (msg_has_acceptable_inst_id, h) refl

  inst_there :
      (msg : NodeMsg) (frm : String) (n : Node W) (i : ℕ)
      → valid_number msg.inst_id ≡ some i
      → ltb i (length n.msgs_to_replicas) ≡ true
      → msg_has_acceptable_inst_id msg frm n ≡ (some i, n)
  unfolding msg_has_acceptable_inst_id
  inst_there msg frm n i h below = rw (msg_has_acceptable_inst_id, h, below) refl

  inst_later :
      (msg : NodeMsg) (frm : String) (n : Node W) (i : ℕ)
      → valid_number msg.inst_id ≡ some i
      → ltb i (length n.msgs_to_replicas) ≡ false
      → msg_has_acceptable_inst_id msg frm n ≡ (none, put_later i (msg, frm) n)
  unfolding msg_has_acceptable_inst_id put_later
  inst_later msg frm n i h above = rw (msg_has_acceptable_inst_id, h, above) refl

  -- where a message of the own view goes
  pub send_acceptable_cases :
      (push : ℕ → NodeMsg × String → Node W → Node W) (msg : NodeMsg) (frm : String) (n : Node W)
      → valid_number msg.view_no ≡ some n.view_no
      → let sent = send_acceptable push msg frm n in
        ((valid_number msg.inst_id ≡ none) × (sent ≡ n))
        ⊎ ((i : ℕ) × (valid_number msg.inst_id ≡ some i)
            × (((ltb i (length n.msgs_to_replicas) ≡ true) × (sent ≡ push i (msg, frm) n))
                ⊎ ((ltb i (length n.msgs_to_replicas) ≡ false)
                    × (sent ≡ put_later i (msg, frm) n))))
  unfolding send_acceptable
  send_acceptable_cases push msg frm n h = elim (Option-cases (valid_number msg.inst_id)) [
    | inl nowhere ↦ inl (
      nowhere,
      rw (send_acceptable, inst_missing msg frm n nowhere)
          (ap (λ p. p.1) (inst_missing msg frm n nowhere)),
    )
    | inr (i, at) ↦ elim (Bool-cases (ltb i (length n.msgs_to_replicas))) [
      | inl here ↦ inr (
        i,
        at,
        inl (
          here,
          rw (send_acceptable, inst_there msg frm n i at here)
              (rw
                (
                  ap (λ p. p.1) (inst_there msg frm n i at here),
                  ap (λ p. p.0) (view_fits msg frm n h),
                )
                (ap (λ p. push i (msg, frm) p.1) (view_fits msg frm n h))),
        ),
      )
      | inr later ↦ inr (
        i,
        at,
        inr (
          later,
          rw (send_acceptable, inst_later msg frm n i at later)
              (ap (λ p. p.1) (inst_later msg frm n i at later)),
        ),
      )
    ]
  ]

  -- what a delivery leaves alone besides
  abbrev pub Kept : Node W → Node W → Type 0
  Kept n n' = n'.msgs_for_future_views ≡ n.msgs_for_future_views

  later_queue-put :
      (i j : ℕ) (x : NodeMsg × String) (n : Node W)
      → later_queue j (put_later i x n)
        ≡ (if i == j then later_queue j n ++ x ∷ [] else later_queue j n)
  unfolding put_later append_at
  later_queue-put i j x n =
      rw (Dict.get-set i j (later_queue i n ++ x ∷ []) n.msgs_for_future_replicas)
        (elim (Bool-cases (i == j)) [
          | inl same ↦ rw same (rw (eq→path i j same) refl)
          | inr other ↦ rw other refl
        ])

  pub put_later-IsDelivered :
      (i : ℕ) (x : NodeMsg × String) (n : Node W)
      → is_other x.0.kind ≡ false
      → valid_number x.0.inst_id ≡ some i
      → ltb i (length n.msgs_to_replicas) ≡ false
      → IsDelivered n (put_later i x n) (x ∷ []) × Kept n (put_later i x n)
  unfolding put_later
  put_later-IsDelivered i x n k at later =
      let count = length n.msgs_to_replicas in
      (
        record {
          same_view = refl;
          same_count = refl;
          to_elector =
              stays (for_elector count) x n.msgs_to_elector (rw (at, later) (ground arith));
          to_replicas = λ j.
              stays (for_replica count j) x (replica_queue j n) (rw at (ground (arith, later)));
          to_later = λ j. elim (Bool-cases (i == j)) [
            | inl same ↦
                rw (later_queue-put i j x n, same)
                  (gets (for_later count j) x (later_queue j n)
                    (rw (at, k, same, ← eq→path i j same, later) refl))
            | inr other ↦
                rw (later_queue-put i j x n, other)
                  (stays (for_later count j) x (later_queue j n) (rw (at, k, other) refl))
          ];
        },
        refl,
      )

  -- the queue of a replica, with one message more
  pub with_queue : ℕ → Deque → Node W → Node W
  with_queue i q n = record n { msgs_to_replicas = set_elem n.msgs_to_replicas i q }

  pub push_to_replica_lem :
      (i : ℕ) (x : NodeMsg × String) (n : Node W) (q : Deque)
      → get_elem? n.msgs_to_replicas i ≡ some q
      → push_to_replica i x n ≡ with_queue i (q ++ x ∷ []) n
  unfolding push_to_replica with_queue
  push_to_replica_lem i x n q h = rw (push_to_replica, h) refl

  replica_queue-with :
      (i j : ℕ) (q : Deque) (n : Node W)
      → i < length n.msgs_to_replicas
      → replica_queue j (with_queue i q n) ≡ (if i == j then q else replica_queue j n)
  unfolding with_queue
  replica_queue-with i j q n h =
      rw (get_elem-set_elem n.msgs_to_replicas i j q h)
        (elim (Bool-cases (i == j)) [ inl same ↦ rw same refl | inr other ↦ rw other refl ])

  pub with_queue-IsDelivered :
      (i : ℕ) (x : NodeMsg × String) (n : Node W) (q : Deque)
      → x.0.kind ≡ three_phase_kind
      → valid_number x.0.inst_id ≡ some i
      → ltb i (length n.msgs_to_replicas) ≡ true
      → get_elem? n.msgs_to_replicas i ≡ some q
      → IsDelivered n (with_queue i (q ++ x ∷ []) n) (x ∷ [])
        × Kept n (with_queue i (q ++ x ∷ []) n)
  unfolding with_queue
  with_queue-IsDelivered i x n q k at here there =
      let count = length n.msgs_to_replicas in
      let queues = λ (j : ℕ). replica_queue-with i j (q ++ x ∷ []) n (ltb→lt i count here) in
      let own : replica_queue i n ≡ q = rw there refl in
      (
        record {
          same_view = refl;
          same_count = length-set_elem n.msgs_to_replicas i (q ++ x ∷ []);
          to_elector = stays (for_elector count) x n.msgs_to_elector (rw k refl);
          to_replicas = λ j. elim (Bool-cases (i == j)) [
            | inl same ↦
                rw (queues j, same)
                  (rw (← eq→path i j same, own)
                    (gets (for_replica count i) x q (rw (k, at, eq_self i, here) refl)))
            | inr other ↦
                rw (queues j, other)
                  (stays (for_replica count j) x (replica_queue j n) (rw (k, at, other) refl))
          ];
          to_later = λ j.
              stays (for_later count j) x (later_queue j n) (rw (k, at) (ground (arith, here)));
        },
        refl,
      )

  unfoldable pub to_elector_queue : ℕ → NodeMsg × String → Node W → Node W
  to_elector_queue i x n = record n { msgs_to_elector = n.msgs_to_elector ++ x ∷ [] }

  pub to_elector-IsDelivered :
      (i : ℕ) (x : NodeMsg × String) (n : Node W)
      → x.0.kind ≡ election_kind
      → valid_number x.0.inst_id ≡ some i
      → ltb i (length n.msgs_to_replicas) ≡ true
      → IsDelivered n (to_elector_queue i x n) (x ∷ []) × Kept n (to_elector_queue i x n)
  unfolding to_elector_queue
  to_elector-IsDelivered i x n k at here =
      let count = length n.msgs_to_replicas in
      (
        record {
          same_view = refl;
          same_count = refl;
          to_elector = gets (for_elector count) x n.msgs_to_elector (rw (k, at, here) refl);
          to_replicas = λ j. stays (for_replica count j) x (replica_queue j n) (rw k refl);
          to_later = λ j.
              stays (for_later count j) x (later_queue j n) (rw (k, at) (ground (arith, here)));
        },
        refl,
      )

  -- a message that goes nowhere
  pub dropped-IsDelivered :
      (x : NodeMsg × String) (n : Node W)
      → for_elector (length n.msgs_to_replicas) x ≡ false
      → ((j : ℕ) → for_replica (length n.msgs_to_replicas) j x ≡ false)
      → ((j : ℕ) → for_later (length n.msgs_to_replicas) j x ≡ false)
      → IsDelivered n n (x ∷ []) × Kept n n
  dropped-IsDelivered x n e r l = (
    record {
      same_view = refl;
      same_count = refl;
      to_elector = stays (for_elector (length n.msgs_to_replicas)) x n.msgs_to_elector e;
      to_replicas =
          λ j. stays (for_replica (length n.msgs_to_replicas) j) x (replica_queue j n) (r j);
      to_later = λ j. stays (for_later (length n.msgs_to_replicas) j) x (later_queue j n) (l j);
    },
    refl,
  )

  pub nowhere-IsDelivered :
      (x : NodeMsg × String) (n : Node W)
      → valid_number x.0.inst_id ≡ none
      → IsDelivered n n (x ∷ []) × Kept n n
  nowhere-IsDelivered x n h =
      dropped-IsDelivered x n (rw h (ground arith)) (λ j. rw h (ground arith))
        (λ j. rw h (ground arith))
