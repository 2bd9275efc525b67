-- ===== src/Node/Dispatching.antt =====
-- Where a node puts a kept message whose view is its own.
use plenum.Common.{
  ℕ, ◌≡◌, refl, sym, ap, ◌∙◌, not, ◌&&◌, String, [], ◌∷◌, Option, some, length, ltb, ltb→lt, nat_eq,
  inl, inr,
}
use mathlib.Core.Path.{subst}
use plenum.Node.{
  MsgKind, election_kind, three_phase_kind, other_kind, NodeMsg, Node, valid_number,
  push_to_replica, send_acceptable, send_to_replica, send_to_elector, dispatch_stashed_msg,
}
use plenum.Node.Queues.{
  is_election, is_three_phase, is_other, is_at, is_below, IsDelivered, get_elem_below,
}
use plenum.Node.Placing.{
  send_acceptable_cases, put_later-IsDelivered, push_to_replica_lem, with_queue-IsDelivered,
  to_elector_queue, to_elector-IsDelivered, dropped-IsDelivered, nowhere-IsDelivered, Kept,
}

module _ {W : Type 0} where
  abbrev Goes : NodeMsg × String → Node W → Node W → Type 0
  Goes x n n' = IsDelivered n n' (x ∷ []) × Kept n n'

  -- what each kind of message is given to
  dispatched :
      (msg : NodeMsg) (frm : String) (n : Node W) (k : MsgKind)
      → msg.kind ≡ k
      → dispatch_stashed_msg (msg, frm) n ≡ elim k as (λ _. Node W) [
        | election_kind ↦ send_acceptable to_elector_queue msg frm n
        | three_phase_kind ↦ send_acceptable push_to_replica msg frm n
        | other_kind ↦ n
      ]
  unfolding dispatch_stashed_msg send_to_replica send_to_elector to_elector_queue
  dispatched msg frm n k h =
      ap
        (λ k'. elim k' as (λ _. Node W) [
          | election_kind ↦ send_to_elector msg frm n
          | three_phase_kind ↦ send_to_replica msg frm n
          | other_kind ↦ n
        ])
        h

  -- a kept message of the own view goes to the end of its queue
  pub dispatch_stashed_msg-IsDelivered :
      (x : NodeMsg × String) (n : Node W)
      → valid_number x.0.view_no ≡ some n.view_no
      → Goes x n (dispatch_stashed_msg x n)
  dispatch_stashed_msg-IsDelivered (msg, frm) n h = by_kind msg.kind refl
    where
      count : ℕ
      count = length n.msgs_to_replicas

      inst : Option ℕ
      inst = valid_number msg.inst_id

      by_kind : (k : MsgKind) → msg.kind ≡ k → Goes (msg, frm) n (dispatch_stashed_msg (msg, frm) n)
      by_kind other_kind k = subst (Goes (msg, frm) n) (sym (dispatched msg frm n other_kind k)) (
          dropped-IsDelivered (msg, frm) n (ap (λ k'. is_election k' && is_below count inst) k)
            (λ j. ap (λ k'. is_three_phase k' && is_at j inst && ltb j count) k)
            (λ j. ap (λ k'. not (is_other k') && is_at j inst && not (ltb j count)) k))
      by_kind election_kind k =
          subst (Goes (msg, frm) n) (sym (dispatched msg frm n election_kind k))
            (elim (send_acceptable_cases to_elector_queue msg frm n h) [
              | inl (lost, same) ↦
                  subst (Goes (msg, frm) n) (sym same) (nowhere-IsDelivered (msg, frm) n lost)
              | inr (i, at, inl (here, same)) ↦
                  subst (Goes (msg, frm) n) (sym same)
                    (to_elector-IsDelivered i (msg, frm) n k at here)
              | inr (i, at, inr (later, same)) ↦
                  subst (Goes (msg, frm) n) (sym same)
                    (put_later-IsDelivered i (msg, frm) n (ap is_other k) at later)
            ])
      by_kind three_phase_kind k =
          subst (Goes (msg, frm) n) (sym (dispatched msg frm n three_phase_kind k))
            (elim (send_acceptable_cases push_to_replica msg frm n h) [
              | inl (lost, same) ↦
                  subst (Goes (msg, frm) n) (sym same) (nowhere-IsDelivered (msg, frm) n lost)
              | inr (i, at, inl (here, same)) ↦
                  let (q, there) =
                    get_elem_below n.msgs_to_replicas i
                      (ltb→lt i (length n.msgs_to_replicas) here) in
                  subst (Goes (msg, frm) n)
                    (sym (same ∙ push_to_replica_lem i (msg, frm) n q there))
                    (with_queue-IsDelivered i (msg, frm) n q k at here there)
              | inr (i, at, inr (later, same)) ↦
                  subst (Goes (msg, frm) n) (sym same)
                    (put_later-IsDelivered i (msg, frm) n (ap is_other k) at later)
            ])
