-- ===== src/Node/Keeping.antt =====
-- The view and the votes for views while plenum/server/node.py routes the messages that waited.
use plenum.Common.{
  ℕ, zero, suc, ◌-◌, ◌≡◌, refl, ◌∙◌, String, [], ◌∷◌, ◌++◌, inl, inr, length, ltb, nat_eq,
  Bool-cases, Option-cases, List-cases, string_eq,
}
use plenum.Common.Dict
use plenum.Common.Dict.{Dict, get_or}
use plenum.Node.{
  election_kind, three_phase_kind, other_kind, NodeMsg, Node, valid_number,
  msg_has_acceptable_inst_id, msg_has_acceptable_view_no, send_acceptable, push_to_replica,
  send_to_replica, send_to_elector, dispatch_stashed_msg, process_stashed_msgs_for_view,
}

module _ {W : Type 0} where
  -- the fields that count
  abbrev pub Same : Node W → Node W → Type 0
  Same n n' = (n'.f ≡ n.f) × (n'.instance_changes ≡ n.instance_changes) × (n'.view_no ≡ n.view_no)

  Same-trans : (n m n' : Node W) → Same n m → Same m n' → Same n n'
  Same-trans n m n' (f, votes, view) (f', votes', view') = (f' ∙ f, votes' ∙ votes, view' ∙ view)

  msg_has_acceptable_inst_id-Same :
      (msg : NodeMsg) (frm : String) (n : Node W) → Same n (msg_has_acceptable_inst_id msg frm n).1
  unfolding msg_has_acceptable_inst_id
  msg_has_acceptable_inst_id-Same msg frm n = elim (Option-cases (valid_number msg.inst_id)) [
    | inl nowhere ↦ rw (msg_has_acceptable_inst_id, nowhere) (refl, refl, refl)
    | inr (i, at) ↦ elim (Bool-cases (ltb i (length n.msgs_to_replicas))) [
      | inl here ↦ rw (msg_has_acceptable_inst_id, at, here) (refl, refl, refl)
      | inr later ↦ rw (msg_has_acceptable_inst_id, at, later) (refl, refl, refl)
    ]
  ]

  msg_has_acceptable_view_no-Same :
      (msg : NodeMsg) (frm : String) (n : Node W) → Same n (msg_has_acceptable_view_no msg frm n).1
  unfolding msg_has_acceptable_view_no
  msg_has_acceptable_view_no-Same msg frm n = elim (Option-cases (valid_number msg.view_no)) [
    | inl never ↦ rw (msg_has_acceptable_view_no, never) (refl, refl, refl)
    | inr (v, at) ↦ elim (Bool-cases (ltb 1 (n.view_no - v))) [
      | inl old ↦ rw (msg_has_acceptable_view_no, at, old) (refl, refl, refl)
      | inr recent ↦ elim (Bool-cases (ltb n.view_no v)) [
        | inl later ↦ rw (msg_has_acceptable_view_no, at, recent, later) (refl, refl, refl)
        | inr now ↦ rw (msg_has_acceptable_view_no, at, recent, now) (refl, refl, refl)
      ]
    ]
  ]

  send_acceptable-Same :
      (push : ℕ → NodeMsg × String → Node W → Node W) (msg : NodeMsg) (frm : String) (n : Node W)
      → ((i : ℕ) (n' : Node W) → Same n' (push i (msg, frm) n'))
      → Same n (send_acceptable push msg frm n)
  unfolding send_acceptable
  send_acceptable-Same push msg frm n pushed =
      let n₁ = (msg_has_acceptable_inst_id msg frm n).1 in
      let n₂ = (msg_has_acceptable_view_no msg frm n₁).1 in
      let first = msg_has_acceptable_inst_id-Same msg frm n in
      let both = Same-trans n n₁ n₂ first (msg_has_acceptable_view_no-Same msg frm n₁) in
      elim (Option-cases (msg_has_acceptable_inst_id msg frm n).0) [
        | inl nowhere ↦ rw (send_acceptable, nowhere) first
        | inr (i, at) ↦ elim (Bool-cases (msg_has_acceptable_view_no msg frm n₁).0) [
          | inl fits ↦
              rw (send_acceptable, at, fits)
                (Same-trans n n₂ (push i (msg, frm) n₂) both (pushed i n₂))
          | inr never ↦ rw (send_acceptable, at, never) both
        ]
      ]

  dispatch_stashed_msg-Same :
      (x : NodeMsg × String) (n : Node W) → Same n (dispatch_stashed_msg x n)
  unfolding dispatch_stashed_msg send_to_replica send_to_elector push_to_replica
  dispatch_stashed_msg-Same (msg, frm) n =
      elim msg.kind
        as (λ k. Same n (elim k as (λ _. Node W) [
          | election_kind ↦ send_to_elector msg frm n
          | three_phase_kind ↦ send_to_replica msg frm n
          | other_kind ↦ n
        ])) [
          | election_kind ↦
              send_acceptable-Same
                (λ i x n'. record n' { msgs_to_elector = n'.msgs_to_elector ++ x ∷ [] }) msg frm n
                (λ i n'. (refl, refl, refl))
          | three_phase_kind ↦
              send_acceptable-Same push_to_replica msg frm n (λ i n'. (refl, refl, refl))
          | other_kind ↦ (refl, refl, refl)
        ]

  pub process_stashed_msgs_for_view-Same :
      (fuel v : ℕ) (n : Node W) → Same n (process_stashed_msgs_for_view fuel v n)
  unfolding process_stashed_msgs_for_view
  process_stashed_msgs_for_view-Same zero v n = (refl, refl, refl)
  process_stashed_msgs_for_view-Same (suc fuel) v n =
      elim (List-cases (get_or (Dict.get v n.msgs_for_future_views) [])) [
        | inl empty ↦ rw (process_stashed_msgs_for_view, empty) (refl, refl, refl)
        | inr (x, rest, some_wait) ↦
            let n₁ : Node W = record n {
              msgs_for_future_views = Dict.set v rest n.msgs_for_future_views;
            } in
            let n₂ = dispatch_stashed_msg x n₁ in
            rw (process_stashed_msgs_for_view, some_wait)
              (Same-trans n n₂ (process_stashed_msgs_for_view fuel v n₂)
                (dispatch_stashed_msg-Same x n₁) (process_stashed_msgs_for_view-Same fuel v n₂))
      ]
