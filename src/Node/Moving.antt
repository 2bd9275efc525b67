-- ===== src/Node/Moving.antt =====
-- The InstanceChange message of plenum/server/node.py that completes a quorum.
use plenum.Common.{
  ℕ, ◌+◌, ◌*◌, ◌≤◌, ◌<◌, ◌≡◌, ap, ◌∙◌, Bool, true, false, not, ◌&&◌, String, [], ◌∷◌, ◌++◌, some,
  ltb, leb, arith, nat_eq, eq_self, if◌then◌else◌, string_eq, length-add, contains,
}
use plenum.Common.Int.{pos}
use plenum.Throttler.{acquire}
use plenum.Votes.{add_msg, has_vote, instance_changes}
use plenum.Votes.Laws.{
  voters_at-add_msg, has_vote-voters_at, has_key-add_msg, has_enough_votes-voters_at,
  instance_changes-IsTracking,
}
use plenum.Node.{Node}
use plenum.Node.ViewChange.{
  ViewApi, can_view_change, start_view_change, do_view_change_if_possible, record_inst_change_msg,
  send_instance_change, count_instance_change, process_instance_change, primary_degraded,
}
use plenum.Node.Advancing.{voters_for, backers, start_view_change-moves}

module _ {W : Type 0} (api : ViewApi W) where
  with_vote : ℕ → String → Node W → Node W
  with_vote v frm n = record n {
    instance_changes = add_msg instance_changes v frm n.instance_changes;
  }

  -- whichever branch is taken
  either :
      (b : Bool) (v : ℕ) (a c : Node W)
      → a.view_no ≡ v
      → c.view_no ≡ v
      → (if b then a else c).view_no ≡ v
  either true v a c h k = h
  either false v a c h k = k

  -- a vote of its own for the view where the node is changes no view
  record_inst_change_msg-stays :
      (v : ℕ) (frm : String) (n : Node W)
      → n.view_no ≡ v
      → (record_inst_change_msg api v frm n).view_no ≡ v
  unfolding record_inst_change_msg with_vote
  record_inst_change_msg-stays v frm n own =
      let n₁ = with_vote v frm n in
      let low : ltb n.view_no v ≡ false = ground (arith, own) in
      ap (λ b. (if b then do_view_change_if_possible api v n₁ else n₁).view_no) low ∙ own

  send_instance_change-stays :
      (v code : ℕ) (n : Node W) → n.view_no ≡ v → (send_instance_change api v code n).view_no ≡ v
  unfolding send_instance_change
  send_instance_change-stays v code n own =
      let asked = acquire (api.perf_counter n.world) n.ins_chng_throttler in
      let n₁ : Node W = record n { ins_chng_throttler = asked.1 } in
      let n₂ : Node W = record n₁ { sent = n.sent ++ (v, code) ∷ [] } in
      either asked.0.0 v (record_inst_change_msg api v n.name n₂) n₁
        (record_inst_change_msg-stays v n.name n₂ own) own

  can_view_change-last :
      (v : ℕ) (frm : String) (n : Node W)
      → n.view_no < v
      → contains (voters_for v n) frm ≡ false
      → 2 * n.f ≤ backers v n
      → can_view_change api v (with_vote v frm n) ≡ true
  unfolding can_view_change with_vote voters_for
  can_view_change-last v frm n later new enough =
      let d = n.instance_changes in
      let d' = add_msg instance_changes v frm d in
      let ok = instance_changes-IsTracking in
      ground (
        arith,
        has_enough_votes-voters_at instance_changes ok v (2 * n.f + 1) d',
        has_key-add_msg instance_changes ok v frm v d,
        voters_at-add_msg instance_changes ok v frm v d,
        length-add frm (voters_for v n),
        eq_self v,
      )

  record_inst_change_msg-moves :
      (v : ℕ) (frm : String) (n : Node W)
      → n.view_no < v
      → contains (voters_for v n) frm ≡ false
      → 2 * n.f ≤ backers v n
      → (record_inst_change_msg api v frm n).view_no ≡ v
  unfolding record_inst_change_msg do_view_change_if_possible with_vote
  record_inst_change_msg-moves v frm n later new enough =
      let n₁ = with_vote v frm n in
      let below : ltb n.view_no v ≡ true = ground arith in
      ap (λ b. (if b then do_view_change_if_possible api v n₁ else n₁).view_no) below
      ∙ ap (λ b. (if b then start_view_change api v n₁ else n₁).view_no)
          (can_view_change-last v frm n later new enough)
      ∙ (start_view_change-moves api v n₁).0

  -- If 2f voters or more are counted for a view that is later than a node's own, then an
  -- InstanceChange message for it, from a sender that is not among them, brings the node to that
  -- view, whether or not the node finds its master slow then and votes as well.
  pub process_instance_change-moves :
      (v : ℕ) (frm : String) (n : Node W)
      → n.view_no < v
      → contains (voters_for v n) frm ≡ false
      → 2 * n.f ≤ backers v n
      → (process_instance_change api (some (pos v)) frm n).view_no ≡ v
  unfolding process_instance_change count_instance_change voters_for
  process_instance_change-moves v frm n later new enough =
      let unheard : has_vote instance_changes v frm n.instance_changes ≡ false =
        has_vote-voters_at instance_changes instance_changes-IsTracking v frm n.instance_changes
        ∙ new in
      let above : leb v n.view_no ≡ false = ground arith in
      let voted = has_vote instance_changes v frm n.instance_changes in
      let n₁ = if voted then n else record_inst_change_msg api v frm n in
      let first : n₁.view_no ≡ v =
        ap (λ b. (if b then n else record_inst_change_msg api v frm n).view_no) unheard
        ∙ record_inst_change_msg-moves v frm n later new enough in
      ap (λ b. (if b then n else count_instance_change api v frm n).view_no) above
      ∙ either
          (api.is_master_degraded n₁.world
            && not (has_vote instance_changes v n₁.name n₁.instance_changes))
          v (send_instance_change api v primary_degraded n₁) n₁
          (send_instance_change-stays v primary_degraded n₁ first) first
