-- ===== src/Node/Advancing.antt =====
-- How InstanceChange messages move a node of plenum/server/node.py to another view.
use plenum.Common.{
  ℕ, suc, ◌+◌, ◌*◌, ◌≤◌, ◌<◌, ◌≡◌, refl, sym, ap, ◌∙◌, Bool, true, false, not, ◌&&◌, String, List,
  [], ◌∷◌, ◌++◌, ◌⊎◌, inl, inr, Option, none, some, length, ltb, leb, arith, ◌==◌, nat_eq,
  if◌then◌else◌, Bool-cases, add, string_eq, length-add, contains, contains-add, Distinct,
  add-Distinct,
}
use mathlib.Core.Path.{subst}
use plenum.Common.Dict
use plenum.Common.Dict.{Dict, get_or}
use plenum.Common.Int.{ℤ, pos, negsuc}
use plenum.Throttler.{acquire}
use plenum.Votes.{add_msg, has_vote, instance_changes}
use plenum.Votes.Laws.{
  voters_at, voters_at-add_msg, has_enough_votes-voters_at, instance_changes-IsTracking,
}
use plenum.Node.{Node}
use plenum.Node.ViewChange.{
  ViewApi, can_view_change, start_view_change, do_view_change_if_possible, record_inst_change_msg,
  send_instance_change, count_instance_change, process_instance_change, check_performance,
  is_lost_long, propose_view_change, primary_degraded, primary_disconnected,
}
use plenum.Node.Keeping.{Same, process_stashed_msgs_for_view-Same}

-- The voters for a view, by the InstanceChange messages that a node has counted.
unfoldable pub voters_for : {W : Type 0} → ℕ → Node W → List String
unfolding voters_at
voters_for v n = voters_at instance_changes instance_changes-IsTracking v n.instance_changes

abbrev pub backers : {W : Type 0} → ℕ → Node W → ℕ
backers v n = length (voters_for v n)

-- Voters that are joined by others.
pub record Grows (names names' : List String) : Type 0 where
  pub more : length names ≤ length names'
  pub distinct : Distinct names → Distinct names'
  pub kept : (name : String) → contains names name ≡ true → contains names' name ≡ true

Grows-refl : (names : List String) → Grows names names
Grows-refl names = record { more = omega arith; distinct = λ h. h; kept = λ name h. h }

Grows-trans : {xs ys zs : List String} → Grows xs ys → Grows ys zs → Grows xs zs
Grows-trans h k = record {
  more = omega (arith, h.more, k.more);
  distinct = λ d. k.distinct (h.distinct d);
  kept = λ name x. k.kept name (h.kept name x);
}

add-Grows :
    (b : Bool) (frm : String) (names : List String)
    → Grows names (if b then add frm names else names)
add-Grows false frm names = Grows-refl names
add-Grows true frm names = record {
  more = ground (arith, length-add frm names);
  distinct = add-Distinct frm names;
  kept = λ name h. ground (arith, contains-add frm name names, h);
}

-- From one state of a node to a later one: votes are only added, and the view stays, or becomes a
-- later one that a quorum has voted for.
pub record Advances {W : Type 0} (n n' : Node W) : Type 0 where
  pub same_f : n'.f ≡ n.f
  pub voters_grow : (v : ℕ) → Grows (voters_for v n) (voters_for v n')
  pub moved :
      (n'.view_no ≡ n.view_no) ⊎ ((n.view_no < n'.view_no) × (2 * n.f + 1 ≤ backers n'.view_no n'))

module _ {W : Type 0} where
  pub Advances-trans : {n m n' : Node W} → Advances n m → Advances m n' → Advances n n'
  Advances-trans {n = n} {m = m} {n' = n'} h k = record {
    same_f = k.same_f ∙ h.same_f;
    voters_grow = λ v. Grows-trans (h.voters_grow v) (k.voters_grow v);
    moved = elim k.moved [
      | inl stays ↦ elim h.moved [
        | inl stayed ↦ inl (stays ∙ stayed)
        | inr (later, quorum) ↦ inr (
          omega (arith, stays, later),
          subst (λ v. 2 * n.f + 1 ≤ backers v n') (sym stays)
              (omega (arith, quorum, (k.voters_grow m.view_no).more)),
        )
      ]
      | inr (later, quorum) ↦ elim h.moved [
        | inl stayed ↦ inr (omega (arith, stayed, later), omega (arith, quorum, h.same_f))
        | inr (earlier, _) ↦ inr (omega (arith, earlier, later), omega (arith, quorum, h.same_f))
      ]
    ];
  }

  voters_for-same :
      (v : ℕ) (n n' : Node W)
      → n'.instance_changes ≡ n.instance_changes
      → voters_for v n' ≡ voters_for v n
  unfolding voters_for
  voters_for-same v n n' votes =
      ap (λ d. voters_at instance_changes instance_changes-IsTracking v d) votes

  same-Grows :
      (v : ℕ) (n n' : Node W)
      → n'.instance_changes ≡ n.instance_changes
      → Grows (voters_for v n) (voters_for v n')
  same-Grows v n n' votes =
      subst (λ names. Grows (voters_for v n) names) (sym (voters_for-same v n n' votes))
        (Grows-refl (voters_for v n))

  pub Same-Advances : (n n' : Node W) → Same n n' → Advances n n'
  Same-Advances n n' (f, votes, view) = record {
    same_f = f;
    voters_grow = λ v. same-Grows v n n' votes;
    moved = inl view;
  }

  -- whichever branch is taken
  either :
      (b : Bool) (n a c : Node W) → Advances n a → Advances n c → Advances n (if b then a else c)
  either true n a c h k = h
  either false n a c h k = k

module _ {W : Type 0} (api : ViewApi W) where
  pub start_view_change-moves :
      (v : ℕ) (n : Node W)
      → (start_view_change api v n).view_no ≡ v
        × ((start_view_change api v n).f ≡ n.f)
        × ((start_view_change api v n).instance_changes ≡ n.instance_changes)
  unfolding start_view_change
  start_view_change-moves v n =
      let n₁ : Node W = record n {
        view_change_in_progress = true;
        view_no = v;
        world = api.reset_monitor n.world;
      } in
      let fuel = suc (length (get_or (Dict.get v n.msgs_for_future_views) [])) in
      let (f, votes, view) = process_stashed_msgs_for_view-Same fuel v n₁ in (view, f, votes)

  quorum_of_can :
      (v : ℕ) (n : Node W)
      → can_view_change api v n ≡ true
      → (2 * n.f + 1 ≤ backers v n) × (n.view_no < v)
  unfolding can_view_change voters_for
  quorum_of_can v n can =
      let votes =
        has_enough_votes-voters_at instance_changes instance_changes-IsTracking v (2 * n.f + 1)
          n.instance_changes in
      ground (arith, votes, can)

  do_view_change_if_possible-Advances :
      (v : ℕ) (n : Node W) → Advances n (do_view_change_if_possible api v n)
  unfolding do_view_change_if_possible can_view_change
  do_view_change_if_possible-Advances v n = elim (Bool-cases (can_view_change api v n)) [
    | inl can ↦
        let (view, f, votes) = start_view_change-moves v n in
        let (enough, later) = quorum_of_can v n can in
        rw (do_view_change_if_possible, can)
          (record {
            same_f = f;
            voters_grow = λ w. same-Grows w n (start_view_change api v n) votes;
            moved = inr (
              omega (arith, later, view),
              subst (λ w. 2 * n.f + 1 ≤ backers w (start_view_change api v n)) (sym view)
                  (omega (arith, enough, (same-Grows v n (start_view_change api v n) votes).more)),
            );
          })
    | inr cannot ↦ rw (do_view_change_if_possible, cannot) (Same-Advances n n (refl, refl, refl))
  ]

  add_msg-Advances :
      (v : ℕ) (frm : String) (n : Node W)
      → Advances n
          (record n { instance_changes = add_msg instance_changes v frm n.instance_changes })
  unfolding voters_for
  add_msg-Advances v frm n = record {
    same_f = refl;
    voters_grow = λ w.
        subst (λ names. Grows (voters_for w n) names)
          (sym (
            voters_at-add_msg instance_changes instance_changes-IsTracking v frm w
              n.instance_changes))
          (add-Grows (v == w) frm (voters_for w n));
    moved = inl refl;
  }

  record_inst_change_msg-Advances :
      (v : ℕ) (frm : String) (n : Node W) → Advances n (record_inst_change_msg api v frm n)
  unfolding record_inst_change_msg
  record_inst_change_msg-Advances v frm n =
      let n₁ : Node W = record n {
        instance_changes = add_msg instance_changes v frm n.instance_changes;
      } in
      let added = add_msg-Advances v frm n in
      either (ltb n.view_no v) n (do_view_change_if_possible api v n₁) n₁
        (Advances-trans added (do_view_change_if_possible-Advances v n₁)) added

  send_instance_change-Advances :
      (v code : ℕ) (n : Node W) → Advances n (send_instance_change api v code n)
  unfolding send_instance_change
  send_instance_change-Advances v code n =
      let asked = acquire (api.perf_counter n.world) n.ins_chng_throttler in
      let n₁ : Node W = record n { ins_chng_throttler = asked.1 } in
      let n₂ : Node W = record n₁ { sent = n.sent ++ (v, code) ∷ [] } in
      either asked.0.0 n (record_inst_change_msg api v n.name n₂) n₁
        (Advances-trans (Same-Advances n n₂ (refl, refl, refl))
          (record_inst_change_msg-Advances v n.name n₂))
        (Same-Advances n n₁ (refl, refl, refl))

  count_instance_change-Advances :
      (v : ℕ) (frm : String) (n : Node W) → Advances n (count_instance_change api v frm n)
  unfolding count_instance_change
  count_instance_change-Advances v frm n =
      let voted = has_vote instance_changes v frm n.instance_changes in
      let n₁ = if voted then n else record_inst_change_msg api v frm n in
      let first =
        either voted n n (record_inst_change_msg api v frm n) (Same-Advances n n (refl, refl, refl))
          (record_inst_change_msg-Advances v frm n) in
      either
        (api.is_master_degraded n₁.world
          && not (has_vote instance_changes v n₁.name n₁.instance_changes))
        n (send_instance_change api v primary_degraded n₁) n₁
        (Advances-trans first (send_instance_change-Advances v primary_degraded n₁)) first

  pub process_instance_change-Advances :
      (v : Option ℤ) (frm : String) (n : Node W) → Advances n (process_instance_change api v frm n)
  unfolding process_instance_change
  process_instance_change-Advances none frm n = Same-Advances n n (refl, refl, refl)
  process_instance_change-Advances (some (negsuc v)) frm n = Same-Advances n n (refl, refl, refl)
  process_instance_change-Advances (some (pos v)) frm n =
      either (leb v n.view_no) n n (count_instance_change api v frm n)
        (Same-Advances n n (refl, refl, refl)) (count_instance_change-Advances v frm n)

  -- a vote of its own, and the change that it may complete
  proposed-Advances :
      (v w code : ℕ) (n : Node W)
      → Advances n (do_view_change_if_possible api w (send_instance_change api v code n))
  proposed-Advances v w code n =
      Advances-trans (send_instance_change-Advances v code n)
        (do_view_change_if_possible-Advances w (send_instance_change api v code n))

  pub check_performance-Advances : (n : Node W) → Advances n (check_performance api n)
  unfolding check_performance
  check_performance-Advances n =
      let n₁ : Node W = record n { world = api.send_node_request_spike n.world } in
      let n₂ = send_instance_change api (n.view_no + 1) primary_degraded n₁ in
      let same = Same-Advances n n₁ (refl, refl, refl) in
      let changed = do_view_change_if_possible api (n₂.view_no + 1) n₂ in
      either (n.is_participating && api.has_master n.world) n
        (if api.is_master_degraded n₁.world then changed else n₁) n
        (either (api.is_master_degraded n₁.world) n changed n₁
          (Advances-trans same
            (proposed-Advances (n.view_no + 1) (n₂.view_no + 1) primary_degraded n₁))
          same)
        (Same-Advances n n (refl, refl, refl))

  pub propose_view_change-Advances : (n : Node W) → Advances n (propose_view_change api n)
  unfolding propose_view_change
  propose_view_change-Advances n =
      let v = n.view_no + 1 in
      either (is_lost_long api n) n
        (do_view_change_if_possible api v (send_instance_change api v primary_disconnected n)) n
        (proposed-Advances v v primary_disconnected n) (Same-Advances n n (refl, refl, refl))
