-- ===== src/Node/Delivery.antt =====
-- `processStashedMsgsForView` of plenum/server/node.py, for messages of the node's own view.
use plenum.Common.{
  ℕ, zero, suc, ◌<◌, ◌≡◌, refl, sym, ap, ◌∙◌, false, String, [], ◌∷◌, some, length, arith, All,
  ◌==◌, nat_eq, eq_self, if◌then◌else◌,
}
use mathlib.Core.List.{append-nil}
use plenum.Common.Dict
use plenum.Common.Dict.{Dict, get_or}
use plenum.Node.{
  NodeMsg, Deque, Node, valid_number, dispatch_stashed_msg, process_stashed_msgs_for_view,
}
use plenum.Node.Queues.{IsDelivered, IsDelivered-trans}
use plenum.Node.Dispatching.{dispatch_stashed_msg-IsDelivered}

-- The messages that wait for a view.
abbrev pub waiting_for : {W : Type 0} → ℕ → Node W → Deque
waiting_for v n = get_or (Dict.get v n.msgs_for_future_views) []

-- What the start of a view did with the messages that waited for it.
pub record IsDrained {W : Type 0} (v : ℕ) (n n' : Node W) : Type 0 where
  pub delivered : IsDelivered n n' (waiting_for v n)
  pub emptied : waiting_for v n' ≡ []
  pub others :
      (w : ℕ)
      → (v == w) ≡ false
      → Dict.get w n'.msgs_for_future_views ≡ Dict.get w n.msgs_for_future_views

module _ {W : Type 0} where
  nothing-IsDelivered : (n : Node W) → IsDelivered n n []
  nothing-IsDelivered n = record {
    same_view = refl;
    same_count = refl;
    to_elector = sym (append-nil n.msgs_to_elector);
    to_replicas = λ i. sym (append-nil _);
    to_later = λ i. sym (append-nil _);
  }

  taken : ℕ → Deque → Node W → Node W
  taken v rest n = record n { msgs_for_future_views = Dict.set v rest n.msgs_for_future_views }

  -- The messages of other views are no part of a delivery.
  from_taken :
      (v : ℕ) (rest : Deque) (n n' : Node W) (xs : Deque)
      → IsDelivered (taken v rest n) n' xs
      → IsDelivered n n' xs
  unfolding taken
  from_taken v rest n n' xs h = record {
    same_view = h.same_view;
    same_count = h.same_count;
    to_elector = h.to_elector;
    to_replicas = h.to_replicas;
    to_later = h.to_later;
  }

  waiting_for-set :
      (v w : ℕ) (rest : Deque) (n : Node W)
      → Dict.get w (Dict.set v rest n.msgs_for_future_views)
        ≡ (if v == w then some rest else Dict.get w n.msgs_for_future_views)
  waiting_for-set v w rest n = Dict.get-set v w rest n.msgs_for_future_views

  -- the view, and the messages of the views, once the first is taken
  taken_fields :
      (v : ℕ) (rest : Deque) (n : Node W)
      → ((taken v rest n).view_no ≡ n.view_no)
        × ((taken v rest n).msgs_for_future_views ≡ Dict.set v rest n.msgs_for_future_views)
  unfolding taken
  taken_fields v rest n = (refl, refl)

  taken_own :
      (v : ℕ) (rest : Deque) (n m : Node W)
      → m.msgs_for_future_views ≡ (taken v rest n).msgs_for_future_views
      → waiting_for v m ≡ rest
  taken_own v rest n m kept =
      ap (λ d. get_or (Dict.get v d) []) (kept ∙ (taken_fields v rest n).1)
      ∙ ap (λ o. get_or o []) (waiting_for-set v v rest n)
      ∙ rw (eq_self v) refl

  taken_others :
      (v w : ℕ) (rest : Deque) (n m : Node W)
      → m.msgs_for_future_views ≡ (taken v rest n).msgs_for_future_views
      → (v == w) ≡ false
      → Dict.get w m.msgs_for_future_views ≡ Dict.get w n.msgs_for_future_views
  taken_others v w rest n m kept other =
      ap (λ d. Dict.get w d) (kept ∙ (taken_fields v rest n).1)
      ∙ waiting_for-set v w rest n
      ∙ rw other refl

  step :
      (fuel v : ℕ) (x : NodeMsg × String) (rest : Deque) (n : Node W)
      → waiting_for v n ≡ x ∷ rest
      → process_stashed_msgs_for_view (suc fuel) v n
        ≡ process_stashed_msgs_for_view fuel v (dispatch_stashed_msg x (taken v rest n))
  unfolding process_stashed_msgs_for_view taken
  step fuel v x rest n h = rw (process_stashed_msgs_for_view, h) refl

  stop :
      (fuel v : ℕ) (n : Node W)
      → waiting_for v n ≡ []
      → process_stashed_msgs_for_view (suc fuel) v n ≡ n
  unfolding process_stashed_msgs_for_view
  stop fuel v n h = rw (process_stashed_msgs_for_view, h) refl

  loop :
      (fuel v : ℕ) (stash : Deque) (n : Node W)
      → waiting_for v n ≡ stash
      → All (λ x. valid_number x.0.view_no ≡ some v) stash
      → n.view_no ≡ v
      → length stash < fuel
      → let n' = process_stashed_msgs_for_view fuel v n in
        IsDelivered n n' stash
        × (waiting_for v n' ≡ [])
        × ((w : ℕ)
            → (v == w) ≡ false
            → Dict.get w n'.msgs_for_future_views ≡ Dict.get w n.msgs_for_future_views)
  loop zero v stash n h fits own fuel_left = absurd (omega arith)
  loop (suc fuel) v [] n h fits own fuel_left =
      rw (stop fuel v n h) (nothing-IsDelivered n, h, λ w other. refl)
  loop (suc fuel) v (x ∷ rest) n h fits own fuel_left =
      let n₁ = taken v rest n in
      let m = dispatch_stashed_msg x n₁ in
      let same = (taken_fields v rest n).0 in
      let (went, kept) =
        dispatch_stashed_msg-IsDelivered x n₁ (fits.0 ∙ ap some (sym (same ∙ own))) in
      let (later, empty, others) =
        loop fuel v rest m (taken_own v rest n m kept) fits.1 (went.same_view ∙ same ∙ own)
          (omega arith) in
      rw (step fuel v x rest n h) (
        IsDelivered-trans (from_taken v rest n m (x ∷ []) went) later,
        empty,
        λ w other. others w other ∙ taken_others v w rest n m kept other,
      )

  -- With fuel for one more message than wait for a node's view, and view numbers of that view in all
  -- of them, the loop for the view empties the queue of the view and leaves those of other views.
  -- Each message has gone to the end of its queue, in the order in which they waited: an election
  -- message of an instance that is there to the elector, a three phase message of such an instance
  -- to its replica, one of an instance that is not there yet to those that wait for the instance,
  -- and no other message anywhere.
  pub process_stashed_msgs_for_view-IsDrained :
      (v : ℕ) (n : Node W) (fuel : ℕ)
      → All (λ x. valid_number x.0.view_no ≡ some v) (waiting_for v n)
      → n.view_no ≡ v
      → length (waiting_for v n) < fuel
      → IsDrained v n (process_stashed_msgs_for_view fuel v n)
  process_stashed_msgs_for_view-IsDrained v n fuel fits own fuel_left =
      let (delivered, emptied, others) = loop fuel v (waiting_for v n) n refl fits own fuel_left in
      record { delivered = delivered; emptied = emptied; others = others }
