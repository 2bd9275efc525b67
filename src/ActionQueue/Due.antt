-- ===== src/ActionQueue/Due.antt =====
-- `aqNextCheck` never hides an action that is due.
use plenum.Common.{
  ℕ, zero, suc, ◌+◌, ◌≤◌, ◌≡◌, refl, sym, ◌∙◌, true, false, List, [], ◌∷◌, Option, none, some, ltb,
  leb, if◌then◌else◌, keep, All, All-append, All-keep, All-map, arith, inl, inr, Bool-cases,
}
use plenum.ActionQueue.{
  Action, Entry, ActionQueue, earlier, is_past, schedule_action, collect, collect_from, collect_due,
}

-- A time that may be infinite is not after another.
abbrev pub NotAfter : Option ℕ → ℕ → Type 0
NotAfter none n = ⊥
NotAfter (some t) n = t ≤ n

earlier-keeps :
    (nxt : ℕ) (earliest : Option ℕ) (n : ℕ)
    → NotAfter earliest n
    → NotAfter (earlier nxt earliest) n
unfolding earlier
earlier-keeps nxt none n h = absurd h
earlier-keeps nxt (some t) n h = elim (Bool-cases (ltb nxt t)) [
  | inl less ↦ rw less (ground arith)
  | inr more ↦ rw more h
]

earlier-NotAfter : (nxt : ℕ) (earliest : Option ℕ) → NotAfter (earlier nxt earliest) nxt
unfolding earlier
earlier-NotAfter nxt none = omega arith
earlier-NotAfter nxt (some t) = elim (Bool-cases (ltb nxt t)) [
  | inl less ↦ rw less (omega arith)
  | inr more ↦ rw more (ground arith)
]

module _ {A : Type 0} where
  -- The next check is not after the time of any entry.
  abbrev pub IsTimely : ActionQueue A → Type 0
  IsTimely q = All (λ entry. NotAfter q.aq_next_check entry.0) q.aq_stash

  -- The actions that are due, the last one first, in front of a queue.
  unfoldable pub due_first : ℕ → List (Entry A) → List (Action A × ℕ) → List (Action A × ℕ)
  due_first tm [] queue = queue
  due_first tm (entry ∷ stash) queue =
      due_first tm stash (if ltb entry.0 tm then entry.1 ∷ queue else queue)

  unfoldable pub not_due : ℕ → List (Entry A) → List (Entry A)
  not_due tm stash = keep (λ entry. leb tm entry.0) stash

  collect_lem :
      (tm : ℕ) (stash : List (Entry A)) (queue : List (Action A × ℕ)) (earliest : Option ℕ)
      → ((collect tm stash queue earliest).0 ≡ not_due tm stash)
        × ((collect tm stash queue earliest).1.0 ≡ due_first tm stash queue)
        × All (λ entry. NotAfter (collect tm stash queue earliest).1.1 entry.0) stash
        × ((n : ℕ) → NotAfter earliest n → NotAfter (collect tm stash queue earliest).1.1 n)
  unfolding collect not_due due_first
  collect_lem tm [] queue earliest = (refl, refl, tt, λ n h. h)
  collect_lem tm ((nxt, action) ∷ stash) queue earliest =
      let (left, order, early, later) =
        collect_lem tm stash (if ltb nxt tm then action ∷ queue else queue)
          (earlier nxt earliest) in
      (
        ground (arith, left),
        order,
        (later nxt (earlier-NotAfter nxt earliest), early),
        λ n h. later n (earlier-keeps nxt earliest n h),
      )

  nothing_due :
      (tm t : ℕ) (stash : List (Entry A)) (queue : List (Action A × ℕ))
      → tm ≤ t
      → All (λ entry. t ≤ entry.0) stash
      → (not_due tm stash ≡ stash) × (due_first tm stash queue ≡ queue)
  unfolding not_due due_first
  nothing_due tm t [] queue le h = (refl, refl)
  nothing_due tm t ((nxt, action) ∷ stash) queue le h =
      let (same, order) = nothing_due tm t stash queue le h.1 in
      let not_past : ltb nxt tm ≡ false = ground (arith, h.0) in
      let kept : leb tm nxt ≡ true = ground (arith, h.0) in
      (rw (kept, same) refl, rw not_past order)

  quiet :
      (tm : ℕ) (next : Option ℕ) (stash : List (Entry A)) (queue : List (Action A × ℕ))
      → is_past tm next ≡ false
      → All (λ entry. NotAfter next entry.0) stash
      → (not_due tm stash ≡ stash) × (due_first tm stash queue ≡ queue)
  unfolding is_past not_due due_first
  quiet tm none [] queue p h = (refl, refl)
  quiet tm none (entry ∷ stash) queue p h = absurd h.0
  quiet tm (some t) stash queue p h = nothing_due tm t stash queue (ground arith) h

  collect_from_lem :
      (tm : ℕ) (stash : List (Entry A)) (q : ActionQueue A)
      → q.aq_stash ≡ stash
      → IsTimely q
      → ((collect_from tm stash q).aq_stash ≡ not_due tm stash)
        × ((collect_from tm stash q).action_queue ≡ due_first tm stash q.action_queue)
        × IsTimely (collect_from tm stash q)
  unfolding collect_from not_due due_first
  collect_from_lem tm [] q e h = (e, refl, h)
  collect_from_lem tm (entry ∷ stash) q e h =
      let timely = rw e at h in
      elim (Bool-cases (is_past tm q.aq_next_check)) [
        | inl past ↦
            let (left, order, early, _) = collect_lem tm (entry ∷ stash) q.action_queue none in
            rw past (left, order, rw left (All-keep _ (λ x. leb tm x.0) (entry ∷ stash) early))
        | inr not_past ↦
            let (same, order) =
              quiet tm q.aq_next_check (entry ∷ stash) q.action_queue not_past timely in
            rw not_past (e ∙ sym same, sym order, h)
      ]

  -- While the next check is not after any entry, the collection takes exactly the actions whose time
  -- has passed, to the front of the queue, the last one first, whether it looks at the stash or not;
  -- and the next check is again not after any entry.
  pub collect_due_lem :
      (tm : ℕ) (q : ActionQueue A)
      → IsTimely q
      → ((collect_due tm q).aq_stash ≡ not_due tm q.aq_stash)
        × ((collect_due tm q).action_queue ≡ due_first tm q.aq_stash q.action_queue)
        × IsTimely (collect_due tm q)
  unfolding collect_due collect_from
  collect_due_lem tm q h = collect_from_lem tm q.aq_stash q refl h

  -- Scheduling keeps the next check not after any entry.
  pub schedule_action-IsTimely :
      (now seconds : ℕ) (action : Action A) (q : ActionQueue A)
      → IsTimely q
      → IsTimely (schedule_action now action seconds q).1
  unfolding schedule_action
  schedule_action-IsTimely now zero action q h = h
  schedule_action-IsTimely now (suc s) action q h =
      All-append _ q.aq_stash _
        (All-map (λ entry early. earlier-keeps (now + suc s) q.aq_next_check entry.0 early)
          q.aq_stash h)
        (earlier-NotAfter (now + suc s) q.aq_next_check, tt)
