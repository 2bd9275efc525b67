-- ===== src/ActionQueue.antt =====
-- plenum/server/has_action_queue.py: actions that run at once, after a time, or again and again. The
-- clock is an argument, in ticks; what an action does is a parameter, which may change the queue.
pub mod Due
mod Tests
use plenum.Common.{
  ℕ, zero, suc, ◌+◌, Bool, true, false, not, List, [], ◌∷◌, ◌++◌, Option, none, some, length, ltb,
  if◌then◌else◌, Eq, ◌==◌, add, discard, contains,
}

-- An action to run once, or the wrapper of one that repeats after a number of ticks.
pub data Action (A : Type 0) : Type 0 where
  once : A → Action A
  repeating : A → ℕ → Action A

-- An entry of the stash: the time that it is due after, the action and its id.
abbrev pub Entry : Type 0 → Type 0
Entry A = ℕ × (Action A × ℕ)

-- `aq_next_check` is none for infinity.
pub record ActionQueue (A : Type 0) : Type 0 where
  pub action_queue : List (Action A × ℕ)
  pub aq_stash : List (Entry A)
  pub aq_next_check : Option ℕ
  pub aid : ℕ
  pub repeating_actions : List A

-- the earlier of a time and one that may be infinite, `if nxt < earliest: earliest = nxt`
unfoldable pub earlier : ℕ → Option ℕ → Option ℕ
earlier nxt none = some nxt
earlier nxt (some t) = if ltb nxt t then some nxt else some t

-- `tm > aqNextCheck`
unfoldable pub is_past : ℕ → Option ℕ → Bool
is_past tm none = false
is_past tm (some t) = ltb t tm

module _ {A : Type 0} where
  unfoldable pub new_action_queue : ActionQueue A
  new_action_queue = record {
    action_queue = [];
    aq_stash = [];
    aq_next_check = none;
    aid = 0;
    repeating_actions = [];
  }

  -- `_schedule` at a time, and the new id
  unfoldable pub schedule_action : ℕ → Action A → ℕ → ActionQueue A → ℕ × ActionQueue A
  unfolding earlier
  schedule_action now action zero q = (
    q.aid + 1,
    record q { aid = q.aid + 1; action_queue = q.action_queue ++ (action, q.aid + 1) ∷ [] },
  )
  schedule_action now action (suc s) q = (
    q.aid + 1,
    record q {
      aid = q.aid + 1;
      aq_next_check = earlier (now + suc s) q.aq_next_check;
      aq_stash = q.aq_stash ++ (now + suc s, (action, q.aid + 1)) ∷ [];
    },
  )

  -- The loop over the stash: the entries that stay, the queue, which gets each action that is due at
  -- its front, and the earliest time. Ids are distinct, so that `remove` takes the entry itself.
  unfoldable pub collect :
      ℕ
      → List (Entry A)
      → List (Action A × ℕ)
      → Option ℕ
      → List (Entry A) × (List (Action A × ℕ) × Option ℕ)
  unfolding earlier
  collect tm [] queue earliest = ([], (queue, earliest))
  collect tm ((nxt, action) ∷ stash) queue earliest =
      let due = ltb nxt tm in
      let (left, rest) =
        collect tm stash (if due then action ∷ queue else queue) (earlier nxt earliest) in
      (if due then left else (nxt, action) ∷ left, rest)

  -- the first half of `_serviceActions`, for the entries that wait: without any nothing is done
  unfoldable pub collect_from : ℕ → List (Entry A) → ActionQueue A → ActionQueue A
  unfolding collect is_past
  collect_from tm [] q = q
  collect_from tm (entry ∷ stash) q =
      let (left, (queue, earliest)) = collect tm (entry ∷ stash) q.action_queue none in
      if is_past tm q.aq_next_check
      then record q { aq_stash = left; action_queue = queue; aq_next_check = earliest }
      else q

  unfoldable pub collect_due : ℕ → ActionQueue A → ActionQueue A
  unfolding collect_from
  collect_due tm q = collect_from tm q.aq_stash q

module _ {A : Type 0} ⦃e : Eq A⦄ (act : A → ActionQueue A → ActionQueue A) where
  -- An action runs; the wrapper of a repeating one runs it if it still repeats, and schedules itself.
  unfoldable pub run_action : ℕ → Action A → ActionQueue A → ActionQueue A
  unfolding schedule_action
  run_action now (once a) q = act a q
  run_action now (repeating a seconds) q =
      if contains q.repeating_actions a
      then (schedule_action now (repeating a seconds) seconds (act a q)).1
      else q

  -- The loop of `_serviceActions`, on fuel, since an action may schedule another to run at once; none
  -- if the fuel is too little.
  unfoldable pub run_actions : ℕ → ℕ → ActionQueue A → Option (ActionQueue A)
  unfolding run_action
  run_actions zero now q = none
  run_actions (suc fuel) now q = elim q.action_queue as (λ _. Option (ActionQueue A)) [
    | [] ↦ some q
    | (action, _) ∷ rest ↦
        run_actions fuel now (run_action now action (record q { action_queue = rest }))
  ]

  -- `_serviceActions`: the number of actions that waited, and the queue after it
  unfoldable pub service_actions : ℕ → ℕ → ActionQueue A → Option (ℕ × ActionQueue A)
  unfolding collect_due run_actions
  service_actions fuel tm q =
      let q' = collect_due tm q in
      elim (run_actions fuel tm q') [
        | none ↦ none
        | some after ↦ some (length q'.action_queue, after)
      ]

  unfoldable pub start_repeating : ℕ → A → ℕ → ActionQueue A → ActionQueue A
  unfolding schedule_action
  start_repeating now a seconds q =
      if contains q.repeating_actions a
      then q
      else (schedule_action now (repeating a seconds) seconds
          (record q { repeating_actions = add a q.repeating_actions })).1

  -- `stopRepeating`; none is the KeyError of a strict call
  unfoldable pub stop_repeating_action : A → Bool → ActionQueue A → Option (ActionQueue A)
  stop_repeating_action a strict q =
      if contains q.repeating_actions a
      then some (record q { repeating_actions = discard a q.repeating_actions })
      else if strict
      then none
      else some q
