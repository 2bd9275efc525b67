-- ===== src/ActionQueue/Tests.antt =====
-- A queue with three actions that wait, two of which are due.
use plenum.Common.{ℕ, ◌≡◌, refl, arith, [], ◌∷◌, some, nat_eq}
use plenum.ActionQueue.{ActionQueue, once, schedule_action, collect_due}
use plenum.ActionQueue.Due.{IsTimely, due_first, not_due, collect_due_lem, schedule_action-IsTimely}

abbrev three_waiting : ActionQueue ℕ
three_waiting = record {
  action_queue = (once 70, 1) ∷ [];
  aq_stash = (15, (once 71, 2)) ∷ (30, (once 72, 3)) ∷ (12, (once 73, 4)) ∷ [];
  aq_next_check = some 12;
  aid = 4;
  repeating_actions = [];
}

three_waiting-IsTimely : IsTimely three_waiting
three_waiting-IsTimely = (omega arith, (omega arith, (omega arith, tt)))

-- Actions that are due run before those that were to run at once, and the last one scheduled first;
-- the next check is at a time that has passed.
collected : collect_due 20 three_waiting ≡ record three_waiting {
  action_queue = (once 73, 4) ∷ (once 71, 2) ∷ (once 70, 1) ∷ [];
  aq_stash = (30, (once 72, 3)) ∷ [];
}
unfolding collect_due
collected = refl

-- With nothing in the stash a next check that has passed stays.
nothing_collected :
    collect_due 20 (record three_waiting { aq_stash = [] }) ≡ record three_waiting { aq_stash = [] }
unfolding collect_due
nothing_collected = refl

collect_due_lem_example :
    ((collect_due 20 three_waiting).aq_stash ≡ not_due 20 three_waiting.aq_stash)
    × ((collect_due 20 three_waiting).action_queue
        ≡ due_first 20 three_waiting.aq_stash three_waiting.action_queue)
    × IsTimely (collect_due 20 three_waiting)
collect_due_lem_example = collect_due_lem 20 three_waiting three_waiting-IsTimely

schedule_action-IsTimely_example : IsTimely (schedule_action 20 (once 74) 5 three_waiting).1
schedule_action-IsTimely_example =
    schedule_action-IsTimely 20 5 (once 74) three_waiting three_waiting-IsTimely
