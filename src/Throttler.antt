-- ===== src/Throttler.antt =====
-- plenum/common/throttler.py: at most one action in a time window, or as a delay function says. The
-- clock is an argument, in ticks, and never goes back.
pub mod Spacing
mod Tests
use plenum.Common.{
  ℕ, ◌-◌, Bool, true, false, List, [], ◌∷◌, ◌++◌, Option, none, some, length, last?, ltb,
  if◌then◌else◌,
}

-- The log holds the times of the actions in the window, the last one at its end.
pub record Throttler : Type 0 where
  pub window_size : ℕ
  pub delay_function : ℕ → ℕ
  pub actions_log : List ℕ

-- `Throttler(windowSize, delayFunction)`; none is the failed assertion
unfoldable pub new_throttler : ℕ → Option (ℕ → ℕ) → Option Throttler
new_throttler window_size delay_function =
    if ltb 0 window_size
    then some (record {
      window_size = window_size;
      delay_function = elim delay_function [ none ↦ λ _. window_size | some d ↦ d ];
      actions_log = [];
    })
    else none

unfoldable pub trim_actions_log : ℕ → ℕ → List ℕ → List ℕ
trim_actions_log window_size now [] = []
trim_actions_log window_size now (t ∷ log) =
    let rest = trim_actions_log window_size now log in
    if ltb window_size (now - t) then rest else t ∷ log

-- the rest of `acquire`, with the log after the trim
unfoldable pub answer : ℕ → List ℕ → Throttler → (Bool × ℕ) × Throttler
answer now log th =
    let granted : (Bool × ℕ) × Throttler =
      ((true, 0), record th { actions_log = log ++ now ∷ [] }) in
    let wait = th.delay_function (length log) in
    elim (last? log) [
      | none ↦ granted
      | some previous ↦
          if ltb wait (now - previous)
          then granted
          else ((false, wait - (now - previous)), record th { actions_log = log })
    ]

-- `acquire` at a time: whether it is granted, and the time to wait otherwise
unfoldable pub acquire : ℕ → Throttler → (Bool × ℕ) × Throttler
unfolding trim_actions_log answer
acquire now th = answer now (trim_actions_log th.window_size now th.actions_log) th
