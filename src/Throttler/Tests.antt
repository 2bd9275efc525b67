-- ===== src/Throttler/Tests.antt =====
-- A throttler with a window of ten ticks.
use plenum.Common.{ℕ, ◌≡◌, refl, false, List, [], ◌∷◌}
use plenum.Throttler.{Throttler, new_throttler, acquire}
use plenum.Throttler.Spacing.{granted, IsSpaced, new_throttler-IsSpaced}

abbrev ten : Throttler
ten = record { window_size = 10; delay_function = λ _. 10; actions_log = [] }

asked : granted (100 ∷ 105 ∷ 110 ∷ 111 ∷ 122 ∷ []) ten ≡ 100 ∷ 111 ∷ 122 ∷ []
unfolding granted acquire
asked = refl

waits : (acquire 104 (record ten { actions_log = 100 ∷ [] })).0 ≡ (false, 6)
unfolding acquire
waits = refl

new_throttler-IsSpaced_example :
    (rest : List ℕ) × (granted (100 ∷ 105 ∷ 111 ∷ []) ten ≡ 100 ∷ rest) × IsSpaced 10 100 rest
unfolding new_throttler
new_throttler-IsSpaced_example = new_throttler-IsSpaced 10 100 (105 ∷ 111 ∷ []) ten refl
