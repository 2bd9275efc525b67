-- ===== src/Throttler/Spacing.antt =====
-- How far apart the actions are that a throttler lets through.
use plenum.Common.{
  ℕ, ◌+◌, ◌-◌, ◌<◌, ◌≡◌, refl, ap, ◌∙◌, true, false, List, [], ◌∷◌, none, some, ltb, if◌then◌else◌,
  arith, inl, inr, Bool-cases,
}
use plenum.Throttler.{Throttler, new_throttler, trim_actions_log, answer, acquire}

-- The times at which a throttler grants, out of those at which it is asked.
unfoldable pub granted : List ℕ → Throttler → List ℕ
granted [] th = []
granted (now ∷ times) th =
    let (answer, th') = acquire now th in
    let rest = granted times th' in if answer.0 then now ∷ rest else rest

-- Each time is more than a distance after the one before.
abbrev pub IsSpaced : ℕ → ℕ → List ℕ → Type 0
IsSpaced distance t [] = Unit
IsSpaced distance t (now ∷ times) = (t + distance < now) × IsSpaced distance now times

-- A throttler that waits a window, with one action in its log.
abbrev waiting : ℕ → ℕ → Throttler
waiting window t = record {
  window_size = window;
  delay_function = λ _. window;
  actions_log = t ∷ [];
}

acquire_past :
    (window t now : ℕ)
    → ltb window (now - t) ≡ true
    → acquire now (waiting window t) ≡ ((true, 0), waiting window now)
unfolding acquire trim_actions_log answer
acquire_past window t now h =
    let empty : trim_actions_log window now (t ∷ []) ≡ [] = rw (h, trim_actions_log) refl in
    ap (λ log. answer now log (waiting window t)) empty

acquire_recent :
    (window t now : ℕ)
    → ltb window (now - t) ≡ false
    → acquire now (waiting window t) ≡ ((false, window - (now - t)), waiting window t)
unfolding acquire trim_actions_log answer
acquire_recent window t now h =
    let kept : trim_actions_log window now (t ∷ []) ≡ t ∷ [] = rw (h, trim_actions_log) refl in
    ap (λ log. answer now log (waiting window t)) kept ∙ rw (h, answer) refl

granted-IsSpaced :
    (window t : ℕ) (times : List ℕ) → IsSpaced window t (granted times (waiting window t))
unfolding granted
granted-IsSpaced window t [] = tt
granted-IsSpaced window t (now ∷ times) = elim (Bool-cases (ltb window (now - t))) [
  | inl past ↦ rw (acquire_past window t now past) (ground arith, granted-IsSpaced window now times)
  | inr recent ↦ rw (acquire_recent window t now recent) (granted-IsSpaced window t times)
]

-- A new throttler with the default delay grants the first time that it is asked, and then only times
-- that are more than a window after the one that it granted before.
pub new_throttler-IsSpaced :
    (window now : ℕ) (times : List ℕ) (th : Throttler)
    → new_throttler window none ≡ some th
    → (rest : List ℕ) × (granted (now ∷ times) th ≡ now ∷ rest) × IsSpaced window now rest
unfolding new_throttler granted acquire trim_actions_log answer
new_throttler-IsSpaced window now times th e = elim (Bool-cases (ltb 0 window)) [
  | inr zero_window ↦ absurd (let no : none ≡ some th = rw zero_window at e in cc)
  | inl some_window ↦
      let same : record { window_size = window; delay_function = λ _. window; actions_log = [] }
          ≡ th =
        some_path (rw some_window at e) in
      rw (← same) (granted times (waiting window now), refl, granted-IsSpaced window now times)
]
  where
    some_path : {x y : Throttler} → some x ≡ some y → x ≡ y
    some_path p = cc
