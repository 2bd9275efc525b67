-- ===== src/Votes/Tests.antt =====
-- A history of PREPARE votes, with one vote repeated and one for another key.
use plenum.Common.{
  ℕ, ◌≡◌, refl, true, ◌&&◌, String, List, [], ◌∷◌, leb, length, add, nat_eq, string_eq, pair_eq,
}
use plenum.Common.Dict
use plenum.Votes.{add_msg, has_enough_votes, three_phase}
use plenum.Votes.Laws.{replay, electors, mentions, has_enough_votes-replay, three_phase-IsTracking}

abbrev history : List ((ℕ × ℕ) × String)
history = ((0, 1), "A") ∷ ((0, 2), "B") ∷ ((0, 1), "C") ∷ ((0, 1), "A") ∷ []

two_voted :
    has_enough_votes three_phase (0, 1) 2 (replay three_phase three_phase-IsTracking [] history)
    ≡ true
unfolding has_enough_votes replay add_msg add Dict.get Dict.set Dict.has_key
two_voted = refl

has_enough_votes-replay_example :
    has_enough_votes three_phase (0, 1) 3 (replay three_phase three_phase-IsTracking [] history)
    ≡ mentions three_phase three_phase-IsTracking (0, 1) history
      && leb 3 (length (electors three_phase three_phase-IsTracking [] (0, 1) history))
has_enough_votes-replay_example =
    has_enough_votes-replay three_phase three_phase-IsTracking (0, 1) 3 history
