-- ===== src/Batched/Tests.antt =====
-- Three messages to two remotes, one of them gone.
use plenum.Common.{ℕ, ◌≡◌, refl, String, List, [], ◌∷◌, nat_eq}
use plenum.Common.Dict
use plenum.Batched.{Batched, single, batch, flush_out_boxes}
use plenum.Batched.Delivery.{delivered, send_all, addressed, messages_for, flush_out_boxes-send_all}

abbrev two_remotes : Batched String
two_remotes = record { remotes = (1, "A") ∷ (2, "B") ∷ []; out_boxes = []; transmitted = [] }

abbrev three_sends : List (String × List ℕ)
three_sends = ("x", []) ∷ ("y", 1 ∷ 3 ∷ []) ∷ ("z", 1 ∷ []) ∷ []

flushed : flush_out_boxes (send_all three_sends two_remotes) ≡ record two_remotes {
  out_boxes = (1, []) ∷ (2, []) ∷ [];
  transmitted = (batch ("x" ∷ "y" ∷ "z" ∷ []), 1) ∷ (single "x", 2) ∷ [];
}
unfolding send_all flush_out_boxes Dict.get Dict.set Dict.has_key
flushed = refl

flush_out_boxes-send_all_example :
    delivered 1 (flush_out_boxes (send_all three_sends two_remotes)).transmitted
    ≡ "x" ∷ "y" ∷ "z" ∷ []
unfolding delivered messages_for addressed Dict.get Dict.has_key
flush_out_boxes-send_all_example = flush_out_boxes-send_all three_sends two_remotes 1 refl
