-- ===== src/Batched.antt =====
-- plenum/common/batched.py: outgoing messages wait in a box for each remote, and a flush transmits
-- each box as one payload. A message stands for its signed and serialized text; how a batch is
-- serialized is left open. What was transmitted is a log in the state.
pub mod Delivery
mod Tests
use plenum.Common.{ℕ, String, List, [], ◌∷◌, ◌++◌, Option, none, some, nat_eq, if◌then◌else◌}
use plenum.Common.Dict
use plenum.Common.Dict.{Dict, get_or, keys}

-- A message by itself, or a `Batch`.
pub data Payload (M : Type 0) : Type 0 where
  single : M → Payload M
  batch : List M → Payload M

-- `remotes` has the names of the remotes by their id.
pub record Batched (M : Type 0) : Type 0 where
  pub remotes : Dict ℕ String
  pub out_boxes : Dict ℕ (List M)
  pub transmitted : List (Payload M × ℕ)

module _ {M : Type 0} where
  -- `_enqueue`
  unfoldable pub enqueue : M → ℕ → Dict ℕ (List M) → Dict ℕ (List M)
  enqueue msg rid boxes = Dict.set rid (get_or (Dict.get rid boxes) [] ++ msg ∷ []) boxes

  unfoldable pub enqueue_into : M → List ℕ → Dict ℕ (List M) → Dict ℕ (List M)
  unfolding enqueue
  enqueue_into msg [] boxes = boxes
  enqueue_into msg (rid ∷ rids) boxes = enqueue_into msg rids (enqueue msg rid boxes)

  -- `send`: without ids, to all the remotes
  unfoldable pub send_batched : M → List ℕ → Batched M → Batched M
  unfolding enqueue_into
  send_batched msg [] b = record b { out_boxes = enqueue_into msg (keys b.remotes) b.out_boxes }
  send_batched msg (rid ∷ rids) b = record b {
    out_boxes = enqueue_into msg (rid ∷ rids) b.out_boxes;
  }

  -- what a box is transmitted as
  unfoldable pub payload_of : List M → Option (Payload M)
  payload_of [] = none
  payload_of (msg ∷ []) = some (single msg)
  payload_of (msg ∷ next ∷ msgs) = some (batch (msg ∷ next ∷ msgs))

  unfoldable pub transmit_box : ℕ → List M → List (Payload M × ℕ)
  unfolding payload_of
  transmit_box rid msgs = elim (payload_of msgs) [ none ↦ [] | some p ↦ (p, rid) ∷ [] ]

  -- The loop of `flushOutBoxes`: what is transmitted, and the boxes that stay, which are empty. The
  -- box of a remote that is gone is dropped.
  unfoldable pub flush_boxes :
      Dict ℕ String → Dict ℕ (List M) → List (Payload M × ℕ) × Dict ℕ (List M)
  unfolding transmit_box
  flush_boxes remotes [] = ([], [])
  flush_boxes remotes ((rid, msgs) ∷ boxes) =
      let (sent, left) = flush_boxes remotes boxes in
      if Dict.has_key rid remotes
      then (transmit_box rid msgs ++ sent, (rid, []) ∷ left)
      else (sent, left)

  unfoldable pub flush_out_boxes : Batched M → Batched M
  unfolding flush_boxes
  flush_out_boxes b =
      let (sent, left) = flush_boxes b.remotes b.out_boxes in
      record b { transmitted = b.transmitted ++ sent; out_boxes = left }
