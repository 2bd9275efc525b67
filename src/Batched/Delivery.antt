-- ===== src/Batched/Delivery.antt =====
-- A flush delivers to each remote the messages that were sent to it, in their order.
use plenum.Common.{
  ℕ, ◌≡◌, refl, sym, ap, ◌∙◌, Bool, true, false, String, List, [], ◌∷◌, ◌++◌, map, nat_eq, ◌==◌,
  if◌then◌else◌, arith, inl, inr, Bool-cases, Distinct, contains, eq→path,
}
use mathlib.Core.List.{append-nil, append_assoc}
use plenum.Common.Dict
use plenum.Common.Dict.{Dict, get_or, keys}
use plenum.Batched.{
  Payload, single, batch, Batched, enqueue, enqueue_into, send_batched, transmit_box, flush_boxes,
  flush_out_boxes,
}

module _ {M : Type 0} where
  unfoldable pub messages_in : Payload M → List M
  messages_in (single msg) = msg ∷ []
  messages_in (batch msgs) = msgs

  -- The messages that were transmitted to a remote.
  unfoldable pub delivered : ℕ → List (Payload M × ℕ) → List M
  delivered rid [] = []
  delivered rid ((p, r) ∷ log) = (if r == rid then messages_in p else []) ++ delivered rid log

  -- Messages for remotes, put into their boxes one after the other.
  unfoldable pub enqueue_all : List (M × ℕ) → Dict ℕ (List M) → Dict ℕ (List M)
  unfolding enqueue
  enqueue_all [] boxes = boxes
  enqueue_all ((msg, rid) ∷ calls) boxes = enqueue_all calls (enqueue msg rid boxes)

  -- The messages among them for one remote.
  unfoldable pub messages_for : ℕ → List (M × ℕ) → List M
  messages_for rid [] = []
  messages_for rid ((msg, r) ∷ calls) =
      (if r == rid then msg ∷ [] else []) ++ messages_for rid calls

  box : ℕ → Dict ℕ (List M) → List M
  box rid boxes = get_or (Dict.get rid boxes) []

  box-enqueue :
      (rid r : ℕ) (msg : M) (boxes : Dict ℕ (List M))
      → box rid (enqueue msg r boxes) ≡ box rid boxes ++ (if r == rid then msg ∷ [] else [])
  unfolding box enqueue
  box-enqueue rid r msg boxes =
      let set = Dict.get-set r rid (box r boxes ++ msg ∷ []) boxes in
      elim (Bool-cases (r == rid)) [
        | inl same ↦ rw (set, same, eq→path r rid same) refl
        | inr other ↦ rw (set, other) (sym (append-nil (box rid boxes)))
      ]

  box-enqueue_all :
      (rid : ℕ) (calls : List (M × ℕ)) (boxes : Dict ℕ (List M))
      → box rid (enqueue_all calls boxes) ≡ box rid boxes ++ messages_for rid calls
  unfolding enqueue_all messages_for
  box-enqueue_all rid [] boxes = sym (append-nil (box rid boxes))
  box-enqueue_all rid ((msg, r) ∷ calls) boxes =
      box-enqueue_all rid calls (enqueue msg r boxes)
      ∙ ap (λ xs. xs ++ messages_for rid calls) (box-enqueue rid r msg boxes)
      ∙ append_assoc (box rid boxes) (if r == rid then msg ∷ [] else []) (messages_for rid calls)

  enqueue_all-Distinct :
      (calls : List (M × ℕ)) (boxes : Dict ℕ (List M))
      → Distinct (keys boxes)
      → Distinct (keys (enqueue_all calls boxes))
  unfolding enqueue_all enqueue
  enqueue_all-Distinct [] boxes h = h
  enqueue_all-Distinct ((msg, r) ∷ calls) boxes h =
      enqueue_all-Distinct calls _ (Dict.set-Distinct r _ boxes h)

  delivered-append :
      (rid : ℕ) (xs ys : List (Payload M × ℕ))
      → delivered rid (xs ++ ys) ≡ delivered rid xs ++ delivered rid ys
  unfolding delivered
  delivered-append rid [] ys = refl
  delivered-append rid ((p, r) ∷ xs) ys =
      ap (λ zs. (if r == rid then messages_in p else []) ++ zs) (delivered-append rid xs ys)
      ∙ sym (
          append_assoc (if r == rid then messages_in p else []) (delivered rid xs)
            (delivered rid ys))

  delivered-box :
      (rid r : ℕ) (msgs : List M)
      → delivered rid (transmit_box r msgs) ≡ (if r == rid then msgs else [])
  unfolding delivered transmit_box messages_in
  delivered-box rid r [] = ground arith
  delivered-box rid r (msg ∷ []) = ground arith
  delivered-box rid r (msg ∷ next ∷ msgs) = elim (Bool-cases (r == rid)) [
    | inl same ↦ rw same (append-nil (msg ∷ next ∷ msgs))
    | inr other ↦ rw other refl
  ]

  flush_first :
      (remotes : Dict ℕ String) (rid r : ℕ) (msgs : List M) (boxes : Dict ℕ (List M))
      → delivered rid (flush_boxes remotes ((r, msgs) ∷ boxes)).0
        ≡ (if Dict.has_key r remotes then (if r == rid then msgs else []) else [])
          ++ delivered rid (flush_boxes remotes boxes).0
  unfolding flush_boxes
  flush_first remotes rid r msgs boxes = elim (Bool-cases (Dict.has_key r remotes)) [
    | inr gone ↦ rw gone refl
    | inl there ↦ rw there (
        delivered-append rid (transmit_box r msgs) (flush_boxes remotes boxes).0
        ∙ ap (λ xs. xs ++ delivered rid (flush_boxes remotes boxes).0) (delivered-box rid r msgs))
  ]

  either_empty : (b : Bool) (xs : List M) → (if b then [] else []) ++ xs ≡ xs
  either_empty true xs = refl
  either_empty false xs = refl

  flush_absent :
      (remotes : Dict ℕ String) (rid : ℕ) (boxes : Dict ℕ (List M))
      → contains (keys boxes) rid ≡ false
      → delivered rid (flush_boxes remotes boxes).0 ≡ []
  unfolding flush_boxes delivered
  flush_absent remotes rid [] h = refl
  flush_absent remotes rid ((r, msgs) ∷ boxes) h =
      let other : (r == rid) ≡ false = ground arith in
      flush_first remotes rid r msgs boxes
      ∙ rw (other, flush_absent remotes rid boxes (ground arith))
          (either_empty (Dict.has_key r remotes) [])

  flush_boxes-delivers :
      (remotes : Dict ℕ String) (rid : ℕ) (boxes : Dict ℕ (List M))
      → Distinct (keys boxes)
      → delivered rid (flush_boxes remotes boxes).0
        ≡ (if Dict.has_key rid remotes then box rid boxes else [])
  unfolding flush_boxes delivered box Dict.get
  flush_boxes-delivers remotes rid [] h = ground arith
  flush_boxes-delivers remotes rid ((r, msgs) ∷ boxes) h =
      flush_first remotes rid r msgs boxes ∙ elim (Bool-cases (r == rid)) [
        | inl same ↦
            let key : r ≡ rid = eq→path r rid same in
            let rest = flush_absent remotes rid boxes (rw key at h.0) in
            rw (same, rest, key) (append-nil (if Dict.has_key rid remotes then msgs else []))
        | inr other ↦
            rw (other, flush_boxes-delivers remotes rid boxes h.1)
              (either_empty (Dict.has_key r remotes) _)
      ]

  -- Messages sent one after the other, each to some remotes, or to all if none is named.
  unfoldable pub send_all : List (M × List ℕ) → Batched M → Batched M
  unfolding send_batched
  send_all [] b = b
  send_all ((msg, rids) ∷ sends) b = send_all sends (send_batched msg rids b)

  -- The same messages with the remotes that they are for.
  unfoldable pub addressed : Dict ℕ String → List (M × List ℕ) → List (M × ℕ)
  addressed remotes [] = []
  addressed remotes ((msg, []) ∷ sends) =
      map (λ r. (msg, r)) (keys remotes) ++ addressed remotes sends
  addressed remotes ((msg, rid ∷ rids) ∷ sends) =
      map (λ r. (msg, r)) (rid ∷ rids) ++ addressed remotes sends

  enqueue_all-append :
      (xs ys : List (M × ℕ)) (boxes : Dict ℕ (List M))
      → enqueue_all (xs ++ ys) boxes ≡ enqueue_all ys (enqueue_all xs boxes)
  unfolding enqueue_all
  enqueue_all-append [] ys boxes = refl
  enqueue_all-append ((msg, r) ∷ xs) ys boxes = enqueue_all-append xs ys (enqueue msg r boxes)

  enqueue_into_lem :
      (msg : M) (rids : List ℕ) (boxes : Dict ℕ (List M))
      → enqueue_into msg rids boxes ≡ enqueue_all (map (λ r. (msg, r)) rids) boxes
  unfolding enqueue_into enqueue_all
  enqueue_into_lem msg [] boxes = refl
  enqueue_into_lem msg (rid ∷ rids) boxes = enqueue_into_lem msg rids (enqueue msg rid boxes)

  send_all_lem :
      (sends : List (M × List ℕ)) (b : Batched M)
      → send_all sends b
        ≡ record b { out_boxes = enqueue_all (addressed b.remotes sends) b.out_boxes }
  unfolding send_all send_batched addressed enqueue_all
  send_all_lem [] b = refl
  send_all_lem ((msg, []) ∷ sends) b =
      send_all_lem sends (send_batched msg [] b)
      ∙ ap (λ boxes. record b { out_boxes = boxes })
          (ap (enqueue_all (addressed b.remotes sends))
              (enqueue_into_lem msg (keys b.remotes) b.out_boxes)
            ∙ sym (enqueue_all-append (map (λ r. (msg, r)) (keys b.remotes)) _ b.out_boxes))
  send_all_lem ((msg, rid ∷ rids) ∷ sends) b =
      send_all_lem sends (send_batched msg (rid ∷ rids) b)
      ∙ ap (λ boxes. record b { out_boxes = boxes })
          (ap (enqueue_all (addressed b.remotes sends))
              (enqueue_into_lem msg (rid ∷ rids) b.out_boxes)
            ∙ sym (enqueue_all-append (map (λ r. (msg, r)) (rid ∷ rids)) _ b.out_boxes))

  -- Whatever messages were sent to which remotes from empty boxes, and however they are batched: a
  -- flush delivers to each remote that is there the messages for it, in their order, behind those
  -- that were delivered before, and none to others.
  pub flush_out_boxes-send_all :
      (sends : List (M × List ℕ)) (b : Batched M) (rid : ℕ)
      → b.out_boxes ≡ []
      → delivered rid (flush_out_boxes (send_all sends b)).transmitted
        ≡ delivered rid b.transmitted
          ++ (if Dict.has_key rid b.remotes
              then messages_for rid (addressed b.remotes sends)
              else [])
  unfolding flush_out_boxes box Dict.get
  flush_out_boxes-send_all sends b rid e =
      let calls = addressed b.remotes sends in
      let boxes = enqueue_all calls [] in
      ap (λ c. delivered rid (flush_out_boxes c).transmitted)
        (send_all_lem sends b ∙ ap (λ start. record b { out_boxes = enqueue_all calls start }) e)
      ∙ delivered-append rid b.transmitted (flush_boxes b.remotes boxes).0
      ∙ ap (λ xs. delivered rid b.transmitted ++ xs)
          (flush_boxes-delivers b.remotes rid boxes (enqueue_all-Distinct calls [] tt)
            ∙ ap (λ xs. if Dict.has_key rid b.remotes then xs else [])
                (box-enqueue_all rid calls []))
