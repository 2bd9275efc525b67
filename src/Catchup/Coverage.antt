-- ===== src/Catchup/Coverage.antt =====
-- The ranges that are asked for hold every missing transaction once, and no other.
use plenum.Common.{
  ℕ, zero, suc, ◌+◌, ◌-◌, ◌*◌, ◌≤◌, ◌<◌, ◌≡◌, refl, ◌&&◌, List, [], ◌∷◌, ◌++◌, some, length, min,
  ltb, leb, if◌then◌else◌, ◌==◌, nat_eq, arith, All, inl, inr, Bool-cases, eq→path,
}
use native.Mathlib.Nat.{lt-div-mul-add, div-mul-le_self}
use plenum.Catchup.{ConsistencyProof, CatchupReq}
use plenum.Catchup.Ranges.{
  ceil_div, req_for, reqs_from, get_catchup_reqs, add_batches, add_reqs_for_missing, reqs_in_gaps,
  missing_reqs,
}

-- Requests that follow each other without a gap, from behind `a` up to `b`, none of them empty.
abbrev pub Tiles : ℕ → List CatchupReq → ℕ → Type 0
Tiles a [] b = a ≡ b
Tiles a (r ∷ reqs) b = (r.seq_no_start ≡ a + 1) × (a < r.seq_no_end) × Tiles r.seq_no_end reqs b

-- Whether a number is above `a` and up to `b`, as a number.
unfoldable pub inside : ℕ → ℕ → ℕ → ℕ
inside a b n = if ltb a n && leb n b then 1 else 0

-- How many of the requests ask for a number, and how many of the replies hold it.
unfoldable pub asked : ℕ → List CatchupReq → ℕ
asked n [] = 0
asked n (r ∷ reqs) = (if leb r.seq_no_start n && leb n r.seq_no_end then 1 else 0) + asked n reqs

unfoldable pub held : {X : Type 0} → ℕ → List (ℕ × X) → ℕ
held n [] = 0
held n ((s, txn) ∷ replies) = (if s == n then 1 else 0) + held n replies

ceil_div_bounds : (n d : ℕ) → 0 < d → (n ≤ ceil_div n d * d) × (ceil_div n d * d < n + d)
unfolding ceil_div
ceil_div_bounds n d h =
    let low = lt-div-mul-add {a = n + (d - 1)} h in
    let high = div-mul-le_self (n + (d - 1)) d in (omega arith, omega arith)

factor_positive : (k d n : ℕ) → 0 < n → n ≤ k * d → 0 < k
factor_positive zero d n h le = omega arith
factor_positive (suc k) d n h le = omega arith

suc-mul : (k d : ℕ) → suc k * d ≡ k * d + d
suc-mul k d = omega arith

Tiles-le : (a b : ℕ) (reqs : List CatchupReq) → Tiles a reqs b → a ≤ b
Tiles-le a b [] h = omega (arith, h)
Tiles-le a b (r ∷ reqs) h = omega (arith, h.1, Tiles-le r.seq_no_end b reqs h.2)

asked-Tiles : (n a b : ℕ) (reqs : List CatchupReq) → Tiles a reqs b → asked n reqs ≡ inside a b n
unfolding asked inside
asked-Tiles n a b [] h = ground arith
asked-Tiles n a b (r ∷ reqs) h =
    ground
      (arith, h.0, h.1, asked-Tiles n r.seq_no_end b reqs h.2, Tiles-le r.seq_no_end b reqs h.2)

asked-append : (n : ℕ) (xs ys : List CatchupReq) → asked n (xs ++ ys) ≡ asked n xs + asked n ys
unfolding asked
asked-append n [] ys = omega arith
asked-append n (r ∷ xs) ys = omega (arith, asked-append n xs ys)

-- What every request of a list has besides its place: the ledger, the number to catch up to, and no
-- more transactions than a batch.
abbrev pub IsBatch : ℕ → ℕ → ℕ → CatchupReq → Type 0
IsBatch ledger_id till size r =
    (r.ledger_id ≡ ledger_id) × (r.catchup_till ≡ till) × (r.seq_no_end < r.seq_no_start + size)

module _ (ledger_id end batch_length : ℕ) (h : 0 < batch_length) where
  reqs_from-Tiles :
      (nodes a : ℕ)
      → a < end
      → end ≤ a + nodes * batch_length
      → Tiles a
          (reqs_from ledger_id end batch_length nodes (a + 1) (min (a + batch_length) end))
          end
        × (length (reqs_from ledger_id end batch_length nodes (a + 1) (min (a + batch_length) end))
            ≤ nodes)
        × All
            (IsBatch ledger_id end batch_length)
            (reqs_from ledger_id end batch_length nodes (a + 1) (min (a + batch_length) end))
  unfolding reqs_from
  reqs_from-Tiles zero a below reach = absurd (omega arith)
  reqs_from-Tiles (suc nodes) a below reach =
      let e = min (a + batch_length) end in
      let fits : e < a + 1 + batch_length = ground arith in
      elim (Bool-cases (ltb end (e + 1))) [
        | inl last ↦
            rw last (((refl, ground arith, ground arith), omega arith, ((refl, refl, fits), tt)))
        | inr more ↦
            let next : e + 1 + batch_length - 1 ≡ e + batch_length = omega arith in
            let (tiles, few, batches) =
              reqs_from-Tiles nodes e (ground arith) (ground (arith, suc-mul nodes batch_length)) in
            rw (more, next)
              ((refl, ground arith, tiles), omega (arith, few), ((refl, refl, fits), batches))
      ]

-- What `getCatchupReqs` gives for a proof and a number of nodes: ranges of the whole gap.
pub record IsPlan (nodes : ℕ) (p : ConsistencyProof) (reqs : List CatchupReq) : Type 0 where
  pub tiles : Tiles p.seq_no_start reqs p.seq_no_end
  pub few : length reqs ≤ nodes
  pub batches :
      All (IsBatch p.ledger_id p.seq_no_end (ceil_div (p.seq_no_end - p.seq_no_start) nodes)) reqs

-- With at least one connected node, and a proof that ends above its start: there are requests, no
-- more than nodes; they follow each other without a gap from the start to the end of the proof; and
-- none asks for more transactions than an even share, rounded up.
pub get_catchup_reqs-IsPlan :
    (nodes : ℕ) (p : ConsistencyProof)
    → p.seq_no_start < p.seq_no_end
    → (reqs : List CatchupReq) × (get_catchup_reqs (suc nodes) p ≡ some reqs)
      × IsPlan (suc nodes) p reqs
unfolding get_catchup_reqs
get_catchup_reqs-IsPlan nodes p h =
    let start = p.seq_no_start in
    let batch = ceil_div (p.seq_no_end - start) (suc nodes) in
    let (low, high) = ceil_div_bounds (p.seq_no_end - start) (suc nodes) (omega arith) in
    let some_each : 0 < batch =
      factor_positive batch (suc nodes) (p.seq_no_end - start) (omega arith) low in
    let next : start + 1 + batch - 1 ≡ start + batch = omega arith in
    let (tiles, few, batches) =
      reqs_from-Tiles p.ledger_id p.seq_no_end batch some_each (suc nodes) start h
        (omega (arith, low)) in
    (_, refl, rw next (record { tiles = tiles; few = few; batches = batches }))

module _ (ledger_id end batch_size : ℕ) (h : 0 < batch_size) where
  add_batches-Tiles :
      (left i a to : ℕ)
      → to ≤ a + i * batch_size + left * batch_size
      → a + i * batch_size + left * batch_size < to + batch_size
      → Tiles
          (min to (a + i * batch_size))
          (add_batches ledger_id end batch_size left i (a + 1) to)
          to
  unfolding add_batches req_for
  add_batches-Tiles zero i a to reach near = ground arith
  add_batches-Tiles (suc left) i a to reach near =
      let step = suc-mul i batch_size in
      let count = suc-mul left batch_size in
      let e : min to (a + 1 + (i + 1) * batch_size - 1) ≡ min to (a + (i + 1) * batch_size) =
        ground arith in
      rw e (
        ground (arith, count),
        ground (arith, step, count),
        add_batches-Tiles left (i + 1) a to (omega (arith, step, count))
            (omega (arith, step, count)),
      )

  add_reqs_for_missing-Tiles :
      (a to : ℕ) → a ≤ to → Tiles a (add_reqs_for_missing ledger_id end batch_size (a + 1) to) to
  unfolding add_reqs_for_missing
  add_reqs_for_missing-Tiles a to le =
      let (low, high) = ceil_div_bounds (to + 1 - (a + 1)) batch_size h in
      let first : min to (a + 0 * batch_size) ≡ a = ground arith in
      rw first at (
        add_batches-Tiles (ceil_div (to + 1 - (a + 1)) batch_size) 0 a to (omega (arith, low))
          (omega (arith, high)))

-- Replies in ascending order, above `seen` and up to `end`.
abbrev pub Ascends : {X : Type 0} → ℕ → List (ℕ × X) → ℕ → Type 0
Ascends seen [] end = seen ≤ end
Ascends seen ((s, txn) ∷ replies) end = (seen < s) × Ascends s replies end

module _ {X : Type 0} (ledger_id end batch_size : ℕ) (h : 0 < batch_size) (n : ℕ) where
  -- The gaps up to the last reply are filled, and `leftMissing` falls by their lengths.
  reqs_in_gaps_lem :
      (replies : List (ℕ × X)) (seen : ℕ) (left : ℕ × ℕ)
      → Ascends seen replies end
      → let (reqs, last, left') = reqs_in_gaps ledger_id end batch_size replies seen left in
        (asked n reqs + held n replies ≡ inside seen last n)
        × (seen ≤ last)
        × (last ≤ end)
        × (left'.0 + last + left.1 ≡ left.0 + left'.1 + seen + length replies)
  unfolding reqs_in_gaps asked held inside
  reqs_in_gaps_lem [] seen left up = (ground arith, omega arith, up, omega arith)
  reqs_in_gaps_lem ((s, txn) ∷ replies) seen (owed, paid) up = elim (Bool-cases (s == seen + 1)) [
    | inl next ↦
        let (c, le, top, l) = reqs_in_gaps_lem replies s (owed, paid) up.1 in
        rw next (ground (arith, c, le), omega (arith, le), top, ground (arith, l, next))
    | inr gap ↦
        let (c, le, top, l) = reqs_in_gaps_lem replies s (owed + (seen + 1), paid + s) up.1 in
        let filled =
          asked-Tiles n seen (s - 1) _
            (add_reqs_for_missing-Tiles ledger_id end batch_size h seen (s - 1) (omega arith)) in
        rw gap (
          ground (
            arith,
            c,
            le,
            filled,
            asked-append n (add_reqs_for_missing ledger_id end batch_size (seen + 1) (s - 1))
                (reqs_in_gaps ledger_id end batch_size replies s (owed + (seen + 1), paid + s)).0,
          ),
          omega (arith, le),
          top,
          omega (arith, l),
        )
  ]

  -- With a positive batch size and replies that are ascending, above the size of the ledger and up to
  -- the end: each number above the size and up to the end is held by the replies or asked for, once
  -- and never both; and no other number is asked for.
  pub missing_reqs-asked :
      (replies : List (ℕ × X)) (size : ℕ)
      → Ascends size replies end
      → asked n (missing_reqs ledger_id end batch_size replies size) + held n replies
        ≡ inside size end n
  unfolding missing_reqs inside asked
  missing_reqs-asked replies size up =
      let left : ℕ × ℕ = (end, size + length replies) in
      let (reqs, last, (owed, paid)) = reqs_in_gaps ledger_id end batch_size replies size left in
      let (c, le, top, l) = reqs_in_gaps_lem replies size left up in
      let behind =
        asked-Tiles n last end _
          (add_reqs_for_missing-Tiles ledger_id end batch_size h last end top) in
      elim (Bool-cases (ltb paid owed)) [
        | inr done ↦ rw done (ground (arith, c, l, top, le))
        | inl more ↦ elim (Bool-cases (last == size)) [
          | inl none_held ↦
              rw (more, none_held)
                (ground (
                  arith,
                  c,
                  l,
                  top,
                  le,
                  none_held,
                  eq→path last size none_held,
                  behind,
                  asked-append n reqs
                      (add_reqs_for_missing ledger_id end batch_size (size + 1) end),
                ))
          | inr some_held ↦ elim (Bool-cases (last == end)) [
            | inl all ↦ absurd (ground (arith, l, more))
            | inr rest ↦
                rw (more, some_held, rest)
                  (ground (
                    arith,
                    c,
                    l,
                    top,
                    le,
                    behind,
                    asked-append n reqs
                        (add_reqs_for_missing ledger_id end batch_size (last + 1) end),
                  ))
          ]
        ]
      ]
