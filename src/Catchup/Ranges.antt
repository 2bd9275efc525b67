-- ===== src/Catchup/Ranges.antt =====
-- The ranges of transactions that are asked for: `getCatchupReqs`, and the search for missing
-- transactions of `checkIfTxnsNeeded`. Numbers are below 2^53, where the division is exact.
use plenum.Common.{
  ℕ, zero, suc, ◌+◌, ◌-◌, ◌*◌, ◌/◌, not, List, [], ◌∷◌, ◌++◌, Option, none, some, length, min, ltb,
  if◌then◌else◌, ◌==◌, nat_eq,
}
use plenum.Catchup.{ConsistencyProof, CatchupReq}

-- `math.ceil(n / d)` for a positive `d`
unfoldable pub ceil_div : ℕ → ℕ → ℕ
ceil_div n d = (n + (d - 1)) / d

module _ (ledger_id end batch_length : ℕ) where
  unfoldable pub req_for : ℕ → ℕ → CatchupReq
  req_for s e = record {
    ledger_id = ledger_id;
    seq_no_start = s;
    seq_no_end = e;
    catchup_till = end;
  }

  -- The loop of `getCatchupReqs`, from `s` to `e`, over the nodes that are left.
  unfoldable pub reqs_from : ℕ → ℕ → ℕ → List CatchupReq
  unfolding req_for
  reqs_from zero s e = []
  reqs_from (suc nodes) s e =
      let s' = e + 1 in
      let e' = min (s' + batch_length - 1) end in
      let rest = reqs_from nodes s' e' in req_for s e ∷ (if ltb end s' then [] else rest)

-- `getCatchupReqs` for the number of connected nodes; without one it divides by zero. Where the end
-- is below the start, the batch length is at most zero, and one request goes out either way.
unfoldable pub get_catchup_reqs : ℕ → ConsistencyProof → Option (List CatchupReq)
unfolding reqs_from ceil_div
get_catchup_reqs zero p = none
get_catchup_reqs (suc nodes) p =
    let start = p.seq_no_start in
    let end = p.seq_no_end in
    let batch_length = ceil_div (end - start) (suc nodes) in
    let s = start + 1 in
    some (reqs_from p.ledger_id end batch_length (suc nodes) s (min (s + batch_length - 1) end))

module _ (ledger_id end batch_size : ℕ) where
  -- `addReqsForMissing`, for a positive batch size: batch `i` of those that are left
  unfoldable pub add_batches : ℕ → ℕ → ℕ → ℕ → List CatchupReq
  unfolding req_for
  add_batches zero i frm to = []
  add_batches (suc left) i frm to =
      req_for ledger_id end batch_size (frm + i * batch_size)
        (min to (frm + (i + 1) * batch_size - 1))
      ∷ add_batches left (i + 1) frm to

  unfoldable pub add_reqs_for_missing : ℕ → ℕ → List CatchupReq
  unfolding add_batches ceil_div
  add_reqs_for_missing frm to = add_batches (ceil_div (to + 1 - frm) batch_size) 0 frm to

  -- The loop over the replies: the requests, the last sequence number seen, and `leftMissing` as
  -- a pair of numbers whose difference it is.
  unfoldable pub reqs_in_gaps :
      {X : Type 0} → List (ℕ × X) → ℕ → ℕ × ℕ → List CatchupReq × ℕ × (ℕ × ℕ)
  unfolding add_reqs_for_missing
  reqs_in_gaps [] seen left = ([], seen, left)
  reqs_in_gaps ((seq_no, txn) ∷ replies) seen (owed, paid) =
      let next = seq_no == seen + 1 in
      let left = if next then (owed, paid) else (owed + (seen + 1), paid + seq_no) in
      let (rest, seen', left') = reqs_in_gaps replies seq_no left in
      ((if next then rest else add_reqs_for_missing (seen + 1) (seq_no - 1) ++ rest), seen', left')

  -- All the requests: those in gaps, and those behind the last reply.
  unfoldable pub missing_reqs : {X : Type 0} → List (ℕ × X) → ℕ → List CatchupReq
  unfolding reqs_in_gaps add_reqs_for_missing
  missing_reqs replies size =
      let (reqs, seen, (owed, paid)) = reqs_in_gaps replies size (end, size + length replies) in
      let behind =
        if seen == size
        then add_reqs_for_missing (size + 1) end
        else if not (seen == end)
        then add_reqs_for_missing (seen + 1) end
        else [] in
      if ltb paid owed then reqs ++ behind else reqs
