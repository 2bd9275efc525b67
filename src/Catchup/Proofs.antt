-- ===== src/Catchup/Proofs.antt =====
-- How consistency proofs are counted and one is chosen: `_groupConsistencyProofs`,
-- `_reliableProofs`, `_latestReliableProof`, `getConsistencyProofRequest`, `checkLedgerIsOutOfSync`.
use plenum.Common.{
  ℕ, ◌+◌, ◌-◌, ◌/◌, Bool, String, List, [], ◌∷◌, Option, none, some, length, leb, ltb,
  if◌then◌else◌, Eq, ◌==◌, nat_eq, string_eq, pair_eq, list_eq, drop,
}
use plenum.Common.Dict
use plenum.Common.Dict.{Dict, get_or}
use plenum.Quorum.{get_max_failures}
use plenum.Catchup.{ConsistencyProof, ConsProofRequest}

-- The start and the end of a proof, and the rest of it, by which proofs are compared.
abbrev pub Range : Type 0
Range = ℕ × ℕ

abbrev pub ProofKey : Type 0
ProofKey = ℕ × (String × (String × List String))

abbrev pub range_of : ConsistencyProof → Range
range_of p = (p.seq_no_start, p.seq_no_end)

abbrev pub key_of : ConsistencyProof → ProofKey
key_of p = (p.pp_seq_no, (p.old_merkle_root, (p.new_merkle_root, p.hashes)))

abbrev pub Grouped : Type 0
Grouped = Dict Range (Dict ProofKey ℕ)

-- The first key of a group with a count above `adjustedF`.
unfoldable pub first_reliable : {B : Type 0} → ℕ → Dict B ℕ → Option B
first_reliable f [] = none
first_reliable f ((key, count) ∷ group) = if ltb f count then some key else first_reliable f group

module _ {A B : Type 0} ⦃e : Eq A⦄ ⦃d : Eq B⦄ where
  -- `recvdPrf[a][b] = recvdPrf[a].get(b, 0) + 1`, where `recvdPrf[a]` is empty at first
  unfoldable pub count_in : A → B → Dict A (Dict B ℕ) → Dict A (Dict B ℕ)
  count_in a b grouped =
      let group = get_or (Dict.get a grouped) [] in
      Dict.set a (Dict.set b (get_or (Dict.get b group) 0 + 1) group) grouped

  unfoldable pub note_reliable : A → Option B → Dict A B → Dict A B
  note_reliable range none result = result
  note_reliable range (some key) result = Dict.set range key result

  unfoldable pub reliable_from : ℕ → Dict A (Dict B ℕ) → Dict A B → Dict A B
  unfolding first_reliable note_reliable
  reliable_from f [] result = result
  reliable_from f ((range, group) ∷ grouped) result =
      reliable_from f grouped (note_reliable range (first_reliable f group) result)

unfoldable pub group_from : Dict String (Option ConsistencyProof) → Grouped × ℕ → Grouped × ℕ
unfolding count_in
group_from [] acc = acc
group_from ((frm, some p) ∷ proofs) (grouped, nulls) =
    group_from proofs (count_in (range_of p) (key_of p) grouped, nulls)
group_from ((frm, none) ∷ proofs) (grouped, nulls) = group_from proofs (grouped, nulls + 1)

unfoldable pub group_consistency_proofs : Dict String (Option ConsistencyProof) → Grouped × ℕ
unfolding group_from
group_consistency_proofs proofs = group_from proofs ([], 0)

-- `_reliableProofs`, for the number of nodes in total
unfoldable pub reliable_proofs : ℕ → Grouped → Dict Range ProofKey
unfolding reliable_from
reliable_proofs total_nodes grouped = reliable_from (get_max_failures (total_nodes - 1)) grouped []

-- one round of the loop of `_latestReliableProof`
unfoldable pub later : ℕ → Range × ProofKey → Option (Range × ProofKey) → Option (Range × ProofKey)
later size ((start, end), key) none = if start == size then some ((start, end), key) else none
later size ((start, end), key) (some ((s, e), k)) =
    if start == size
    then (if ltb e end then some ((start, end), key) else some ((s, e), k))
    else some ((s, e), k)

unfoldable pub latest_from :
    ℕ → Dict Range ProofKey → Option (Range × ProofKey) → Option (Range × ProofKey)
unfolding later
latest_from size [] latest = latest
latest_from size (proof ∷ proofs) latest = latest_from size proofs (later size proof latest)

unfoldable pub latest_reliable_proof : ℕ → Grouped → ℕ → Option (Range × ProofKey)
unfolding latest_from reliable_proofs
latest_reliable_proof total_nodes grouped size =
    latest_from size (reliable_proofs total_nodes grouped) none

-- `max(t[1].values())`
unfoldable pub max_count : Dict ProofKey ℕ → ℕ
max_count [] = 0
max_count ((key, count) ∷ group) = let m = max_count group in if ltb m count then count else m

-- `sorted(..., key=...)`, which keeps the order of equal measures
unfoldable pub insert_by : {A : Type 0} → (A → ℕ) → A → List A → List A
insert_by rank a [] = a ∷ []
insert_by rank a (b ∷ bs) = if ltb (rank b) (rank a) then b ∷ insert_by rank a bs else a ∷ b ∷ bs

unfoldable pub sorted_by : {A : Type 0} → (A → ℕ) → List A → List A
unfolding insert_by
sorted_by rank [] = []
sorted_by rank (a ∷ rest) = insert_by rank a (sorted_by rank rest)

-- `getConsistencyProofRequest`, which fails if no proof was received
unfoldable pub get_consistency_proof_request : ℕ → Grouped → ℕ → Option ConsProofRequest
unfolding max_count sorted_by
get_consistency_proof_request ledger_id grouped size =
    let proofs = sorted_by (λ t. max_count t.1) grouped in
    elim (drop (length proofs / 2) proofs) [
      | [] ↦ none
      | (range, group) ∷ _ ↦
          some (record { ledger_id = ledger_id; seq_no_start = size; seq_no_end = range.1 })
    ]

unfoldable pub get_not_empty_proofs : Dict String (Option ConsistencyProof) → List ConsistencyProof
get_not_empty_proofs [] = []
get_not_empty_proofs ((frm, some p) ∷ proofs) = p ∷ get_not_empty_proofs proofs
get_not_empty_proofs ((frm, none) ∷ proofs) = get_not_empty_proofs proofs

unfoldable pub check_ledger_is_out_of_sync : ℕ → Dict String (Option ConsistencyProof) → Bool
unfolding get_not_empty_proofs
check_ledger_is_out_of_sync total_nodes proofs =
    let others = total_nodes - 1 in
    leb (others - get_max_failures others) (length (get_not_empty_proofs proofs))
