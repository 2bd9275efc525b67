-- ===== src/Catchup/Backing.antt =====
-- The proof that is chosen was sent by more nodes than may fail, and no other that was reaches
-- further.
use plenum.Common.{
  ℕ, ◌+◌, ◌-◌, ◌*◌, length, ◌<◌, ◌≡◌, sym, ap, ◌∙◌, true, ◌&&◌, String, [], ◌∷◌, Option, none, some,
  if◌then◌else◌, ltb, ◌==◌, nat_eq, string_eq, pair_eq, list_eq, arith, All, All-map, inl, inr,
  Bool-cases, Option-cases,
}
use mathlib.Core.Path.{subst}
use plenum.Common.Dict
use plenum.Common.Dict.{Dict, keys, get_or}
use plenum.Quorum.{get_max_failures}
use plenum.Catchup.{ConsistencyProof}
use plenum.Catchup.Proofs.{
  Range, ProofKey, range_of, key_of, Grouped, count_in, group_from, group_consistency_proofs,
  first_reliable, reliable_proofs, latest_reliable_proof,
}
use plenum.Catchup.Grouping.{
  counted, counted-count_in, counted-there, IsTidy, count_in-IsTidy, IsTidy-counted,
  first_reliable_sound, first_reliable_complete, reliable_from-All, reliable_from_complete,
}
use plenum.Catchup.Latest.{latest_from-IsGood, ReachesTo, latest_from-furthest}
use plenum.Catchup.Manager.{proof_of, start_decision}

-- How many senders sent a proof with this range and these contents.
unfoldable pub backers : Range → ProofKey → Dict String (Option ConsistencyProof) → ℕ
backers range key [] = 0
backers range key ((frm, none) ∷ proofs) = backers range key proofs
backers range key ((frm, some p) ∷ proofs) =
    (if range_of p == range && key_of p == key then 1 else 0) + backers range key proofs

from_none : (a b : ℕ) → a ≡ 0 + b → a ≡ b
from_none a b p = omega (arith, p)

regroup : (a b c d n : ℕ) → a ≡ b + n → b ≡ c + d → a ≡ c + (d + n)
regroup a b c d n p q = omega (arith, p, q)

counted-group_from :
    (range : Range) (key : ProofKey) (proofs : Dict String (Option ConsistencyProof))
    (grouped : Grouped) (nulls : ℕ)
    → counted range key (group_from proofs (grouped, nulls)).0
      ≡ counted range key grouped + backers range key proofs
unfolding group_from backers
counted-group_from range key [] grouped nulls = omega arith
counted-group_from range key ((frm, none) ∷ proofs) grouped nulls =
    counted-group_from range key proofs grouped (nulls + 1)
counted-group_from range key ((frm, some p) ∷ proofs) grouped nulls =
    let next = count_in (range_of p) (key_of p) grouped in
    let more = counted-count_in range (range_of p) key (key_of p) grouped in
    let rest = counted-group_from range key proofs next nulls in regroup _ _ _ _ _ rest more

group_from-IsTidy :
    (proofs : Dict String (Option ConsistencyProof)) (grouped : Grouped) (nulls : ℕ)
    → IsTidy grouped
    → IsTidy (group_from proofs (grouped, nulls)).0
unfolding group_from
group_from-IsTidy [] grouped nulls h = h
group_from-IsTidy ((frm, none) ∷ proofs) grouped nulls h =
    group_from-IsTidy proofs grouped (nulls + 1) h
group_from-IsTidy ((frm, some p) ∷ proofs) grouped nulls h =
    group_from-IsTidy proofs _ nulls (count_in-IsTidy (range_of p) (key_of p) grouped h)

module _ (total_nodes : ℕ) (proofs : Dict String (Option ConsistencyProof)) where
  -- A range and contents that more senders sent than may fail among the other nodes.
  abbrev pub IsBacked : Range × ProofKey → Type 0
  IsBacked entry = get_max_failures (total_nodes - 1) < backers entry.0 entry.1 proofs

  counted-group_consistency_proofs :
      (range : Range) (key : ProofKey)
      → counted range key (group_consistency_proofs proofs).0 ≡ backers range key proofs
  unfolding group_consistency_proofs counted Dict.get
  counted-group_consistency_proofs range key =
      from_none _ _ (counted-group_from range key proofs [] 0)

  reliable-IsBacked :
      (grouped : Grouped)
      → All (λ entry. All (λ c. backers entry.0 c.0 proofs ≡ c.1) entry.1) grouped
      → All
          (λ entry.
            (key : ProofKey)
            → first_reliable (get_max_failures (total_nodes - 1)) entry.1 ≡ some key
            → IsBacked (entry.0, key))
          grouped
  reliable-IsBacked [] h = tt
  reliable-IsBacked ((range, group) ∷ grouped) h = (
    λ key found.
        let (n, enough, count) =
          first_reliable_sound _ (λ k n. backers range k proofs ≡ n) group h.0 found in
        rw count enough,
    reliable-IsBacked grouped h.1,
  )

  grouped-counts :
      (grouped : Grouped)
      → All
          (λ entry.
            All (λ c. counted entry.0 c.0 (group_consistency_proofs proofs).0 ≡ c.1) entry.1)
          grouped
      → All (λ entry. All (λ c. backers entry.0 c.0 proofs ≡ c.1) entry.1) grouped
  grouped-counts grouped h =
      All-map
        (λ entry each.
          All-map (λ c e. sym (counted-group_consistency_proofs entry.0 c.0) ∙ e) entry.1 each)
        grouped h

  -- A proof that is chosen starts at the size of the ledger, and more senders sent one with its range
  -- and contents than may fail among the other nodes.
  pub latest_reliable_proof-IsBacked :
      (size : ℕ) (entry : Range × ProofKey)
      → latest_reliable_proof total_nodes (group_consistency_proofs proofs).0 size ≡ some entry
      → (entry.0.0 ≡ size) × IsBacked entry
  unfolding latest_reliable_proof reliable_proofs group_consistency_proofs
  latest_reliable_proof-IsBacked size entry found =
      let grouped = (group_consistency_proofs proofs).0 in
      let counts =
        grouped-counts grouped (IsTidy-counted grouped (group_from-IsTidy proofs [] 0 (tt, tt))) in
      latest_from-IsGood size IsBacked (reliable_proofs total_nodes grouped) none
        (reliable_from-All _ IsBacked grouped [] (reliable-IsBacked grouped counts) tt)
        (λ e p. absurd (cc)) entry found

  -- If more senders than may fail sent the same proof that starts at the size of the ledger, then one
  -- is chosen, and it reaches at least as far.
  pub latest_reliable_proof-ReachesTo :
      (size end : ℕ) (key : ProofKey)
      → IsBacked ((size, end), key)
      → ReachesTo end (latest_reliable_proof total_nodes (group_consistency_proofs proofs).0 size)
  unfolding latest_reliable_proof reliable_proofs counted
  latest_reliable_proof-ReachesTo size end key backed =
      let grouped = (group_consistency_proofs proofs).0 in
      let f = get_max_failures (total_nodes - 1) in
      let (group, there, (n, found, enough)) =
        counted-there {A = Range} (size, end) key grouped
          (rw (counted-group_consistency_proofs (size, end) key) backed) in
      let (k, first) = first_reliable_complete f group key found enough in
      let (k', reliable) =
        reliable_from_complete {A = Range} f (size, end) grouped [] there first in
      latest_from-furthest size end _ none reliable

  -- If a catch-up can start with a proof, then that proof starts at the size of the ledger, more
  -- senders sent it than may fail among the other nodes, and more than twice as many sent anything.
  pub start_decision-IsBacked :
      (ledger_id size : ℕ) (p : ConsistencyProof)
      → start_decision total_nodes ledger_id size proofs ≡ (true, some p)
      → (p.seq_no_start ≡ size)
        × IsBacked (range_of p, key_of p)
        × (2 * get_max_failures (total_nodes - 1) < length proofs)
  unfolding start_decision proof_of
  start_decision-IsBacked ledger_id size p e =
      let f = get_max_failures (total_nodes - 1) in
      let (grouped, nulls) = group_consistency_proofs proofs in
      elim (Bool-cases (ltb (2 * f) (length proofs))) [
        | inr few ↦
            absurd (let no : none ≡ some p = ap (λ r. r.1) (rw (few, start_decision) at e) in cc)
        | inl enough ↦ elim (Bool-cases (ltb f nulls)) [
          | inl good ↦ absurd (
              let no : none ≡ some p = ap (λ r. r.1) (rw (enough, good, start_decision) at e) in cc)
          | inr behind ↦ elim (Option-cases (latest_reliable_proof total_nodes grouped size)) [
            | inl absent ↦ absurd (
                let no : none ≡ some p =
                  ap (λ r. r.1) (rw (enough, behind, absent, start_decision) at e) in
                cc)
            | inr (entry, found) ↦
                let q : some (proof_of ledger_id entry) ≡ some p =
                  ap (λ r. r.1) (rw (enough, behind, found, start_decision) at e) in
                let same : proof_of ledger_id entry ≡ p = cc in
                let (start, backed) = latest_reliable_proof-IsBacked size entry found in
                subst
                  (λ x.
                    (x.seq_no_start ≡ size)
                    × IsBacked (range_of x, key_of x)
                    × (2 * f < length proofs))
                  same (start, backed, ground arith)
          ]
        ]
      ]
