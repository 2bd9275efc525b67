-- ===== src/Catchup/Latest.antt =====
-- The loop of `_latestReliableProof`: what it keeps starts at the size of the ledger, and reaches
-- as far as any of the proofs that do.
use plenum.Common.{
  ℕ, ◌≤◌, ◌≡◌, true, ◌&&◌, [], ◌∷◌, Option, none, some, ltb, ◌==◌, nat_eq, string_eq, pair_eq,
  list_eq, arith, All, inl, inr, Bool-cases, eq→path, eq_self,
}
use mathlib.Core.Path.{subst}
use plenum.Common.Dict
use plenum.Common.Dict.{Dict, keys, get_or}
use plenum.Catchup.Proofs.{Range, ProofKey, later, latest_from}

module _ (size : ℕ) (P : Range × ProofKey → Type 0) where
  -- Whatever is kept as the latest proof starts at the size of the ledger, and has the property.
  abbrev pub IsGood : Option (Range × ProofKey) → Type 0
  IsGood latest = (entry : Range × ProofKey) → latest ≡ some entry → (entry.0.0 ≡ size) × P entry

  chosen :
      (start end : ℕ) (key : ProofKey) {entry : Range × ProofKey}
      → (start == size) ≡ true
      → P ((start, end), key)
      → some ((start, end), key) ≡ some entry
      → (entry.0.0 ≡ size) × P entry
  chosen start end key {entry} same h p =
      let q : ((start, end), key) ≡ entry = cc in
      subst (λ o. (o.0.0 ≡ size) × P o) q (eq→path start size same, h)

  later-IsGood :
      (start end : ℕ) (key : ProofKey) (latest : Option (Range × ProofKey))
      → P ((start, end), key)
      → IsGood latest
      → IsGood (later size ((start, end), key) latest)
  unfolding later
  later-IsGood start end key none h l entry e = elim (Bool-cases (start == size)) [
    | inl same ↦ chosen start end key same h (rw same at e)
    | inr other ↦ absurd (let no : none ≡ some entry = rw other at e in cc)
  ]
  later-IsGood start end key (some ((s, m), k)) h l entry e = elim (Bool-cases (start == size)) [
    | inl same ↦ elim (Bool-cases (ltb m end)) [
      | inl further ↦ chosen start end key same h (rw (same, further) at e)
      | inr not_further ↦ l entry (rw (same, not_further) at e)
    ]
    | inr other ↦ l entry (rw other at e)
  ]

  pub latest_from-IsGood :
      (proofs : Dict Range ProofKey) (latest : Option (Range × ProofKey))
      → All P proofs
      → IsGood latest
      → IsGood (latest_from size proofs latest)
  unfolding latest_from
  latest_from-IsGood [] latest h l = l
  latest_from-IsGood (((start, end), key) ∷ proofs) latest h l =
      latest_from-IsGood proofs _ h.1 (later-IsGood start end key latest h.0 l)

-- The latest proof reaches at least to `n`.
abbrev pub ReachesTo : ℕ → Option (Range × ProofKey) → Type 0
ReachesTo n none = ⊥
ReachesTo n (some ((s, end), key)) = n ≤ end

module _ (size : ℕ) where
  later-ReachesTo :
      (n : ℕ) (proof : Range × ProofKey) (latest : Option (Range × ProofKey))
      → ReachesTo n latest
      → ReachesTo n (later size proof latest)
  unfolding later
  later-ReachesTo n proof none h = absurd h
  later-ReachesTo n ((start, end), key) (some ((s, m), k)) h = elim (Bool-cases (start == size)) [
    | inl same ↦ elim (Bool-cases (ltb m end)) [
      | inl further ↦ rw (same, further) (ground arith)
      | inr not_further ↦ rw (same, not_further) h
    ]
    | inr other ↦ rw other h
  ]

  latest_from-ReachesTo :
      (n : ℕ) (proofs : Dict Range ProofKey) (latest : Option (Range × ProofKey))
      → ReachesTo n latest
      → ReachesTo n (latest_from size proofs latest)
  unfolding latest_from
  latest_from-ReachesTo n [] latest h = h
  latest_from-ReachesTo n (proof ∷ proofs) latest h =
      latest_from-ReachesTo n proofs _ (later-ReachesTo n proof latest h)

  later-here :
      (end : ℕ) (key : ProofKey) (latest : Option (Range × ProofKey))
      → ReachesTo end (later size ((size, end), key) latest)
  unfolding later
  later-here end key none = rw (eq_self size) (omega arith)
  later-here end key (some ((s, m), k)) = elim (Bool-cases (ltb m end)) [
    | inl further ↦ rw (eq_self size, further) (omega arith)
    | inr not_further ↦ rw (eq_self size, not_further) (ground arith)
  ]

  later-same :
      (end s m : ℕ) (key : ProofKey) (latest : Option (Range × ProofKey))
      → s == size && m == end ≡ true
      → ReachesTo end (later size ((s, m), key) latest)
  later-same end s m key latest same =
      let p : s ≡ size = eq→path s size (ground arith) in
      let q : m ≡ end = eq→path m end (ground arith) in rw (p, q) (later-here end key latest)

  pub latest_from-furthest :
      (end : ℕ) (proofs : Dict Range ProofKey) (latest : Option (Range × ProofKey)) {key : ProofKey}
      → Dict.get (size, end) proofs ≡ some key
      → ReachesTo end (latest_from size proofs latest)
  unfolding latest_from Dict.get
  latest_from-furthest end [] latest h = absurd (ground arith)
  latest_from-furthest end (((s, m), k) ∷ proofs) latest h =
      elim (Bool-cases (s == size && m == end)) [
        | inl same ↦ latest_from-ReachesTo end proofs _ (later-same end s m k latest same)
        | inr other ↦ latest_from-furthest end proofs _ (rw other at h)
      ]
