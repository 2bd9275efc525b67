-- ===== src/Replica/Behaviour/Voting.antt =====
-- What stands behind an order or an own COMMIT: `canOrder` and `canCommit` of
-- plenum/server/replica.py.
use plenum.Common.{
  ℕ, ◌+◌, ◌*◌, ◌≤◌, ◌<◌, ◌≡◌, refl, sym, ap, ◌∙◌, ◌⊎◌, Bool, true, false, not, ◌&&◌, ◌||◌, List, [],
  ◌∷◌, String, none, some, Distinct, contains, length, last?, leb→le, Bool-cases, Option-cases, inl,
  inr, nat_eq, pair_eq, string_eq, arith, All, eq→path, ◌==◌,
}
use plenum.Common.Dict
use plenum.Common.Dict.{Dict, keys}
use plenum.Messages.{ThreePhaseKey, Commit}
use plenum.Votes.{ThreePhaseVotes, has_enough_votes, three_phase}
use plenum.Replica.{Replica, ok, ◌>>=◌}
use plenum.Replica.Status.{has_ordered}
use plenum.Replica.Order.{
  can_order, has_commit_quorum, all_prev_ordered, follows_last_ordered, all_pass, comes_before,
  tracked_keys,
}
use plenum.Replica.Consistency.{core, IsConsistent, HasDistinctVoters}

-- At least `n` distinct voters voted for the key.
abbrev pub Voted : ThreePhaseKey → ℕ → Dict ThreePhaseKey ThreePhaseVotes → Type 0
Voted key n d =
    (v : ThreePhaseVotes) × (Dict.get key d ≡ some v) × Distinct v.voters × (n ≤ length v.voters)

enough-Voted :
    (key : ThreePhaseKey) (n : ℕ) (d : Dict ThreePhaseKey ThreePhaseVotes)
    → All HasDistinctVoters d
    → has_enough_votes three_phase key n d ≡ true
    → Voted key n d
unfolding has_enough_votes Dict.has_key
enough-Voted key n d h e = elim (Option-cases (Dict.get key d)) [
  | inl absent ↦ absurd (ground arith)
  | inr (v, found) ↦
      (v, found, Dict.All-get HasDistinctVoters key d h found, leb→le _ _ (ground arith))
]

and-paths : (a b : Bool) → a && b ≡ true → (a ≡ true) × (b ≡ true)
and-paths a b h = (ground arith, ground arith)

-- A voter is not counted for a key.
abbrev pub Unheard : ThreePhaseKey → String → Dict ThreePhaseKey ThreePhaseVotes → Type 0
Unheard key name d =
    (v : ThreePhaseVotes) → Dict.get key d ≡ some v → contains v.voters name ≡ false

-- One key comes before another: of an earlier view, or of the same and with a smaller number.
abbrev pub IsBefore : ThreePhaseKey → ThreePhaseKey → Type 0
IsBefore k key = (k.0 < key.0) ⊎ ((k.0 ≡ key.0) × (k.1 < key.1))

before-comes : (k key : ThreePhaseKey) → IsBefore k key → comes_before k key ≡ true
unfolding comes_before
before-comes k key (inl h) = ground arith
before-comes k key (inr (h, l)) = ground arith

all_pass-contains :
    (test : ThreePhaseKey → Bool) (ks : List ThreePhaseKey) (k : ThreePhaseKey)
    → all_pass test ks ≡ true
    → contains ks k ≡ true
    → test k ≡ true
unfolding all_pass
all_pass-contains test [] k all h = absurd (ground arith)
all_pass-contains test (x ∷ ks) k all h = elim (Bool-cases (x == k)) [
  | inl same ↦ rw (← eq→path x k same) (ground arith)
  | inr other ↦ all_pass-contains test ks k (ground arith) (ground arith)
]

module _ {W : Type 0} where
  -- What `canOrder` takes for all that comes before a key: the last ordered batch is the one before
  -- it in its view, or every key before it of which a message is there was ordered.
  abbrev pub IsNextInOrder : ThreePhaseKey → Replica W → Type 0
  IsNextInOrder key s =
      ((p : ℕ) × (last? s.ordered ≡ some (key.0, p)) × (key.1 ≡ p + 1))
      ⊎ ((k : ThreePhaseKey)
          → contains (tracked_keys s) k ≡ true
          → IsBefore k key
          → contains s.ordered k ≡ true)

  follows-last :
      (key : ThreePhaseKey) (s : Replica W)
      → follows_last_ordered key s ≡ true
      → (p : ℕ) × (last? s.ordered ≡ some (key.0, p)) × (key.1 ≡ p + 1)
  unfolding follows_last_ordered
  follows-last key s e = elim (Option-cases (last? s.ordered)) [
    | inl nothing ↦ absurd (ground arith)
    | inr ((v, p), found) ↦
        let (same, next) = and-paths (v == key.0) (p + 1 == key.1) (
          sym (
            ap
              (λ o. elim o as (λ _. Bool) [
                | none ↦ false
                | some (w, q) ↦ w == key.0 && q + 1 == key.1
              ])
              found)
          ∙ e) in
        (p, found ∙ ap (λ w. some (w, p)) (eq→path v key.0 same), sym (eq→path (p + 1) key.1 next))
  ]

  all_prev_ordered-IsNextInOrder :
      (key : ThreePhaseKey) (s : Replica W) → all_prev_ordered key s ≡ true → IsNextInOrder key s
  unfolding all_prev_ordered
  all_prev_ordered-IsNextInOrder key s e = elim (Bool-cases (follows_last_ordered key s)) [
    | inl follows ↦ inl (follows-last key s follows)
    | inr apart ↦
        let all : all_pass (λ k. not (comes_before k key) || contains s.ordered k) (tracked_keys s)
            ≡ true =
          ground arith in
        inr (λ k there before.
          let passed = all_pass-contains _ (tracked_keys s) k all there in
          let first = before-comes k key before in ground (arith, passed, first))
  ]

  -- In a consistent state `canOrder` says yes only of a key that was not ordered and for which 2f + 1
  -- distinct senders sent a COMMIT, and only if the last ordered batch is the one before it in its
  -- view, or every key before it of which the replica has a PRE-PREPARE, a PREPARE or a COMMIT was
  -- ordered; and it then changes nothing.
  pub can_order-Voted :
      (c : Commit) (s : Replica W)
      → IsConsistent (core s)
      → (can_order c s).0 ≡ ok true
      → Voted (c.view_no, c.pp_seq_no) (2 * s.f + 1) s.commits
        × (contains s.ordered (c.view_no, c.pp_seq_no) ≡ false)
        × IsNextInOrder (c.view_no, c.pp_seq_no) s
        × (can_order c s ≡ (ok true, s))
  unfolding can_order has_commit_quorum has_ordered ◌>>=◌
  can_order-Voted c s h e =
      let key : ThreePhaseKey = (c.view_no, c.pp_seq_no) in
      elim (Bool-cases (has_commit_quorum key s)) [
        | inr q ↦ absurd (ground arith)
        | inl q ↦ elim (Bool-cases (contains s.ordered key)) [
          | inl o ↦ absurd (ground arith)
          | inr o ↦ elim (Bool-cases (all_prev_ordered key s)) [
            | inl a ↦ (
              enough-Voted key _ s.commits h.commit_voters q,
              o,
              all_prev_ordered-IsNextInOrder key s a,
              rw (q, o, a) refl,
            )
            | inr a ↦ absurd (ground arith)
          ]
        ]
      ]
