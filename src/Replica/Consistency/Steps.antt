-- ===== src/Replica/Consistency/Steps.antt =====
-- The assignments that change the core of a replica keep it consistent.
use plenum.Common.{
  ℕ, ◌≤◌, ◌≡◌, refl, sym, true, false, not, String, List, [], ◌∷◌, Option, none, some,
  if◌then◌else◌, contains, add, All, Distinct, All-map, All-keep, All-append, add-Distinct,
  contains-add, Distinct-snoc, Bool-cases, Option-cases, inl, inr, ltb, ltb→lt, arith, nat_eq,
  string_eq, pair_eq,
}
use plenum.Common.Dict
use plenum.Common.Dict.{Dict, get_or}
use plenum.Messages.{ThreePhaseKey, PrePrepare, Ordered}
use plenum.Votes.{ThreePhaseVotes, three_phase, add_msg}
use plenum.Replica.{Replica, ordered_msg}
use plenum.Replica.Status.{set_low, add_to_ordered, put_out, get_pre_prepare}
use plenum.Replica.Stash.{forget, del_all}
use plenum.Replica.Commits.{vote_commit}
use plenum.Replica.Prepares.{vote_prepare}
use plenum.Replica.Consistency.{
  OnCore, IsConsistent, IsKeyed, HasDistinctVoters, ordered_keys, ordered_keys-append,
}

add_msg-HasDistinctVoters :
    (key : ThreePhaseKey) (voter : String) (d : Dict ThreePhaseKey ThreePhaseVotes)
    → All HasDistinctVoters d
    → All HasDistinctVoters (add_msg three_phase key voter d)
unfolding add_msg
add_msg-HasDistinctVoters key voter d h =
    Dict.All-set HasDistinctVoters key _ d (add-Distinct voter _ (old (Dict.get key d) refl)) h
  where
    old :
        (o : Option ThreePhaseVotes)
        → Dict.get key d ≡ o
        → Distinct (get_or o (record { voters = [] })).voters
    old none e = tt
    old (some v) e = Dict.All-get HasDistinctVoters key d h e

ordered_bound-add :
    (key : ThreePhaseKey) (n m : ℕ) (ordered : List ThreePhaseKey)
    → n ≤ m
    → key.1 ≤ m
    → All (λ k. k.1 ≤ n) ordered
    → All (λ k. k.1 ≤ m) (add key ordered)
unfolding add
ordered_bound-add key n m ordered le new h =
    let old : All (λ k. k.1 ≤ m) ordered = All-map (λ k b. omega arith) ordered h in
    elim (Bool-cases (contains ordered key)) [
      | inl there ↦ rw there old
      | inr absent ↦ rw absent (All-append (λ k. k.1 ≤ m) ordered (key ∷ []) old (new, tt))
    ]

All-del_all :
    {V : Type 0} (P : ThreePhaseKey × V → Type 0) (ks : List ThreePhaseKey)
    (d : Dict ThreePhaseKey V)
    → All P d
    → All P (del_all ks d)
unfolding del_all
All-del_all P ks d h = All-keep P (λ entry. not (contains ks entry.0)) d h

module _ {W : Type 0} (s : Replica W) (h : OnCore IsConsistent s) where
  pub set_low-IsConsistent : (n : ℕ) → OnCore IsConsistent (set_low n s)
  unfolding set_low
  set_low-IsConsistent n = assumption (refl)

  pub vote_commit-IsConsistent :
      (key : ThreePhaseKey) (sender : String) → OnCore IsConsistent (vote_commit key sender s)
  unfolding vote_commit
  vote_commit-IsConsistent key sender =
      assumption (add_msg-HasDistinctVoters key sender s.commits h.commit_voters)

  pub vote_prepare-IsConsistent :
      (key : ThreePhaseKey) (sender : String) → OnCore IsConsistent (vote_prepare key sender s)
  unfolding vote_prepare
  vote_prepare-IsConsistent key sender =
      assumption (add_msg-HasDistinctVoters key sender s.prepares h.prepare_voters)

  pub add_to_ordered-IsConsistent :
      (key : ThreePhaseKey) → OnCore IsConsistent (add_to_ordered key s)
  unfolding add_to_ordered
  add_to_ordered-IsConsistent key = record {
    marks = h.marks;
    sent_keyed = h.sent_keyed;
    received_keyed = h.received_keyed;
    prepare_voters = h.prepare_voters;
    commit_voters = h.commit_voters;
    ordered_distinct = add-Distinct key s.ordered h.ordered_distinct;
    ordered_bound =
        ordered_bound-add key s.last_ordered_pp_seq_no _ s.ordered (ground arith) (ground arith)
          h.ordered_bound;
    announced_once = h.announced_once;
    announced_ordered =
        All-map (λ k c. ground (arith, contains-add key k s.ordered, c)) _ h.announced_ordered;
  }

  pub forget-IsConsistent : (ks : List ThreePhaseKey) → OnCore IsConsistent (forget ks s)
  unfolding forget
  forget-IsConsistent ks = assumption (
    All-del_all IsKeyed ks s.sent_pre_prepares h.sent_keyed,
    All-del_all IsKeyed ks s.pre_prepares h.received_keyed,
    All-del_all HasDistinctVoters ks s.prepares h.prepare_voters,
    All-del_all HasDistinctVoters ks s.commits h.commit_voters,
  )

  -- the PRE-PREPAREs of the primary and of the others, and the batches taken back
  pub store_sent-IsConsistent :
      (pp : PrePrepare)
      → OnCore IsConsistent (record s {
        sent_pre_prepares =
            Dict.sorted_set (λ k. k.1) (pp.view_no, pp.pp_seq_no) pp s.sent_pre_prepares;
      })
  store_sent-IsConsistent pp = assumption (
      Dict.All-sorted_set IsKeyed (λ k. k.1) (pp.view_no, pp.pp_seq_no) pp s.sent_pre_prepares refl
        h.sent_keyed)

  pub store_received-IsConsistent :
      (pp : PrePrepare)
      → OnCore IsConsistent (record s {
        pre_prepares = Dict.sorted_set (λ k. k.1) (pp.view_no, pp.pp_seq_no) pp s.pre_prepares;
      })
  store_received-IsConsistent pp = assumption (
      Dict.All-sorted_set IsKeyed (λ k. k.1) (pp.view_no, pp.pp_seq_no) pp s.pre_prepares refl
        h.received_keyed)

  pub drop_sent-IsConsistent :
      (key : ThreePhaseKey)
      → OnCore IsConsistent (record s {
        sent_pre_prepares = Dict.del key s.sent_pre_prepares;
        prepares = Dict.del key s.prepares;
      })
  drop_sent-IsConsistent key = assumption (
    Dict.All-del IsKeyed key s.sent_pre_prepares h.sent_keyed,
    Dict.All-del HasDistinctVoters key s.prepares h.prepare_voters,
  )

  pub raise_last_ordered-IsConsistent :
      (n : ℕ)
      → OnCore IsConsistent
          (if ltb s.last_ordered_pp_seq_no n then record s { last_ordered_pp_seq_no = n } else s)
  raise_last_ordered-IsConsistent n = elim (Bool-cases (ltb s.last_ordered_pp_seq_no n)) [
    | inl more ↦ rw more (record {
      marks = h.marks;
      sent_keyed = h.sent_keyed;
      received_keyed = h.received_keyed;
      prepare_voters = h.prepare_voters;
      commit_voters = h.commit_voters;
      ordered_distinct = h.ordered_distinct;
      ordered_bound = All-map (λ k b. omega (arith, ltb→lt _ _ more)) s.ordered h.ordered_bound;
      announced_once = h.announced_once;
      announced_ordered = h.announced_ordered;
    })
    | inr less ↦ rw less h
  ]

  -- a PRE-PREPARE that is found stands under its own key
  pub get_pre_prepare-IsKeyed :
      (key : ThreePhaseKey) {pp : PrePrepare} → get_pre_prepare key s ≡ some pp → IsKeyed (key, pp)
  unfolding get_pre_prepare
  get_pre_prepare-IsKeyed key {pp} e = elim (Option-cases (Dict.get key s.sent_pre_prepares)) [
    | inl absent ↦
        Dict.All-get IsKeyed key s.pre_prepares h.received_keyed (rw (absent, get_pre_prepare) at e)
    | inr (found, there) ↦
        Dict.All-get IsKeyed key s.sent_pre_prepares {v = pp} h.sent_keyed (ground arith)
  ]

  -- an Ordered message for a key that was ordered and not announced
  pub announce-IsConsistent :
      (o : Ordered)
      → contains s.ordered (o.view_no, o.pp_seq_no) ≡ true
      → contains (ordered_keys s.out_box) (o.view_no, o.pp_seq_no) ≡ false
      → OnCore IsConsistent (put_out (ordered_msg o) s)
  unfolding put_out ordered_keys
  announce-IsConsistent o there fresh =
      let key : ThreePhaseKey = (o.view_no, o.pp_seq_no) in
      let announced = ordered_keys s.out_box in
      let once = Distinct-snoc announced key h.announced_once fresh in
      let known =
        All-append (λ k. contains s.ordered k ≡ true) announced (key ∷ []) h.announced_ordered
          (there, tt) in
      let e = sym (ordered_keys-append s.out_box (ordered_msg o ∷ [])) in
      assumption (rw e at once, rw e at known)
