-- ===== src/Election/Safety.antt =====
-- The choices of `processPrimary` of plenum/server/primary_elector.py.
use plenum.Common.{
  ℕ, ◌+◌, ◌*◌, ◌≤◌, ◌≡◌, refl, ◌∙◌, ◌⊎◌, Bool, true, false, String, List, [], none, some, length,
  leb, leb→le, arith, ◌==◌, nat_eq, string_eq, pair_eq, eq_self, inl, inr, Bool-cases, List-cases,
  Option-cases, get_elem?, set_elem,
}
use plenum.Common.Dict
use plenum.Common.Dict.{Dict, values, is_some}
use plenum.Common.Program.{Failure, Outcome, returned, failed, ◌>>=◌}
use plenum.Quorum.{tally, most_common}
use plenum.Quorum.Majority.{occurrences, most_common-IsMode}
use plenum.Replica.Status.{generate_name}
use plenum.Election.{Vote, Primary, Elector, ElectionApi}
use plenum.Election.Sending.{
  replica_at, on_replica, quorum, has_voted, has_primary, count_duplicate, was_primary_before,
}
use plenum.Election.Agreement.{add_declaration_lem, add_declaration_fails}
use plenum.Election.Deciding.{most_common_element}
use plenum.Election.Nominating.{schedule_election}
use plenum.Election.Handlers.{
  set_defaults_unless, has_quorum, select_primary, count_declaration, process_primary,
}

most_common_element-IsMode :
    (votes : List Vote) (v : Vote)
    → most_common_element votes ≡ some v
    → (w : Vote) → occurrences w votes ≤ occurrences v votes
unfolding most_common_element
most_common_element-IsMode votes v h w = elim (List-cases (tally [] votes)) [
  | inl empty ↦ absurd (no_value (rw (most_common_element, empty) at h))
  | inr (first, counts, e) ↦
      let (count, most) = most_common-IsMode votes first counts e in
      let same = some_value _ v (rw (most_common_element, e) at h) in
      let bound : occurrences w votes ≤ occurrences (most_common first counts).0 votes =
        omega (arith, count, most w) in
      rw same at bound
]
  where
    no_value : none ≡ some v → ⊥
    no_value p = cc

    some_value : (a b : Vote) → some a ≡ some b → a ≡ b
    some_value a b p = cc

outcome_cases :
    {R : Type 0} (x : Outcome Unit × R)
    → ((r : R) × (x ≡ (returned tt, r))) ⊎ ((f : Failure) × (r : R) × (x ≡ (failed f, r)))
outcome_cases (returned tt, r) = inl (r, refl)
outcome_cases (failed f, r) = inr (f, r, refl)

-- What a handler of PRIMARY messages did to the replicas: nothing, or the replica of the instance,
-- which had no primary, was given one that no other has more declarations than, out of a quorum.
pub data IsElected {R W : Type 0} (api : ElectionApi R W) (inst_id : ℕ) (e e' : Elector R W)
    : Type 0 where
  kept : e'.replicas ≡ e.replicas → IsElected api inst_id e e'
  elected :
      (declarations : Dict String Vote) (v : Vote) (r : R)
      → Dict.get inst_id e'.primary_declarations ≡ some declarations
      → 2 * e.f + 1 ≤ length declarations
      → ((w : Vote) → occurrences w (values declarations) ≤ occurrences v (values declarations))
      → get_elem? e.replicas inst_id ≡ some r
      → api.primary_name r ≡ none
      → e'.replicas ≡ set_elem e.replicas inst_id (api.primary_changed v.0 v.1 r).1
      → IsElected api inst_id e e'

set_defaults_unless_same :
    {R W : Type 0} (present : Bool) (inst_id : ℕ) (e : Elector R W)
    → ((set_defaults_unless present inst_id e).replicas ≡ e.replicas)
      × ((set_defaults_unless present inst_id e).f ≡ e.f)
unfolding set_defaults_unless
set_defaults_unless_same true inst_id e = (refl, refl)
set_defaults_unless_same false inst_id e = (refl, refl)

module _ {R W : Type 0} (api : ElectionApi R W) where
  select_primary_cases :
      (inst_id : ℕ) (declarations : Dict String Vote) (e : Elector R W) (r : R)
      → get_elem? e.replicas inst_id ≡ some r
      → let e' = (select_primary api inst_id declarations e).1 in
        (e'.primary_declarations ≡ e.primary_declarations)
        × ((e'.replicas ≡ e.replicas)
            ⊎ ((v : Vote) × (most_common_element (values declarations) ≡ some v)
                × (e'.replicas ≡ set_elem e.replicas inst_id (api.primary_changed v.0 v.1 r).1)))
  unfolding select_primary ◌>>=◌ on_replica schedule_election
  select_primary_cases inst_id declarations e r here =
      elim (Option-cases (most_common_element (values declarations))) [
        | inl nothing ↦ rw nothing (refl, inl refl)
        | inr (v, most) ↦ elim (outcome_cases (api.primary_changed v.0 v.1 r)) [
          | inr (f, r', fails) ↦ rw (most, here, fails) (refl, inr (v, refl, rw fails refl))
          | inl (r', changed) ↦ elim (Bool-cases (inst_id == 0)) [
            | inl master ↦
                rw (most, here, changed) (rw master (ground arith, inr (v, refl, ground arith)))
            | inr backup ↦
                rw (most, here, changed) (rw backup (ground arith, inr (v, refl, ground arith)))
          ]
        ]
      ]

  -- The declarations and the failures are read off a state that only has other entries.
  rebase :
      (inst_id : ℕ) (e₀ e e' : Elector R W)
      → e₀.replicas ≡ e.replicas
      → e₀.f ≡ e.f
      → IsElected api inst_id e₀ e'
      → IsElected api inst_id e e'
  rebase inst_id e₀ e e' same f (kept k) = kept (k ∙ same)
  rebase inst_id e₀ e e' same f (elected ds v r there enough most here vacant after) =
      elected ds v r there (omega (arith, f, enough)) most (rw same at here) vacant
        (rw same at after)

  select_primary-IsElected :
      (inst_id : ℕ) (declarations : Dict String Vote) (e : Elector R W) (r : R)
      → Dict.get inst_id e.primary_declarations ≡ some declarations
      → 2 * e.f + 1 ≤ length declarations
      → get_elem? e.replicas inst_id ≡ some r
      → api.primary_name r ≡ none
      → IsElected api inst_id e (select_primary api inst_id declarations e).1
  select_primary-IsElected inst_id declarations e r there enough here vacant =
      let (same, cases) = select_primary_cases inst_id declarations e r here in
      elim cases [
        | inl k ↦ kept k
        | inr (v, most, after) ↦
            elected declarations v r (rw same there) enough
              (most_common_element-IsMode (values declarations) v most) here vacant after
      ]

  count_declaration-IsElected :
      (inst_id : ℕ) (sender_rep : String) (vote : Vote) (e : Elector R W)
      → IsElected api inst_id e (count_declaration api inst_id sender_rep vote e).1
  unfolding count_declaration ◌>>=◌ replica_at has_primary has_quorum quorum
  count_declaration-IsElected inst_id sender_rep vote e =
      elim (Option-cases (Dict.get inst_id e.primary_declarations)) [
        | inl absent ↦ rw (add_declaration_fails inst_id sender_rep vote e absent) (kept refl)
        | inr (votes, there) ↦
            let declared = Dict.set sender_rep vote votes in
            let e₁ : Elector R W = record e {
              primary_declarations = Dict.set inst_id declared e.primary_declarations;
            } in
            let found : Dict.get inst_id e₁.primary_declarations ≡ some declared =
              rw (Dict.get-set inst_id inst_id declared e.primary_declarations, eq_self inst_id)
                refl in
            elim (Option-cases (get_elem? e.replicas inst_id)) [
              | inl out ↦
                  rw (add_declaration_lem inst_id sender_rep vote e votes there, out) (kept refl)
              | inr (r, here) ↦ elim (Option-cases (api.primary_name r)) [
                | inr (name, taken) ↦
                    rw (add_declaration_lem inst_id sender_rep vote e votes there, here, taken)
                      (kept refl)
                | inl vacant ↦
                    rw
                      (
                        add_declaration_lem inst_id sender_rep vote e votes there,
                        here,
                        vacant,
                        found,
                      )
                      (elim (Bool-cases (leb (2 * e.f + 1) (length declared))) [
                        | inr few ↦ rw few (kept refl)
                        | inl enough ↦ rw enough (
                            rebase inst_id e₁ e _ refl refl (
                              select_primary-IsElected inst_id declared e₁ r found
                                (leb→le (2 * e.f + 1) (length declared) enough) here vacant))
                      ])
              ]
            ]
      ]

  -- Whatever the elector and the message: processPrimary either leaves all replicas as they are, or
  -- changes only the one of the message's instance, which had no primary, by primaryChanged with a
  -- candidate and sequence number that no others have more recorded declarations than, where 2f + 1
  -- declarations or more are recorded.
  pub process_primary-IsElected :
      (prim : Primary) (sender : String) (e : Elector R W)
      → IsElected api prim.inst_id e (process_primary api prim sender e).1
  unfolding process_primary ◌>>=◌ replica_at count_duplicate
  process_primary-IsElected prim sender e =
      let sender_rep = generate_name sender prim.inst_id in
      elim (Option-cases (get_elem? e.replicas prim.inst_id)) [
        | inl out ↦ rw out (kept refl)
        | inr (r, here) ↦ elim (Bool-cases (was_primary_before api prim.inst_id prim.name e)) [
          | inl before ↦ rw (here, before) (kept refl)
          | inr fresh ↦
              let e₀ =
                set_defaults_unless (Dict.has_key prim.inst_id e.primary_declarations) prim.inst_id
                  e in
              let (same, f) =
                set_defaults_unless_same (Dict.has_key prim.inst_id e.primary_declarations)
                  prim.inst_id e in
              elim (Bool-cases (has_voted prim.inst_id sender_rep e₀.primary_declarations)) [
                | inl again ↦ rw (here, fresh, again) (kept same)
                | inr first ↦
                    rw (here, fresh, first)
                      (rebase prim.inst_id e₀ e _ same f (
                        count_declaration-IsElected prim.inst_id sender_rep
                          (prim.name, prim.ord_seq_no) e₀))
              ]
        ]
      ]
