-- ===== src/Election/Agreement.antt =====
-- The election of a primary by `processPrimary` of plenum/server/primary_elector.py.
use plenum.Common.{
  ℕ, ◌+◌, ◌*◌, ◌≤◌, ◌<◌, ◌≡◌, refl, false, String, List, [], ◌∷◌, none, some, length, le→leb, arith,
  ◌==◌, nat_eq, string_eq, pair_eq, eq→path, eq_self, inl, inr, Bool-cases, List-cases, get_elem?,
  set_elem,
}
use plenum.Common.Dict
use plenum.Common.Dict.{Dict, values, is_some}
use plenum.Common.Program.{returned, failed, key_error, ◌>>=◌}
use plenum.Quorum.{tally, most_common}
use plenum.Quorum.Majority.{occurrences, most_common-IsMode, tally_empty, occurrences-share}
use plenum.Replica.Status.{generate_name}
use plenum.Election.{Vote, Primary, Elector, ElectionApi}
use plenum.Election.Sending.{
  replica_at, on_replica, quorum, put_vote, add_declaration, has_voted, has_primary,
  was_primary_before,
}
use plenum.Election.Deciding.{most_common_element}
use plenum.Election.Nominating.{schedule_election}
use plenum.Election.Handlers.{
  set_defaults_unless, has_quorum, select_primary, count_declaration, process_primary,
}

-- More than `f` votes for a value, and no more than `f` others, make it the most common.
most_common_element-agrees :
    (f : ℕ) (v : Vote) (votes : List Vote)
    → f < occurrences v votes
    → length votes ≤ occurrences v votes + f
    → most_common_element votes ≡ some v
unfolding most_common_element
most_common_element-agrees f v votes many few = elim (List-cases (tally [] votes)) [
  | inl empty ↦ absurd (omega (arith, tally_empty votes v empty))
  | inr (first, counts, e) ↦
      let best = most_common first counts in
      let (count, most) = most_common-IsMode votes first counts e in
      elim (Bool-cases (v == best.0)) [
        | inl same ↦ rw (most_common_element, e, eq→path v best.0 same) refl
        | inr other ↦ absurd (omega (arith, count, most v, occurrences-share v best.0 votes other))
      ]
]

length-values : (d : Dict String Vote) → length (values d) ≡ length d
length-values [] = refl
length-values (x ∷ d) = omega (arith, length-values d)

pub has_voted_lem :
    (inst_id : ℕ) (voter : String) (d : Dict ℕ (Dict String Vote)) (votes : Dict String Vote)
    → Dict.get inst_id d ≡ some votes
    → has_voted inst_id voter d ≡ Dict.has_key voter votes
unfolding has_voted
has_voted_lem inst_id voter d votes h = rw (has_voted, h) refl

module _ {R W : Type 0} where
  pub add_declaration_lem :
      (inst_id : ℕ) (voter : String) (v : Vote) (e : Elector R W) (votes : Dict String Vote)
      → Dict.get inst_id e.primary_declarations ≡ some votes
      → add_declaration inst_id voter v e ≡ (
        returned tt,
        record e {
          primary_declarations = Dict.set inst_id (Dict.set voter v votes) e.primary_declarations;
        },
      )
  unfolding add_declaration put_vote ◌>>=◌
  add_declaration_lem inst_id voter v e votes h = rw (put_vote, h) refl

  pub add_declaration_fails :
      (inst_id : ℕ) (voter : String) (v : Vote) (e : Elector R W)
      → Dict.get inst_id e.primary_declarations ≡ none
      → add_declaration inst_id voter v e ≡ (failed key_error, e)
  unfolding add_declaration put_vote ◌>>=◌
  add_declaration_fails inst_id voter v e h = rw (put_vote, h) refl

module _ {R W : Type 0} (api : ElectionApi R W) where
  select_primary_lem :
      (inst_id : ℕ) (declarations : Dict String Vote) (v : Vote) (e : Elector R W) (r r' : R)
      → most_common_element (values declarations) ≡ some v
      → get_elem? e.replicas inst_id ≡ some r
      → api.primary_changed v.0 v.1 r ≡ (returned tt, r')
      → ((select_primary api inst_id declarations e).0 ≡ returned tt)
        × ((select_primary api inst_id declarations e).1.replicas ≡ set_elem e.replicas inst_id r')
  unfolding select_primary ◌>>=◌ on_replica schedule_election
  select_primary_lem inst_id declarations v e r r' most here changed =
      rw (most, here, changed)
        (elim (Bool-cases (inst_id == 0)) [
          | inl master ↦ rw master (refl, ground arith)
          | inr backup ↦ rw backup (refl, ground arith)
        ])

  -- a declaration that is recorded, with the votes that there are then
  count_declaration_lem :
      (inst_id : ℕ) (sender_rep : String) (vote v : Vote) (e : Elector R W)
      (votes : Dict String Vote) (r r' : R)
      → Dict.get inst_id e.primary_declarations ≡ some votes
      → get_elem? e.replicas inst_id ≡ some r
      → api.primary_name r ≡ none
      → 2 * e.f + 1 ≤ length (Dict.set sender_rep vote votes)
      → most_common_element (values (Dict.set sender_rep vote votes)) ≡ some v
      → api.primary_changed v.0 v.1 r ≡ (returned tt, r')
      → ((count_declaration api inst_id sender_rep vote e).0 ≡ returned tt)
        × ((count_declaration api inst_id sender_rep vote e).1.replicas
            ≡ set_elem e.replicas inst_id r')
  unfolding count_declaration ◌>>=◌ replica_at has_primary has_quorum quorum
  count_declaration_lem inst_id sender_rep vote v e votes r r' there here vacant enough most
        changed =
      rw
        (
          add_declaration_lem inst_id sender_rep vote e votes there,
          here,
          vacant,
          Dict.get-set inst_id inst_id (Dict.set sender_rep vote votes) e.primary_declarations,
          eq_self inst_id,
          le→leb (2 * e.f + 1) (length (Dict.set sender_rep vote votes)) enough,
        )
        (select_primary_lem inst_id (Dict.set sender_rep vote votes) v
          (record e {
            primary_declarations =
                Dict.set inst_id (Dict.set sender_rep vote votes) e.primary_declarations;
          })
          r r' most here changed)

  -- If a PRIMARY of a new sender makes 2f + 1 declarations or more, of which all but at most f are
  -- for one and the same candidate and sequence number, the replica has no primary yet, the message
  -- does not name the master's primary of the previous view, and primaryChanged of the replica returns
  -- for that candidate: then processPrimary returns, and the replica of its instance, and no other, is
  -- changed, by primaryChanged with that candidate.
  pub process_primary-elects :
      (prim : Primary) (sender : String) (v : Vote) (e : Elector R W) (votes : Dict String Vote)
      (r r' : R)
      → let sender_rep = generate_name sender prim.inst_id in
        let declared = Dict.set sender_rep (prim.name, prim.ord_seq_no) votes in
        was_primary_before api prim.inst_id prim.name e ≡ false
        → Dict.get prim.inst_id e.primary_declarations ≡ some votes
        → Dict.has_key sender_rep votes ≡ false
        → get_elem? e.replicas prim.inst_id ≡ some r
        → api.primary_name r ≡ none
        → 2 * e.f + 1 ≤ length declared
        → length declared ≤ occurrences v (values declared) + e.f
        → api.primary_changed v.0 v.1 r ≡ (returned tt, r')
        → ((process_primary api prim sender e).0 ≡ returned tt)
          × ((process_primary api prim sender e).1.replicas ≡ set_elem e.replicas prim.inst_id r')
  unfolding process_primary ◌>>=◌ replica_at set_defaults_unless Dict.has_key
  process_primary-elects prim sender v e votes r r' fresh there new here vacant enough few changed =
      let sender_rep = generate_name sender prim.inst_id in
      let declared = Dict.set sender_rep (prim.name, prim.ord_seq_no) votes in
      let size = length-values declared in
      let most =
        most_common_element-agrees e.f v (values declared) (omega (arith, size))
          (omega (arith, size)) in
      rw
        (
          here,
          fresh,
          there,
          has_voted_lem prim.inst_id sender_rep e.primary_declarations votes there,
          new,
        )
        (count_declaration_lem prim.inst_id sender_rep (prim.name, prim.ord_seq_no) v e votes r r'
          there here vacant enough most changed)
