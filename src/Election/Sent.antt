-- ===== src/Election/Sent.antt =====
-- What `sendPrimary`, `sendReelection` and `schedulePrimaryDecision` send and record.
use plenum.Common.{
  ℕ, ◌+◌, ◌≡◌, refl, ◌⊎◌, true, false, String, List, [], ◌∷◌, ◌++◌, none, some, nat_eq, string_eq,
  pair_eq, eq_self, inl, inr, Bool-cases, Option-cases, get_elem?,
}
use plenum.Common.Dict
use plenum.Common.Dict.{Dict, values, is_some}
use plenum.Common.Program.{failed, returned, key_error, ◌>>=◌}
use plenum.Election.{Vote, declare, reelect, Elector, ElectionApi}
use plenum.Election.Sending.{
  replica_at, put_vote, add_proposal, has_voted, schedule_in, send_out, send_primary,
  send_reelection,
}
use plenum.Election.Deciding.{
  decision_delay, set_missing, is_unscheduled, has_timer_expired, schedule_primary_decision,
}
use plenum.Election.Agreement.{add_declaration_lem, add_declaration_fails}

has_voted-put :
    {A : Type 0} (inst_id : ℕ) (voter : String) (vote : A) (votes : Dict String A)
    (d : Dict ℕ (Dict String A))
    → has_voted inst_id voter (Dict.set inst_id (Dict.set voter vote votes) d) ≡ true
unfolding has_voted Dict.has_key
has_voted-put inst_id voter vote votes d =
    rw (has_voted, Dict.get-set inst_id inst_id (Dict.set voter vote votes) d, eq_self inst_id)
      (rw (Dict.get-set voter voter vote votes, eq_self voter) refl)

pub has_voted-set_missing :
    {A : Type 0} (inst_id : ℕ) (voter : String) (d : Dict ℕ (Dict String A))
    → has_voted inst_id voter (set_missing inst_id [] d) ≡ has_voted inst_id voter d
unfolding has_voted set_missing Dict.has_key Dict.get
has_voted-set_missing inst_id voter d = elim (Option-cases (Dict.get inst_id d)) [
  | inr (votes, there) ↦ rw (set_missing, there) refl
  | inl absent ↦
      rw (set_missing, absent)
        (rw (has_voted, Dict.get-set inst_id inst_id [] d, eq_self inst_id, absent) refl)
]

module _ {R W : Type 0} where
  add_proposal_lem :
      (inst_id : ℕ) (voter : String) (ties : List Vote) (e : Elector R W)
      (votes : Dict String (List Vote))
      → Dict.get inst_id e.re_election_proposals ≡ some votes
      → add_proposal inst_id voter ties e ≡ (
        returned tt,
        record e {
          re_election_proposals =
              Dict.set inst_id (Dict.set voter ties votes) e.re_election_proposals;
        },
      )
  unfolding add_proposal put_vote ◌>>=◌
  add_proposal_lem inst_id voter ties e votes h = rw (put_vote, h) refl

  add_proposal_fails :
      (inst_id : ℕ) (voter : String) (ties : List Vote) (e : Elector R W)
      → Dict.get inst_id e.re_election_proposals ≡ none
      → add_proposal inst_id voter ties e ≡ (failed key_error, e)
  unfolding add_proposal put_vote ◌>>=◌
  add_proposal_fails inst_id voter ties e h = rw (put_vote, h) refl

module _ {R W : Type 0} (api : ElectionApi R W) where
  pub schedule_primary_decision_silent :
      (inst_id : ℕ) (e : Elector R W)
      → (schedule_primary_decision api inst_id e).1.out_box ≡ e.out_box
  unfolding schedule_primary_decision ◌>>=◌ replica_at schedule_in
  schedule_primary_decision_silent inst_id e = elim (Option-cases (get_elem? e.replicas inst_id)) [
    | inl out ↦ rw out refl
    | inr (r, here) ↦ elim (Option-cases (Dict.get inst_id e.scheduled_primary_decisions)) [
      | inl absent ↦ rw (here, absent) refl
      | inr (d, there) ↦ elim (Bool-cases (is_unscheduled d)) [
        | inl free ↦ rw (here, there, free) refl
        | inr taken ↦
            elim (Option-cases
              (has_timer_expired (api.perf_counter e.world) (decision_delay api e) d)) [
                | inl broken ↦ rw (here, there, taken, broken) refl
                | inr (true, late) ↦ rw (here, there, taken, late) refl
                | inr (false, early) ↦ rw (here, there, taken, early) refl
              ]
      ]
    ]
  ]

  -- What `sendPrimary` did, where the replica is known.
  pub send_primary_cases :
      (inst_id : ℕ) (vote : Vote) (e : Elector R W) (r : R)
      → get_elem? e.replicas inst_id ≡ some r
      → let e' = (send_primary api inst_id vote.0 vote.1 e).1 in
        (e'.out_box ≡ e.out_box)
        ⊎ ((e'.out_box
              ≡ e.out_box
                ++ declare (record {
                  name = vote.0;
                  inst_id = inst_id;
                  view_no = e.view_no;
                  ord_seq_no = vote.1;
                })
                  ∷ [])
            × (has_voted inst_id (api.replica_name r) e'.primary_declarations ≡ true))
  unfolding send_primary ◌>>=◌ replica_at send_out
  send_primary_cases inst_id vote e r here =
      elim (Option-cases (Dict.get inst_id e.primary_declarations)) [
        | inl absent ↦
            rw (here, add_declaration_fails inst_id (api.replica_name r) vote e absent) (inl refl)
        | inr (votes, there) ↦
            rw (here, add_declaration_lem inst_id (api.replica_name r) vote e votes there)
              (inr (
                refl,
                has_voted-put inst_id (api.replica_name r) vote votes e.primary_declarations,
              ))
      ]

  -- What `sendReelection` did, where the replica is known.
  pub send_reelection_cases :
      (inst_id : ℕ) (votes : List Vote) (e : Elector R W) (r : R)
      → get_elem? e.replicas inst_id ≡ some r
      → let e' = (send_reelection api inst_id votes e).1 in
        (e'.out_box ≡ e.out_box)
        ⊎ ((round : ℕ) × (e'.out_box
              ≡ e.out_box
                ++ reelect (record {
                  inst_id = inst_id;
                  round = round + 1;
                  tie_among = votes;
                  view_no = e.view_no;
                })
                  ∷ [])
            × (has_voted inst_id (api.replica_name r) e'.re_election_proposals ≡ true))
  unfolding send_reelection ◌>>=◌ replica_at send_out
  send_reelection_cases inst_id votes e r here =
      elim (Option-cases (Dict.get inst_id e.re_election_rounds)) [
        | inl absent ↦ rw (here, absent) (inl refl)
        | inr (round, known) ↦
            let e₁ : Elector R W = record e {
              re_election_rounds = Dict.set inst_id (round + 1) e.re_election_rounds;
            } in
            let name = api.replica_name r in
            elim (Option-cases (Dict.get inst_id e.re_election_proposals)) [
              | inl absent ↦
                  rw (here, known, add_proposal_fails inst_id name votes e₁ absent) (inl refl)
              | inr (others, there) ↦
                  rw (here, known, add_proposal_lem inst_id name votes e₁ others there)
                    (inr (
                      round,
                      refl,
                      has_voted-put inst_id name votes others e.re_election_proposals,
                    ))
            ]
      ]
