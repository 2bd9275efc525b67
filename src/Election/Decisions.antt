-- ===== src/Election/Decisions.antt =====
-- What `decidePrimary` of plenum/server/primary_elector.py sends.
use plenum.Common.{
  ℕ, ◌+◌, ◌*◌, ◌≡◌, refl, Bool, true, false, String, List, [], ◌∷◌, ◌++◌, Option, some, arith,
  nat_eq, string_eq, pair_eq, inl, inr, Bool-cases, Option-cases, get_elem?,
}
use plenum.Common.Dict
use plenum.Common.Dict.{Dict, values, is_some}
use plenum.Common.Program.{◌>>=◌}
use plenum.Election.{Vote, declare, reelect, Decision, empty, Elector, ElectionApi}
use plenum.Election.Sending.{replica_at, has_voted, quorum}
use plenum.Election.Deciding.{
  Verdict, too_few, wait, breaks, choose, tie, timer_test, decision_delay, judge, set_missing,
  fill_missing, carry_out, decide_primary_now,
}
use plenum.Election.Sent.{
  has_voted-set_missing, schedule_primary_decision_silent, send_primary_cases,
  send_reelection_cases,
}
use plenum.Election.Verdicts.{IsWinner, IsTie, Justified, judge_nominations-Justified}

-- The name of the own replica, and whether its vote stands among the declarations or the proposals.
module _ {R W : Type 0} (api : ElectionApi R W) where
  abbrev pub expired_at : Elector R W → Decision → Option Bool
  expired_at e decision = timer_test (api.perf_counter e.world) (decision_delay api e) decision

  -- What `decidePrimary` sent: nothing, or one message, which the nominations justify, and whose vote
  -- was not there before and is there now.
  pub data IsDecided (inst_id : ℕ) (e e' : Elector R W) : Type 0 where
    silent : e'.out_box ≡ e.out_box → IsDecided inst_id e e'
    declared :
        (r : R) (nominations : Dict String Vote) (decision : Decision) (vote : Vote)
        → get_elem? e.replicas inst_id ≡ some r
        → has_voted inst_id (api.replica_name r) e.primary_declarations ≡ false
        → has_voted inst_id (api.replica_name r) e.re_election_proposals ≡ false
        → Dict.get inst_id e.nominations ≡ some nominations
        → Dict.get inst_id (set_missing inst_id empty e.scheduled_primary_decisions) ≡ some decision
        → IsWinner (2 * e.f + 1) e.node_count (expired_at e decision) nominations vote
        → e'.out_box
          ≡ e.out_box
            ++ declare (record {
              name = vote.0;
              inst_id = inst_id;
              view_no = e.view_no;
              ord_seq_no = vote.1;
            })
              ∷ []
        → has_voted inst_id (api.replica_name r) e'.primary_declarations ≡ true
        → IsDecided inst_id e e'
    proposed :
        (r : R) (nominations : Dict String Vote) (decision : Decision) (votes : List Vote)
        (round : ℕ)
        → get_elem? e.replicas inst_id ≡ some r
        → has_voted inst_id (api.replica_name r) e.primary_declarations ≡ false
        → has_voted inst_id (api.replica_name r) e.re_election_proposals ≡ false
        → Dict.get inst_id e.nominations ≡ some nominations
        → Dict.get inst_id (set_missing inst_id empty e.scheduled_primary_decisions) ≡ some decision
        → IsTie (2 * e.f + 1) e.node_count (expired_at e decision) nominations votes
        → e'.out_box
          ≡ e.out_box
            ++ reelect (record {
              inst_id = inst_id;
              round = round + 1;
              tie_among = votes;
              view_no = e.view_no;
            })
              ∷ []
        → has_voted inst_id (api.replica_name r) e'.re_election_proposals ≡ true
        → IsDecided inst_id e e'

module _ {R W : Type 0} (api : ElectionApi R W) where
  -- the decisions of an elector whose own vote is not there yet
  carry_out-IsDecided :
      (inst_id : ℕ) (e : Elector R W) (r : R) (nominations : Dict String Vote) (decision : Decision)
      (verdict : Verdict)
      → get_elem? e.replicas inst_id ≡ some r
      → has_voted inst_id (api.replica_name r) e.primary_declarations ≡ false
      → has_voted inst_id (api.replica_name r) e.re_election_proposals ≡ false
      → Dict.get inst_id e.nominations ≡ some nominations
      → Dict.get inst_id (set_missing inst_id empty e.scheduled_primary_decisions) ≡ some decision
      → Justified (2 * e.f + 1) e.node_count (expired_at api e decision) nominations verdict
      → IsDecided api inst_id e (carry_out api inst_id verdict (fill_missing api inst_id e)).1
  unfolding carry_out ◌>>=◌ fill_missing
  carry_out-IsDecided inst_id e r noms d too_few here p q there due j = silent refl
  carry_out-IsDecided inst_id e r noms d wait here p q there due j =
      silent (schedule_primary_decision_silent api inst_id (fill_missing api inst_id e))
  carry_out-IsDecided inst_id e r noms d breaks here p q there due j = silent refl
  carry_out-IsDecided inst_id e r noms d (choose vote) here p q there due j =
      elim (send_primary_cases api inst_id vote (fill_missing api inst_id e) r here) [
        | inl same ↦ silent same
        | inr (out, own) ↦ declared r noms d vote here p q there due j out own
      ]
  carry_out-IsDecided inst_id e r noms d (tie votes) here p q there due j =
      elim (send_reelection_cases api inst_id votes (fill_missing api inst_id e) r here) [
        | inl same ↦ silent same
        | inr (round, out, own) ↦ proposed r noms d votes round here p q there due j out own
      ]

  fill_missing_same :
      (inst_id : ℕ) (e : Elector R W)
      → let e₁ = fill_missing api inst_id e in
        (e₁.out_box ≡ e.out_box)
        × (e₁.primary_declarations ≡ set_missing inst_id [] e.primary_declarations)
        × (e₁.re_election_proposals ≡ set_missing inst_id [] e.re_election_proposals)
        × (e₁.nominations ≡ e.nominations)
        × (e₁.scheduled_primary_decisions ≡ set_missing inst_id empty e.scheduled_primary_decisions)
  unfolding fill_missing
  fill_missing_same inst_id e = (refl, refl, refl, refl, refl)

  quorum_same : (inst_id : ℕ) (e : Elector R W) → quorum (fill_missing api inst_id e) ≡ 2 * e.f + 1
  unfolding quorum fill_missing
  quorum_same inst_id e = refl

  -- Whatever the elector: decidePrimary sends nothing; or one declaration of a primary, or one
  -- reelection proposal, of its own replica's, which had sent neither and has its vote recorded now.
  -- Then a quorum of 2f + 1 replicas or more nominated. A primary that is declared has more nominations
  -- than any other, and all nodes nominated, or more than half of them for it, or the time is up. The
  -- candidates of a proposal have as many nominations as any, and all nodes nominated or the time is up.
  pub decide_primary_now-IsDecided :
      (inst_id : ℕ) (e : Elector R W) → IsDecided api inst_id e (decide_primary_now api inst_id e).1
  unfolding decide_primary_now ◌>>=◌ replica_at judge decision_delay
  decide_primary_now-IsDecided inst_id e = elim (Option-cases (get_elem? e.replicas inst_id)) [
    | inl out ↦ rw out (silent refl)
    | inr (r, here) ↦
        let e₁ = fill_missing api inst_id e in
        let name = api.replica_name r in
        let (same, ds, ps, ns, ts) = fill_missing_same inst_id e in
        elim (Bool-cases (has_voted inst_id name e₁.primary_declarations)) [
          | inl before ↦ rw (here, before) (silent same)
          | inr p ↦ elim (Bool-cases (has_voted inst_id name e₁.re_election_proposals)) [
            | inl before ↦ rw (here, p, before) (silent same)
            | inr q ↦ elim (Option-cases (Dict.get inst_id e₁.nominations)) [
              | inl absent ↦ rw (here, p, q, absent) (silent same)
              | inr (noms, there) ↦
                  elim (Option-cases (Dict.get inst_id e₁.scheduled_primary_decisions)) [
                    | inl absent ↦ rw (here, p, q, there, absent) (silent same)
                    | inr (d, due) ↦
                        rw (here, p, q, there, due)
                          (carry_out-IsDecided inst_id e r noms d _ here
                            (rw (ds, has_voted-set_missing inst_id name e.primary_declarations) at
                              p)
                            (rw (ps, has_voted-set_missing inst_id name e.re_election_proposals) at
                              q)
                            (rw ns at there) (rw ts at due)
                            (rw (quorum_same inst_id e) (
                              judge_nominations-Justified (2 * e.f + 1) e.node_count
                                (expired_at api e d) noms (omega arith))))
                  ]
            ]
          ]
        ]
  ]
