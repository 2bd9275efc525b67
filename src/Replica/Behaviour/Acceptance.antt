-- ===== src/Replica/Behaviour/Acceptance.antt =====
-- Which PREPAREs and PRE-PREPAREs a replica accepts.
use plenum.Common.{
  ℕ, ◌≡◌, refl, Bool, true, false, String, Option, none, some, Bool-cases, Option-cases, inl, inr,
  eq→path, nat_eq, pair_eq, string_eq, option_eq, arith, if◌then◌else◌, ◌==◌,
}
use plenum.Common.Dict
use plenum.Common.Dict.{Dict}
use plenum.Messages.{PrePrepare, Prepare, prepare}
use plenum.Votes.{has_vote, three_phase}
use plenum.Replica.{
  Replica, Result, ok, raised, key_error, suspicious_node, pr_frm_primary, continue, raise, ◌>>=◌,
}
use plenum.Replica.Status.{
  get_pre_prepare, is_primary_for_msg, is_primary_in_view, is_primary, is_msg_from_primary,
}
use plenum.Replica.Commits.{prepare_key}
use plenum.Replica.Prepares.{match_prepare, judge_prepare, validate_prepare}

-- The PREPARE repeats the PRE-PREPARE.
pub record Agrees (msg : Prepare) (pp : PrePrepare) : Type 0 where
  pub digest : msg.digest ≡ pp.digest
  pub state_root_hash : msg.state_root_hash ≡ pp.state_root_hash
  pub txn_root_hash : msg.txn_root_hash ≡ pp.txn_root_hash

module _ {W : Type 0} (msg : Prepare) (sender : String) (s : Replica W) where
  match_prepare-accepts :
      (pp : PrePrepare)
      → (match_prepare msg sender pp s).0 ≡ ok true
      → Agrees msg pp × ((match_prepare msg sender pp s).1 ≡ s)
  unfolding match_prepare ◌>>=◌
  match_prepare-accepts pp e = elim (Bool-cases (msg.digest == pp.digest)) [
    | inr d ↦ absurd (ground arith)
    | inl d ↦ elim (Bool-cases (msg.state_root_hash == pp.state_root_hash)) [
      | inr r ↦ absurd (ground arith)
      | inl r ↦ elim (Bool-cases (msg.txn_root_hash == pp.txn_root_hash)) [
        | inr t ↦ absurd (ground arith)
        | inl t ↦ (
          record {
            digest = eq→path _ _ d;
            state_root_hash = eq→path _ _ r;
            txn_root_hash = eq→path _ _ t;
          },
          rw (d, r, t) refl,
        )
      ]
    ]
  ]

  judge_prepare-accepts :
      (twice : Bool) (status : Option Bool) (found : Option PrePrepare)
      → (judge_prepare msg sender twice status found s).0 ≡ ok true
      → (pp : PrePrepare) × (found ≡ some pp)
        × Agrees msg pp
        × ((judge_prepare msg sender twice status found s).1 ≡ s)
  unfolding judge_prepare ◌>>=◌
  judge_prepare-accepts twice none none e = absurd (ground arith)
  judge_prepare-accepts twice none (some pp) e =
      let (agrees, same) = match_prepare-accepts pp e in (pp, refl, agrees, same)
  judge_prepare-accepts true (some b) found e = absurd (ground arith)
  judge_prepare-accepts false (some true) none e = absurd (ground arith)
  judge_prepare-accepts false (some false) none e = absurd (ground arith)
  judge_prepare-accepts false (some b) (some pp) e =
      let (agrees, same) = match_prepare-accepts pp e in (pp, refl, agrees, same)

  is_primary_for_msg-reads :
      (view_no : ℕ) → (r : Result (Option Bool)) × (is_primary_for_msg view_no s ≡ (r, s))
  unfolding is_primary_for_msg is_primary_in_view ◌>>=◌
  is_primary_for_msg-reads view_no = elim (Bool-cases (view_no == s.view_no)) [
    | inl same ↦ (ok (is_primary s), rw same refl)
    | inr other ↦ elim (Option-cases (Dict.get view_no s.primary_names)) [
      | inl absent ↦ (raised key_error, rw (other, absent) refl)
      | inr (name, there) ↦ (ok (some (name == some s.name)), rw (other, there) refl)
    ]
  ]

  -- `validatePrepare` after the primary status is known
  judged : Result (Option Bool) → Result Bool × Replica W
  judged status =
      continue status
        (λ known.
          if is_msg_from_primary sender s
          then raise (suspicious_node sender pr_frm_primary (prepare msg))
          else judge_prepare msg sender (has_vote three_phase (prepare_key msg) sender s.prepares)
              known (get_pre_prepare (prepare_key msg) s))
        s

  judged-accepts :
      (status : Result (Option Bool))
      → (judged status).0 ≡ ok true
      → (is_msg_from_primary sender s ≡ false)
        × ((pp : PrePrepare) × (get_pre_prepare (prepare_key msg) s ≡ some pp)
            × Agrees msg pp
            × ((judged status).1 ≡ s))
  unfolding judged raise
  judged-accepts (raised x) e = absurd (ground arith)
  judged-accepts (ok known) e = elim (Bool-cases (is_msg_from_primary sender s)) [
    | inl p ↦ absurd (ground arith)
    | inr p ↦
        (p, rw p (judge_prepare-accepts _ known (get_pre_prepare (prepare_key msg) s) (rw p at e)))
  ]

  judged_lem :
      (status : Result (Option Bool))
      → is_primary_for_msg msg.view_no s ≡ (status, s)
      → validate_prepare msg sender s ≡ judged status
  unfolding validate_prepare judged ◌>>=◌
  judged_lem (ok known) e = rw e refl
  judged_lem (raised x) e = rw e refl

  -- `validatePrepare` accepts a PREPARE only if it does not come from the primary and repeats the
  -- digest and the root hashes of a PRE-PREPARE that the replica has under its key; and it then
  -- changes nothing.
  pub validate_prepare-accepts :
      (validate_prepare msg sender s).0 ≡ ok true
      → (is_msg_from_primary sender s ≡ false)
        × ((pp : PrePrepare) × (get_pre_prepare (prepare_key msg) s ≡ some pp)
            × Agrees msg pp
            × ((validate_prepare msg sender s).1 ≡ s))
  validate_prepare-accepts e =
      let (status, reads) = is_primary_for_msg-reads msg.view_no in
      rw (judged_lem status reads) (judged-accepts status (rw (judged_lem status reads) at e))
