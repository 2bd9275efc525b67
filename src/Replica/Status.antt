-- ===== src/Replica/Status.antt =====
-- What a replica knows of views and primaries, its water marks, its sequence numbers, and `send`.
use Prim.Native.String.{◌++◌ as join}
use plenum.Common.{
  ◌<◌, ◌≤◌, ◌≡◌, refl, Bool-cases, inl, inr, arith, ℕ, zero, suc, ◌+◌, ◌/◌, ◌%◌, Bool, false, not,
  ◌&&◌, ◌||◌, String, List, [], ◌∷◌, ◌++◌, Option, none, some, leb, ltb, if◌then◌else◌, ◌==◌,
  contains, add, last?, nat_eq, string_eq, pair_eq, option_eq,
}
use plenum.Common.Dict
use plenum.Common.Dict.{Dict, get_or, is_some}
use plenum.Messages.{ReqKey, ThreePhaseKey, PrePrepare}
use plenum.Propagator.{is_finalised}
use plenum.Replica.{
  Replica, NodeApi, M, Exn, key_error, assertion_error, OutMsg, TpcStat, stat_code, read, modify,
  pure, raise, need, ◌>>=◌,
}

digit : ℕ → String
digit zero = "0"
digit (suc zero) = "1"
digit (suc (suc zero)) = "2"
digit (suc (suc (suc zero))) = "3"
digit (suc (suc (suc (suc zero)))) = "4"
digit (suc (suc (suc (suc (suc zero))))) = "5"
digit (suc (suc (suc (suc (suc (suc zero)))))) = "6"
digit (suc (suc (suc (suc (suc (suc (suc zero))))))) = "7"
digit (suc (suc (suc (suc (suc (suc (suc (suc zero)))))))) = "8"
digit _ = "9"

-- `str(n)`, before the text that follows. The fuel `n + 1` is enough: each round divides by ten.
decimal : ℕ → ℕ → String → String
unfolding digit
decimal zero n rest = rest
decimal (suc fuel) n rest =
    let text = join (digit (n % 10)) rest in
    let longer = decimal fuel (n / 10) text in if ltb n 10 then text else longer

-- With fuel above the number, more fuel gives the same text: `decimal` does not run out.
decimal-enough :
    (fuel fuel' n : ℕ) (rest : String)
    → n < fuel
    → n < fuel'
    → decimal fuel n rest ≡ decimal fuel' n rest
unfolding decimal
decimal-enough zero fuel' n rest h h' = absurd (omega arith)
decimal-enough (suc fuel) zero n rest h h' = absurd (omega arith)
decimal-enough (suc fuel) (suc fuel') n rest h h' = elim (Bool-cases (ltb n 10)) [
  | inl small ↦ rw small refl
  | inr large ↦
      let m : 10 ≤ n = ground arith in
      rw large (
        decimal-enough fuel fuel' (n / 10) (join (digit (n % 10)) rest) (omega arith) (omega arith))
]

unfoldable pub generate_name : String → ℕ → String
unfolding decimal
generate_name node_name inst_id = join node_name (join ":" (decimal (suc inst_id) inst_id ""))

module _ {W : Type 0} where
  -- `h.setter`
  unfoldable pub set_low : ℕ → Replica W → Replica W
  set_low n s = record s { low = n; high = n + s.config.log_size }

  -- `lastPrePrepareSeqNo.setter`
  unfoldable pub set_last_pre_prepare_seq_no : ℕ → Replica W → Replica W
  set_last_pre_prepare_seq_no n s =
      if ltb s.last_pre_prepare_seq_no n then record s { last_pre_prepare_seq_no = n } else s

  unfoldable pub should_participate : ℕ → ℕ → Replica W → Bool
  should_participate view_no pp_seq_no s =
      s.is_participating && not (contains s.stashing_while_catching_up (view_no, pp_seq_no))

  -- `isPrimary`: `none` while the primary is not known.
  unfoldable pub is_primary : Replica W → Option Bool
  is_primary s = elim s.primary_name [ none ↦ none | some p ↦ some (p == s.name) ]

  -- `is_primary_in_view`
  unfoldable pub is_primary_in_view : ℕ → M W (Option Bool)
  is_primary_in_view view_no = do
    s ← read
    name ← need key_error (Dict.get view_no s.primary_names)
    pure (some (name == some s.name))

  unfoldable pub is_primary_for_msg : ℕ → M W (Option Bool)
  unfolding is_primary is_primary_in_view
  is_primary_for_msg view_no = do
    s ← read
    if view_no == s.view_no then pure (is_primary s) else is_primary_in_view view_no

  -- `isMsgFromPrimary`: the second of its two definitions, which replaces the first.
  unfoldable pub is_msg_from_primary : String → Replica W → Bool
  is_msg_from_primary sender s = s.primary_name == some sender

  unfoldable pub get_pre_prepare : ThreePhaseKey → Replica W → Option PrePrepare
  get_pre_prepare key s = elim (Dict.get key s.sent_pre_prepares) [
    | some pp ↦ some pp
    | none ↦ Dict.get key s.pre_prepares
  ]

  -- `lastPrePrepare`, from the last entries of the two sorted dictionaries.
  unfoldable pub last_pre_prepare : Replica W → Option PrePrepare
  last_pre_prepare s = elim (last? s.pre_prepares) [
    | none ↦ elim (last? s.sent_pre_prepares) [ none ↦ none | some (_, pp) ↦ some pp ]
    | some (key, pp) ↦ elim (last? s.sent_pre_prepares) [
      | none ↦ if ltb 0 key.1 then some pp else none
      | some (key', pp') ↦ if ltb key'.1 key.1 then some pp else some pp'
    ]
  ]

  unfoldable pub is_next_pre_prepare : ℕ → Replica W → Bool
  unfolding last_pre_prepare
  is_next_pre_prepare pp_seq_no s =
      let last = elim (last_pre_prepare s) as (λ o. ℕ) [
        | none ↦ s.last_ordered_pp_seq_no
        | some pp ↦
            if ltb s.last_ordered_pp_seq_no pp.pp_seq_no
            then pp.pp_seq_no
            else s.last_ordered_pp_seq_no
      ] in
      pp_seq_no == last + 1

  -- `isPpSeqNoStable`: the first checkpoint is stable and reaches the number.
  unfoldable pub is_pp_seq_no_stable : ℕ → Replica W → Bool
  is_pp_seq_no_stable pp_seq_no s = elim s.checkpoints [
    | [] ↦ false
    | (_, state) ∷ _ ↦ state.is_stable && leb pp_seq_no state.seq_no
  ]

  unfoldable pub is_pp_seq_no_between_water_marks : ℕ → Replica W → Bool
  is_pp_seq_no_between_water_marks pp_seq_no s = ltb s.low pp_seq_no && leb pp_seq_no s.high

  -- `can_pp_seq_no_be_in_view`, with its assertion
  unfoldable pub can_pp_seq_no_be_in_view : ℕ → ℕ → M W Bool
  can_pp_seq_no_be_in_view view_no pp_seq_no = do
    s ← read
    let ended = elim (Dict.get view_no s.view_ends_at) as (λ o. Bool) [
      | none ↦ false
      | some last ↦ leb pp_seq_no last
    ]
    let fits = view_no == s.view_no || ltb view_no s.view_no && ended
    if ltb s.view_no view_no then raise assertion_error else pure fits

  unfoldable pub has_ordered : ThreePhaseKey → Replica W → Bool
  has_ordered key s = contains s.ordered key

  unfoldable pub add_to_ordered : ThreePhaseKey → Replica W → Replica W
  add_to_ordered key s = record s {
    ordered = add key s.ordered;
    last_ordered_pp_seq_no =
        if ltb s.last_ordered_pp_seq_no key.1 then key.1 else s.last_ordered_pp_seq_no;
  }

  unfoldable pub caught_up_till_pp_seq_no : ℕ → Replica W → Replica W
  unfolding add_to_ordered
  caught_up_till_pp_seq_no last_caught_up s = add_to_ordered (s.view_no, last_caught_up) s

  -- `nonFinalisedReqs`: a set, so without repetition
  unfoldable pub non_finalised_reqs : List ReqKey → Replica W → List ReqKey
  non_finalised_reqs [] s = []
  non_finalised_reqs (key ∷ keys) s =
      let rest = non_finalised_reqs keys s in
      if is_finalised key s.requests || contains rest key then rest else key ∷ rest

  -- `stats.inc`
  unfoldable pub inc_stat : TpcStat → Replica W → Replica W
  inc_stat stat s =
      let code = stat_code stat in
      record s { stats = Dict.set code (get_or (Dict.get code s.stats) 0 + 1) s.stats }

  unfoldable pub put_out : OutMsg → Replica W → Replica W
  put_out msg s = record s { out_box = s.out_box ++ msg ∷ [] }

  -- `send` with a statistic, and without
  unfoldable pub send : OutMsg → TpcStat → M W Unit
  unfolding inc_stat put_out
  send msg stat = modify (λ s. put_out msg (inc_stat stat s))

  unfoldable pub send_plain : OutMsg → M W Unit
  unfolding put_out
  send_plain msg = modify (put_out msg)

  -- `node.reportSuspiciousNodeEx`
  unfoldable pub report_suspicious_node_ex : Exn → Replica W → Replica W
  report_suspicious_node_ex e s = record s { reported = s.reported ++ e ∷ [] }

  -- `txnRootHash` and `stateRootHash`: only the master instance has them.
  unfoldable pub txn_root_hash : NodeApi W → ℕ → Replica W → Option String
  txn_root_hash node ledger_id s =
      if s.is_master then some (node.root_hash ledger_id s.world) else none

  unfoldable pub state_root_hash : NodeApi W → ℕ → Replica W → Option String
  state_root_hash node ledger_id s =
      if s.is_master then some (node.head_hash ledger_id s.world) else none

  unfoldable pub track_batches : PrePrepare → Option String → Replica W → Replica W
  track_batches pp prev_state_root_hash s = record s {
    batches = Dict.set pp.pp_seq_no (pp.discarded, pp.pp_time, prev_state_root_hash) s.batches;
  }
