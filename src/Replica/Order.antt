-- ===== src/Replica/Order.antt =====
-- Ordering: when a batch with a quorum of COMMITs is ordered, and what that does.
use plenum.Common.{
  length, ℕ, ◌+◌, Bool, true, false, not, ◌&&◌, ◌||◌, String, List, [], ◌∷◌, ◌++◌, none, some, ltb,
  if◌then◌else◌, ◌==◌, contains, discard, last?, take, nat_eq, string_eq, pair_eq, map, keep,
}
use plenum.Common.Dict
use plenum.Common.Dict.{Dict, get_or, keys, is_some}
use plenum.Messages.{ReqKey, ThreePhaseKey, PrePrepare, Commit, Ordered, ThreePhaseMsg}
use plenum.Votes.{has_enough_votes, three_phase, commit_quorum}
use plenum.Replica.{
  Replica, NodeApi, M, key_error, assertion_error, runtime_error, request_error, ordered_msg,
  order_sent, read, modify, pure, raise, need, ◌>>=◌, ◌>>◌, when, for_each, maybe,
}
use plenum.Replica.Status.{get_pre_prepare, has_ordered, add_to_ordered, send}
use plenum.Replica.Batch.{finalised_request}
use plenum.Replica.Checkpoints.{add_to_checkpoint}

-- Every item passes a test.
unfoldable pub all_pass {ℓ} : {A : Type ℓ} → (A → Bool) → List A → Bool
all_pass test [] = true
all_pass test (x ∷ xs) = test x && all_pass test xs

-- Some batch of the view, or of an earlier one, that comes before `(view_no, pp_seq_no)`.
unfoldable pub comes_before : ThreePhaseKey → ThreePhaseKey → Bool
comes_before (v, p) (view_no, pp_seq_no) = ltb v view_no || v == view_no && ltb p pp_seq_no

-- the smallest of the numbers, `min`
unfoldable pub least : ℕ → List ℕ → ℕ
least n [] = n
least n (m ∷ ms) = least (if ltb m n then m else n) ms

module _ {W : Type 0} where
  -- the keys that `all_prev_ordered` checks
  unfoldable pub tracked_keys : Replica W → List ThreePhaseKey
  tracked_keys s =
      keys s.sent_pre_prepares ++ keys s.pre_prepares ++ keys s.prepares ++ keys s.commits

  -- the last ordered batch is the one before, in the same view
  unfoldable pub follows_last_ordered : ThreePhaseKey → Replica W → Bool
  follows_last_ordered (view_no, pp_seq_no) s = elim (last? s.ordered) [
    | none ↦ false
    | some (v, p) ↦ v == view_no && p + 1 == pp_seq_no
  ]

  unfoldable pub all_prev_ordered : ThreePhaseKey → Replica W → Bool
  unfolding follows_last_ordered tracked_keys comes_before all_pass
  all_prev_ordered key s =
      follows_last_ordered key s
      || all_pass (λ k. not (comes_before k key) || contains s.ordered k) (tracked_keys s)

  unfoldable pub has_commit_quorum : ThreePhaseKey → Replica W → Bool
  has_commit_quorum key s = has_enough_votes three_phase key (commit_quorum s.f) s.commits

  -- the stash of `canOrder`, and the start of the repeating action that empties it
  unfoldable pub stash_out_of_order : Commit → Replica W → Replica W
  stash_out_of_order commit s = record s {
    stashed_out_of_order_commits =
        Dict.set commit.view_no
          (Dict.set commit.pp_seq_no commit
            (get_or (Dict.get commit.view_no s.stashed_out_of_order_commits) []))
          s.stashed_out_of_order_commits;
    is_repeating = true;
  }

  -- `canOrder`
  unfoldable pub can_order : Commit → M W Bool
  unfolding has_commit_quorum all_prev_ordered stash_out_of_order
  can_order commit = do
    s ← read
    let key : ThreePhaseKey = (commit.view_no, commit.pp_seq_no)
    if not (has_commit_quorum key s) || has_ordered key s
        then pure false
        else if all_prev_ordered key s
        then pure true
        else (do modify (stash_out_of_order commit); pure false)

  unfoldable pub is_lowest_commit_in_view : Commit → Replica W → Bool
  unfolding least
  is_lowest_commit_in_view commit s =
      let pp_seq_nos = map (λ k. k.1) (keep (λ k. k.0 == commit.view_no) (keys s.commits)) in
      let lowest = elim pp_seq_nos as (λ l. Bool) [
        | [] ↦ true
        | p ∷ ps ↦ least p ps == commit.pp_seq_no
      ] in
      if ltb s.view_no commit.view_no
      then false
      else if not (commit.view_no == s.view_no) && not (Dict.has_key commit.view_no s.view_ends_at)
      then false
      else lowest

  unfoldable pub discard_requests : PrePrepare → M W Unit
  discard_requests pp = for_each pp.req_idr (λ k. do
    s ← read
    queue ← need key_error (Dict.get pp.ledger_id s.request_queues)
    modify (λ s'. record s' {
      request_queues = Dict.set pp.ledger_id (discard k queue) s'.request_queues;
    }))

  -- the removal of ordered commits of one view
  unfoldable pub drop_commits : ℕ → List ℕ → Replica W → Replica W
  drop_commits v done s = record s {
    stashed_out_of_order_commits =
        Dict.set v
          (keep (λ entry. not (contains done entry.0))
            (get_or (Dict.get v s.stashed_out_of_order_commits) []))
          s.stashed_out_of_order_commits;
  }

  -- `stopRepeating`, which is strict
  unfoldable pub stop_repeating : M W Unit
  stop_repeating = do
    s ← read
    if s.is_repeating then modify (λ s'. record s' { is_repeating = false }) else raise key_error

unfoldable pub ordered_for : PrePrepare → ℕ → Ordered
ordered_for pp inst_id = record {
  inst_id = inst_id;
  view_no = pp.view_no;
  req_idr = take pp.discarded pp.req_idr;
  pp_seq_no = pp.pp_seq_no;
  pp_time = pp.pp_time;
  ledger_id = pp.ledger_id;
  state_root_hash = pp.state_root_hash;
  txn_root_hash = pp.txn_root_hash;
}

module _ {W : Type 0} (node : NodeApi W) where
  -- `node.applyReq`, whose exception nobody catches here
  unfoldable pub apply_finalised : ReqKey → M W Unit
  unfolding finalised_request
  apply_finalised key = do
    req ← finalised_request node key
    s ← read
    let (world, failure) = node.apply_req req s.world
    modify (λ s'. record s' { world = world })
    maybe (pure tt) (λ reason. raise (request_error reason)) failure

  -- the requests of a batch that outlived the catch-up are applied now
  unfoldable pub settle_catch_up : ThreePhaseKey → PrePrepare → M W Unit
  unfolding apply_finalised
  settle_catch_up key pp = do
    s ← read
    when (contains s.stashing_while_catching_up key) (do
      when (s.is_master && s.is_participating)
          (for_each (take pp.discarded pp.req_idr) apply_finalised)
      modify (λ s'. record s' {
        stashing_while_catching_up = discard key s'.stashing_while_catching_up;
      }))

module _ {W : Type 0} (node : NodeApi W) (again : ThreePhaseMsg → String → M W Unit) where
  -- `doOrder`
  unfoldable pub do_order : Commit → M W Unit
  unfolding settle_catch_up discard_requests ordered_for
  do_order commit = do
    s ← read
    let key : ThreePhaseKey = (commit.view_no, commit.pp_seq_no)
    pp ← need assertion_error (get_pre_prepare key s)
    modify (add_to_ordered key)
    settle_catch_up node key pp
    discard_requests pp
    send (ordered_msg (ordered_for pp s.inst_id)) order_sent
    add_to_checkpoint node again pp.pp_seq_no pp.digest

  -- `tryOrder`: the result is that of `canOrder`
  unfoldable pub try_order : Commit → M W Bool
  unfolding do_order
  try_order commit = do ready ← can_order commit; when ready (do_order commit); pure ready

  -- one stashed commit of `process_stashed_out_of_order_commits`: the last ordered key so far, and
  -- the sequence numbers to remove
  unfoldable pub order_stashed :
      ℕ → ℕ × Commit → ThreePhaseKey × List ℕ → M W (ThreePhaseKey × List ℕ)
  unfolding try_order
  order_stashed v (p, commit) (last, done) = do
    s ← read
    let due = v == last.0 && last.1 + 1 == p || ltb last.0 v && is_lowest_commit_in_view commit s
    if contains s.ordered (v, p)
        then pure (last, done ++ p ∷ [])
        else if due
        then (do
          ready ← try_order commit
          pure (if ready then ((v, p), done ++ p ∷ []) else (last, done)))
        else pure (last, done)

  -- The loop over the stashed commits of a view. A dictionary that is iterated over must keep its
  -- size, which each round and the end of the loop look at.
  unfoldable pub order_stashed_all :
      ℕ → ℕ → Dict ℕ Commit → ThreePhaseKey × List ℕ → M W (ThreePhaseKey × List ℕ)
  unfolding order_stashed
  order_stashed_all v size [] progress = do
    s ← read
    if length (get_or (Dict.get v s.stashed_out_of_order_commits) []) == size
        then pure progress
        else raise runtime_error
  order_stashed_all v size (entry ∷ entries) progress = do
    s ← read
    when (not (length (get_or (Dict.get v s.stashed_out_of_order_commits) []) == size))
        (raise runtime_error)
    progress' ← order_stashed v entry progress
    order_stashed_all v size entries progress'

  -- the loop over the views, whose number must not change either; the result is the views to remove
  unfoldable pub order_views : ℕ → List (ℕ × Dict ℕ Commit) → ThreePhaseKey → List ℕ → M W (List ℕ)
  unfolding order_stashed_all drop_commits
  order_views size [] last empty = do
    s ← read
    if length s.stashed_out_of_order_commits == size then pure empty else raise runtime_error
  order_views size ((v, _) ∷ views) last empty = do
    s ← read
    when (not (length s.stashed_out_of_order_commits == size)) (raise runtime_error)
    let entries = get_or (Dict.get v s.stashed_out_of_order_commits) []
    when (ltb v last.0 && is_some (last? entries)) (raise runtime_error)
    (last', done) ← order_stashed_all v (length entries) entries (last, [])
    modify (drop_commits v done)
    s' ← read
    let left = get_or (Dict.get v s'.stashed_out_of_order_commits) []
    order_views size views last' (if is_some (last? left) then empty else empty ++ v ∷ [])

  unfoldable pub process_stashed_out_of_order_commits : M W Unit
  unfolding order_views stop_repeating
  process_stashed_out_of_order_commits = do
    start ← read
    maybe (pure tt)
        (λ last. do
          let views = start.stashed_out_of_order_commits
          empty ← order_views (length views) views last []
          modify (λ s. record s {
            stashed_out_of_order_commits =
                keep (λ entry. not (contains empty entry.0)) s.stashed_out_of_order_commits;
          })
          s ← read
          when (not (is_some (last? s.stashed_out_of_order_commits))) stop_repeating)
        (last? start.ordered)
