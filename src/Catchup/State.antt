-- ===== src/Catchup/State.antt =====
-- What the methods of a manager share: its ledgers by their number, sending, the comparison of a
-- status with a ledger, and the end of a catch-up.
use plenum.Common.{
  ℕ, Bool, true, false, not, ◌&&◌, String, [], ◌∷◌, ◌++◌, Option, none, some, ltb, if◌then◌else◌,
  ◌==◌, nat_eq, string_eq, contains,
}
use plenum.Common.Dict
use plenum.Common.Dict.{Dict, is_some, values}
use plenum.Common.Program.{
  Program, key_error, attribute_error, not_found_error, read, modify, pure, raise, need, ◌>>=◌,
  ◌>>◌, when,
}
use plenum.Ledger
use plenum.Catchup.{
  LedgerStatus, LedgerState, not_synced, syncing, synced, LedgerInfo, Message, Destination, to_node,
  to_client, LedgerManager, Api,
}

abbrev pub is_synced : LedgerState → Bool
is_synced synced = true
is_synced _ = false

abbrev pub is_syncing : LedgerState → Bool
is_syncing syncing = true
is_syncing _ = false

-- The stacks of the owner.
pub data Stack : Type 0 where
  client_stack node_stack : Stack

-- `a < b` where none stands for -1
abbrev pub below : Option ℕ → Option ℕ → Bool
below _ none = false
below none (some b) = true
below (some a) (some b) = ltb a b

unfoldable pub all_synced : {L T X : Type 0} → Dict ℕ (LedgerInfo L T X) → Bool
all_synced [] = true
all_synced ((_, info) ∷ registry) = is_synced info.state && all_synced registry

module _ {W L T X : Type 0} where
  -- `getLedgerInfoByType`
  unfoldable pub get_ledger_info_by_type : ℕ → Program (LedgerManager W L T X) (LedgerInfo L T X)
  get_ledger_info_by_type ledger_id = do
    m ← read
    need key_error (Dict.get ledger_id m.ledger_registry)

  -- assignments to the fields of a `LedgerInfo`
  unfoldable pub change_info :
      ℕ → (LedgerInfo L T X → LedgerInfo L T X) → LedgerManager W L T X → LedgerManager W L T X
  change_info ledger_id change m = elim (Dict.get ledger_id m.ledger_registry) [
    | none ↦ m
    | some info ↦ record m { ledger_registry = Dict.set ledger_id (change info) m.ledger_registry }
  ]

  unfoldable pub update_info :
      ℕ → (LedgerInfo L T X → LedgerInfo L T X) → Program (LedgerManager W L T X) Unit
  unfolding change_info
  update_info ledger_id change = modify (change_info ledger_id change)

  unfoldable pub set_ledger_state : ℕ → LedgerState → Program (LedgerManager W L T X) Unit
  unfolding update_info
  set_ledger_state ledger_id state = update_info ledger_id (λ info. record info { state = state })

  unfoldable pub set_ledger_can_sync : ℕ → Bool → Program (LedgerManager W L T X) Unit
  unfolding update_info
  set_ledger_can_sync ledger_id can_sync =
      update_info ledger_id (λ info. record info { can_sync = can_sync })

  -- `self.send`
  unfoldable pub send_msg : Message X → Destination → Program (LedgerManager W L T X) Unit
  send_msg msg to = modify (λ m. record m { sent = m.sent ++ (msg, to) ∷ [] })

  -- `getStack`
  unfoldable pub get_stack : String → LedgerManager W L T X → Option Stack
  get_stack name m =
      if m.owned_by_node && contains m.client_remotes name
      then some client_stack
      else if contains m.node_remotes name
      then some node_stack
      else none

  -- whether `getStack` gives the client stack, which a client's manager has not: there it is None
  unfoldable pub is_from_client : String → LedgerManager W L T X → Bool
  unfolding get_stack
  is_from_client name m = elim (get_stack name m) [
    | none ↦ not m.owned_by_node
    | some client_stack ↦ true
    | some node_stack ↦ false
  ]

  unfoldable pub send_to : Message X → String → Program (LedgerManager W L T X) Unit
  unfolding send_msg get_stack
  send_to msg to = do
    m ← read
    if m.owned_by_node
        then elim (get_stack to m) as (λ _. Program (LedgerManager W L T X) Unit) [
          | none ↦ pure tt
          | some client_stack ↦ send_msg msg (to_client to)
          | some node_stack ↦ send_msg msg (to_node to)
        ]
        else if contains m.node_remotes to
        then send_msg msg (to_node to)
        else raise not_found_error

  -- `getLedgerForMsg`, whose None has none of the attributes that every caller reads next
  unfoldable pub get_ledger_for_msg : ℕ → Program (LedgerManager W L T X) (Ledger.Ledger L T X)
  get_ledger_for_msg ledger_id = do
    m ← read
    info ← need attribute_error (Dict.get ledger_id m.ledger_registry)
    pure info.ledger

module _ {W L T X : Type 0} (api : Api W L T X) where
  unfoldable pub add_ledger :
      ℕ → Ledger.Ledger L T X → LedgerManager W L T X → LedgerManager W L T X
  add_ledger ledger_id ledger m = if Dict.has_key ledger_id m.ledger_registry then m else record m {
    ledger_registry =
        m.ledger_registry
        ++ (
          ledger_id,
          record {
            ledger = ledger;
            state = not_synced;
            can_sync = false;
            stashed_ledger_statuses = [];
            ledger_status_ok = [];
            recvd_consistency_proofs = [];
            catch_up_till = none;
            received_catch_up_replies = [];
            recvd_catchup_replies_frm = [];
            consistency_proofs_timer = false;
            catchup_reply_timer = false;
          },
        )
          ∷ [];
  }

  -- `_compareLedger`: the sequence number of the ledger, and that of the status
  unfoldable pub compare_ledger : LedgerStatus → Program (LedgerManager W L T X) (ℕ × ℕ)
  unfolding get_ledger_for_msg
  compare_ledger status = do
    ledger ← get_ledger_for_msg status.ledger_id
    pure (api.seq_no ledger.base, status.txn_seq_no)

  unfoldable pub is_ledger_old : LedgerStatus → Program (LedgerManager W L T X) Bool
  unfolding compare_ledger
  is_ledger_old status = do (own, other) ← compare_ledger status; pure (ltb own other)

  unfoldable pub is_ledger_new : LedgerStatus → Program (LedgerManager W L T X) Bool
  unfolding compare_ledger
  is_ledger_new status = do (own, other) ← compare_ledger status; pure (ltb other own)

  unfoldable pub is_ledger_same : LedgerStatus → Program (LedgerManager W L T X) Bool
  unfolding compare_ledger
  is_ledger_same status = do (own, other) ← compare_ledger status; pure (own == other)

  -- `catchupCompleted`; none is the default of -1
  unfoldable pub catchup_completed : ℕ → Option ℕ → Program (LedgerManager W L T X) Unit
  unfolding get_ledger_info_by_type update_info all_synced
  catchup_completed ledger_id last_pp_seq_no = do
    modify (λ m. record m {
      last_caught_up_pp_seq_no =
          if below m.last_caught_up_pp_seq_no last_pp_seq_no
          then last_pp_seq_no
          else m.last_caught_up_pp_seq_no;
    })
    info ← get_ledger_info_by_type ledger_id
    update_info ledger_id (λ i. record i {
      catchup_reply_timer = false;
      can_sync = false;
      state = synced;
      ledger_status_ok = [];
      recvd_consistency_proofs = [];
    })
    modify (api.post_catchup_complete ledger_id)
    m ← read
    when (all_synced m.ledger_registry) (modify api.post_all_ledgers_caught_up)
