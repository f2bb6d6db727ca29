-- ===== src/Indexer/Blocks.antt =====
-- Connected and disconnected blocks: `apply_block` and `rollback_height` of src/indexer.rs. A block
-- is the list of its transactions. Sequence numbers wrap, as in a release build.
pub mod Views
pub mod Journal
pub mod Undo
pub mod Room
pub mod Spend
pub mod Fund
pub mod Confirm
pub mod Run
pub mod Rollback
pub mod Reverted
use mathlib.Core.List.{reverse}
use nakamoto_electrs.Prelude.{
  ℕ, suc, ◌-◌, Bool, true, false, not, Option, none, some, List, [], ◌∷◌, ◌==◌, if◌then◌else◌,
  Result, ok,
}
use nakamoto_electrs.Prelude.Exec.{Exec, pure, asks, ◌>>=◌, ◌>>◌}
use nakamoto_electrs.Bytes.{Bytes}
use nakamoto_electrs.Bitcoin.{OutPoint, TxOut, Bitcoin}
use nakamoto_electrs.Sled.{Sled}
use nakamoto_electrs.HashMap.{HashMap, get, remove}
use nakamoto_electrs.HashMap.Keys.{nat_eq}
use nakamoto_electrs.Store.Types.{
  ScriptHash, Txid, StoredOutput, TxEntry, HistoryKind, JournalActionKind,
}
use nakamoto_electrs.Store.Index.{
  PersistentIndex, set_tip_height, store_tx, delete_tx, store_output, load_output, delete_output,
  delete_utxo, store_journal_action, delete_journal_key, store_history_entry, delete_history_key,
}
use nakamoto_electrs.Indexer.State.{
  IndexState, BlockAction, as_u32, next_u32, from_script, on_store, modify, push_history,
  push_action,
}
use nakamoto_electrs.Indexer.Payload.{outpoint_bytes}
use nakamoto_electrs.Indexer.Pending.{rebuild_pending_view}
use nakamoto_electrs.Indexer.Mempool.{forget_pending_transaction_internal}

module _ ⦃sl : Sled⦄ ⦃bc : Bitcoin⦄ where
  -- an input whose output is in the store; the next sequence number is returned
  unfoldable pub apply_spend : ℕ → Txid → ℕ → ℕ → OutPoint → Option StoredOutput → Exec IndexState ℕ
  apply_spend height txid input_index sequence prevout none = pure sequence
  apply_spend height txid input_index sequence prevout (some stored) = do
    let sh = stored.script_hash
    modify
        (push_history sh (record { txid = txid; height = height; sequence = as_u32 input_index }))
    history_key ←
        on_store (store_history_entry sh height txid (as_u32 input_index) HistoryKind.spend)
    journal_key ←
        on_store (store_journal_action height sequence JournalActionKind.history history_key)
    spend_key ← on_store (
        store_journal_action height (next_u32 sequence) JournalActionKind.spend
          (outpoint_bytes prevout))
    on_store (delete_utxo sh stored.txid stored.vout)
    modify (push_action height (BlockAction.history history_key journal_key))
    modify (push_action height (BlockAction.spend prevout spend_key))
    pure (next_u32 (next_u32 sequence))

  unfoldable pub apply_input : ℕ → Txid → ℕ → ℕ → OutPoint → Exec IndexState ℕ
  apply_input height txid input_index sequence prevout =
      if bc.is_null prevout then pure sequence else do
        found ← asks (λ s. load_output prevout s.store)
        apply_spend height txid input_index sequence prevout found

  -- the loop over the inputs, from the one numbered `input_index`
  unfoldable pub apply_inputs : ℕ → Txid → ℕ → ℕ → List OutPoint → Exec IndexState ℕ
  apply_inputs height txid input_index sequence [] = pure sequence
  apply_inputs height txid input_index sequence (prevout ∷ rest) = do
    next ← apply_input height txid input_index sequence prevout
    apply_inputs height txid (suc input_index) next rest

  unfoldable pub apply_output : ℕ → Txid → ℕ → ℕ → TxOut → Exec IndexState ℕ
  apply_output height txid output_index sequence output = do
    let sh = from_script output.script_pubkey
    modify
        (push_history sh (record { txid = txid; height = height; sequence = as_u32 output_index }))
    history_key ←
        on_store (store_history_entry sh height txid (as_u32 output_index) HistoryKind.fund)
    journal_key ←
        on_store (store_journal_action height sequence JournalActionKind.history history_key)
    let outpoint : OutPoint = record { txid = txid; vout = as_u32 output_index }
    on_store (store_output outpoint sh output.value height)
    output_key ← on_store (
        store_journal_action height (next_u32 sequence) JournalActionKind.output
          (outpoint_bytes outpoint))
    modify (push_action height (BlockAction.history history_key journal_key))
    modify (push_action height (BlockAction.output outpoint output_key))
    pure (next_u32 (next_u32 sequence))

  unfoldable pub apply_outputs : ℕ → Txid → ℕ → ℕ → List TxOut → Exec IndexState ℕ
  apply_outputs height txid output_index sequence [] = pure sequence
  apply_outputs height txid output_index sequence (output ∷ rest) = do
    next ← apply_output height txid output_index sequence output
    apply_outputs height txid (suc output_index) next rest

  -- the body of the loop over the transactions
  unfoldable pub apply_tx : ℕ → ℕ → bc.Transaction → Exec IndexState ℕ
  apply_tx height sequence tx = do
    let txid = bc.compute_txid tx
    modify (forget_pending_transaction_internal txid)
    on_store (store_tx tx)
    tx_key ← on_store (store_journal_action height sequence JournalActionKind.tx txid)
    modify (push_action height (BlockAction.tx txid tx_key))
    next ← apply_inputs height txid 0 (next_u32 sequence) (bc.prevouts tx)
    apply_outputs height txid 0 next (bc.outputs tx)

  unfoldable pub apply_txs : ℕ → ℕ → List bc.Transaction → Exec IndexState ℕ
  apply_txs height sequence [] = pure sequence
  apply_txs height sequence (tx ∷ rest) = do
    next ← apply_tx height sequence tx
    apply_txs height next rest

  unfoldable pub apply_block : List bc.Transaction → ℕ → Exec IndexState (Unit {0})
  apply_block txdata height = do
    apply_txs height 0 txdata
    modify (λ s. record s { tip_height = height })
    on_store (set_tip_height height)

module _ ⦃sl : Sled⦄ where
  -- `if let Some(stored_output) = … { self.store.delete_utxo(…)?; }`
  unfoldable pub drop_utxo : Option StoredOutput → Exec PersistentIndex (Unit {0})
  drop_utxo none = pure tt
  drop_utxo (some stored) = delete_utxo stored.script_hash stored.txid stored.vout

  unfoldable pub restore_output : OutPoint → Option StoredOutput → Exec PersistentIndex (Unit {0})
  restore_output outpoint none = pure tt
  restore_output outpoint (some stored) =
      store_output outpoint stored.script_hash stored.value stored.height

  -- one round of the loop of `rollback_height`
  unfoldable pub undo : BlockAction → Exec PersistentIndex (Unit {0})
  undo (BlockAction.tx txid journal_key) = do delete_journal_key journal_key; delete_tx txid
  undo (BlockAction.history history_key journal_key) = do
    delete_journal_key journal_key
    delete_history_key history_key
  undo (BlockAction.output outpoint journal_key) = do
    delete_journal_key journal_key
    stored ← asks (load_output outpoint)
    drop_utxo stored
    delete_output outpoint
  undo (BlockAction.spend outpoint journal_key) = do
    delete_journal_key journal_key
    stored ← asks (load_output outpoint)
    restore_output outpoint stored

  unfoldable pub undo_all : List BlockAction → Exec PersistentIndex (Unit {0})
  undo_all [] = pure tt
  undo_all (action ∷ rest) = do undo action; undo_all rest

-- `retain(|e| e.height != height)`
unfoldable pub without_height : ℕ → List TxEntry → List TxEntry
without_height height [] = []
without_height height (e ∷ es) =
    let rest = without_height height es in if e.height == height then rest else e ∷ rest

-- both `retain` calls on the history: entries of the height go, then lists that are empty
unfoldable pub prune : ℕ → HashMap ScriptHash (List TxEntry) → HashMap ScriptHash (List TxEntry)
unfolding without_height
prune height [] = []
prune height ((sh, entries) ∷ m) =
    let rest = prune height m in
    elim (without_height height entries) [ [] ↦ rest | e ∷ es ↦ (sh, e ∷ es) ∷ rest ]

module _ ⦃sl : Sled⦄ ⦃bc : Bitcoin⦄ where
  unfoldable pub rollback_entries : ℕ → Option (List BlockAction) → Exec IndexState (Unit {0})
  rollback_entries height none = pure tt
  rollback_entries height (some entries) = do
    modify (λ s. record s { by_height = remove height s.by_height })
    on_store (undo_all (reverse entries))
    modify (λ s. rebuild_pending_view (record s { history = prune height s.history }))

  -- `height.saturating_sub(1)`
  unfoldable pub lower_tip : ℕ → Exec IndexState (Unit {0})
  lower_tip height s =
      if s.tip_height == height
      then (do
        modify (λ t. record t { tip_height = height - 1 })
        on_store (set_tip_height (height - 1)))
          s
      else (ok tt, s)

  unfoldable pub rollback_height : ℕ → Exec IndexState (Unit {0})
  rollback_height height = do
    entries ← asks (λ s. ok (get height s.by_height))
    rollback_entries height entries
    lower_tip height
