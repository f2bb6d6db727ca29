-- ===== src/Indexer/Reachable/Writes.antt =====
-- The writes to the store that a block makes leave the transactions under their ids and the list of
-- pending txids.
use nakamoto_electrs.Prelude.{ℕ, Option, none, some, List, [], ◌∷◌}
use nakamoto_electrs.Prelude.Exec.{Exec}
use nakamoto_electrs.Prelude.Exec.Keeps.{Keeps, pure-Keeps, asks-Keeps, bind-Keeps, method_rules}
use nakamoto_electrs.Bytes.{Bytes}
use nakamoto_electrs.Bitcoin.{OutPoint, Bitcoin}
use nakamoto_electrs.Sled.{Sled, IsReliable}
use nakamoto_electrs.HashMap.Keys.{nat_eq}
use nakamoto_electrs.Store.Types.{ScriptHash, Txid, StoredOutput, HistoryKind, JournalActionKind}
use nakamoto_electrs.Store.Index.{
  store_output, delete_output, delete_utxo, store_journal_action, delete_journal_key,
  store_history_entry, delete_history_key, on_history, on_outputs, on_utxos, on_journal, load_tx,
  load_pending_txids,
}
use nakamoto_electrs.Indexer.State.{BlockAction}
use nakamoto_electrs.Indexer.Blocks.{drop_utxo, restore_output, undo, undo_all}
use nakamoto_electrs.Indexer.Reachable.Sound.{IsKept, delete_tx-Keeps}

module _ ⦃sl : Sled⦄ ⦃bc : Bitcoin⦄ {txids : List Txid} where
  -- the trees of the history, the outputs, the unspent outputs and the journal are not relied on
  on_history-Keeps : {A : Type 0} (m : Exec sl.Tree A) → Keeps (IsKept txids) (on_history m)
  unfolding load_tx load_pending_txids
  on_history-Keeps m = record { at = λ s h. record { loads = h.loads; named = h.named } }

  on_outputs-Keeps : {A : Type 0} (m : Exec sl.Tree A) → Keeps (IsKept txids) (on_outputs m)
  unfolding load_tx load_pending_txids
  on_outputs-Keeps m = record { at = λ s h. record { loads = h.loads; named = h.named } }

  on_utxos-Keeps : {A : Type 0} (m : Exec sl.Tree A) → Keeps (IsKept txids) (on_utxos m)
  unfolding load_tx load_pending_txids
  on_utxos-Keeps m = record { at = λ s h. record { loads = h.loads; named = h.named } }

  on_journal-Keeps : {A : Type 0} (m : Exec sl.Tree A) → Keeps (IsKept txids) (on_journal m)
  unfolding load_tx load_pending_txids
  on_journal-Keeps m = record { at = λ s h. record { loads = h.loads; named = h.named } }

ruleset kept_rules =
    (method_rules, on_history-Keeps, on_outputs-Keeps, on_utxos-Keeps, on_journal-Keeps)

module _ ⦃sl : Sled⦄ ⦃bc : Bitcoin⦄ {txids : List Txid} where
  pub store_output-Keeps :
      (o : OutPoint) (sh : ScriptHash) (value height : ℕ)
      → Keeps (IsKept txids) (store_output o sh value height)
  unfolding store_output
  store_output-Keeps o sh value height = search kept_rules

  pub store_history_entry-Keeps :
      (sh : ScriptHash) (height : ℕ) (txid : Txid) (sequence : ℕ) (kind : HistoryKind)
      → Keeps (IsKept txids) (store_history_entry sh height txid sequence kind)
  unfolding store_history_entry
  store_history_entry-Keeps sh height txid sequence kind = search kept_rules

  pub store_journal_action-Keeps :
      (height sequence : ℕ) (kind : JournalActionKind) (payload : Bytes)
      → Keeps (IsKept txids) (store_journal_action height sequence kind payload)
  unfolding store_journal_action
  store_journal_action-Keeps height sequence kind payload = search kept_rules

  pub delete_journal_key-Keeps : (key : Bytes) → Keeps (IsKept txids) (delete_journal_key key)
  unfolding delete_journal_key
  delete_journal_key-Keeps key = search kept_rules

  pub delete_utxo-Keeps :
      (sh : ScriptHash) (txid : Txid) (vout : ℕ) → Keeps (IsKept txids) (delete_utxo sh txid vout)
  unfolding delete_utxo
  delete_utxo-Keeps sh txid vout = search kept_rules

  pub drop_utxo-Keeps : (stored : Option StoredOutput) → Keeps (IsKept txids) (drop_utxo stored)
  unfolding drop_utxo
  drop_utxo-Keeps none = search kept_rules
  drop_utxo-Keeps (some o) = delete_utxo-Keeps o.script_hash o.txid o.vout

  pub restore_output-Keeps :
      (o : OutPoint) (stored : Option StoredOutput) → Keeps (IsKept txids) (restore_output o stored)
  unfolding restore_output
  restore_output-Keeps o none = search kept_rules
  restore_output-Keeps o (some v) = store_output-Keeps o v.script_hash v.value v.height

  pub delete_history_key-Keeps : (key : Bytes) → Keeps (IsKept txids) (delete_history_key key)
  unfolding delete_history_key
  delete_history_key-Keeps key = search kept_rules

  pub delete_output-Keeps : (o : OutPoint) → Keeps (IsKept txids) (delete_output o)
  unfolding delete_output
  delete_output-Keeps o = search kept_rules

pub ruleset store_rules = (
  method_rules, store_output-Keeps, store_history_entry-Keeps, store_journal_action-Keeps,
  delete_journal_key-Keeps, delete_utxo-Keeps, drop_utxo-Keeps, restore_output-Keeps,
  delete_history_key-Keeps, delete_output-Keeps,
)

module _ ⦃sl : Sled⦄ (r : IsReliable sl) ⦃bc : Bitcoin⦄ {txids : List Txid} where
  undo-Keeps : (a : BlockAction) → Keeps (IsKept txids) (undo a)
  unfolding undo
  undo-Keeps (BlockAction.tx txid key) = search (store_rules, delete_tx-Keeps r)
  undo-Keeps (BlockAction.history hk key) = search store_rules
  undo-Keeps (BlockAction.output o key) = search store_rules
  undo-Keeps (BlockAction.spend o key) = search store_rules

  pub undo_all-Keeps : (as' : List BlockAction) → Keeps (IsKept txids) (undo_all as')
  unfolding undo_all
  undo_all-Keeps [] = search method_rules
  undo_all-Keeps (a ∷ as') =
      bind-Keeps (undo a) (λ x. undo_all as') (undo-Keeps a) (λ x. undo_all-Keeps as')
