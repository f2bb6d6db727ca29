-- ===== src/Indexer/Blocks/Reverted.antt =====
-- A transaction whose block was disconnected cannot be restored.
use nakamoto_electrs.Prelude.{◌≡◌, refl, ◌∙◌, none, ok, beq_refl}
use nakamoto_electrs.Bytes.{Bytes}
use nakamoto_electrs.Bitcoin.{Bitcoin}
use nakamoto_electrs.Sled.{Sled, IsReliable}
use nakamoto_electrs.Store.Types.{Txid}
use nakamoto_electrs.Store.Index.{load_tx, delete_journal_key}
use nakamoto_electrs.Store.Index.Laws.{load_tx-delete_tx}
use nakamoto_electrs.Indexer.State.{IndexState, BlockAction}
use nakamoto_electrs.Indexer.Mempool.{restore_pending_transaction}
use nakamoto_electrs.Indexer.Blocks.{undo}

module _ ⦃sl : Sled⦄ (r : IsReliable sl) ⦃bc : Bitcoin⦄ where
  gone :
      (txid : Txid) (journal_key : Bytes) (s : IndexState)
      → load_tx txid (undo (BlockAction.tx txid journal_key) s.store).1 ≡ ok none
  unfolding undo delete_journal_key
  gone txid journal_key s = rw (r.remove_ok journal_key s.store.journal) (
      load_tx-delete_tx r (delete_journal_key journal_key s.store).1 txid txid
      ∙ rw (beq_refl txid) refl)

  -- In a database that does not fail, undoing the record of a confirmed transaction deletes the
  -- stored transaction, so that restoring it afterwards finds nothing and changes nothing.
  pub restore-undo :
      (txid : Txid) (journal_key : Bytes) (s : IndexState)
      → let after : IndexState = record s {
        store = (undo (BlockAction.tx txid journal_key) s.store).1;
      } in
        restore_pending_transaction txid after ≡ (ok none, after)
  unfolding restore_pending_transaction
  restore-undo txid journal_key s = rw (gone txid journal_key s) refl
