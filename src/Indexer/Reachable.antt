-- ===== src/Indexer/Reachable.antt =====
-- The states that the indexer of src/indexer.rs goes through: it starts from a store, blocks are
-- connected and disconnected, pending transactions are tracked, restored and forgotten, and it may
-- be begun again from the store that it left.
pub mod Sound
pub mod Writes
pub mod Blocks
pub mod Pending
pub mod Start
pub mod Restart
pub mod Records
pub mod Reload
pub mod Invariant
use nakamoto_electrs.Prelude.{ℕ, ◌≡◌, List, ok}
use nakamoto_electrs.Bitcoin.{Bitcoin}
use nakamoto_electrs.Sled.{Sled}
use nakamoto_electrs.Store.Types.{Txid}
use nakamoto_electrs.Store.Index.{PersistentIndex}
use nakamoto_electrs.Indexer.State.{IndexState}
use nakamoto_electrs.Indexer.Mempool.{
  track_pending_transaction, restore_pending_transaction, forget_pending_transaction,
  forget_pending_transaction_chain,
}
use nakamoto_electrs.Indexer.Blocks.{apply_block, rollback_height}
use nakamoto_electrs.Indexer.Startup.{new}

module _ ⦃sl : Sled⦄ ⦃bc : Bitcoin⦄ (store : PersistentIndex) where
  -- A state that some sequence of operations leads to; an operation that fails leads on too.
  pub data Reachable : IndexState → Type 0 where
    begun : (s : IndexState) → new store ≡ ok s → Reachable s
    restarted : (s t : IndexState) → Reachable s → new s.store ≡ ok t → Reachable t
    block :
        (s : IndexState) (txs : List bc.Transaction) (height : ℕ)
        → Reachable s
        → Reachable (apply_block txs height s).1
    rolled_back :
        (s : IndexState) (height : ℕ) → Reachable s → Reachable (rollback_height height s).1
    tracked :
        (s : IndexState) (tx : bc.Transaction)
        → Reachable s
        → Reachable (track_pending_transaction tx s).1
    restored :
        (s : IndexState) (txid : Txid)
        → Reachable s
        → Reachable (restore_pending_transaction txid s).1
    forgotten :
        (s : IndexState) (txid : Txid)
        → Reachable s
        → Reachable (forget_pending_transaction txid s).1
    chain_forgotten :
        (s : IndexState) (txid : Txid)
        → Reachable s
        → Reachable (forget_pending_transaction_chain txid s).1
