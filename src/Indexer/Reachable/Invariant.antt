-- ===== src/Indexer/Reachable/Invariant.antt =====
-- What holds in every state that the indexer goes through, in a database that does not fail.
use nakamoto_electrs.Prelude.{refl, ap, true, false, Option, some, List, [], ◌∷◌, ok}
use nakamoto_electrs.Store.Types.{Txid, StoredJournalAction}
use nakamoto_electrs.Store.Loops.{contains}
use nakamoto_electrs.Store.Index.{load_tx, load_journal_actions}
use nakamoto_electrs.Indexer.Startup.{new}
use nakamoto_electrs.Indexer.Reachable.Restart.{confirms, new_pending_lem}
use nakamoto_electrs.Prelude.{◌^◌, ◌≤◌, ◌≡◌, ◌∙◌, none, if◌then◌else◌, length}
use nakamoto_electrs.Bitcoin.{OutPoint, Bitcoin, IsLawful}
use nakamoto_electrs.Sled.{Sled, IsReliable}
use nakamoto_electrs.HashMap.{get}
use nakamoto_electrs.HashMap.Keys.{bytes_eq, outpoint_eq}
use nakamoto_electrs.HashMap.Sets.{has}
use nakamoto_electrs.Store.Index.{PersistentIndex}
use nakamoto_electrs.Indexer.State.{IndexState}
use nakamoto_electrs.Indexer.Pending.{pending_spent_outpoints, scanned}
use nakamoto_electrs.Indexer.Pending.View.{get-rebuild_pending_view}
use nakamoto_electrs.Indexer.Mempool.Track.{IsListed}
use nakamoto_electrs.Indexer.Reachable.{
  Reachable, begun, restarted, block, rolled_back, tracked, restored, forgotten, chain_forgotten,
}
use nakamoto_electrs.Indexer.Reachable.Sound.{IsNamed, IsCoherent, IsKeyed-IsTracked}
use nakamoto_electrs.Indexer.Reachable.Blocks.{apply_block-Keeps, rollback_height-Keeps}
use nakamoto_electrs.Indexer.Reachable.Pending.{
  track_pending_transaction-IsCoherent, restore_pending_transaction-IsCoherent,
  forget_pending_transaction-IsCoherent, forget_pending_transaction_chain-IsCoherent,
}
use nakamoto_electrs.Indexer.Reachable.Start.{new-IsCoherent}

-- `contains` of the two models of a set of txids
has_lem : (xs : List Txid) (x : Txid) → has x xs ≡ contains xs x
unfolding has contains
has_lem [] x = refl
has_lem (y ∷ xs) x = rw (has_lem xs x) refl

module _ ⦃sl : Sled⦄ (r : IsReliable sl) ⦃bc : Bitcoin⦄ (l : IsLawful bc) where
  -- In a database that does not fail, with lawful ids and wire forms of transactions, in every
  -- state that the indexer comes to from a store whose list of pending txids can be read and whose
  -- transactions stand under their own ids, by connecting and disconnecting blocks, by tracking,
  -- restoring and forgetting transactions and by restarts, in any order and whether or not the
  -- calls return an error: each pending transaction stands once, under its own id, and its id is
  -- in the store's list; the stored transactions stand under their ids; and the view of the
  -- pending outputs is the one that a rebuild would give.
  pub Reachable-IsCoherent :
      (store : PersistentIndex) (s : IndexState)
      → IsListed store
      → IsNamed store
      → Reachable store s
      → IsCoherent s
  Reachable-IsCoherent store _ listed named (begun s e) = new-IsCoherent store s listed named e
  Reachable-IsCoherent store _ listed named (restarted s t before e) =
      let h = Reachable-IsCoherent store s listed named before in
      new-IsCoherent s.store t h.sound.listed h.sound.named e
  Reachable-IsCoherent store _ listed named (block s txs height before) =
      (apply_block-Keeps r l txs height).at s (Reachable-IsCoherent store s listed named before)
  Reachable-IsCoherent store _ listed named (rolled_back s height before) =
      (rollback_height-Keeps r height).at s (Reachable-IsCoherent store s listed named before)
  Reachable-IsCoherent store _ listed named (tracked s tx before) =
      (track_pending_transaction-IsCoherent r l tx).at s
        (Reachable-IsCoherent store s listed named before)
  Reachable-IsCoherent store _ listed named (restored s txid before) =
      (restore_pending_transaction-IsCoherent r l txid).at s
        (Reachable-IsCoherent store s listed named before)
  Reachable-IsCoherent store _ listed named (forgotten s txid before) =
      forget_pending_transaction-IsCoherent r txid s
        (Reachable-IsCoherent store s listed named before)
  Reachable-IsCoherent store _ listed named (chain_forgotten s txid before) =
      forget_pending_transaction_chain-IsCoherent r txid s
        (Reachable-IsCoherent store s listed named before)

  -- In every state that the indexer comes to (under the conditions of the invariant of these
  -- states, and where a transaction has at most 2 ^ 32 outputs), an outpoint is in the view
  -- exactly if it is an output of a pending transaction that no pending transaction spends, and it
  -- carries that output's script hash and value.
  pub Reachable-pending_outputs :
      (store : PersistentIndex) (s : IndexState) (o : OutPoint)
      → IsListed store
      → IsNamed store
      → ((tx : bc.Transaction) → length (bc.outputs tx) ≤ 2 ^ 32)
      → Reachable store s
      → get o s.pending_outputs
        ≡ (if has o (pending_spent_outpoints s) then none else scanned o (get o.txid s.pending_txs))
  Reachable-pending_outputs store s o listed named small before =
      let h = Reachable-IsCoherent store s listed named before in
      ap (get o) h.fresh
      ∙ get-rebuild_pending_view s o (IsKeyed-IsTracked s.pending_txs small h.sound.keyed)

  -- In every state that the indexer comes to (under the conditions of the invariant of these
  -- states), a pending transaction that is stored, and that no record of the journal says was
  -- confirmed, is pending again after a restart from the store, where each txid and the journal
  -- can be read and the restart succeeds.
  pub Reachable-restart :
      (store : PersistentIndex) (s t : IndexState) (x : Txid) (tx : bc.Transaction)
      (actions : List StoredJournalAction)
      (reads : (y : Txid) → (v : Option bc.Transaction) × (load_tx y s.store ≡ ok v))
      → IsListed store
      → IsNamed store
      → Reachable store s
      → get x s.pending_txs ≡ some tx
      → load_tx x s.store ≡ ok (some tx)
      → load_journal_actions s.store ≡ ok actions
      → confirms x actions ≡ false
      → new s.store ≡ ok t
      → get x t.pending_txs ≡ some tx
  Reachable-restart store s t x tx actions reads listed named before pending stored journal free e =
      let h = (Reachable-IsCoherent store s listed named before).sound in
      let at : has x h.listed.txids ≡ true = has_lem h.listed.txids x ∙ h.durable x tx pending in
      let value : (reads x).0 ≡ some tx = cc ((reads x).1, stored) in
      new_pending_lem s.store h.listed.txids t x actions reads h.listed.loads journal e
      ∙ rw (free, at, value) refl
