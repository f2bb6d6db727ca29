-- ===== src/Electrum/Broadcast/Tracked.antt =====
-- What a broadcast that the peer accepts does to the index and the listeners.
use nakamoto_electrs.Prelude.{◌≡◌, refl, some, List, [], arith, ok, true}
use nakamoto_electrs.Bitcoin.{Bitcoin, IsLawful}
use nakamoto_electrs.Sled.{Sled, IsReliable}
use nakamoto_electrs.HashMap.{get}
use nakamoto_electrs.HashMap.Keys.{bytes_eq}
use nakamoto_electrs.HashMap.Sets.{has, extend, has-extend}
use nakamoto_electrs.Indexer.Pending.{pending_tx_touches_script, pending_conflicting_txids}
use nakamoto_electrs.Indexer.State.{IndexState}
use nakamoto_electrs.Indexer.Mempool.Affected.{has-pending_affected_scripts_for_tx}
use nakamoto_electrs.Store.Types.{ScriptHash}
use nakamoto_electrs.Indexer.Mempool.{
  track_pending_transaction, forget_each, pending_affected_scripts_for_tx,
}
use nakamoto_electrs.Indexer.Mempool.Track.{
  IsListed, forget_each-IsListed, track_evicted_lem, tracked, track_pending_transaction_lem,
}
use nakamoto_electrs.Metrics.{Metrics, inc_transactions_broadcast}
use nakamoto_electrs.Electrum.Crates.{Crates, Reply, done}
use nakamoto_electrs.Electrum.Status.{Server, Delivered, broadcast-Delivered}
use nakamoto_electrs.Electrum.Broadcast.{parse_transaction, handle_transaction_broadcast}

module _ ⦃sl : Sled⦄ (r : IsReliable sl) ⦃bc : Bitcoin⦄ (l : IsLawful bc) ⦃cr : Crates⦄ where
  -- What a tracked transaction touches is affected.
  tracked_touches :
      (tx : bc.Transaction) (s : IndexState) (sh : ScriptHash) (affected : List ScriptHash)
      → IsListed s.store
      → (track_pending_transaction tx s).0 ≡ ok affected
      → pending_tx_touches_script tx sh (track_pending_transaction tx s).1 ≡ true
      → has sh affected ≡ true
  unfolding track_pending_transaction
  tracked_touches tx s sh affected listed e h =
      let cs = pending_conflicting_txids tx s in
      let f = forget_each cs [] s in
      let lem = track_evicted_lem r tx f.0 f.1 (forget_each-IsListed r cs [] s listed) in
      let own = has-pending_affected_scripts_for_tx sh (tracked r tx f.1) tx (rw lem at h) in
      let same : extend (pending_affected_scripts_for_tx tx (tracked r tx f.1)) f.0 ≡ affected =
        cc (rw lem at e) in
      rw (← same) (
        ground
          (arith, has-extend (pending_affected_scripts_for_tx tx (tracked r tx f.1)) f.0 sh, own))

  -- Where the parameters hold a transaction that the peer accepts, the database does not fail, ids
  -- and wire forms of transactions are lawful, and the list of pending txids can be read: the
  -- reply is the txid, the transaction is pending, and the counter of broadcasts has moved. One
  -- list of script hashes is appended to what waits for each client that still listens, and closed
  -- channels are dropped; the list holds every script hash that the transaction touches once it is
  -- tracked.
  pub broadcast_tracked :
      (params : cr.Value) (tx : bc.Transaction) (f : bc.Transaction → Reply (Unit {0}))
      (metrics : Metrics) (server : Server) (sh : ScriptHash)
      → parse_transaction params ≡ done tx
      → f tx ≡ done tt
      → IsListed server.index.store
      → pending_tx_touches_script tx sh (track_pending_transaction tx server.index).1 ≡ true
      → let after = handle_transaction_broadcast params (some f) (metrics, server) in
        let id = bc.compute_txid tx in
        (after.0 ≡ done (cr.string (bc.txid_string id)))
        × (get id after.1.1.index.pending_txs ≡ some tx)
        × (after.1.0 ≡ inc_transactions_broadcast metrics)
        × ((affected : List ScriptHash) × Delivered affected server.senders after.1.1.senders
            × (has sh affected ≡ true))
  unfolding handle_transaction_broadcast
  broadcast_tracked params tx f metrics server sh p sent listed touches =
      let ((affected, e), held, rest) = track_pending_transaction_lem r l tx server.index listed in
      rw (p, sent, e)
        (
          refl,
          held,
          refl,
          (
            affected,
            broadcast-Delivered affected server.senders,
            tracked_touches tx server.index sh affected listed e touches,
          ),
        )
