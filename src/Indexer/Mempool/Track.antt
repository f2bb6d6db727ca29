-- ===== src/Indexer/Mempool/Track.antt =====
-- Tracking a transaction: it becomes pending, and what conflicts with it does not stay.
use nakamoto_electrs.Prelude.{
  ◌≡◌, ◌≢◌, ◌⊎◌, refl, true, false, some, List, [], ◌∷◌, arith, All, eq_of_beq, beq_refl, ok,
}
use nakamoto_electrs.Bytes.{IsArray}
use nakamoto_electrs.Bitcoin.{OutPoint, Bitcoin, IsLawful}
use nakamoto_electrs.Sled.{Sled, IsReliable}
use nakamoto_electrs.HashMap.{HashMap, get, insert}
use nakamoto_electrs.HashMap.Keys.{bytes_eq}
use nakamoto_electrs.HashMap.Sets.{has, extend}
use nakamoto_electrs.HashMap.Laws.{get-insert}
use nakamoto_electrs.Store.Types.{Txid, ScriptHash}
use nakamoto_electrs.Store.Codec.{encode_txid_list}
use nakamoto_electrs.Store.Loops.{push_new, without}
use nakamoto_electrs.Store.Loops.Txids.{All-without, All-push_new}
use nakamoto_electrs.Store.Index.{
  PersistentIndex, load_pending_txids, delete_pending_txid, store_pending_txid, store_tx,
  pending_txids_key,
}
use nakamoto_electrs.Store.Index.Laws.{load-delete_pending_txid, load-store_pending_txid}
use nakamoto_electrs.Indexer.State.{IndexState}
use nakamoto_electrs.Indexer.Pending.{
  conflicts, meets, prevout_txids, spend_inputs, pending_conflicting_txids, rebuild_pending_view,
}
use nakamoto_electrs.Indexer.Graph.Closure.{here}
use nakamoto_electrs.Indexer.Mempool.{
  chain, remove_each, forget_each, forget_pending_transaction_chain_internal,
  track_pending_transaction, track_evicted, pending_affected_scripts_for_tx,
}
use nakamoto_electrs.Indexer.Mempool.Chain.{has-chain, left_pending}

module _ ⦃bc : Bitcoin⦄ where
  -- A candidate that shares an outpoint, and is no parent, is one of the conflicts.
  pub has-conflicts :
      (new_prevouts : List OutPoint) (p : HashMap Txid bc.Transaction) (x : Txid)
      (tx : bc.Transaction)
      → get x p ≡ some tx
      → has x (prevout_txids new_prevouts) ≡ false
      → meets new_prevouts (bc.prevouts tx) ≡ true
      → has x (conflicts new_prevouts p) ≡ true
  unfolding conflicts has get
  has-conflicts nps [] x tx g n m = cc
  has-conflicts nps ((key, other) ∷ rest) x tx g n m =
      ground (arith, has-conflicts nps rest x tx, eq_of_beq key x)

  no_conflict :
      (new_prevouts : List OutPoint) (p : HashMap Txid bc.Transaction) (x : Txid)
      (tx : bc.Transaction)
      → get x p ≡ some tx
      → has x (conflicts new_prevouts p) ≡ false
      → (meets new_prevouts (bc.prevouts tx) ≡ false) ⊎ (has x (prevout_txids new_prevouts) ≡ true)
  no_conflict nps p x tx g free = ground (arith, has-conflicts nps p x tx g, free)

-- The list of pending txids in the store can be read.
pub record IsListed ⦃sl : Sled⦄ (s : PersistentIndex) : Type 0 where
  pub txids : List Txid
  pub loads : load_pending_txids s ≡ ok txids
  pub arrays : All (IsArray 32) txids

module _ ⦃sl : Sled⦄ ⦃bc : Bitcoin⦄ where
  -- What is pending after the conflicts were forgotten was pending before, and is no conflict.
  pub kept_by_forget_each :
      (cs : List Txid) (affected : List ScriptHash) (s : IndexState) (x : Txid)
      (tx : bc.Transaction)
      → get x (forget_each cs affected s).1.pending_txs ≡ some tx
      → (get x s.pending_txs ≡ some tx) × (has x cs ≡ false)
  unfolding forget_each has
  kept_by_forget_each [] affected s x tx h = (h, refl)
  kept_by_forget_each (c ∷ cs) affected s x tx h =
      let f = forget_pending_transaction_chain_internal c s in
      let (later, other) = kept_by_forget_each cs (extend f.0 affected) f.1 x tx h in
      let (kept, before) = left_pending s c x tx later in
      let gone : has c (chain c s) ≡ true = (has-chain s c c).1 here in
      (before, ground (arith, other, kept, gone, eq_of_beq c x))

module _ ⦃sl : Sled⦄ (r : IsReliable sl) ⦃bc : Bitcoin⦄ where
  delete-IsListed :
      (txid : Txid) (s : PersistentIndex) → IsListed s → IsListed (delete_pending_txid txid s).1
  delete-IsListed txid s h = record {
    txids = without txid h.txids;
    loads = load-delete_pending_txid r s txid h.txids h.loads h.arrays;
    arrays = All-without (IsArray 32) txid h.txids h.arrays;
  }

  remove_each-IsListed :
      (xs : List Txid) (s : IndexState) → IsListed s.store → IsListed (remove_each xs s).store
  unfolding remove_each
  remove_each-IsListed [] s h = h
  remove_each-IsListed (x ∷ xs) s h = remove_each-IsListed xs _ (delete-IsListed x s.store h)

  pub forget_each-IsListed :
      (cs : List Txid) (affected : List ScriptHash) (s : IndexState)
      → IsListed s.store
      → IsListed (forget_each cs affected s).1.store
  unfolding forget_each
  forget_each-IsListed [] affected s h = h
  forget_each-IsListed (c ∷ cs) affected s h =
      let f = forget_pending_transaction_chain_internal c s in
      forget_each-IsListed cs (extend f.0 affected) f.1 (
        unfold forget_pending_transaction_chain_internal rebuild_pending_view in
        remove_each-IsListed (chain c s) s h)

  pub store_tx_ok : (tx : bc.Transaction) (s : PersistentIndex) → (store_tx tx s).0 ≡ ok tt
  unfolding store_tx
  store_tx_ok tx s = r.insert_ok (bc.compute_txid tx) (bc.serialize tx) s.txs

  store_tx-IsListed :
      (tx : bc.Transaction) (s : PersistentIndex) → IsListed s → IsListed (store_tx tx s).1
  unfolding store_tx
  store_tx-IsListed tx s h = record {
    txids = h.txids;
    loads = unfold load_pending_txids in h.loads;
    arrays = h.arrays;
  }

  store_pending_txid_ok :
      (txid : Txid) (s : PersistentIndex) → IsListed s → (store_pending_txid txid s).0 ≡ ok tt
  unfolding store_pending_txid
  store_pending_txid_ok txid s h =
      rw (h.loads) (r.insert_ok pending_txids_key (encode_txid_list (push_new txid h.txids)) s.meta)

  store_pending_txid-IsListed :
      (txid : Txid) (s : PersistentIndex)
      → IsArray 32 txid
      → IsListed s
      → IsListed (store_pending_txid txid s).1
  store_pending_txid-IsListed txid s t h = record {
    txids = push_new txid h.txids;
    loads = load-store_pending_txid r s txid h.txids h.loads h.arrays t;
    arrays = All-push_new (IsArray 32) txid h.txids t h.arrays;
  }

  -- the state that the part after the loop leaves
  abbrev pub tracked : bc.Transaction → IndexState → IndexState
  tracked tx s = rebuild_pending_view (record s {
    pending_txs = insert (bc.compute_txid tx) tx s.pending_txs;
    store = (store_pending_txid (bc.compute_txid tx) (store_tx tx s.store).1).1;
  })

  pub track_evicted_lem :
      (tx : bc.Transaction) (affected : List ScriptHash) (s : IndexState)
      → IsListed s.store
      → track_evicted tx affected s
        ≡ (ok (extend (pending_affected_scripts_for_tx tx (tracked tx s)) affected), tracked tx s)
  unfolding track_evicted
  track_evicted_lem tx affected s h =
      rw
        (
          store_tx_ok tx s.store,
          store_pending_txid_ok (bc.compute_txid tx) (store_tx tx s.store).1
              (store_tx-IsListed tx s.store h),
        )
        refl

module _ ⦃sl : Sled⦄ (r : IsReliable sl) ⦃bc : Bitcoin⦄ (l : IsLawful bc) where
  -- A transaction is tracked without an error where the database does not fail and the list of
  -- pending txids can be read; it is pending afterwards, and the list can still be read.
  pub track_pending_transaction_lem :
      (tx : bc.Transaction) (s : IndexState)
      → IsListed s.store
      → let after = track_pending_transaction tx s in
        ((affected : List ScriptHash) × (after.0 ≡ ok affected))
        × (get (bc.compute_txid tx) after.1.pending_txs ≡ some tx)
        × IsListed after.1.store
  unfolding track_pending_transaction
  track_pending_transaction_lem tx s h =
      let cs = pending_conflicting_txids tx s in
      let f = forget_each cs [] s in
      let listed = forget_each-IsListed r cs [] s h in
      let id = bc.compute_txid tx in
      rw (track_evicted_lem r tx f.0 f.1 listed) (
        (_, refl),
        unfold rebuild_pending_view in rw (get-insert id id tx f.1.pending_txs, beq_refl id) refl,
        unfold rebuild_pending_view in
            store_pending_txid-IsListed r id (store_tx tx f.1.store).1 (l.txid_array tx)
              (store_tx-IsListed r tx f.1.store listed),
      )

module _ ⦃sl : Sled⦄ (r : IsReliable sl) ⦃bc : Bitcoin⦄ where
  -- What else is pending after a transaction was tracked was pending before, and shares no
  -- outpoint with it, unless it is one of its parents, in a database that does not fail and whose
  -- list of pending txids can be read.
  pub tracked_no_conflict :
      (tx : bc.Transaction) (s : IndexState) (x : Txid) (other : bc.Transaction)
      → IsListed s.store
      → x ≢ bc.compute_txid tx
      → get x (track_pending_transaction tx s).1.pending_txs ≡ some other
      → (get x s.pending_txs ≡ some other)
        × ((meets (spend_inputs (bc.prevouts tx) []) (bc.prevouts other) ≡ false)
            ⊎ (has x (prevout_txids (spend_inputs (bc.prevouts tx) [])) ≡ true))
  unfolding track_pending_transaction
  tracked_no_conflict tx s x other h n g =
      let cs = pending_conflicting_txids tx s in
      let f = forget_each cs [] s in
      let id = bc.compute_txid tx in
      let g' : get x (tracked r tx f.1).pending_txs ≡ some other =
        rw (track_evicted_lem r tx f.0 f.1 (forget_each-IsListed r cs [] s h)) at g in
      let old : get x f.1.pending_txs ≡ some other =
        unfold rebuild_pending_view in
        ground (arith, rw (get-insert x id tx f.1.pending_txs) at g', eq_of_beq id x, n) in
      let (before, free) = kept_by_forget_each cs [] s x other old in
      (
        before,
        unfold pending_conflicting_txids in
            no_conflict (spend_inputs (bc.prevouts tx) []) s.pending_txs x other before free,
      )
