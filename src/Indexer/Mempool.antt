-- ===== src/Indexer/Mempool.antt =====
-- The changes to the pending transactions of src/indexer.rs: tracking one, with the eviction of
-- what conflicts with it, forgetting one, and forgetting one with all of its descendants.
pub mod Chain
pub mod Track
pub mod Rebroadcast
pub mod Affected
use nakamoto_electrs.Prelude.{
  ℕ, true, false, Bool, Option, none, some, List, [], ◌∷◌, length, if◌then◌else◌, Result, ok, err,
}
use nakamoto_electrs.Prelude.Exec.{Exec, pure, asks, ◌>>=◌, ◌>>◌}
use nakamoto_electrs.Bitcoin.{OutPoint, TxOut, Bitcoin}
use nakamoto_electrs.Sled.{Sled}
use nakamoto_electrs.HashMap.{HashMap, get, insert, remove}
use nakamoto_electrs.HashMap.Keys.{◌≐◌, bytes_eq}
use nakamoto_electrs.HashMap.Sets.{add, extend}
use nakamoto_electrs.Store.Types.{ScriptHash, Txid}
use nakamoto_electrs.Store.Index.{store_tx, load_tx, store_pending_txid, delete_pending_txid}
use nakamoto_electrs.Indexer.State.{IndexState, from_script, on_store, ignore, modify}
use nakamoto_electrs.Indexer.Pending.{
  ok_flatten, spends_from, rebuild_pending_view, pending_conflicting_txids,
  script_hash_for_outpoint,
}
use nakamoto_electrs.Indexer.Graph.{walk, walk_fuel}

module _ ⦃bc : Bitcoin⦄ where
  -- the candidates that spend from `txid`, by their keys
  unfoldable pub descendants : HashMap Txid bc.Transaction → Txid → List Txid
  descendants [] txid = []
  descendants ((key, tx) ∷ rest) txid =
      let others = descendants rest txid in
      if spends_from txid (bc.prevouts tx) then key ∷ others else others

  -- the same, by their own ids
  unfoldable pub spenders : HashMap Txid bc.Transaction → Txid → List Txid
  spenders [] txid = []
  spenders ((key, tx) ∷ rest) txid =
      let others = spenders rest txid in
      if spends_from txid (bc.prevouts tx) then bc.compute_txid tx ∷ others else others

  unfoldable pub touch_outputs : List TxOut → List ScriptHash → List ScriptHash
  touch_outputs [] touched = touched
  touch_outputs (output ∷ rest) touched =
      touch_outputs rest (add (from_script output.script_pubkey) touched)

  abbrev pub add_found : Option ScriptHash → List ScriptHash → List ScriptHash
  add_found none touched = touched
  add_found (some sh) touched = add sh touched

module _ ⦃sl : Sled⦄ ⦃bc : Bitcoin⦄ where
  unfoldable pub touch_inputs : IndexState → List OutPoint → List ScriptHash → List ScriptHash
  touch_inputs s [] touched = touched
  touch_inputs s (prevout ∷ rest) touched = touch_inputs s rest (
      if bc.is_null prevout
      then touched
      else add_found (ok_flatten (script_hash_for_outpoint prevout s)) touched)

  -- `if txid == tx.compute_txid() { tx } else if let Some(current) = … { current } else { continue }`
  unfoldable pub current : bc.Transaction → IndexState → Txid → Option bc.Transaction
  current tx s txid = if txid ≐ bc.compute_txid tx then some tx else get txid s.pending_txs

  unfoldable pub affected_visit :
      bc.Transaction → IndexState → Txid → List ScriptHash → List ScriptHash
  unfolding current touch_inputs touch_outputs
  affected_visit tx s txid touched = elim (current tx s txid) [
    | none ↦ touched
    | some c ↦ touch_outputs (bc.outputs c) (touch_inputs s (bc.prevouts c) touched)
  ]

  unfoldable pub affected_kids : bc.Transaction → IndexState → Txid → List Txid
  unfolding current spenders
  affected_kids tx s txid = elim (current tx s txid) [
    | none ↦ []
    | some c ↦ spenders s.pending_txs txid
  ]

  unfoldable pub pending_affected_scripts_for_tx : bc.Transaction → IndexState → List ScriptHash
  unfolding affected_visit affected_kids walk
  pending_affected_scripts_for_tx tx s =
      (walk (affected_kids tx s) (affected_visit tx s) (walk_fuel (length s.pending_txs)) []
        (bc.compute_txid tx ∷ []) []).found

  unfoldable pub chain_visit : IndexState → Txid → List ScriptHash → List ScriptHash
  chain_visit s txid affected = elim (get txid s.pending_txs) [
    | none ↦ affected
    | some tx ↦ extend (pending_affected_scripts_for_tx tx s) affected
  ]

  -- `for txid in &removed { … }`
  unfoldable pub remove_each : List Txid → IndexState → IndexState
  remove_each [] s = s
  remove_each (txid ∷ rest) s =
      remove_each rest
        (ignore (delete_pending_txid txid) (record s { pending_txs = remove txid s.pending_txs }))

  -- the ids that the walk of `forget_pending_transaction_chain_internal` has put into `removed`
  unfoldable pub chain : Txid → IndexState → List Txid
  unfolding walk descendants chain_visit
  chain txid s =
      (walk (descendants s.pending_txs) (chain_visit s) (walk_fuel (length s.pending_txs)) []
        (txid ∷ []) []).seen

  unfoldable pub chain_affected : Txid → IndexState → List ScriptHash
  unfolding walk descendants chain_visit
  chain_affected txid s =
      (walk (descendants s.pending_txs) (chain_visit s) (walk_fuel (length s.pending_txs)) []
        (txid ∷ []) []).found

  unfoldable pub forget_pending_transaction_chain_internal :
      Txid → IndexState → List ScriptHash × IndexState
  forget_pending_transaction_chain_internal txid s =
      (chain_affected txid s, rebuild_pending_view (remove_each (chain txid s) s))

  unfoldable pub forget_pending_transaction_internal : Txid → IndexState → IndexState
  forget_pending_transaction_internal txid s =
      rebuild_pending_view
        (ignore (delete_pending_txid txid) (record s { pending_txs = remove txid s.pending_txs }))

  -- the loop over the conflicts
  unfoldable pub forget_each :
      List Txid → List ScriptHash → IndexState → List ScriptHash × IndexState
  forget_each [] affected s = (affected, s)
  forget_each (conflict ∷ rest) affected s =
      let r = forget_pending_transaction_chain_internal conflict s in
      forget_each rest (extend r.0 affected) r.1

  -- what follows the loop
  unfoldable pub track_evicted :
      bc.Transaction → List ScriptHash → Exec IndexState (List ScriptHash)
  track_evicted tx affected = do
    on_store (store_tx tx)
    on_store (store_pending_txid (bc.compute_txid tx))
    modify (λ s.
        rebuild_pending_view
          (record s { pending_txs = insert (bc.compute_txid tx) tx s.pending_txs }))
    asks (λ s. ok (extend (pending_affected_scripts_for_tx tx s) affected))

  unfoldable pub track_pending_transaction : bc.Transaction → Exec IndexState (List ScriptHash)
  track_pending_transaction tx s =
      let r = forget_each (pending_conflicting_txids tx s) [] s in track_evicted tx r.0 r.1

  abbrev pub restore_found : Option bc.Transaction → Exec IndexState (Option (List ScriptHash))
  restore_found none = pure none
  restore_found (some tx) = do affected ← track_pending_transaction tx; pure (some affected)

  unfoldable pub restore_pending_transaction : Txid → Exec IndexState (Option (List ScriptHash))
  restore_pending_transaction txid = do
    found ← asks (λ s. load_tx txid s.store)
    restore_found found

  -- `Indexer::forget_pending_transaction`
  unfoldable pub forget_pending_transaction :
      Txid → IndexState → Option (List ScriptHash) × IndexState
  forget_pending_transaction txid s = elim (get txid s.pending_txs) [
    | none ↦ (none, s)
    | some tx ↦
        let without : IndexState = record s { pending_txs = remove txid s.pending_txs } in
        (
          some (pending_affected_scripts_for_tx tx without),
          rebuild_pending_view (ignore (delete_pending_txid txid) without),
        )
  ]

  -- `Indexer::forget_pending_transaction_chain`
  unfoldable pub forget_pending_transaction_chain :
      Txid → IndexState → Option (List ScriptHash) × IndexState
  forget_pending_transaction_chain txid s = elim (get txid s.pending_txs) [
    | none ↦ (none, s)
    | some tx ↦ let r = forget_pending_transaction_chain_internal txid s in (some r.0, r.1)
  ]
