-- ===== src/Indexer/Reachable/Pending.antt =====
-- Tracking, restoring and forgetting pending transactions keep a coherent state coherent, and a
-- start from a store makes one.
use nakamoto_electrs.Prelude.{
  refl, arith, inl, inr, Option, none, some, Option-cases, List, [], ◌∷◌,
}
use nakamoto_electrs.Prelude.Exec.{pure, asks}
use nakamoto_electrs.Prelude.Exec.Keeps.{Keeps, pure-Keeps, asks-Keeps, bind-Keeps}
use nakamoto_electrs.Bytes.{IsArray}
use nakamoto_electrs.Bitcoin.{Bitcoin, IsLawful}
use nakamoto_electrs.Sled.{Sled, IsReliable}
use nakamoto_electrs.HashMap.{get, insert}
use nakamoto_electrs.HashMap.Keys.{bytes_eq}
use nakamoto_electrs.HashMap.Sets.{extend}
use nakamoto_electrs.HashMap.Laws.{get-insert}
use nakamoto_electrs.Store.Types.{Txid, ScriptHash}
use nakamoto_electrs.Store.Loops.{push_new}
use nakamoto_electrs.Store.Loops.Txids.{contains-push_new, All-push_new}
use nakamoto_electrs.Store.Index.{load_tx, store_tx, store_pending_txid}
use nakamoto_electrs.Store.Index.Laws.{load-store_pending_txid}
use nakamoto_electrs.Indexer.State.{IndexState}
use nakamoto_electrs.Indexer.Pending.{pending_conflicting_txids}
use nakamoto_electrs.Indexer.Mempool.{
  remove_each, chain, forget_each, forget_pending_transaction_chain_internal,
  track_pending_transaction, restore_pending_transaction, forget_pending_transaction,
  forget_pending_transaction_chain, restore_found,
}
use nakamoto_electrs.Indexer.Mempool.Track.{track_evicted_lem}
use nakamoto_electrs.Indexer.Reachable.Sound.{
  IsSound, IsCoherent, rebuild-IsCoherent, insert-IsKeyed, drop-IsSound, store_tx-Keeps,
}

module _ ⦃sl : Sled⦄ (r : IsReliable sl) ⦃bc : Bitcoin⦄ where
  remove_each-IsSound : (xs : List Txid) (s : IndexState) → IsSound s → IsSound (remove_each xs s)
  unfolding remove_each
  remove_each-IsSound [] s h = h
  remove_each-IsSound (x ∷ xs) s h = remove_each-IsSound xs _ (drop-IsSound r x s h)

  chain-IsCoherent :
      (txid : Txid) (s : IndexState)
      → IsSound s
      → IsCoherent (forget_pending_transaction_chain_internal txid s).1
  unfolding forget_pending_transaction_chain_internal
  chain-IsCoherent txid s h = rebuild-IsCoherent _ (remove_each-IsSound (chain txid s) s h)

  forget_each-IsSound :
      (cs : List Txid) (affected : List ScriptHash) (s : IndexState)
      → IsSound s
      → IsSound (forget_each cs affected s).1
  unfolding forget_each
  forget_each-IsSound [] affected s h = h
  forget_each-IsSound (c ∷ cs) affected s h =
      let f = forget_pending_transaction_chain_internal c s in
      forget_each-IsSound cs (extend f.0 affected) f.1 (chain-IsCoherent c s h).sound

  pub forget_pending_transaction-IsCoherent :
      (txid : Txid) (s : IndexState)
      → IsCoherent s
      → IsCoherent (forget_pending_transaction txid s).1
  unfolding forget_pending_transaction
  forget_pending_transaction-IsCoherent txid s h = elim (Option-cases (get txid s.pending_txs)) [
    | inl e ↦ rw (forget_pending_transaction, e) h
    | inr (tx, e) ↦
        rw (forget_pending_transaction, e) (rebuild-IsCoherent _ (drop-IsSound r txid s h.sound))
  ]

  pub forget_pending_transaction_chain-IsCoherent :
      (txid : Txid) (s : IndexState)
      → IsCoherent s
      → IsCoherent (forget_pending_transaction_chain txid s).1
  unfolding forget_pending_transaction_chain
  forget_pending_transaction_chain-IsCoherent txid s h =
      elim (Option-cases (get txid s.pending_txs)) [
        | inl e ↦ rw (forget_pending_transaction_chain, e) h
        | inr (tx, e) ↦ rw (forget_pending_transaction_chain, e) (chain-IsCoherent txid s h.sound)
      ]

module _ ⦃sl : Sled⦄ (r : IsReliable sl) ⦃bc : Bitcoin⦄ (l : IsLawful bc) where
  -- what is written after the conflicts were evicted
  abbrev inserted : bc.Transaction → IndexState → IndexState
  inserted tx s = record s {
    pending_txs = insert (bc.compute_txid tx) tx s.pending_txs;
    store = (store_pending_txid (bc.compute_txid tx) (store_tx tx s.store).1).1;
  }

  inserted-IsSound : (tx : bc.Transaction) (s : IndexState) → IsSound s → IsSound (inserted tx s)
  inserted-IsSound tx s h =
      let id = bc.compute_txid tx in
      let stored =
        (store_tx-Keeps r l tx).at s.store (record { loads = h.listed.loads; named = h.named }) in
      record {
        listed = record {
          txids = push_new id h.listed.txids;
          loads =
              load-store_pending_txid r (store_tx tx s.store).1 id h.listed.txids stored.loads
                h.listed.arrays (l.txid_array tx);
          arrays = All-push_new (IsArray 32) id h.listed.txids (l.txid_array tx) h.listed.arrays;
        };
        durable = λ x other e. ground (
          arith,
          contains-push_new id h.listed.txids x,
          get-insert x id tx s.pending_txs,
          h.durable x other,
          e,
        );
        keyed = insert-IsKeyed id tx s.pending_txs refl h.keyed;
        named = unfold store_pending_txid load_tx in rw (stored.loads) (stored.named);
      }

  pub track_pending_transaction-IsCoherent :
      (tx : bc.Transaction) → Keeps IsCoherent (track_pending_transaction tx)
  unfolding track_pending_transaction
  track_pending_transaction-IsCoherent tx = record {
    at = λ s h.
        let cs = pending_conflicting_txids tx s in
        let f = forget_each cs [] s in
        let left = forget_each-IsSound r cs [] s h.sound in
        rw (track_evicted_lem r tx f.0 f.1 left.listed)
          (rebuild-IsCoherent (inserted tx f.1) (inserted-IsSound tx f.1 left));
  }

  restore_found-IsCoherent :
      (found : Option bc.Transaction) → Keeps IsCoherent (restore_found found)
  restore_found-IsCoherent none = pure-Keeps none
  restore_found-IsCoherent (some tx) =
      bind-Keeps (track_pending_transaction tx) (λ affected. pure (some affected))
        (track_pending_transaction-IsCoherent tx) (λ affected. pure-Keeps (some affected))

  pub restore_pending_transaction-IsCoherent :
      (txid : Txid) → Keeps IsCoherent (restore_pending_transaction txid)
  unfolding restore_pending_transaction
  restore_pending_transaction-IsCoherent txid =
      bind-Keeps (asks (λ s. load_tx txid s.store)) restore_found (asks-Keeps _)
        restore_found-IsCoherent
