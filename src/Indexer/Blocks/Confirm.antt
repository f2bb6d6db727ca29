-- ===== src/Indexer/Blocks/Confirm.antt =====
-- The head of the loop over a block's transactions, and its undo.
use nakamoto_electrs.Prelude.{ℕ, ◌≡◌, refl, ap, ◌∙◌, none, List, [], ◌∷◌, ok, err, Result}
use nakamoto_electrs.Prelude.Exec.{continue}
use nakamoto_electrs.Bytes.{Bytes}
use nakamoto_electrs.Bitcoin.{Bitcoin}
use nakamoto_electrs.Sled.{Sled, IsReliable}
use nakamoto_electrs.Sled.Entries
use nakamoto_electrs.Sled.Entries.Inverse.{remove-insert}
use nakamoto_electrs.HashMap.Keys.{nat_eq, same_nat_refl}
use nakamoto_electrs.HashMap.Laws.{get-push_at}
use nakamoto_electrs.Store.Types.{Txid, JournalActionKind, journal_byte}
use nakamoto_electrs.Store.Codec.{journal_key, encode_txid_list}
use nakamoto_electrs.Store.Loops.{without}
use nakamoto_electrs.Store.Index.{
  PersistentIndex, store_tx, store_journal_action, delete_pending_txid, load_pending_txids,
  pending_txids_key,
}
use nakamoto_electrs.Indexer.State.{IndexState, BlockAction, push_action, next_u32}
use nakamoto_electrs.Indexer.Payload.{action_key}
use nakamoto_electrs.Indexer.Blocks.Journal.{value_of, Adds-one}
use nakamoto_electrs.Indexer.Pending.{rebuild_pending_view}
use nakamoto_electrs.Indexer.Mempool.{forget_pending_transaction_internal}
use nakamoto_electrs.Indexer.Blocks.Views.{Views, views, Leaves, undo_tx, undo_one}
use nakamoto_electrs.Indexer.Blocks.{undo, apply_tx, apply_inputs, apply_outputs}
use nakamoto_electrs.Indexer.Mempool.Track.{store_tx_ok}
use nakamoto_electrs.Indexer.Blocks.Undo.{Undoes}

module _ ⦃sl : Sled⦄ (r : IsReliable sl) where
  -- The list of pending txids stands in none of the four trees.
  pub views-delete_pending_txid :
      (txid : Txid) (s : PersistentIndex) → views r (delete_pending_txid txid s).1 ≡ views r s
  unfolding delete_pending_txid
  views-delete_pending_txid txid s = written (load_pending_txids s)
    where
      written :
          (loaded : Result (List Txid))
          → views r
              (continue loaded
                (λ txids t. (
                  (sl.insert pending_txids_key (encode_txid_list (without txid txids)) t.meta).0,
                  record t {
                    meta =
                        (sl.insert pending_txids_key
                          (encode_txid_list (without txid txids))
                          t.meta).1;
                  },
                ))
                s).1
            ≡ views r s
      written (ok txids) = refl
      written (err e) = refl

module _ ⦃sl : Sled⦄ (r : IsReliable sl) ⦃bc : Bitcoin⦄ (height : ℕ) (seq : ℕ) (tx : bc.Transaction)
    (s : IndexState) where
  abbrev jk : Bytes
  jk = journal_key height seq

  abbrev jv : Bytes
  jv = journal_byte JournalActionKind.tx ∷ bc.compute_txid tx

  -- the state before the loop over the inputs
  abbrev pub confirmed : IndexState
  confirmed =
      let f = forget_pending_transaction_internal (bc.compute_txid tx) s in
      let st = (store_tx tx f.store).1 in
      push_action height (BlockAction.tx (bc.compute_txid tx) jk)
        (record f { store = record st { journal = (sl.insert jk jv st.journal).1 } })

  views-forgotten :
      views r (store_tx tx (forget_pending_transaction_internal (bc.compute_txid tx) s).store).1
      ≡ views r s.store
  unfolding store_tx forget_pending_transaction_internal rebuild_pending_view
  views-forgotten = views-delete_pending_txid r (bc.compute_txid tx) s.store

  undo_confirmed :
      Entries.find jk (r.view s.store.journal) ≡ none
      → (u : PersistentIndex) → views r u ≡ views r confirmed.store
      → Leaves r (undo (BlockAction.tx (bc.compute_txid tx) jk) u) (views r s.store)
  unfolding push_action
  undo_confirmed new u e =
      let st = (store_tx tx (forget_pending_transaction_internal (bc.compute_txid tx) s).store).1 in
      let f = views-forgotten in
      let undone = undo_tx r u (bc.compute_txid tx) jk in
      let ej =
        ap (λ (w : Views). w.journal) e
        ∙ r.view-insert jk jv st.journal
        ∙ ap (Entries.insert jk jv) (ap (λ (w : Views). w.journal) f) in
      (
        undone.0,
        undone.1
            ∙ rw
                (
                  ap (λ (w : Views). w.history) e ∙ ap (λ (w : Views). w.history) f,
                  ap (λ (w : Views). w.outputs) e ∙ ap (λ (w : Views). w.outputs) f,
                  ap (λ (w : Views). w.utxos) e ∙ ap (λ (w : Views). w.utxos) f,
                  ej,
                  remove-insert jk jv (r.view s.store.journal) new,
                )
                refl,
      )

  pub confirmed-Undoes :
      Entries.find jk (r.view s.store.journal) ≡ none
      → Undoes r height s confirmed (BlockAction.tx (bc.compute_txid tx) jk ∷ [])
  unfolding push_action forget_pending_transaction_internal rebuild_pending_view
  confirmed-Undoes new = record {
    pushed =
        rw
          (
            get-push_at height height (BlockAction.tx (bc.compute_txid tx) jk) s.by_height,
            same_nat_refl height,
          )
          refl;
    others = λ j n.
        rw (get-push_at j height (BlockAction.tx (bc.compute_txid tx) jk) s.by_height, n) refl;
    undone = λ u e.
        undo_one r (BlockAction.tx (bc.compute_txid tx) jk) u (views r s.store)
          (undo_confirmed new u e);
    journalled = λ l f.
        let st =
          (store_tx tx (forget_pending_transaction_internal (bc.compute_txid tx) s).store).1 in
        rw (r.view-insert jk jv st.journal, ap (λ (w : Views). w.journal) views-forgotten)
          (unfold action_key value_of in
            Adds-one height seq (BlockAction.tx (bc.compute_txid tx) jk) (r.view s.store.journal) l
              refl f.0 new);
  }

  -- the transaction is stored and recorded, and the loops over inputs and outputs follow
  pub confirmed_lem :
      apply_tx height seq tx s
      ≡ continue
          (apply_inputs height (bc.compute_txid tx) 0 (next_u32 seq) (bc.prevouts tx) confirmed).0
          (λ next. apply_outputs height (bc.compute_txid tx) 0 next (bc.outputs tx))
          (apply_inputs height (bc.compute_txid tx) 0 (next_u32 seq) (bc.prevouts tx) confirmed).1
  unfolding apply_tx store_journal_action
  confirmed_lem =
      let f = forget_pending_transaction_internal (bc.compute_txid tx) s in
      rw (store_tx_ok r tx f.store, r.insert_ok jk jv (store_tx tx f.store).1.journal) refl
