-- ===== src/Indexer/Blocks/Spend.antt =====
-- Spending an output in a block, and its undo.
use nakamoto_electrs.Prelude.{ℕ, ◌^◌, ◌<◌, ◌≡◌, refl, ap, ◌∙◌, none, some, [], ◌∷◌, ok}
use nakamoto_electrs.Bytes.{Bytes, be_bytes}
use nakamoto_electrs.Bitcoin.{OutPoint, Bitcoin}
use nakamoto_electrs.Sled.{Sled, IsReliable}
use nakamoto_electrs.Sled.Entries
use nakamoto_electrs.Sled.Entries.Inverse.{remove-insert, insert_same, insert-remove}
use nakamoto_electrs.Store.Types.{Txid, StoredOutput, HistoryKind, JournalActionKind, journal_byte}
use nakamoto_electrs.Store.Codec.{history_key, journal_key, outpoint_key, utxo_key, encode_output}
use nakamoto_electrs.Store.Codec.RoundTrip.{IsStorable}
use nakamoto_electrs.Store.Index.{
  PersistentIndex, store_history_entry, store_journal_action, delete_utxo,
}
use nakamoto_electrs.Indexer.State.{
  IndexState, BlockAction, as_u32, next_u32, push_history, push_action,
}
use nakamoto_electrs.Indexer.Blocks.Journal.{value_of, Adds-two}
use nakamoto_electrs.Indexer.Payload.{action_key, outpoint_bytes}
use nakamoto_electrs.Indexer.Blocks.{apply_spend, undo}
use nakamoto_electrs.Indexer.Blocks.Views.{
  Views, views, Leaves, undo_history, undo_spend, undo_pair,
}
use nakamoto_electrs.Indexer.Blocks.Undo.{Undoes}
use nakamoto_electrs.Indexer.Blocks.Room.{
  HasRoom, second_free, load_held, listed-push_two, get-push_two_ne,
}

module _ ⦃sl : Sled⦄ (r : IsReliable sl) ⦃bc : Bitcoin⦄ (height : ℕ) (txid : Txid) where
  -- The prevout is an output that the store holds and nobody has spent, and the records of the
  -- spend are new.
  pub record Spendable (s : IndexState) (i seq : ℕ) (prevout : OutPoint) (stored : StoredOutput)
      : Type 0 where
    pub at : prevout ≡ record { txid = stored.txid; vout = stored.vout }
    pub storable : IsStorable stored
    pub held :
        Entries.find (outpoint_key prevout) (r.view s.store.outputs) ≡ some (encode_output stored)
    pub unspent :
        Entries.find (utxo_key stored.script_hash stored.txid stored.vout) (r.view s.store.utxos)
        ≡ some (be_bytes 8 stored.value)
    pub new_history :
        Entries.find
          (history_key stored.script_hash height HistoryKind.spend txid (as_u32 i))
          (r.view s.store.history)
        ≡ none
    pub room : HasRoom height seq (r.view s.store.journal)

  module _ (s : IndexState) (i seq : ℕ) (prevout : OutPoint) (stored : StoredOutput) where
    abbrev hk : Bytes
    hk = history_key stored.script_hash height HistoryKind.spend txid (as_u32 i)

    abbrev uk : Bytes
    uk = utxo_key stored.script_hash stored.txid stored.vout

    abbrev jk : Bytes
    jk = journal_key height seq

    abbrev sk : Bytes
    sk = journal_key height (next_u32 seq)

    abbrev spent_store : PersistentIndex
    spent_store =
        let st = s.store in
        let j = (sl.insert jk (journal_byte JournalActionKind.history ∷ hk) st.journal).1 in
        record st {
          history = (sl.insert hk [] st.history).1;
          journal =
              (sl.insert sk (journal_byte JournalActionKind.spend ∷ outpoint_bytes prevout) j).1;
          utxos = (sl.remove uk st.utxos).1;
        }

    -- the state after the spend
    abbrev spent : IndexState
    spent = push_action height (BlockAction.spend prevout sk) (
        push_action height (BlockAction.history hk jk) (
          push_history stored.script_hash
            (record { txid = txid; height = height; sequence = as_u32 i })
            (record s { store = spent_store })))

    pub apply_spend_lem :
        apply_spend height txid i seq prevout (some stored) s
        ≡ (ok (next_u32 (next_u32 seq)), spent)
    unfolding apply_spend store_history_entry store_journal_action delete_utxo push_history
        push_action
    apply_spend_lem =
        let st = s.store in
        let j = (sl.insert jk (journal_byte JournalActionKind.history ∷ hk) st.journal).1 in
        rw
          (
            r.insert_ok hk [] st.history,
            r.insert_ok jk (journal_byte JournalActionKind.history ∷ hk) st.journal,
            r.insert_ok sk (journal_byte JournalActionKind.spend ∷ outpoint_bytes prevout) j,
            r.remove_ok uk st.utxos,
          )
          refl

    abbrev again : StoredOutput
    again = record {
      script_hash = stored.script_hash;
      txid = prevout.txid;
      vout = prevout.vout;
      value = stored.value;
      height = stored.height;
    }

    same_key :
        Spendable s i seq prevout stored
        → utxo_key stored.script_hash prevout.txid prevout.vout ≡ uk
    same_key v = rw v.at refl

    -- the output is written once more as it was
    rewritten :
        Spendable s i seq prevout stored
        → Entries.insert (outpoint_key prevout) (encode_output again) (r.view s.store.outputs)
          ≡ r.view s.store.outputs
    rewritten v =
        let back : again ≡ stored = rw v.at refl in
        rw back (
          insert_same (outpoint_key prevout) (encode_output stored) (r.view s.store.outputs)
            (r.sorted s.store.outputs) v.held)

    -- what the trees hold when the spend is undone, and its history entry is not yet
    abbrev halfway : Views
    halfway = record {
      history = Entries.insert hk [] (r.view s.store.history);
      outputs = r.view s.store.outputs;
      utxos = r.view s.store.utxos;
      journal =
          Entries.insert jk (journal_byte JournalActionKind.history ∷ hk) (r.view s.store.journal);
    }

    undo_spend_half :
        height < 2 ^ 32
        → Spendable s i seq prevout stored
        → (u : PersistentIndex) → views r u ≡ views r spent_store
        → Leaves r (undo (BlockAction.spend prevout sk) u) halfway
    undo_spend_half h v u e =
        let st = s.store in
        let hv = journal_byte JournalActionKind.history ∷ hk in
        let sv = journal_byte JournalActionKind.spend ∷ outpoint_bytes prevout in
        let j = (sl.insert jk hv st.journal).1 in
        let eh = ap (λ (w : Views). w.history) e ∙ r.view-insert hk [] st.history in
        let eo = ap (λ (w : Views). w.outputs) e in
        let eu = ap (λ (w : Views). w.utxos) e ∙ r.view-remove uk st.utxos in
        let ej =
          ap (λ (w : Views). w.journal) e
          ∙ r.view-insert sk sv j
          ∙ ap (Entries.insert sk sv) (r.view-insert jk hv st.journal) in
        let held : Entries.find (outpoint_key prevout) (r.view u.outputs)
            ≡ some (encode_output stored) =
          rw eo v.held in
        let undone =
          undo_spend r u prevout sk stored (load_held r u prevout stored held v.storable v.at) in
        (
          undone.0,
          undone.1
              ∙ rw
                  (
                    eh,
                    eo,
                    eu,
                    ej,
                    rewritten v,
                    same_key v,
                    insert-remove uk (be_bytes 8 stored.value) (r.view st.utxos) (r.sorted st.utxos)
                        v.unspent,
                    remove-insert sk sv (Entries.insert jk hv (r.view st.journal))
                        (second_free height seq hv (r.view st.journal) h v.room),
                  )
                  refl,
        )

    undo_history_half :
        height < 2 ^ 32
        → Spendable s i seq prevout stored
        → (u : PersistentIndex) → views r u ≡ halfway
        → Leaves r (undo (BlockAction.history hk jk) u) (views r s.store)
    undo_history_half h v u e =
        let hv = journal_byte JournalActionKind.history ∷ hk in
        let undone = undo_history r u hk jk in
        (
          undone.0,
          undone.1
              ∙ rw
                  (
                    ap (λ (w : Views). w.history) e,
                    ap (λ (w : Views). w.outputs) e,
                    ap (λ (w : Views). w.utxos) e,
                    ap (λ (w : Views). w.journal) e,
                    remove-insert hk [] (r.view s.store.history) v.new_history,
                    remove-insert jk hv (r.view s.store.journal) v.room.first,
                  )
                  refl,
        )

    pub spent-Undoes :
        height < 2 ^ 32
        → Spendable s i seq prevout stored
        → Undoes r height s spent (BlockAction.history hk jk ∷ BlockAction.spend prevout sk ∷ [])
    unfolding push_history push_action
    spent-Undoes h v = record {
      pushed =
          listed-push_two height (BlockAction.history hk jk) (BlockAction.spend prevout sk)
            s.by_height;
      others = λ x n.
          get-push_two_ne height x (BlockAction.history hk jk) (BlockAction.spend prevout sk)
            s.by_height n;
      undone = λ u e.
          undo_pair r (BlockAction.spend prevout sk) (BlockAction.history hk jk) u halfway
            (views r s.store) (undo_spend_half h v u e) (undo_history_half h v);
      journalled = λ l f.
          let (fh, (fs, done)) = f in
          let hv = journal_byte JournalActionKind.history ∷ hk in
          let sv = journal_byte JournalActionKind.spend ∷ outpoint_bytes prevout in
          rw
            (
              r.view-insert sk sv (sl.insert jk hv s.store.journal).1,
              r.view-insert jk hv s.store.journal,
            )
            (unfold action_key value_of in
              Adds-two height seq (BlockAction.history hk jk) (BlockAction.spend prevout sk)
                (r.view s.store.journal) l refl refl fh fs v.room);
    }
