-- ===== src/Indexer/Blocks/Fund.antt =====
-- Making an output in a block, and its undo.
use nakamoto_electrs.Prelude.{ℕ, ◌^◌, ◌<◌, ◌≡◌, refl, ap, ◌∙◌, none, some, [], ◌∷◌, ok, beq_refl}
use nakamoto_electrs.Bytes.{Bytes, be_bytes}
use nakamoto_electrs.Bitcoin.{OutPoint, TxOut, Bitcoin}
use nakamoto_electrs.Sled.{Sled, IsReliable}
use nakamoto_electrs.Sled.Entries
use nakamoto_electrs.Sled.Entries.{find-insert}
use nakamoto_electrs.Sled.Entries.Inverse.{remove-insert}
use nakamoto_electrs.Store.Types.{Txid, StoredOutput, HistoryKind, JournalActionKind, journal_byte}
use nakamoto_electrs.Store.Codec.{history_key, journal_key, outpoint_key, utxo_key, encode_output}
use nakamoto_electrs.Store.Codec.RoundTrip.{IsStorable}
use nakamoto_electrs.Store.Index.{
  PersistentIndex, store_history_entry, store_journal_action, store_output,
}
use nakamoto_electrs.Indexer.State.{
  IndexState, BlockAction, as_u32, next_u32, from_script, push_history, push_action,
}
use nakamoto_electrs.Indexer.Blocks.Journal.{value_of, Adds-two}
use nakamoto_electrs.Indexer.Payload.{action_key, outpoint_bytes}
use nakamoto_electrs.Indexer.Blocks.{apply_output, undo}
use nakamoto_electrs.Indexer.Blocks.Views.{
  Views, views, Leaves, undo_history, undo_output, undo_pair,
}
use nakamoto_electrs.Indexer.Blocks.Undo.{Undoes}
use nakamoto_electrs.Indexer.Blocks.Room.{
  HasRoom, second_free, load_held, listed-push_two, get-push_two_ne,
}

module _ ⦃sl : Sled⦄ (r : IsReliable sl) ⦃bc : Bitcoin⦄ (height : ℕ) (txid : Txid) where
  -- the output numbered `i`, as it is stored
  abbrev pub made : ℕ → TxOut → StoredOutput
  made i output = record {
    script_hash = from_script output.script_pubkey;
    txid = txid;
    vout = as_u32 i;
    value = output.value;
    height = height;
  }

  abbrev pub point : ℕ → OutPoint
  point i = record { txid = txid; vout = as_u32 i }

  -- The outpoint is new, and so are the records of its output.
  pub record Fundable (s : IndexState) (i seq : ℕ) (output : TxOut) : Type 0 where
    pub storable : IsStorable (made i output)
    pub new_output : Entries.find (outpoint_key (point i)) (r.view s.store.outputs) ≡ none
    pub new_utxo :
        Entries.find
          (utxo_key (from_script output.script_pubkey) txid (as_u32 i))
          (r.view s.store.utxos)
        ≡ none
    pub new_history :
        Entries.find
          (history_key (from_script output.script_pubkey) height HistoryKind.fund txid (as_u32 i))
          (r.view s.store.history)
        ≡ none
    pub room : HasRoom height seq (r.view s.store.journal)

  module _ (s : IndexState) (i seq : ℕ) (output : TxOut) where
    abbrev hk : Bytes
    hk = history_key (from_script output.script_pubkey) height HistoryKind.fund txid (as_u32 i)

    abbrev uk : Bytes
    uk = utxo_key (from_script output.script_pubkey) txid (as_u32 i)

    abbrev jk : Bytes
    jk = journal_key height seq

    abbrev ok' : Bytes
    ok' = journal_key height (next_u32 seq)

    abbrev hv : Bytes
    hv = journal_byte JournalActionKind.history ∷ hk

    abbrev ov : Bytes
    ov = journal_byte JournalActionKind.output ∷ outpoint_bytes (point i)

    abbrev funded_store : PersistentIndex
    funded_store =
        let st = s.store in
        record st {
          history = (sl.insert hk [] st.history).1;
          journal = (sl.insert ok' ov (sl.insert jk hv st.journal).1).1;
          outputs =
              (sl.insert (outpoint_key (point i)) (encode_output (made i output)) st.outputs).1;
          utxos = (sl.insert uk (be_bytes 8 output.value) st.utxos).1;
        }

    -- the state after the output
    abbrev funded : IndexState
    funded = push_action height (BlockAction.output (point i) ok') (
        push_action height (BlockAction.history hk jk) (
          push_history (from_script output.script_pubkey)
            (record { txid = txid; height = height; sequence = as_u32 i })
            (record s { store = funded_store })))

    pub apply_output_lem :
        apply_output height txid i seq output s ≡ (ok (next_u32 (next_u32 seq)), funded)
    unfolding apply_output store_history_entry store_journal_action store_output push_history
        push_action
    apply_output_lem =
        let st = s.store in
        rw
          (
            r.insert_ok hk [] st.history,
            r.insert_ok jk hv st.journal,
            r.insert_ok (outpoint_key (point i)) (encode_output (made i output)) st.outputs,
            r.insert_ok uk (be_bytes 8 output.value) st.utxos,
            r.insert_ok ok' ov (sl.insert jk hv st.journal).1,
          )
          refl

    -- what the trees hold when the output is undone, and its history entry is not yet
    abbrev halfway : Views
    halfway = record {
      history = Entries.insert hk [] (r.view s.store.history);
      outputs = r.view s.store.outputs;
      utxos = r.view s.store.utxos;
      journal = Entries.insert jk hv (r.view s.store.journal);
    }

    undo_output_half :
        height < 2 ^ 32
        → Fundable s i seq output
        → (u : PersistentIndex) → views r u ≡ views r funded_store
        → Leaves r (undo (BlockAction.output (point i) ok') u) halfway
    undo_output_half h v u e =
        let st = s.store in
        let key = outpoint_key (point i) in
        let value = encode_output (made i output) in
        let eh = ap (λ (w : Views). w.history) e ∙ r.view-insert hk [] st.history in
        let eo = ap (λ (w : Views). w.outputs) e ∙ r.view-insert key value st.outputs in
        let eu =
          ap (λ (w : Views). w.utxos) e ∙ r.view-insert uk (be_bytes 8 output.value) st.utxos in
        let ej =
          ap (λ (w : Views). w.journal) e
          ∙ r.view-insert ok' ov (sl.insert jk hv st.journal).1
          ∙ ap (Entries.insert ok' ov) (r.view-insert jk hv st.journal) in
        let held : Entries.find key (r.view u.outputs) ≡ some value =
          rw (eo, find-insert key key value (r.view st.outputs), beq_refl key) refl in
        let undone =
          undo_output r u (point i) ok' (made i output)
            (load_held r u (point i) (made i output) held v.storable refl) in
        (
          undone.0,
          undone.1
              ∙ rw
                  (
                    eh,
                    eo,
                    eu,
                    ej,
                    remove-insert key value (r.view st.outputs) v.new_output,
                    remove-insert uk (be_bytes 8 output.value) (r.view st.utxos) v.new_utxo,
                    remove-insert ok' ov (Entries.insert jk hv (r.view st.journal))
                        (second_free height seq hv (r.view st.journal) h v.room),
                  )
                  refl,
        )

    undo_history_half :
        Fundable s i seq output
        → (u : PersistentIndex) → views r u ≡ halfway
        → Leaves r (undo (BlockAction.history hk jk) u) (views r s.store)
    undo_history_half v u e =
        let undone = undo_history r u hk jk in
        (
          undone.0,
          undone.1
              ∙ rw
                  (
                    ap (λ (w : Views). w.history) e,
                    ap (λ (w : Views). w.outputs) e,
                    ap (λ (w : Views). w.utxos) e,
                    ap (λ (w : Views). w.journal) e,
                    remove-insert hk [] (r.view s.store.history) v.new_history,
                    remove-insert jk hv (r.view s.store.journal) v.room.first,
                  )
                  refl,
        )

    pub funded-Undoes :
        height < 2 ^ 32
        → Fundable s i seq output
        → Undoes r height s funded
            (BlockAction.history hk jk ∷ BlockAction.output (point i) ok' ∷ [])
    unfolding push_history push_action
    funded-Undoes h v = record {
      pushed =
          listed-push_two height (BlockAction.history hk jk) (BlockAction.output (point i) ok')
            s.by_height;
      others = λ x n.
          get-push_two_ne height x (BlockAction.history hk jk) (BlockAction.output (point i) ok')
            s.by_height n;
      undone = λ u e.
          undo_pair r (BlockAction.output (point i) ok') (BlockAction.history hk jk) u halfway
            (views r s.store) (undo_output_half h v u e) (undo_history_half v);
      journalled = λ l f.
          let (fh, (fo, done)) = f in
          rw
            (
              r.view-insert ok' ov (sl.insert jk hv s.store.journal).1,
              r.view-insert jk hv s.store.journal,
            )
            (unfold action_key value_of in
              Adds-two height seq (BlockAction.history hk jk) (BlockAction.output (point i) ok')
                (r.view s.store.journal) l refl refl fh fo v.room);
    }
