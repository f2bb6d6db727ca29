-- ===== src/Indexer/Blocks/Views.antt =====
-- What the four trees that a block changes hold, in a database that does not fail, and what each
-- undo record does to them.
use nakamoto_electrs.Prelude.{◌≡◌, refl, some, List, [], ◌∷◌, ◌++◌, Result, ok, err}
use nakamoto_electrs.Prelude.Exec.{Exec, continue}
use nakamoto_electrs.Bytes.{Bytes}
use nakamoto_electrs.Bitcoin.{OutPoint}
use nakamoto_electrs.Sled.{Sled, IsReliable}
use nakamoto_electrs.Sled.Entries
use nakamoto_electrs.Sled.Entries.{Entry}
use nakamoto_electrs.Store.Types.{Txid, StoredOutput}
use nakamoto_electrs.Store.Codec.{outpoint_key, utxo_key, encode_output}
use nakamoto_electrs.Bytes.{be_bytes}
use nakamoto_electrs.Store.Index.{
  PersistentIndex, load_output, delete_journal_key, delete_history_key, delete_tx, delete_utxo,
  delete_output, store_output,
}
use nakamoto_electrs.Indexer.State.{BlockAction, tx, history, output, spend}
use nakamoto_electrs.Indexer.Blocks.{undo, undo_all, drop_utxo, restore_output}

pub record Views : Type 0 where
  pub history : List Entry
  pub outputs : List Entry
  pub utxos : List Entry
  pub journal : List Entry

module _ ⦃sl : Sled⦄ (r : IsReliable sl) where
  abbrev pub views : PersistentIndex → Views
  views s = record {
    history = r.view s.history;
    outputs = r.view s.outputs;
    utxos = r.view s.utxos;
    journal = r.view s.journal;
  }

  -- The call succeeds, and leaves these entries.
  abbrev pub Leaves : Result (Unit {0}) × PersistentIndex → Views → Type 0
  Leaves result v = (result.0 ≡ ok tt) × (views result.1 ≡ v)

  pub undo_tx :
      (t : PersistentIndex) (txid : Txid) (jk : Bytes)
      → Leaves (undo (tx txid jk) t) (record {
        history = r.view t.history;
        outputs = r.view t.outputs;
        utxos = r.view t.utxos;
        journal = Entries.remove jk (r.view t.journal);
      })
  unfolding undo delete_journal_key delete_tx
  undo_tx t txid jk =
      rw (r.remove_ok jk t.journal) (r.remove_ok txid t.txs, rw (r.view-remove jk t.journal) refl)

  pub undo_history :
      (t : PersistentIndex) (hk jk : Bytes)
      → Leaves (undo (history hk jk) t) (record {
        history = Entries.remove hk (r.view t.history);
        outputs = r.view t.outputs;
        utxos = r.view t.utxos;
        journal = Entries.remove jk (r.view t.journal);
      })
  unfolding undo delete_journal_key delete_history_key
  undo_history t hk jk =
      rw (r.remove_ok jk t.journal)
        (r.remove_ok hk t.history, rw (r.view-remove jk t.journal, r.view-remove hk t.history) refl)

  pub undo_output :
      (t : PersistentIndex) (o : OutPoint) (jk : Bytes) (stored : StoredOutput)
      → load_output o t ≡ ok (some stored)
      → Leaves (undo (output o jk) t) (record {
        history = r.view t.history;
        outputs = Entries.remove (outpoint_key o) (r.view t.outputs);
        utxos =
            Entries.remove (utxo_key stored.script_hash stored.txid stored.vout) (r.view t.utxos);
        journal = Entries.remove jk (r.view t.journal);
      })
  unfolding undo delete_journal_key drop_utxo delete_utxo delete_output
  undo_output t o jk stored e =
      let found : load_output o (record t { journal = (sl.remove jk t.journal).1 })
          ≡ ok (some stored) =
        unfold load_output in e in
      let uk = utxo_key stored.script_hash stored.txid stored.vout in
      rw (r.remove_ok jk t.journal, found, r.remove_ok uk t.utxos)
        (
          r.remove_ok (outpoint_key o) t.outputs,
          rw
              (
                r.view-remove jk t.journal,
                r.view-remove uk t.utxos,
                r.view-remove (outpoint_key o) t.outputs,
              )
              refl,
        )

  pub undo_spend :
      (t : PersistentIndex) (o : OutPoint) (jk : Bytes) (stored : StoredOutput)
      → load_output o t ≡ ok (some stored)
      → Leaves (undo (spend o jk) t) (record {
        history = r.view t.history;
        outputs =
            Entries.insert
              (outpoint_key o)
              (encode_output (record {
                script_hash = stored.script_hash;
                txid = o.txid;
                vout = o.vout;
                value = stored.value;
                height = stored.height;
              }))
              (r.view t.outputs);
        utxos =
            Entries.insert
              (utxo_key stored.script_hash o.txid o.vout)
              (be_bytes 8 stored.value)
              (r.view t.utxos);
        journal = Entries.remove jk (r.view t.journal);
      })
  unfolding undo delete_journal_key restore_output store_output
  undo_spend t o jk stored e =
      let found : load_output o (record t { journal = (sl.remove jk t.journal).1 })
          ≡ ok (some stored) =
        unfold load_output in e in
      let again : StoredOutput = record {
        script_hash = stored.script_hash;
        txid = o.txid;
        vout = o.vout;
        value = stored.value;
        height = stored.height;
      } in
      let uk = utxo_key stored.script_hash o.txid o.vout in
      let v = be_bytes 8 stored.value in
      rw
        (
          r.remove_ok jk t.journal,
          found,
          r.insert_ok (outpoint_key o) (encode_output again) t.outputs,
        )
        (
          r.insert_ok uk v t.utxos,
          rw
              (
                r.view-remove jk t.journal,
                r.view-insert uk v t.utxos,
                r.view-insert (outpoint_key o) (encode_output again) t.outputs,
              )
              refl,
        )

  bind-Leaves :
      (m : Result (Unit {0}) × PersistentIndex) (f g : Exec PersistentIndex (Unit {0}))
      (v w : Views)
      → Leaves (continue m.0 (λ _. f) m.1) v
      → ((u : PersistentIndex) → Leaves (f u) v → Leaves (g u) w)
      → Leaves (continue m.0 (λ _. g) m.1) w
  bind-Leaves (ok x, u) f g v w h k = k u h
  bind-Leaves (err e, u) f g v w h k = absurd (cc (h.0))

  -- Undoing two lists of records, one after the other.
  pub undo_all-append :
      (as' bs : List BlockAction) (t : PersistentIndex) (v w : Views)
      → Leaves (undo_all as' t) v
      → ((u : PersistentIndex) → views u ≡ v → Leaves (undo_all bs u) w)
      → Leaves (undo_all (as' ++ bs) t) w
  unfolding undo_all
  undo_all-append [] bs t v w h k = k t h.1
  undo_all-append (a ∷ as') bs t v w h k =
      bind-Leaves (undo a t) (undo_all as') (undo_all (as' ++ bs)) v w h
        (λ u g. undo_all-append as' bs u v w g k)

  pub undo_one :
      (a : BlockAction) (t : PersistentIndex) (v : Views)
      → Leaves (undo a t) v
      → Leaves (undo_all (a ∷ []) t) v
  unfolding undo_all
  undo_one a t v h = rw (h.0) (refl, h.1)

  -- Two records, undone one after the other.
  pub undo_pair :
      (a b : BlockAction) (t : PersistentIndex) (v w : Views)
      → Leaves (undo a t) v
      → ((u : PersistentIndex) → views u ≡ v → Leaves (undo b u) w)
      → Leaves (undo_all (a ∷ b ∷ []) t) w
  undo_pair a b t v w h k =
      undo_all-append (a ∷ []) (b ∷ []) t v w (undo_one a t v h) (λ u e. undo_one b u w (k u e))
