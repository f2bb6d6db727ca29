-- ===== src/Store/Index/Writes/Refines.antt =====
-- Any run of writes reads as its replay, in a database that does not fail.
use nakamoto_electrs.Prelude.{
  ℕ, ◌^◌, ◌<◌, ◌≡◌, refl, ◌∙◌, Bool, true, false, none, some, List, [], ◌∷◌, All, beq,
  if◌then◌else◌, ok,
}
use nakamoto_electrs.Prelude.Exec.{Exec}
use nakamoto_electrs.Bytes.{IsArray, be_bytes}
use nakamoto_electrs.Bitcoin.{OutPoint, Bitcoin, IsLawful, same_outpoint}
use nakamoto_electrs.Sled.{Sled, IsReliable}
use nakamoto_electrs.Sled.Reads.{get-insert}
use nakamoto_electrs.Store.Types.{ScriptHash, Txid, StoredOutput, journal_byte}
use nakamoto_electrs.Store.Codec.{
  encode_txid_list, outpoint_key, encode_output, utxo_key, history_key, journal_key,
}
use nakamoto_electrs.Store.Codec.Outpoints.{IsOutPoint}
use nakamoto_electrs.Store.Loops.{contains, without, push_new}
use nakamoto_electrs.Store.Loops.Txids.{
  IsDistinct, All-push_new, All-without, push_new-IsDistinct, without-IsDistinct, contains-without,
  contains-push_new,
}
use nakamoto_electrs.Store.Index.{
  PersistentIndex, tip_height_key, pending_txids_key, set_tip_height, tip_height,
  store_pending_txid, delete_pending_txid, load_pending_txids, store_output, load_output,
  delete_output, store_tx, load_tx, delete_tx, delete_utxo, store_journal_action,
  delete_journal_key, store_history_entry, delete_history_key, on_meta,
}
use nakamoto_electrs.Store.Index.Laws.{
  tip_height-set_tip_height, load-store_pending_txid, load-delete_pending_txid,
  load_output-store_output, load_output-delete_output, load_tx-store_tx, load_tx-delete_tx,
}
use nakamoto_electrs.Store.Index.Writes.{Write, IsFit, Contents, replay_one, replay, write, run}

module _ ⦃sl : Sled⦄ ⦃bc : Bitcoin⦄ where
  -- Every read of the index returns what the contents hold.
  pub record Represents (s : PersistentIndex) (c : Contents) : Type 0 where
    pub outputs : (o : OutPoint) → IsOutPoint o → load_output o s ≡ ok (c.outputs o)
    pub txs : (txid : Txid) → load_tx txid s ≡ ok (c.txs txid)
    pub tip : tip_height s ≡ c.tip
    pub txids : List Txid
    pub listed : load_pending_txids s ≡ ok txids
    pub arrays : All (IsArray 32) txids
    pub distinct : IsDistinct txids
    pub pending : (txid : Txid) → contains txids txid ≡ c.pending txid

ok_if {ℓ} : {A : Type ℓ} (b : Bool) (x y : A) → (if b then ok x else ok y) ≡ ok (if b then x else y)
ok_if true x y = refl
ok_if false x y = refl

module _ ⦃sl : Sled⦄ ⦃bc : Bitcoin⦄ where
  -- the other trees are not read
  apart :
      (s : PersistentIndex) (c : Contents) (history utxos journal : sl.Tree)
      → Represents s c
      → Represents (record s { history = history; utxos = utxos; journal = journal }) c
  unfolding load_output load_tx tip_height load_pending_txids
  apart s c history utxos journal t = record {
    outputs = t.outputs;
    txs = t.txs;
    tip = t.tip;
    txids = t.txids;
    listed = t.listed;
    arrays = t.arrays;
    distinct = t.distinct;
    pending = t.pending;
  }

module _ ⦃sl : Sled⦄ (r : IsReliable sl) ⦃bc : Bitcoin⦄ where
  store_output_ok :
      (o : OutPoint) (sh : ScriptHash) (value height : ℕ) (s : PersistentIndex)
      → (store_output o sh value height s).0 ≡ ok tt
  unfolding store_output
  store_output_ok o sh value height s =
      let v : StoredOutput = record {
        script_hash = sh;
        txid = o.txid;
        vout = o.vout;
        value = value;
        height = height;
      } in
      rw (r.insert_ok (outpoint_key o) (encode_output v) s.outputs)
        (r.insert_ok (utxo_key sh o.txid o.vout) (be_bytes 8 value) s.utxos)

  -- the trees of the transactions and of the pending txids stay
  store_output_keeps :
      (o : OutPoint) (sh : ScriptHash) (value height : ℕ) (s : PersistentIndex)
      → let after = (store_output o sh value height s).1 in
        (after.txs ≡ s.txs) × (after.meta ≡ s.meta)
  unfolding store_output
  store_output_keeps o sh value height s =
      let v : StoredOutput = record {
        script_hash = sh;
        txid = o.txid;
        vout = o.vout;
        value = value;
        height = height;
      } in
      rw (r.insert_ok (outpoint_key o) (encode_output v) s.outputs) (refl, refl)

  store_output-Represents :
      (o : OutPoint) (sh : ScriptHash) (value height : ℕ) (s : PersistentIndex) (c : Contents)
      → IsFit (Write.put_output o sh value height)
      → Represents s c
      → Represents
          (store_output o sh value height s).1
          (replay_one (Write.put_output o sh value height) c)
  unfolding replay_one load_tx tip_height load_pending_txids
  store_output-Represents o sh value height s c (ho, hs, hv, hh) t =
      let (txs, meta) = store_output_keeps o sh value height s in
      record {
        outputs = λ p hp.
            load_output-store_output r s o p sh value height ho hp hs hv hh
            ∙ rw (t.outputs p hp) (ok_if (same_outpoint p o) _ (c.outputs p));
        txs = rw txs t.txs;
        tip = rw meta t.tip;
        txids = t.txids;
        listed = rw meta t.listed;
        arrays = t.arrays;
        distinct = t.distinct;
        pending = t.pending;
      }

  delete_output-Represents :
      (o : OutPoint) (s : PersistentIndex) (c : Contents)
      → IsOutPoint o
      → Represents s c
      → Represents (delete_output o s).1 (replay_one (Write.drop_output o) c)
  unfolding replay_one load_tx tip_height load_pending_txids delete_output
  delete_output-Represents o s c ho t = record {
    outputs = λ p hp.
        load_output-delete_output r s o p ho hp
        ∙ rw (t.outputs p hp) (ok_if (same_outpoint p o) none (c.outputs p));
    txs = t.txs;
    tip = t.tip;
    txids = t.txids;
    listed = t.listed;
    arrays = t.arrays;
    distinct = t.distinct;
    pending = t.pending;
  }

  delete_tx-Represents :
      (txid : Txid) (s : PersistentIndex) (c : Contents)
      → Represents s c
      → Represents (delete_tx txid s).1 (replay_one (Write.drop_tx txid) c)
  unfolding replay_one load_output tip_height load_pending_txids delete_tx
  delete_tx-Represents txid s c t = record {
    outputs = t.outputs;
    txs = λ x. load_tx-delete_tx r s txid x ∙ rw (t.txs x) (ok_if (beq x txid) none (c.txs x));
    tip = t.tip;
    txids = t.txids;
    listed = t.listed;
    arrays = t.arrays;
    distinct = t.distinct;
    pending = t.pending;
  }

  -- the tip height stands under another key than the list of pending txids
  set_tip_height-Represents :
      (height : ℕ) (s : PersistentIndex) (c : Contents)
      → height < 2 ^ 32
      → Represents s c
      → Represents (set_tip_height height s).1 (replay_one (Write.put_tip height) c)
  unfolding replay_one load_output load_tx load_pending_txids set_tip_height beq
  set_tip_height-Represents height s c h t = record {
    outputs = t.outputs;
    txs = t.txs;
    tip = tip_height-set_tip_height r s height h;
    txids = t.txids;
    listed = rw (get-insert r pending_txids_key tip_height_key (be_bytes 4 height) s.meta) t.listed;
    arrays = t.arrays;
    distinct = t.distinct;
    pending = t.pending;
  }

  -- a new list of pending txids leaves the tip height
  listed-Represents :
      (s : PersistentIndex) (c : Contents) (new : List Txid) (pending : Txid → Bool)
      (m : Exec PersistentIndex (Unit {0}))
      → m s ≡ on_meta (sl.insert pending_txids_key (encode_txid_list new)) s
      → load_pending_txids (m s).1 ≡ ok new
      → All (IsArray 32) new
      → IsDistinct new
      → ((x : Txid) → contains new x ≡ pending x)
      → Represents s c
      → ((m s).0 ≡ ok tt) × Represents (m s).1 (record c { pending = pending })
  unfolding load_output load_tx tip_height beq
  listed-Represents s c new pending m e reads arrays distinct set t = (
    rw e (r.insert_ok pending_txids_key (encode_txid_list new) s.meta),
    record {
      outputs = rw e t.outputs;
      txs = rw e t.txs;
      tip =
          rw (e, get-insert r tip_height_key pending_txids_key (encode_txid_list new) s.meta) t.tip;
      txids = new;
      listed = reads;
      arrays = arrays;
      distinct = distinct;
      pending = set;
    },
  )

module _ ⦃sl : Sled⦄ (r : IsReliable sl) ⦃bc : Bitcoin⦄ (l : IsLawful bc) where
  store_tx-Represents :
      (tx : bc.Transaction) (s : PersistentIndex) (c : Contents)
      → Represents s c
      → Represents (store_tx tx s).1 (replay_one (Write.put_tx tx) c)
  unfolding replay_one load_output tip_height load_pending_txids store_tx
  store_tx-Represents tx s c t = record {
    outputs = t.outputs;
    txs = λ x.
        load_tx-store_tx r l s tx x
        ∙ rw (t.txs x) (ok_if (beq x (bc.compute_txid tx)) (some tx) (c.txs x));
    tip = t.tip;
    txids = t.txids;
    listed = t.listed;
    arrays = t.arrays;
    distinct = t.distinct;
    pending = t.pending;
  }

  one_refines :
      (w : Write) (s : PersistentIndex) (c : Contents)
      → IsFit w
      → Represents s c
      → ((write w s).0 ≡ ok tt) × Represents (write w s).1 (replay_one w c)
  unfolding write replay_one
  one_refines (Write.put_output o sh value height) s c h t =
      (store_output_ok r o sh value height s, store_output-Represents r o sh value height s c h t)
  one_refines (Write.drop_output o) s c h t = (
    unfold delete_output in r.remove_ok (outpoint_key o) s.outputs,
    delete_output-Represents r o s c h t,
  )
  one_refines (Write.drop_unspent sh txid vout) s c h t =
      unfold delete_utxo in
      (r.remove_ok (utxo_key sh txid vout) s.utxos, apart s c s.history _ s.journal t)
  one_refines (Write.put_tx tx) s c h t = (
    unfold store_tx in r.insert_ok (bc.compute_txid tx) (bc.serialize tx) s.txs,
    store_tx-Represents tx s c t,
  )
  one_refines (Write.drop_tx txid) s c h t =
      (unfold delete_tx in r.remove_ok txid s.txs, delete_tx-Represents r txid s c t)
  one_refines (Write.add_pending txid) s c h t =
      let new = push_new txid t.txids in
      listed-Represents r s c new _ (store_pending_txid txid)
        (unfold store_pending_txid in rw t.listed refl)
        (load-store_pending_txid r s txid t.txids t.listed t.arrays h)
        (All-push_new (IsArray 32) txid t.txids h t.arrays)
        (push_new-IsDistinct txid t.txids t.distinct)
        (λ x. rw (contains-push_new txid t.txids x, t.pending x) refl) t
  one_refines (Write.drop_pending txid) s c h t =
      let new = without txid t.txids in
      listed-Represents r s c new _ (delete_pending_txid txid)
        (unfold delete_pending_txid in rw t.listed refl)
        (load-delete_pending_txid r s txid t.txids t.listed t.arrays)
        (All-without (IsArray 32) txid t.txids t.arrays)
        (without-IsDistinct txid t.txids t.distinct)
        (λ x. rw (contains-without txid t.txids x, t.pending x) refl) t
  one_refines (Write.put_tip height) s c h t = (
    unfold set_tip_height in r.insert_ok tip_height_key (be_bytes 4 height) s.meta,
    set_tip_height-Represents r height s c h t,
  )
  one_refines (Write.put_history sh height txid sequence kind) s c h t =
      unfold store_history_entry in
      rw (r.insert_ok (history_key sh height kind txid sequence) [] s.history)
        (refl, apart s c _ s.utxos s.journal t)
  one_refines (Write.drop_history key) s c h t =
      unfold delete_history_key in (r.remove_ok key s.history, apart s c _ s.utxos s.journal t)
  one_refines (Write.put_journal height sequence kind payload) s c h t =
      unfold store_journal_action in
      rw (r.insert_ok (journal_key height sequence) (journal_byte kind ∷ payload) s.journal)
        (refl, apart s c s.history s.utxos _ t)
  one_refines (Write.drop_journal key) s c h t =
      unfold delete_journal_key in (r.remove_ok key s.journal, apart s c s.history s.utxos _ t)

  -- In a database that does not fail, with lawful ids and wire forms of transactions, the store
  -- implements its abstract contents, which are functions from outpoints to outputs and from txids
  -- to transactions, a set of pending txids and a tip: from a store that represents some contents,
  -- any run of writes whose arguments fit their types succeeds, and every read of an outpoint, a
  -- txid, the pending txids and the tip afterwards returns what the same writes make of those
  -- contents; writes of the history, the unspent outputs and the journal change none of these
  -- reads.
  pub run_refines :
      (ws : List Write) (s : PersistentIndex) (c : Contents)
      → All IsFit ws
      → Represents s c
      → ((run ws s).0 ≡ ok tt) × Represents (run ws s).1 (replay ws c)
  unfolding run replay
  run_refines [] s c h t = (refl, t)
  run_refines (w ∷ ws) s c (h, hs) t =
      let (done, next) = one_refines w s c h t in
      rw done (run_refines ws (write w s).1 (replay_one w c) hs next)
