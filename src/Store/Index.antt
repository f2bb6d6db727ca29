-- ===== src/Store/Index.antt =====
-- `PersistentIndex` of src/store.rs: the six trees, and the methods that read and write them.
-- Opening the database is in Store/Open.
pub mod Laws
pub mod Writes
pub mod Balance
use nakamoto_electrs.Prelude.{
  ℕ, ◌+◌, ◌-◌, ◌^◌, min, Bool, true, false, Option, none, some, List, [], ◌∷◌, ◌++◌, map, length,
  ◌==◌, leb, ltb, ◌&&◌, ◌||◌, beq, not, if◌then◌else◌, Error, Result, ok, err, map_ok,
  bad_utxo_value, bad_tx, missing_output, out_of_range,
}
use nakamoto_electrs.Prelude.Exec.{Exec, asks, pure, ◌>>=◌, ◌>>◌}
use nakamoto_electrs.Prelude.Sort.{sort_by}
use nakamoto_electrs.Bytes.{Bytes, be_bytes, from_be_bytes, slice}
use nakamoto_electrs.Bitcoin.{OutPoint, Bitcoin}
use nakamoto_electrs.Sled.{Sled}
use nakamoto_electrs.Sled.Entries.{Entry}
use nakamoto_electrs.Store.Types.{
  ScriptHash, Txid, HistoryKind, StoredHistoryEntry, StoredOutput, StoredUnspent, JournalActionKind,
  StoredJournalAction, TxEntry, journal_byte,
}
use nakamoto_electrs.Store.Loops.{
  contains, without, push_new, collect, u64_max, u32_max, saturating_add, height_rank, history_le,
  amount, balance_loop,
}
use nakamoto_electrs.Store.Codec.{
  outpoint_key, utxo_key, journal_key, encode_output, decode_output, history_key, parse_history_key,
  parse_journal_action, encode_txid_list, decode_txid_list,
}

pub record PersistentIndex ⦃sl : Sled⦄ : Type 0 where
  pub history : sl.Tree
  pub outputs : sl.Tree
  pub txs : sl.Tree
  pub utxos : sl.Tree
  pub journal : sl.Tree
  pub meta : sl.Tree

-- `b"tip_height"`
abbrev pub tip_height_key : Bytes
tip_height_key = b't' ∷ b'i' ∷ b'p' ∷ b'_' ∷ b'h' ∷ b'e' ∷ b'i' ∷ b'g' ∷ b'h' ∷ b't' ∷ []

-- `b"pending_txids"`
abbrev pub pending_txids_key : Bytes
pending_txids_key =
    b'p' ∷ b'e' ∷ b'n' ∷ b'd' ∷ b'i' ∷ b'n' ∷ b'g' ∷ b'_' ∷ b't' ∷ b'x' ∷ b'i' ∷ b'd' ∷ b's' ∷ []

module _ ⦃sl : Sled⦄ where
  abbrev pub on_history : {A : Type 0} → Exec sl.Tree A → Exec PersistentIndex A
  on_history m s = ((m s.history).0, record s { history = (m s.history).1 })

  abbrev pub on_outputs : {A : Type 0} → Exec sl.Tree A → Exec PersistentIndex A
  on_outputs m s = ((m s.outputs).0, record s { outputs = (m s.outputs).1 })

  abbrev pub on_txs : {A : Type 0} → Exec sl.Tree A → Exec PersistentIndex A
  on_txs m s = ((m s.txs).0, record s { txs = (m s.txs).1 })

  abbrev pub on_utxos : {A : Type 0} → Exec sl.Tree A → Exec PersistentIndex A
  on_utxos m s = ((m s.utxos).0, record s { utxos = (m s.utxos).1 })

  abbrev pub on_journal : {A : Type 0} → Exec sl.Tree A → Exec PersistentIndex A
  on_journal m s = ((m s.journal).0, record s { journal = (m s.journal).1 })

  abbrev pub on_meta : {A : Type 0} → Exec sl.Tree A → Exec PersistentIndex A
  on_meta m s = ((m s.meta).0, record s { meta = (m s.meta).1 })

  unfoldable pub set_tip_height : ℕ → Exec PersistentIndex (Unit {0})
  set_tip_height height = on_meta (sl.insert tip_height_key (be_bytes 4 height))

  abbrev height_of : Result (Option Bytes) → ℕ
  height_of (err e) = 0
  height_of (ok none) = 0
  height_of (ok (some v)) = if length v == 4 then from_be_bytes v else 0

  unfoldable pub tip_height : PersistentIndex → ℕ
  tip_height s = height_of (sl.get tip_height_key s.meta)

  abbrev txids_of : Result (Option Bytes) → Result (List Txid)
  txids_of (err e) = err e
  txids_of (ok none) = ok []
  txids_of (ok (some raw)) = decode_txid_list raw

  unfoldable pub load_pending_txids : PersistentIndex → Result (List Txid)
  load_pending_txids s = txids_of (sl.get pending_txids_key s.meta)

  unfoldable pub store_pending_txid : Txid → Exec PersistentIndex (Unit {0})
  store_pending_txid txid = do
    txids ← asks load_pending_txids
    on_meta (sl.insert pending_txids_key (encode_txid_list (push_new txid txids)))

  unfoldable pub delete_pending_txid : Txid → Exec PersistentIndex (Unit {0})
  delete_pending_txid txid = do
    txids ← asks load_pending_txids
    on_meta (sl.insert pending_txids_key (encode_txid_list (without txid txids)))

  unfoldable pub store_output : OutPoint → ScriptHash → ℕ → ℕ → Exec PersistentIndex (Unit {0})
  store_output outpoint script_hash value height = do
    let output : StoredOutput = record {
      script_hash = script_hash;
      txid = outpoint.txid;
      vout = outpoint.vout;
      value = value;
      height = height;
    }
    on_outputs (sl.insert (outpoint_key outpoint) (encode_output output))
    on_utxos (sl.insert (utxo_key script_hash outpoint.txid outpoint.vout) (be_bytes 8 value))

  abbrev output_of : OutPoint → Result (Option Bytes) → Result (Option StoredOutput)
  output_of outpoint (err e) = err e
  output_of outpoint (ok none) = ok none
  output_of outpoint (ok (some raw)) = map_ok some (decode_output outpoint raw)

  unfoldable pub load_output : OutPoint → PersistentIndex → Result (Option StoredOutput)
  load_output outpoint s = output_of outpoint (sl.get (outpoint_key outpoint) s.outputs)

  unfoldable pub delete_output : OutPoint → Exec PersistentIndex (Unit {0})
  delete_output outpoint = on_outputs (sl.remove (outpoint_key outpoint))

  unfoldable pub delete_utxo : ScriptHash → Txid → ℕ → Exec PersistentIndex (Unit {0})
  delete_utxo script_hash txid vout = on_utxos (sl.remove (utxo_key script_hash txid vout))

  unfoldable pub store_journal_action :
      ℕ → ℕ → JournalActionKind → Bytes → Exec PersistentIndex Bytes
  store_journal_action height sequence kind payload = do
    let key = journal_key height sequence
    on_journal (sl.insert key (journal_byte kind ∷ payload))
    pure key

  unfoldable pub delete_journal_key : Bytes → Exec PersistentIndex (Unit {0})
  delete_journal_key key = on_journal (sl.remove key)

  unfoldable pub load_journal_actions : PersistentIndex → Result (List StoredJournalAction)
  unfolding collect
  load_journal_actions s = collect (λ e. parse_journal_action e.0 e.1) (sl.iter s.journal)

  unfoldable pub balance_for_script : ScriptHash → PersistentIndex → Result ℕ
  balance_for_script script_hash s = balance_loop 0 (sl.scan_prefix script_hash s.utxos)

  -- the end of one round of the loop of `list_unspent_for_script`
  abbrev pub unspent_of : OutPoint → ℕ → Result (Option StoredOutput) → Result StoredUnspent
  unspent_of outpoint value (err e) = err e
  unspent_of outpoint value (ok none) = err missing_output
  unspent_of outpoint value (ok (some stored)) =
      ok (record {
        txid = outpoint.txid;
        vout = outpoint.vout;
        value = value;
        height = stored.height;
      })

  -- `key[32..64]` and `key[64..68]` are out of range in a shorter key.
  unfoldable pub unspent_item : PersistentIndex → Entry → Result StoredUnspent
  unfolding amount load_output
  unspent_item s (key, value) =
      if ltb (length key) 68 then err out_of_range else elim (amount value) [
        | err e ↦ err e
        | ok v ↦
            let outpoint : OutPoint = record {
              txid = slice 32 64 key;
              vout = from_be_bytes (slice 64 68 key);
            } in
            unspent_of outpoint v (load_output outpoint s)
      ]

  unfoldable pub list_unspent_for_script :
      ScriptHash → PersistentIndex → Result (List StoredUnspent)
  list_unspent_for_script script_hash s =
      collect (unspent_item s) (sl.scan_prefix script_hash s.utxos)

  unfoldable pub store_history_entry :
      ScriptHash → ℕ → Txid → ℕ → HistoryKind → Exec PersistentIndex Bytes
  store_history_entry script_hash height txid sequence kind = do
    let key = history_key script_hash height kind txid sequence
    on_history (sl.insert key [])
    pure key

  unfoldable pub delete_history_key : Bytes → Exec PersistentIndex (Unit {0})
  delete_history_key key = on_history (sl.remove key)

  unfoldable pub load_history_entries : PersistentIndex → Result (List StoredHistoryEntry)
  load_history_entries s = collect (λ e. parse_history_key e.0) (sl.iter s.history)

  abbrev entry_of : StoredHistoryEntry → TxEntry
  entry_of e = record { txid = e.txid; height = e.height; sequence = e.sequence }

  unfoldable pub load_history_for_script : ScriptHash → PersistentIndex → Result (List TxEntry)
  load_history_for_script script_hash s = map_ok (sort_by history_le) (
      collect (λ e. map_ok entry_of (parse_history_key e.0)) (sl.scan_prefix script_hash s.history))

  unfoldable pub has_history : ScriptHash → PersistentIndex → Bool
  has_history script_hash s = elim (sl.scan_prefix script_hash s.history) [ [] ↦ false | _ ↦ true ]

module _ ⦃sl : Sled⦄ ⦃bc : Bitcoin⦄ where
  unfoldable pub store_tx : bc.Transaction → Exec PersistentIndex (Unit {0})
  store_tx tx = on_txs (sl.insert (bc.compute_txid tx) (bc.serialize tx))

  abbrev decoded : Option bc.Transaction → Result (Option bc.Transaction)
  decoded none = err bad_tx
  decoded (some tx) = ok (some tx)

  abbrev tx_of : Result (Option Bytes) → Result (Option bc.Transaction)
  tx_of (err e) = err e
  tx_of (ok none) = ok none
  tx_of (ok (some raw)) = decoded (bc.deserialize raw)

  unfoldable pub load_tx : Txid → PersistentIndex → Result (Option bc.Transaction)
  load_tx txid s = tx_of (sl.get txid s.txs)

module _ ⦃sl : Sled⦄ where
  unfoldable pub delete_tx : Txid → Exec PersistentIndex (Unit {0})
  delete_tx txid = on_txs (sl.remove txid)
