-- ===== src/Store/Index/Writes.antt =====
-- The writes of `PersistentIndex` of src/store.rs as data, and what the persistent index promises:
-- it behaves as functions from outpoints and txids that each write updates.
pub mod Refines
use nakamoto_electrs.Prelude.{
  ℕ, ◌^◌, ◌<◌, Bool, true, false, ◌&&◌, ◌||◌, not, Option, none, some, List, [], ◌∷◌, beq,
  if◌then◌else◌, ok,
}
use nakamoto_electrs.Prelude.Exec.{Exec, pure, continue, ◌>>=◌, ◌>>◌}
use nakamoto_electrs.Bytes.{Bytes, IsArray}
use nakamoto_electrs.Bitcoin.{OutPoint, Bitcoin, same_outpoint}
use nakamoto_electrs.Sled.{Sled}
use nakamoto_electrs.Store.Types.{ScriptHash, Txid, HistoryKind, StoredOutput, JournalActionKind}
use nakamoto_electrs.Store.Codec.Outpoints.{IsOutPoint}
use nakamoto_electrs.Store.Index.{
  PersistentIndex, set_tip_height, store_pending_txid, delete_pending_txid, store_output,
  delete_output, delete_utxo, store_journal_action, delete_journal_key, store_history_entry,
  delete_history_key, store_tx, delete_tx,
}

module _ ⦃bc : Bitcoin⦄ where
  -- One call of a method that writes.
  pub data Write : Type 0 where
    put_output : OutPoint → ScriptHash → ℕ → ℕ → Write
    drop_output : OutPoint → Write
    drop_unspent : ScriptHash → Txid → ℕ → Write
    put_tx : bc.Transaction → Write
    drop_tx : Txid → Write
    add_pending drop_pending : Txid → Write
    put_tip : ℕ → Write
    put_history : ScriptHash → ℕ → Txid → ℕ → HistoryKind → Write
    drop_history : Bytes → Write
    put_journal : ℕ → ℕ → JournalActionKind → Bytes → Write
    drop_journal : Bytes → Write

  -- The arguments fit their types.
  abbrev pub IsFit : Write → Type 0
  IsFit (put_output o sh value height) =
      IsOutPoint o × IsArray 32 sh × (value < 2 ^ 64) × (height < 2 ^ 32)
  IsFit (drop_output o) = IsOutPoint o
  IsFit (drop_unspent sh txid vout) = Unit
  IsFit (put_tx tx) = Unit
  IsFit (drop_tx txid) = Unit
  IsFit (add_pending txid) = IsArray 32 txid
  IsFit (drop_pending txid) = Unit
  IsFit (put_tip height) = height < 2 ^ 32
  IsFit (put_history sh height txid sequence kind) = Unit
  IsFit (drop_history key) = Unit
  IsFit (put_journal height sequence kind payload) = Unit
  IsFit (drop_journal key) = Unit

  -- What a reader of the index can observe of its outputs, transactions, pending txids and tip.
  pub record Contents : Type 0 where
    pub outputs : OutPoint → Option StoredOutput
    pub txs : Txid → Option bc.Transaction
    pub pending : Txid → Bool
    pub tip : ℕ

  -- the effect that a write promises
  unfoldable pub replay_one : Write → Contents → Contents
  replay_one (put_output o sh value height) c = record c {
    outputs = λ p.
        if same_outpoint p o
        then some (record {
          script_hash = sh;
          txid = o.txid;
          vout = o.vout;
          value = value;
          height = height;
        })
        else c.outputs p;
  }
  replay_one (drop_output o) c = record c {
    outputs = λ p. if same_outpoint p o then none else c.outputs p;
  }
  replay_one (drop_unspent sh txid vout) c = c
  replay_one (put_tx tx) c = record c {
    txs = λ t. if beq t (bc.compute_txid tx) then some tx else c.txs t;
  }
  replay_one (drop_tx txid) c = record c { txs = λ t. if beq t txid then none else c.txs t }
  replay_one (add_pending txid) c = record c { pending = λ t. beq txid t || c.pending t }
  replay_one (drop_pending txid) c = record c { pending = λ t. not (beq txid t) && c.pending t }
  replay_one (put_tip height) c = record c { tip = height }
  replay_one (put_history sh height txid sequence kind) c = c
  replay_one (drop_history key) c = c
  replay_one (put_journal height sequence kind payload) c = c
  replay_one (drop_journal key) c = c

  unfoldable pub replay : List Write → Contents → Contents
  unfolding replay_one
  replay [] c = c
  replay (w ∷ ws) c = replay ws (replay_one w c)

module _ ⦃sl : Sled⦄ ⦃bc : Bitcoin⦄ where
  unfoldable pub write : Write → Exec PersistentIndex (Unit {0})
  write (put_output o sh value height) = store_output o sh value height
  write (drop_output o) = delete_output o
  write (drop_unspent sh txid vout) = delete_utxo sh txid vout
  write (put_tx tx) = store_tx tx
  write (drop_tx txid) = delete_tx txid
  write (add_pending txid) = store_pending_txid txid
  write (drop_pending txid) = delete_pending_txid txid
  write (put_tip height) = set_tip_height height
  write (put_history sh height txid sequence kind) = do
    store_history_entry sh height txid sequence kind
    pure tt
  write (drop_history key) = delete_history_key key
  write (put_journal height sequence kind payload) = do
    store_journal_action height sequence kind payload
    pure tt
  write (drop_journal key) = delete_journal_key key

  unfoldable pub run : List Write → Exec PersistentIndex (Unit {0})
  unfolding write
  run [] = pure tt
  run (w ∷ ws) = do write w; run ws
