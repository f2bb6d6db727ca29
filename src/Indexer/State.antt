-- ===== src/Indexer/State.antt =====
-- `IndexState`, the journal's records, and the writes of one field.
use mathlib.Core.List.{reverse}
use nakamoto_electrs.Prelude.{ℕ, ◌+◌, ◌%◌, ◌^◌, List, ok}
use nakamoto_electrs.Prelude.Exec.{Exec}
use nakamoto_electrs.Bytes.{Bytes}
use nakamoto_electrs.Bitcoin.{OutPoint, Bitcoin}
use nakamoto_electrs.Sled.{Sled}
use nakamoto_electrs.HashMap.{HashMap, push_at}
use nakamoto_electrs.HashMap.Keys.{nat_eq, bytes_eq}
use nakamoto_electrs.Store.Types.{ScriptHash, Txid, StoredOutput, TxEntry}
use nakamoto_electrs.Store.Index.{PersistentIndex}

-- An undo record, with its key in the journal.
pub data BlockAction : Type 0 where
  tx : Txid → Bytes → BlockAction
  history : Bytes → Bytes → BlockAction
  output : OutPoint → Bytes → BlockAction
  spend : OutPoint → Bytes → BlockAction

-- `n as u32`, and `n += 1` on a `u32`
abbrev pub as_u32 : ℕ → ℕ
as_u32 n = n % 2 ^ 32

abbrev pub next_u32 : ℕ → ℕ
next_u32 n = (n + 1) % 2 ^ 32

module _ ⦃bc : Bitcoin⦄ where
  -- `ScriptHash::from_script`
  unfoldable pub from_script : Bytes → ScriptHash
  from_script script = reverse (bc.sha256 script)

module _ ⦃sl : Sled⦄ ⦃bc : Bitcoin⦄ where
  pub record IndexState : Type 0 where
    pub history : HashMap ScriptHash (List TxEntry)
    pub by_height : HashMap ℕ (List BlockAction)
    pub pending_txs : HashMap Txid bc.Transaction
    pub pending_outputs : HashMap OutPoint StoredOutput
    pub tip_height : ℕ
    pub store : PersistentIndex

  -- a call on `self.store`
  abbrev pub on_store : {A : Type 0} → Exec PersistentIndex A → Exec IndexState A
  on_store m s = ((m s.store).0, record s { store = (m s.store).1 })

  -- `let _ = m`: the error is dropped, and what was written stays
  abbrev pub ignore : Exec PersistentIndex (Unit {0}) → IndexState → IndexState
  ignore m s = record s { store = (m s.store).1 }

  -- a change that cannot fail
  abbrev pub modify : (IndexState → IndexState) → Exec IndexState (Unit {0})
  modify f s = (ok tt, f s)

  -- `self.history.entry(sh).or_default().push(entry)`
  unfoldable pub push_history : ScriptHash → TxEntry → IndexState → IndexState
  push_history sh entry s = record s { history = push_at sh entry s.history }

  -- `self.by_height.entry(height).or_default().push(action)`
  unfoldable pub push_action : ℕ → BlockAction → IndexState → IndexState
  push_action height action s = record s { by_height = push_at height action s.by_height }
