-- ===== src/Store/Types.antt =====
-- The types of src/store.rs that the trees hold. A script hash and a txid are strings of 32 bytes.
use nakamoto_electrs.Prelude.{ℕ}
use nakamoto_electrs.Bytes.{Bytes}

abbrev pub ScriptHash : Type 0
ScriptHash = Bytes

abbrev pub Txid : Type 0
Txid = Bytes

pub data HistoryKind : Type 0 where
  fund spend : HistoryKind

pub record StoredHistoryEntry : Type 0 where
  pub script_hash : ScriptHash
  pub txid : Txid
  pub height : ℕ
  pub sequence : ℕ
  pub kind : ℕ
  pub history_key : Bytes

pub record StoredOutput : Type 0 where
  pub script_hash : ScriptHash
  pub txid : Txid
  pub vout : ℕ
  pub value : ℕ
  pub height : ℕ

pub record StoredUnspent : Type 0 where
  pub txid : Txid
  pub vout : ℕ
  pub value : ℕ
  pub height : ℕ

pub data JournalActionKind : Type 0 where
  tx history output spend : JournalActionKind

pub record StoredJournalAction : Type 0 where
  pub journal_key : Bytes
  pub height : ℕ
  pub sequence : ℕ
  pub kind : JournalActionKind
  pub payload : Bytes

-- `TxEntry` of src/indexer.rs
pub record TxEntry : Type 0 where
  pub txid : Txid
  pub height : ℕ
  pub sequence : ℕ

-- `kind as u8`
abbrev pub history_byte : HistoryKind → ℕ
history_byte fund = 0
history_byte spend = 1

abbrev pub journal_byte : JournalActionKind → ℕ
journal_byte tx = 0
journal_byte history = 1
journal_byte output = 2
journal_byte spend = 3
