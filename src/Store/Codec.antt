-- ===== src/Store/Codec.antt =====
-- The keys and values of src/store.rs as byte strings, and their decoders.
pub mod RoundTrip
pub mod Keys
pub mod Outpoints
use nakamoto_electrs.Prelude.{
  ℕ, zero, suc, ◌/◌, ◌%◌, Option, none, some, List, [], ◌∷◌, ◌++◌, length, take, drop, ◌==◌, not,
  if◌then◌else◌, Error, Result, ok, err, map_ok, bad_output_length, bad_history_key,
  bad_journal_key, bad_journal_kind, empty_journal_value, bad_txid_list,
}
use nakamoto_electrs.Bytes.{Bytes, be_bytes, from_be_bytes, slice}
use nakamoto_electrs.Bitcoin.{OutPoint}
use nakamoto_electrs.Store.Types.{
  ScriptHash, Txid, HistoryKind, StoredHistoryEntry, StoredOutput, JournalActionKind,
  StoredJournalAction, history_byte, journal_byte, tx, history, output, spend,
}

unfoldable pub outpoint_key : OutPoint → Bytes
outpoint_key o = o.txid ++ be_bytes 4 o.vout

unfoldable pub utxo_key : ScriptHash → Txid → ℕ → Bytes
utxo_key script_hash txid vout = script_hash ++ (txid ++ be_bytes 4 vout)

unfoldable pub journal_key : ℕ → ℕ → Bytes
journal_key height sequence = be_bytes 4 height ++ be_bytes 4 sequence

unfoldable pub encode_output : StoredOutput → Bytes
encode_output o = o.script_hash ++ (be_bytes 8 o.value ++ be_bytes 4 o.height)

unfoldable pub decode_output : OutPoint → Bytes → Result StoredOutput
decode_output outpoint raw =
    if length raw == 44
    then ok (record {
      script_hash = slice 0 32 raw;
      txid = outpoint.txid;
      vout = outpoint.vout;
      value = from_be_bytes (slice 32 40 raw);
      height = from_be_bytes (slice 40 44 raw);
    })
    else err (bad_output_length (length raw))

unfoldable pub history_key : ScriptHash → ℕ → HistoryKind → Txid → ℕ → Bytes
history_key script_hash height kind txid sequence =
    script_hash ++ (be_bytes 4 height ++ (history_byte kind ∷ (txid ++ be_bytes 4 sequence)))

-- `key[36]` of a key whose length is known
abbrev pub byte_at : ℕ → Bytes → ℕ
byte_at zero [] = 0
byte_at zero (b ∷ bs) = b
byte_at (suc i) [] = 0
byte_at (suc i) (b ∷ bs) = byte_at i bs

unfoldable pub parse_history_key : Bytes → Result StoredHistoryEntry
parse_history_key key =
    if length key == 73
    then ok (record {
      script_hash = slice 0 32 key;
      txid = slice 37 69 key;
      height = from_be_bytes (slice 32 36 key);
      sequence = from_be_bytes (slice 69 73 key);
      kind = byte_at 36 key;
      history_key = key;
    })
    else err (bad_history_key (length key))

-- the `match value[0]`
unfoldable pub journal_kind : ℕ → Result JournalActionKind
journal_kind b =
    if b == 0
    then ok tx
    else if b == 1
    then ok history
    else if b == 2
    then ok output
    else if b == 3
    then ok spend
    else err (bad_journal_kind b)

-- the part after the check of the key's length
unfoldable pub parse_journal_value : Bytes → Bytes → Result StoredJournalAction
parse_journal_value key [] = err empty_journal_value
parse_journal_value key (b ∷ payload) =
    map_ok
      (λ kind. record {
        journal_key = key;
        height = from_be_bytes (slice 0 4 key);
        sequence = from_be_bytes (slice 4 8 key);
        kind = kind;
        payload = payload;
      })
      (journal_kind b)

unfoldable pub parse_journal_action : Bytes → Bytes → Result StoredJournalAction
unfolding parse_journal_value
parse_journal_action key value =
    if length key == 8 then parse_journal_value key value else err (bad_journal_key (length key))

unfoldable pub encode_txid_list : List Txid → Bytes
encode_txid_list [] = []
encode_txid_list (txid ∷ txids) = txid ++ encode_txid_list txids

-- `raw.chunks_exact(32)`, `n` chunks of it
unfoldable pub chunks : ℕ → Bytes → List Bytes
chunks zero raw = []
chunks (suc n) raw = take 32 raw ∷ chunks n (drop 32 raw)

unfoldable pub decode_txid_list : Bytes → Result (List Txid)
unfolding chunks
decode_txid_list raw =
    if length raw % 32 == 0
    then ok (chunks (length raw / 32) raw)
    else err (bad_txid_list (length raw))
