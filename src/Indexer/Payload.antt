-- ===== src/Indexer/Payload.antt =====
-- The payloads of the journal as byte strings.
pub mod RoundTrip
use nakamoto_electrs.Prelude.{
  ℕ, ◌++◌, length, ◌==◌, if◌then◌else◌, ltb, Result, ok, err, bad_txid_payload,
  bad_outpoint_payload, out_of_range,
}
use nakamoto_electrs.Bytes.{Bytes, be_bytes, from_be_bytes, slice}
use nakamoto_electrs.Bitcoin.{OutPoint}
use nakamoto_electrs.Store.Types.{Txid}
use nakamoto_electrs.Indexer.State.{BlockAction, tx, history, output, spend}

unfoldable pub parse_txid : Bytes → Result Txid
parse_txid payload =
    if length payload == 32 then ok payload else err (bad_txid_payload (length payload))

unfoldable pub parse_outpoint : Bytes → Result OutPoint
parse_outpoint payload =
    if length payload == 36
    then ok (record { txid = slice 0 32 payload; vout = from_be_bytes (slice 32 36 payload) })
    else err (bad_outpoint_payload (length payload))

unfoldable pub outpoint_bytes : OutPoint → Bytes
outpoint_bytes outpoint = outpoint.txid ++ be_bytes 4 outpoint.vout

unfoldable pub action_key : BlockAction → Bytes
action_key (tx txid journal_key) = journal_key
action_key (history history_key journal_key) = journal_key
action_key (output outpoint journal_key) = journal_key
action_key (spend outpoint journal_key) = journal_key

-- `journal_key[4..8]` is out of range in a shorter key.
unfoldable pub action_sequence : BlockAction → Result ℕ
unfolding action_key
action_sequence action =
    if ltb (length (action_key action)) 8
    then err out_of_range
    else ok (from_be_bytes (slice 4 8 (action_key action)))
