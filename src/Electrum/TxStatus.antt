-- ===== src/Electrum/TxStatus.antt =====
-- `apply_tx_status_change`, `classify_tx_status` and the fee rate of src/electrum_server.rs.
use nakamoto_electrs.Prelude.{err, beq, if◌then◌else◌, bad_txid}
use nakamoto_electrs.Prelude.Exec.{Exec}
use nakamoto_electrs.Bytes.{Bytes}
use nakamoto_electrs.Bitcoin.{Bitcoin}
use nakamoto_electrs.Text.{text}
use nakamoto_electrs.Sled.{Sled}
use nakamoto_electrs.Sled.Entries.{starts_with}
use nakamoto_electrs.Store.Types.{Txid}
use nakamoto_electrs.Electrum.Crates.{Crates, Reply, done, fail}
use nakamoto_electrs.Electrum.Status.{
  TxStatusKind, reverted, confirmed, stale, acknowledged, other, Server, apply_tx_status_kind,
}

unfoldable pub classify_tx_status : Bytes → TxStatusKind
classify_tx_status status =
    if beq status (text "transaction has been reverted")
    then reverted
    else if starts_with (text "transaction was included in block ") status
    then confirmed
    else if starts_with (text "transaction was replaced by ") status
    then stale
    else if starts_with (text "transaction was acknowledged by peer ") status
    then acknowledged
    else other

module _ ⦃sl : Sled⦄ ⦃bc : Bitcoin⦄ ⦃cr : Crates⦄ where
  -- what follows the parse of the txid
  abbrev pub change_parsed : Reply Txid → Bytes → Exec Server (Unit {0})
  change_parsed (fail e) status s = (err bad_txid, s)
  change_parsed (done txid) status s = apply_tx_status_kind txid (classify_tx_status status) s

  unfoldable pub apply_tx_status_change : Bytes → Bytes → Exec Server (Unit {0})
  unfolding classify_tx_status
  apply_tx_status_change txid = change_parsed (cr.parse_txid_string txid)
