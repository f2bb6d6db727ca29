-- ===== src/Electrum/StatusHash.antt =====
-- The status of a script hash in src/electrum_server.rs: `script_status`, `compute_status_hash`.
pub mod Pending
use nakamoto_electrs.Prelude.{
  ℕ, suc, ◌+◌, Bool, Option, none, some, List, [], ◌∷◌, ◌++◌, Result, map_ok, if◌then◌else◌,
}
use nakamoto_electrs.Prelude.Int.{ℤ, pos, negsuc}
use nakamoto_electrs.Bytes.{Bytes}
use nakamoto_electrs.Bitcoin.{Bitcoin}
use nakamoto_electrs.Text.{text, to_string}
use nakamoto_electrs.Sled.{Sled}
use nakamoto_electrs.Store.Types.{ScriptHash, Txid, TxEntry}
use nakamoto_electrs.Indexer.State.{IndexState}
use nakamoto_electrs.Indexer.Queries.History.{get_history}
use nakamoto_electrs.Indexer.Queries.Fees.{MempoolEntry, pending_mempool_for_script}
use nakamoto_electrs.Electrum.Crates.{Crates}

-- `to_string` of an `i32`
abbrev pub int_to_string : ℤ → Bytes
int_to_string (pos n) = to_string n
int_to_string (negsuc n) = text "-" ++ to_string (suc n)

module _ ⦃bc : Bitcoin⦄ where
  -- `txid:height:`
  abbrev pub status_line : Txid → Bytes → Bytes
  status_line txid height = bc.txid_string txid ++ (text ":" ++ (height ++ text ":"))

  -- the loop over the history
  unfoldable pub history_lines : List TxEntry → Bytes
  history_lines [] = []
  history_lines (e ∷ es) = status_line e.txid (to_string e.height) ++ history_lines es

  -- the loop over the mempool entries
  unfoldable pub mempool_lines : List MempoolEntry → Bytes
  mempool_lines [] = []
  mempool_lines (e ∷ es) = status_line e.txid (int_to_string e.height) ++ mempool_lines es

module _ ⦃bc : Bitcoin⦄ ⦃cr : Crates⦄ where
  unfoldable pub compute_status_hash : List TxEntry → List MempoolEntry → Option Bytes
  unfolding history_lines mempool_lines
  compute_status_hash [] [] = none
  compute_status_hash history mempool =
      some (cr.digest_string (bc.sha256 (history_lines history ++ mempool_lines mempool)))

  unfoldable pub script_status : ⦃sl : Sled⦄ → ScriptHash → IndexState → Result (Option Bytes)
  script_status sh s =
      map_ok (compute_status_hash (get_history sh s)) (pending_mempool_for_script sh s)
