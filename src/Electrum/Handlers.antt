-- ===== src/Electrum/Handlers.antt =====
-- The requests of src/electrum_server.rs that only read: history, balance, mempool, unspent
-- outputs, transactions, fees and versions.
use nakamoto_electrs.Prelude.{ℕ, zero, suc, Option, none, some, [], ◌∷◌, ◌++◌, map, Result, ok, err}
use nakamoto_electrs.Prelude.Int.{negsuc, of_i64}
use nakamoto_electrs.Bytes.{Bytes}
use nakamoto_electrs.Bitcoin.{Bitcoin}
use nakamoto_electrs.Text.{text}
use nakamoto_electrs.Sled.{Sled}
use nakamoto_electrs.Store.Types.{TxEntry, StoredUnspent}
use nakamoto_electrs.Store.Index.{balance_for_script, load_tx}
use nakamoto_electrs.Indexer.State.{IndexState}
use nakamoto_electrs.Indexer.Queries.History.{get_history}
use nakamoto_electrs.Indexer.Queries.Fees.{MempoolEntry, pending_mempool_for_script, fee_histogram}
use nakamoto_electrs.Indexer.Queries.Delta.{unconfirmed_balance_delta_for_script}
use nakamoto_electrs.Indexer.Queries.Unspent.{list_unspent}
use nakamoto_electrs.Electrum.Crates.{Crates, Reply, done, fail, ◌>>=◌, ok_or}
use nakamoto_electrs.Electrum.Scripthash.{parse_scripthash, str_at}

-- `FeeRateState::current_sat_per_vb`, where 0 stands for no estimate
unfoldable pub current_sat_per_vb : ℕ → Option ℕ
current_sat_per_vb zero = none
current_sat_per_vb (suc n) = some (suc n)

module _ ⦃bc : Bitcoin⦄ ⦃cr : Crates⦄ where
  -- `map_err(|e| format!("{message}: {e:#}"))`
  abbrev pub or_fail {ℓ} : {A : Type ℓ} → Bytes → Result A → Reply A
  or_fail message (ok a) = done a
  or_fail message (err e) = fail (message ++ cr.show_error_chain e)

  -- `map_err(|e| format!("{message}: {e}"))` on an error that is a text already
  abbrev pub prefix_error {ℓ} : {A : Type ℓ} → Bytes → Reply A → Reply A
  prefix_error message (done a) = done a
  prefix_error message (fail e) = fail (message ++ e)

  -- `concat!("nakamoto-electrs/", env!("CARGO_PKG_VERSION"))`: the version is set by the build
  unfoldable pub handle_server_version : Bytes → cr.Value → Reply cr.Value
  handle_server_version version params =
      done
        (cr.array (cr.string (text "nakamoto-electrs/" ++ version) ∷ cr.string (text "1.4") ∷ []))

  unfoldable pub handle_estimatefee : cr.Value → ℕ → Reply cr.Value
  unfolding current_sat_per_vb
  handle_estimatefee params fee_rate = elim (current_sat_per_vb fee_rate) [
    | some sat_per_vb ↦
        done (cr.float (cr.f64_times (cr.f64_of_u64 sat_per_vb) (cr.f64_literal (text "0.00001"))))
    | none ↦ done (cr.signed (negsuc 0))
  ]

  unfoldable pub handle_relayfee : Reply cr.Value
  handle_relayfee = done (cr.float (cr.f64_literal (text "0.00001")))

module _ ⦃sl : Sled⦄ ⦃bc : Bitcoin⦄ ⦃cr : Crates⦄ where
  abbrev history_value : TxEntry → cr.Value
  history_value e = cr.object (
      (text "tx_hash", cr.string (bc.txid_string e.txid))
      ∷ (text "height", cr.number e.height)
      ∷ [])

  unfoldable pub handle_scripthash_get_history : cr.Value → IndexState → Reply cr.Value
  handle_scripthash_get_history params s =
      parse_scripthash params >>= λ sh. done (cr.array (map history_value (get_history sh s)))

  unfoldable pub handle_scripthash_get_balance : cr.Value → IndexState → Reply cr.Value
  handle_scripthash_get_balance params s = parse_scripthash params >>= λ sh.
      or_fail (text "balance lookup failed: ") (balance_for_script sh s.store) >>= λ confirmed.
      or_fail (text "balance lookup failed: ") (unconfirmed_balance_delta_for_script sh s)
      >>= λ unconfirmed. done (
          cr.object (
            (text "confirmed", cr.number confirmed)
            ∷ (text "unconfirmed", cr.signed (of_i64 unconfirmed))
            ∷ []))

  abbrev mempool_value : MempoolEntry → cr.Value
  mempool_value e = cr.object (
      (text "tx_hash", cr.string (bc.txid_string e.txid))
      ∷ (text "height", cr.signed e.height)
      ∷ (text "fee", cr.number e.fee)
      ∷ [])

  unfoldable pub handle_scripthash_get_mempool : cr.Value → IndexState → Reply cr.Value
  handle_scripthash_get_mempool params s = parse_scripthash params >>= λ sh.
      or_fail (text "mempool lookup failed: ") (pending_mempool_for_script sh s) >>= λ entries.
      done (cr.array (map mempool_value entries))

  abbrev unspent_value : StoredUnspent → cr.Value
  unspent_value e = cr.object (
      (text "tx_hash", cr.string (bc.txid_string e.txid))
      ∷ (text "tx_pos", cr.number e.vout)
      ∷ (text "height", cr.number e.height)
      ∷ (text "value", cr.number e.value)
      ∷ [])

  unfoldable pub handle_scripthash_listunspent : cr.Value → IndexState → Reply cr.Value
  handle_scripthash_listunspent params s = parse_scripthash params >>= λ sh.
      or_fail (text "listunspent failed: ") (list_unspent sh s) >>= λ entries.
      done (cr.array (map unspent_value entries))

  abbrev tx_reply : Bytes → Result (Option bc.Transaction) → Reply cr.Value
  tx_reply txid_str (ok (some tx)) = done (cr.string (cr.tx_hex tx))
  tx_reply txid_str (ok none) =
      fail (text "transaction " ++ (txid_str ++ text " not in local cache"))
  tx_reply txid_str (err e) = fail (text "transaction lookup failed: " ++ cr.show_error_chain e)

  unfoldable pub handle_transaction_get : cr.Value → IndexState → Reply cr.Value
  handle_transaction_get params s =
      ok_or (text "missing txid parameter") (str_at 0 params) >>= λ txid_str.
      prefix_error (text "invalid txid: ") (cr.parse_txid_string txid_str) >>= λ txid.
      tx_reply txid_str (load_tx txid s.store)

  abbrev row_value : ℕ × ℕ → cr.Value
  row_value row = cr.array (cr.number row.0 ∷ cr.number row.1 ∷ [])

  unfoldable pub handle_fee_histogram : IndexState → Reply cr.Value
  handle_fee_histogram s =
      or_fail (text "fee histogram failed: ") (fee_histogram s) >>= λ histogram.
      done (cr.array (map row_value histogram))
