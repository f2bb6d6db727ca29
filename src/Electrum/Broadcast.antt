-- ===== src/Electrum/Broadcast.antt =====
-- `handle_transaction_broadcast` of src/electrum_server.rs. The broadcaster is an object behind the
-- trait `TransactionBroadcaster`: its method is a parameter.
pub mod Tracked
use nakamoto_electrs.Prelude.{Option, none, some, List, ◌++◌, Result, ok, err}
use nakamoto_electrs.Bytes.{Bytes}
use nakamoto_electrs.Bitcoin.{Bitcoin}
use nakamoto_electrs.Text.{text}
use nakamoto_electrs.Sled.{Sled}
use nakamoto_electrs.Store.Types.{ScriptHash}
use nakamoto_electrs.Indexer.State.{IndexState}
use nakamoto_electrs.Indexer.Mempool.{track_pending_transaction}
use nakamoto_electrs.Metrics.{Metrics, inc_transactions_broadcast}
use nakamoto_electrs.Electrum.Crates.{Crates, Reply, done, fail, ◌>>=◌, ok_or}
use nakamoto_electrs.Electrum.Scripthash.{str_at}
use nakamoto_electrs.Electrum.Handlers.{prefix_error}
use nakamoto_electrs.Electrum.Status.{Server, broadcast}

module _ ⦃bc : Bitcoin⦄ ⦃cr : Crates⦄ where
  abbrev pub deserialized : Bytes → Option bc.Transaction → Reply bc.Transaction
  deserialized raw none = fail (text "invalid transaction: " ++ cr.deserialize_error raw)
  deserialized raw (some tx) = done tx

  -- the transaction that the parameters hold
  unfoldable pub parse_transaction : cr.Value → Reply bc.Transaction
  parse_transaction params =
      ok_or (text "missing raw transaction hex") (str_at 0 params) >>= λ raw_hex.
      prefix_error (text "invalid hex: ") (cr.hex_decode raw_hex) >>= λ raw.
      deserialized raw (bc.deserialize raw)

module _ ⦃sl : Sled⦄ ⦃bc : Bitcoin⦄ ⦃cr : Crates⦄ where
  -- what follows the call on the index
  abbrev pub tracked_reply :
      bc.Transaction → Result (List ScriptHash) × IndexState → Server → Reply cr.Value × Server
  tracked_reply tx (err e, s) server = (
    fail (text "failed to cache broadcast transaction: " ++ cr.show_error_chain e),
    record server { index = s },
  )
  tracked_reply tx (ok affected, s) server = (
    done (cr.string (bc.txid_string (bc.compute_txid tx))),
    record server { index = s; senders = broadcast affected server.senders },
  )

  abbrev pub sent_reply : bc.Transaction → Reply (Unit {0}) → Server → Reply cr.Value × Server
  sent_reply tx (fail e) server = (fail (text "broadcast failed: " ++ e), server)
  sent_reply tx (done x) server =
      tracked_reply tx (track_pending_transaction tx server.index) server

  -- the match on the broadcaster
  unfoldable pub submit :
      bc.Transaction → Option (bc.Transaction → Reply (Unit {0})) → Server → Reply cr.Value × Server
  submit tx none server =
      (fail (text "transaction broadcast is only available in bridge mode"), server)
  submit tx (some broadcaster) server = sent_reply tx (broadcaster tx) server

  abbrev pub broadcast_parsed :
      Reply bc.Transaction
      → Option (bc.Transaction → Reply (Unit {0}))
      → Metrics × Server
      → Reply cr.Value × (Metrics × Server)
  broadcast_parsed (fail e) broadcaster (metrics, server) = (fail e, (metrics, server))
  broadcast_parsed (done tx) broadcaster (metrics, server) =
      let r = submit tx broadcaster server in (r.0, (inc_transactions_broadcast metrics, r.1))

  unfoldable pub handle_transaction_broadcast :
      cr.Value
      → Option (bc.Transaction → Reply (Unit {0}))
      → Metrics × Server
      → Reply cr.Value × (Metrics × Server)
  unfolding submit
  handle_transaction_broadcast params = broadcast_parsed (parse_transaction params)
