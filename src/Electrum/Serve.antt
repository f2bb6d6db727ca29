-- ===== src/Electrum/Serve.antt =====
-- The requests of a connection, one line after the other (`handle_client` of
-- src/electrum_server.rs), and what the accept loop does around it (`ElectrumServer::run`).
use nakamoto_electrs.Prelude.{List, [], ◌∷◌}
use nakamoto_electrs.Bytes.{Bytes}
use nakamoto_electrs.Bitcoin.{Bitcoin}
use nakamoto_electrs.BlockSource.{Blocks}
use nakamoto_electrs.Sled.{Sled}
use nakamoto_electrs.Metrics.{
  Metrics, inc_electrum_requests, inc_electrum_connections, dec_electrum_connections,
}
use nakamoto_electrs.Electrum.Crates.{Crates}
use nakamoto_electrs.Electrum.Client.{new_client}
use nakamoto_electrs.Electrum.Status.{Server, subscribe}
use nakamoto_electrs.Electrum.Dispatch.{Connection, Context, dispatch_request}

module _ ⦃sl : Sled⦄ ⦃bc : Bitcoin⦄ ⦃bl : Blocks⦄ ⦃cr : Crates⦄ where
  -- what a client's thread starts with: it follows the pending changes
  unfoldable pub open_connection : Metrics → Server → Connection
  unfolding subscribe
  open_connection metrics server = record {
    metrics = metrics;
    server = record server { senders = subscribe server.senders };
    client = new_client;
  }

  -- the loop over the lines, until the last one: what is written, and the connection after it
  unfoldable pub handle_lines : Context → List Bytes → Connection → List cr.Value × Connection
  handle_lines x [] c = ([], c)
  handle_lines x ([] ∷ lines) c = handle_lines x lines c
  handle_lines x ((b ∷ line) ∷ lines) c =
      let counted = record c { metrics = inc_electrum_requests c.metrics } in
      let r = dispatch_request x (b ∷ line) counted in
      let rest = handle_lines x lines r.1 in (r.0 ∷ rest.0, rest.1)

  -- A connection from the moment it is accepted to the end of its thread, with no other at work
  -- beside it: what is written, the counters and the server after it.
  unfoldable pub serve_connection :
      Context → List Bytes → Metrics → Server → List cr.Value × (Metrics × Server)
  unfolding open_connection handle_lines
  serve_connection x lines metrics server =
      let r = handle_lines x lines (open_connection (inc_electrum_connections metrics) server) in
      (r.0, (dec_electrum_connections r.1.metrics, r.1.server))
