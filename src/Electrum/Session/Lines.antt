-- ===== src/Electrum/Session/Lines.antt =====
-- The loop over the lines of a connection stays within what a client's state can become.
use nakamoto_electrs.Prelude.{List, [], ◌∷◌}
use nakamoto_electrs.Bytes.{Bytes}
use nakamoto_electrs.Bitcoin.{Bitcoin}
use nakamoto_electrs.BlockSource.{Blocks}
use nakamoto_electrs.Sled.{Sled}
use nakamoto_electrs.Metrics.{Metrics, inc_electrum_requests}
use nakamoto_electrs.Electrum.Crates.{Crates}
use nakamoto_electrs.Electrum.Status.{Server}
use nakamoto_electrs.Electrum.Dispatch.{Connection, Context, dispatch_request}
use nakamoto_electrs.Electrum.Serve.{open_connection, handle_lines}
use nakamoto_electrs.Electrum.Session.{Reachable, initial, request}

module _ ⦃sl : Sled⦄ ⦃bc : Bitcoin⦄ ⦃bl : Blocks⦄ ⦃cr : Crates⦄ where
  handle_lines-Reachable :
      (x : Context) (lines : List Bytes) (c : Connection)
      → Reachable c.client
      → Reachable (handle_lines x lines c).1.client
  unfolding handle_lines
  handle_lines-Reachable x [] c r = r
  handle_lines-Reachable x ([] ∷ lines) c r = handle_lines-Reachable x lines c r
  handle_lines-Reachable x ((b ∷ line) ∷ lines) c r =
      let counted = record c { metrics = inc_electrum_requests c.metrics } in
      handle_lines-Reachable x lines (dispatch_request x (b ∷ line) counted).1
        (request x (b ∷ line) counted r)

  -- What the lines of a new connection lead to is reachable.
  session-Reachable :
      (x : Context) (lines : List Bytes) (metrics : Metrics) (server : Server)
      → Reachable (handle_lines x lines (open_connection metrics server)).1.client
  unfolding open_connection
  session-Reachable x lines metrics server =
      handle_lines-Reachable x lines (open_connection metrics server) initial
