-- ===== src/Electrum/Client.antt =====
-- The state of a connection in src/electrum_server.rs, and the requests that change it:
-- `handle_scripthash_subscribe` and `handle_headers_subscribe`.
use nakamoto_electrs.Prelude.{
  ℕ, Bool, true, false, Option, none, some, List, [], ◌∷◌, ◌++◌, Result, ok, err, if◌then◌else◌,
}
use nakamoto_electrs.Bytes.{Bytes}
use nakamoto_electrs.Bitcoin.{Bitcoin}
use nakamoto_electrs.BlockSource.{Blocks, BlockSource}
use nakamoto_electrs.Text.{text}
use nakamoto_electrs.Sled.{Sled}
use nakamoto_electrs.HashMap.{HashMap, insert}
use nakamoto_electrs.HashMap.Keys.{bytes_eq}
use nakamoto_electrs.HashMap.Sets.{has}
use nakamoto_electrs.Store.Types.{ScriptHash}
use nakamoto_electrs.Indexer.State.{IndexState}
use nakamoto_electrs.Electrum.Crates.{Crates, Reply, done, fail}
use nakamoto_electrs.Electrum.Scripthash.{parse_scripthash}
use nakamoto_electrs.Electrum.StatusHash.{script_status}
use nakamoto_electrs.Electrum.Headers.{current_header_status}

pub record ClientState : Type 0 where
  pub subscribed : List ScriptHash
  pub headers_subscribed : Bool
  pub status_by_scripthash : HashMap ScriptHash (Option Bytes)
  pub header_subscription : Option (ℕ × Bytes)

-- `ClientState::new`
abbrev pub new_client : ClientState
new_client = record {
  subscribed = [];
  headers_subscribed = false;
  status_by_scripthash = [];
  header_subscription = none;
}

-- `if !state.subscribed_scripthashes.contains(&sh) { … push(sh) }`
unfoldable pub add_subscription : ScriptHash → ClientState → ClientState
add_subscription sh c =
    if has sh c.subscribed then c else record c { subscribed = c.subscribed ++ sh ∷ [] }

unfoldable pub set_status : ScriptHash → Option Bytes → ClientState → ClientState
set_status sh status c = record c { status_by_scripthash = insert sh status c.status_by_scripthash }

module _ ⦃sl : Sled⦄ ⦃bc : Bitcoin⦄ ⦃bl : Blocks⦄ ⦃cr : Crates⦄ where
  abbrev pub status_value : Option Bytes → cr.Value
  status_value none = cr.null
  status_value (some status) = cr.string status

  -- what follows the parse of the script hash
  abbrev pub subscribed_reply :
      ScriptHash → Result (Option Bytes) → ClientState → Reply cr.Value × ClientState
  subscribed_reply sh (err e) c = (fail (text "status lookup failed: " ++ cr.show_error_chain e), c)
  subscribed_reply sh (ok status) c = (done (status_value status), set_status sh status c)

  abbrev pub subscribe_parsed :
      Reply ScriptHash → IndexState → ClientState → Reply cr.Value × ClientState
  subscribe_parsed (fail e) s c = (fail e, c)
  subscribe_parsed (done sh) s c = subscribed_reply sh (script_status sh s) (add_subscription sh c)

  unfoldable pub handle_scripthash_subscribe :
      cr.Value → IndexState → ClientState → Reply cr.Value × ClientState
  handle_scripthash_subscribe params = subscribe_parsed (parse_scripthash params)

  abbrev pub header_value : Option (ℕ × Bytes) → cr.Value
  header_value (some (height, hex)) =
      cr.object ((text "height", cr.number height) ∷ (text "hex", cr.string hex) ∷ [])
  header_value none = cr.object ((text "height", cr.number 0) ∷ (text "hex", cr.string []) ∷ [])

  abbrev pub headers_reply :
      Result (Option (ℕ × Bytes)) → ClientState → Reply cr.Value × ClientState
  headers_reply (err e) c = (fail (text "block_header error: " ++ cr.show_error e), c)
  headers_reply (ok current) c =
      (done (header_value current), record c { header_subscription = current })

  unfoldable pub handle_headers_subscribe :
      IndexState → BlockSource → ClientState → Reply cr.Value × ClientState
  handle_headers_subscribe s source c =
      headers_reply (current_header_status s source) (record c { headers_subscribed = true })
