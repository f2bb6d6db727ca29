-- ===== src/Electrum/Dispatch.antt =====
-- `dispatch_request` of src/electrum_server.rs: a line of a client becomes a response, and may
-- change the connection, the index and the counters.
use nakamoto_electrs.Prelude.{ℕ, Option, none, some, List, [], ◌∷◌, ◌++◌, beq, if◌then◌else◌}
use nakamoto_electrs.Prelude.Int.{ℤ, negsuc}
use nakamoto_electrs.Bytes.{Bytes}
use nakamoto_electrs.Bitcoin.{Bitcoin}
use nakamoto_electrs.BlockSource.{Blocks, BlockSource}
use nakamoto_electrs.Text.{text}
use nakamoto_electrs.Sled.{Sled}
use nakamoto_electrs.Metrics.{Metrics}
use nakamoto_electrs.Electrum.Crates.{Crates, Reply, done, fail}
use nakamoto_electrs.Electrum.Headers.{handle_block_header, handle_block_headers}
use nakamoto_electrs.Electrum.Client.{
  ClientState, handle_scripthash_subscribe, handle_headers_subscribe,
}
use nakamoto_electrs.Electrum.Handlers.{
  handle_server_version, handle_estimatefee, handle_relayfee, handle_scripthash_get_history,
  handle_scripthash_get_balance, handle_scripthash_get_mempool, handle_scripthash_listunspent,
  handle_transaction_get, handle_fee_histogram,
}
use nakamoto_electrs.Electrum.Status.{Server}
use nakamoto_electrs.Electrum.Broadcast.{handle_transaction_broadcast}

-- the methods that the server knows, and any other with its name
pub data Method : Type 0 where
  server_version server_ping server_banner : Method
  headers_subscribe get_history get_balance get_mempool listunspent scripthash_subscribe : Method
  transaction_get transaction_broadcast estimatefee block_header block_headers relayfee : Method
  get_fee_histogram : Method
  unknown : Bytes → Method

-- the arms of the match, in order
abbrev pub arms : List (Bytes × Method)
arms =
    (text "server.version", server_version)
    ∷ (text "server.ping", server_ping)
    ∷ (text "server.banner", server_banner)
    ∷ (text "blockchain.headers.subscribe", headers_subscribe)
    ∷ (text "blockchain.scripthash.get_history", get_history)
    ∷ (text "blockchain.scripthash.get_balance", get_balance)
    ∷ (text "blockchain.scripthash.get_mempool", get_mempool)
    ∷ (text "blockchain.scripthash.listunspent", listunspent)
    ∷ (text "blockchain.scripthash.subscribe", scripthash_subscribe)
    ∷ (text "blockchain.transaction.get", transaction_get)
    ∷ (text "blockchain.transaction.broadcast", transaction_broadcast)
    ∷ (text "blockchain.estimatefee", estimatefee)
    ∷ (text "blockchain.block.header", block_header)
    ∷ (text "blockchain.block.headers", block_headers)
    ∷ (text "blockchain.relayfee", relayfee)
    ∷ (text "mempool.get_fee_histogram", get_fee_histogram)
    ∷ []

unfoldable pub find_arm : List (Bytes × Method) → Bytes → Method
find_arm [] name = unknown name
find_arm ((arm, method) ∷ rest) name =
    let later = find_arm rest name in if beq arm name then method else later

module _ ⦃sl : Sled⦄ ⦃bc : Bitcoin⦄ ⦃bl : Blocks⦄ ⦃cr : Crates⦄ where
  pub record Connection : Type 0 where
    pub metrics : Metrics
    pub server : Server
    pub client : ClientState

  -- What does not change while a request is handled: the version, the source of blocks, the
  -- broadcaster, and the last fee rate.
  pub record Context : Type 0 where
    pub version : Bytes
    pub source : BlockSource
    pub broadcaster : Option (bc.Transaction → Reply (Unit {0}))
    pub fee_rate : ℕ

  -- a handler that changes nothing
  abbrev pub reading : Reply cr.Value → Connection → Reply cr.Value × Connection
  reading reply c = (reply, c)

  -- a handler that changes the client's state
  abbrev pub on_client :
      (ClientState → Reply cr.Value × ClientState) → Connection → Reply cr.Value × Connection
  on_client f c = ((f c.client).0, record c { client = (f c.client).1 })

  abbrev pub on_server :
      (Metrics × Server → Reply cr.Value × (Metrics × Server))
      → Connection
      → Reply cr.Value × Connection
  on_server f c =
      let r = f (c.metrics, c.server) in (r.0, record c { metrics = r.1.0; server = r.1.1 })

  -- the match on the method
  unfoldable pub call : Context → Method → cr.Value → Connection → Reply cr.Value × Connection
  call x server_version params c = reading (handle_server_version x.version params) c
  call x server_ping params c = reading (done cr.null) c
  call x server_banner params c =
      reading (done (cr.string (text "nakamoto-electrs: nakamoto SPV + Electrum bridge"))) c
  call x headers_subscribe params c = on_client (handle_headers_subscribe c.server.index x.source) c
  call x get_history params c = reading (handle_scripthash_get_history params c.server.index) c
  call x get_balance params c = reading (handle_scripthash_get_balance params c.server.index) c
  call x get_mempool params c = reading (handle_scripthash_get_mempool params c.server.index) c
  call x listunspent params c = reading (handle_scripthash_listunspent params c.server.index) c
  call x scripthash_subscribe params c =
      on_client (handle_scripthash_subscribe params c.server.index) c
  call x transaction_get params c = reading (handle_transaction_get params c.server.index) c
  call x transaction_broadcast params c =
      on_server (handle_transaction_broadcast params x.broadcaster) c
  call x estimatefee params c = reading (handle_estimatefee params x.fee_rate) c
  call x block_header params c = reading (handle_block_header params x.source) c
  call x block_headers params c = reading (handle_block_headers params x.source) c
  call x relayfee params c = reading handle_relayfee c
  call x get_fee_histogram params c = reading (handle_fee_histogram c.server.index) c
  call x (unknown name) params c = reading (fail (text "unknown method '" ++ (name ++ text "'"))) c

  abbrev pub error_response : cr.Value → ℤ → Bytes → cr.Value
  error_response id code message = cr.object (
      (text "jsonrpc", cr.string (text "2.0"))
      ∷ (text "id", id)
      ∷ (
        text "error",
        cr.object ((text "code", cr.signed code) ∷ (text "message", cr.string message) ∷ []),
      )
      ∷ [])

  unfoldable pub response : cr.Value → Reply cr.Value → cr.Value
  response id (done v) =
      cr.object
        ((text "jsonrpc", cr.string (text "2.0")) ∷ (text "id", id) ∷ (text "result", v) ∷ [])
  response id (fail message) = error_response id (negsuc 32600) message

  -- `unwrap_or`
  abbrev pub unwrap_or {ℓ} : {A : Type ℓ} → A → Option A → A
  unwrap_or a none = a
  unwrap_or a (some b) = b

  abbrev pub id_of : cr.Value → cr.Value
  id_of req = unwrap_or cr.null (cr.get_key (text "id") req)

  abbrev pub text_of : Option cr.Value → Bytes
  text_of none = []
  text_of (some v) = unwrap_or [] (cr.as_str v)

  abbrev pub method_of : cr.Value → Method
  method_of req = find_arm arms (text_of (cr.get_key (text "method") req))

  abbrev pub params_of : cr.Value → cr.Value
  params_of req = unwrap_or cr.null (cr.get_key (text "params") req)

  abbrev pub dispatch_parsed : Context → Reply cr.Value → Connection → cr.Value × Connection
  dispatch_parsed x (fail e) c =
      (error_response cr.null (negsuc 32699) (text "parse error: " ++ e), c)
  dispatch_parsed x (done req) c =
      let r = call x (method_of req) (params_of req) c in (response (id_of req) r.0, r.1)

  unfoldable pub dispatch_request : Context → Bytes → Connection → cr.Value × Connection
  dispatch_request x raw c = dispatch_parsed x (cr.from_str raw) c
