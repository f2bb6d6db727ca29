-- ===== src/NakamotoSource.antt =====
-- src/nakamoto_source.rs: the block source on a client of the crate `nakamoto`, which the
-- repository does not hold: its handle, its events and its types are parameters. Each of the two
-- threads takes one message at a time: a function of the message and what the threads share.
pub mod Cache
use nakamoto_electrs.Prelude.{
  ℕ, ◌%◌, ◌^◌, Bool, true, false, Option, none, some, List, [], ◌∷◌, ◌++◌, Result, ok, err, Error,
  map_ok, ◌==◌, length, if◌then◌else◌, out_of_range, bad_tx, io,
}
use nakamoto_electrs.Bytes.{Bytes}
use nakamoto_electrs.Bitcoin.{Bitcoin}
use nakamoto_electrs.BlockSource.{Blocks, BlockEvent, connected, disconnected, synced}
use nakamoto_electrs.HashMap.{HashMap, get, insert}
use nakamoto_electrs.HashMap.Keys.{bytes_eq}
use nakamoto_electrs.Indexer.State.{as_u32}

-- what the file takes from `nakamoto` and from the wire encoding of the two versions of `bitcoin`
pub record Nakamoto ⦃bc : Bitcoin⦄ ⦃bl : Blocks⦄ : Type 1 where
  pub NkBlock : Type 0
  pub NkHeader : Type 0
  -- `nk_serialize`
  pub serialize_block : NkBlock → Bytes
  pub serialize_header : NkHeader → Bytes
  -- `btc_deserialize`
  pub deserialize_block : Bytes → Option bl.Block
  pub deserialize_header : Bytes → Option bl.Header

module _ ⦃bc : Bitcoin⦄ ⦃bl : Blocks⦄ ⦃nk : Nakamoto⦄ where
  -- the client's events that the source reacts to, and any other
  pub data NkEvent : Type 0 where
    block_connected : Bytes → ℕ → NkEvent
    block_disconnected : Bytes → ℕ → NkEvent
    nk_synced : ℕ → ℕ → NkEvent
    other_event : NkEvent

  -- the client's handle, at one moment; a query of the tree may also lose its channel, which
  -- is an error here
  pub record Handle : Type 0 where
    pub get_tip : Result (ℕ × nk.NkHeader)
    pub request_block : Bytes → Result (Unit {0})
    pub query_tree : ℕ → Result (Option nk.NkHeader)

  abbrev pub or_bad {ℓ} : {A : Type ℓ} → Option A → Result A
  or_bad none = err bad_tx
  or_bad (some a) = ok a

  unfoldable pub conv_block : nk.NkBlock → Result bl.Block
  conv_block nk_block = or_bad (nk.deserialize_block (nk.serialize_block nk_block))

  unfoldable pub conv_header : nk.NkHeader → Result bl.Header
  conv_header nk_hdr = or_bad (nk.deserialize_header (nk.serialize_header nk_hdr))

  unfoldable pub conv_hash : Bytes → Result Bytes
  conv_hash nk_hash = if length nk_hash == 32 then ok nk_hash else err out_of_range

  -- One end of a channel: whether its receiver is alive, and what was sent.
  pub record Subscriber : Type 0 where
    pub is_alive : Bool
    pub sent : List BlockEvent

  pub record Source : Type 0 where
    pub subscribers : List Subscriber
    pub block_cache : HashMap Bytes bl.Block

  unfoldable pub broadcast_event : BlockEvent → List Subscriber → List Subscriber
  broadcast_event event [] = []
  broadcast_event event (c ∷ rest) =
      let others = broadcast_event event rest in
      if c.is_alive then record c { sent = c.sent ++ event ∷ [] } ∷ others else others

  abbrev pub send : BlockEvent → Source → Source
  send event s = record s { subscribers = broadcast_event event s.subscribers }

  -- the arms of the match on a converted block
  abbrev pub delivered : Result bl.Block → ℕ → Source → Source
  delivered (err e) height s = s
  delivered (ok block) height s =
      send (connected block (as_u32 height))
        (record s { block_cache = insert (bl.block_hash (bl.header block)) block s.block_cache })

  -- a round of the thread of the blocks; what it puts into the cache and what it sends are one
  -- step
  unfoldable pub on_block : nk.NkBlock → ℕ → Source → Source
  unfolding broadcast_event conv_block
  on_block nk_block height = delivered (conv_block nk_block) height

  abbrev pub disconnected_sent : Result Bytes → ℕ → Source → Source
  disconnected_sent (err e) height s = s
  disconnected_sent (ok hash) height s = send (disconnected hash (as_u32 height)) s

  abbrev pub tip_sent : Result bl.Header → ℕ → Source → Source
  tip_sent (err e) tip s = s
  tip_sent (ok hdr) tip s = send (synced (as_u32 tip) (bl.block_hash hdr)) s

  abbrev pub tip_found : Result (Option nk.NkHeader) → ℕ → Source → Source
  tip_found (err e) tip s = s
  tip_found (ok none) tip s = s
  tip_found (ok (some nk_hdr)) tip s = tip_sent (conv_header nk_hdr) tip s

  -- a round of the thread of the events: the hash that is requested from the client, if any
  unfoldable pub on_event : Handle → NkEvent → Source → Option Bytes × Source
  unfolding broadcast_event conv_header conv_hash
  on_event handle (block_connected hash height) s = (some hash, s)
  on_event handle (block_disconnected hash height) s =
      (none, disconnected_sent (conv_hash hash) height s)
  on_event handle (nk_synced height tip) s = (none, tip_found (handle.query_tree tip) tip s)
  on_event handle other_event s = (none, s)

  -- the implementation of `BlockSource`
  unfoldable pub subscribe_source : Source → Source
  subscribe_source s = record s {
    subscribers = s.subscribers ++ record { is_alive = true; sent = [] } ∷ [];
  }

  abbrev pub tip_of : Result (ℕ × nk.NkHeader) → Result (ℕ × Bytes)
  tip_of (err e) = err e
  tip_of (ok (height, nk_hdr)) =
      map_ok (λ hdr. (as_u32 height, bl.block_hash hdr)) (conv_header nk_hdr)

  unfoldable pub source_tip : Handle → Result (ℕ × Bytes)
  source_tip handle = tip_of handle.get_tip

  abbrev pub header_of : Result (Option nk.NkHeader) → Result (Option bl.Header)
  header_of (err e) = err e
  header_of (ok none) = ok none
  header_of (ok (some nk_hdr)) = map_ok some (conv_header nk_hdr)

  unfoldable pub source_header : Handle → ℕ → Result (Option bl.Header)
  source_header handle height = header_of (handle.query_tree height)

  unfoldable pub source_block : Source → Bytes → Result (Option bl.Block)
  source_block s hash = ok (get hash s.block_cache)
