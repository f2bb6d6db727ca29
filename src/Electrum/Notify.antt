-- ===== src/Electrum/Notify.antt =====
-- The thread of src/electrum_server.rs that notifies a client (`handle_client`): on an event of the
-- chain, and on a change of the pending transactions. Each turn of its loop is a function of what
-- arrived: the messages to write, and the client's state after it. The index and the source of
-- blocks stand as they are during the turn.
pub mod Refresh
pub mod One
pub mod Messages
pub mod Again
pub mod Wait
pub mod Turn
use nakamoto_electrs.Prelude.{
  ◌≡◌, ℕ, suc, zero, Bool, true, false, not, ◌&&◌, ◌==◌, ltb, leb, beq, Option, none, some, List,
  [], ◌∷◌, ◌++◌, map, Result, ok, err, if◌then◌else◌,
}
use nakamoto_electrs.Bytes.{Bytes}
use nakamoto_electrs.Bitcoin.{Bitcoin}
use nakamoto_electrs.BlockSource.{Blocks, BlockSource, BlockEvent, connected, disconnected, synced}
use nakamoto_electrs.Text.{text}
use nakamoto_electrs.Sled.{Sled}
use nakamoto_electrs.HashMap.{HashMap, get, insert}
use nakamoto_electrs.HashMap.Keys.{bytes_eq}
use nakamoto_electrs.HashMap.Sets.{has}
use nakamoto_electrs.Store.Types.{ScriptHash}
use nakamoto_electrs.Indexer.State.{IndexState}
use nakamoto_electrs.Electrum.Crates.{Crates}
use nakamoto_electrs.Electrum.Scripthash.{to_hex}
use nakamoto_electrs.Electrum.Headers.{current_header_status}
use nakamoto_electrs.Electrum.StatusHash.{script_status}
use nakamoto_electrs.Electrum.Client.{ClientState, status_value, header_value}

-- `*entry == status`
unfoldable pub same_status : Option Bytes → Option Bytes → Bool
same_status none none = true
same_status (some a) (some b) = beq a b
same_status _ _ = false

abbrev pub Change : Type 0
Change = ScriptHash × Option Bytes

-- `entry(sh).or_insert(None)`, when the entry was found or not
abbrev pub or_insert_none :
    ScriptHash
    → Option (Option Bytes)
    → HashMap ScriptHash (Option Bytes)
    → HashMap ScriptHash (Option Bytes)
or_insert_none sh none m = insert sh none m
or_insert_none sh (some status) m = m

-- what that entry holds
abbrev pub entry_status : Option (Option Bytes) → Option Bytes
entry_status none = none
entry_status (some status) = status

-- the rest of the loop body, once the status is known
unfoldable pub refresh_one : ScriptHash → Option Bytes → ClientState → List Change × ClientState
unfolding same_status
refresh_one sh status c =
    let m = or_insert_none sh (get sh c.status_by_scripthash) c.status_by_scripthash in
    if same_status (entry_status (get sh c.status_by_scripthash)) status
    then ([], record c { status_by_scripthash = m })
    else ((sh, status) ∷ [], record c { status_by_scripthash = insert sh status m })

-- `*header_subscription != current_headers`
unfoldable pub same_header : Option (ℕ × Bytes) → Option (ℕ × Bytes) → Bool
same_header none none = true
same_header (some a) (some b) = a.0 == b.0 && beq a.1 b.1
same_header _ _ = false

-- what is set when the client follows the headers and the header is a new one
unfoldable pub refresh_header : Option (ℕ × Bytes) → ClientState → Bool × ClientState
unfolding same_header
refresh_header current c =
    if c.headers_subscribed && not (same_header c.header_subscription current)
    then (true, record c { header_subscription = current })
    else (false, c)

-- `.ok().flatten()`
abbrev pub ok_flatten {ℓ} : {A : Type ℓ} → Result (Option A) → Option A
ok_flatten (ok o) = o
ok_flatten (err e) = none

module _ ⦃sl : Sled⦄ ⦃bc : Bitcoin⦄ ⦃bl : Blocks⦄ ⦃cr : Crates⦄ where
  -- the loop over the subscriptions that `wanted` lets through
  unfoldable pub refresh :
      (ScriptHash → Bool) → IndexState → List ScriptHash → ClientState → List Change × ClientState
  unfolding refresh_one
  refresh wanted s [] c = ([], c)
  refresh wanted s (sh ∷ subs) c = elim (wanted sh) [
    | false ↦ refresh wanted s subs c
    | true ↦ elim (script_status sh s) [
      | err e ↦ refresh wanted s subs c
      | ok status ↦
          let r = refresh_one sh status c in
          let rest = refresh wanted s subs r.1 in (r.0 ++ rest.0, rest.1)
    ]
  ]

  abbrev pub notification : Bytes → List cr.Value → cr.Value
  notification method params = cr.object (
      (text "jsonrpc", cr.string (text "2.0"))
      ∷ (text "method", cr.string method)
      ∷ (text "params", cr.array params)
      ∷ [])

  abbrev pub change_message : Change → cr.Value
  change_message change =
      notification (text "blockchain.scripthash.subscribe")
        (cr.string (to_hex change.0) ∷ status_value change.1 ∷ [])

  abbrev pub header_message : Option (ℕ × Bytes) → cr.Value
  header_message current =
      notification (text "blockchain.headers.subscribe") (header_value current ∷ [])

  -- `wait_for_indexer_tip`: whether the tip has reached the event
  unfoldable pub ready : BlockEvent → ℕ → Bool
  ready (connected block height) tip = leb height tip
  ready (disconnected hash height) tip = ltb tip height
  ready (synced height hash) tip = true

  -- Its loop: the tip is read at each round, `left` rounds before the deadline. The result is
  -- the round it ends in.
  unfoldable pub wait_for_indexer_tip : BlockEvent → (ℕ → ℕ) → ℕ → ℕ → ℕ
  unfolding ready
  wait_for_indexer_tip event tips zero round = round
  wait_for_indexer_tip event tips (suc left) round =
      let later = wait_for_indexer_tip event tips left (suc round) in
      if ready event (tips round) then round else later

  -- the header that a client is told of
  unfoldable pub event_header : BlockEvent → IndexState → BlockSource → Option (ℕ × Bytes)
  event_header (connected block height) s source = some (height, bl.header_hex (bl.header block))
  event_header (disconnected hash height) s source = ok_flatten (current_header_status s source)
  event_header (synced height hash) s source = ok_flatten (current_header_status s source)

  -- the body under `matches!(event, Connected | Disconnected)`
  unfoldable pub notify_tip :
      BlockEvent → IndexState → BlockSource → ClientState → List cr.Value × ClientState
  unfolding refresh refresh_header event_header
  notify_tip event s source c =
      let current = event_header event s source in
      let refreshed = refresh (λ sh. true) s c.subscribed c in
      let header = refresh_header current refreshed.1 in
      (
        (if header.0 then header_message current ∷ [] else []) ++ map change_message refreshed.0,
        header.1,
      )

  unfoldable pub notify_block :
      BlockEvent → IndexState → BlockSource → ClientState → List cr.Value × ClientState
  unfolding notify_tip
  notify_block (connected block height) s source c = notify_tip (connected block height) s source c
  notify_block (disconnected hash height) s source c =
      notify_tip (disconnected hash height) s source c
  notify_block (synced height hash) s source c = ([], c)

  -- `recv(events)`, while other threads change the index: `states` is the index at each round of
  -- the wait, and the rest reads it as it is when the wait ends
  unfoldable pub block_turn :
      BlockEvent → (ℕ → IndexState) → ℕ → BlockSource → ClientState → List cr.Value × ClientState
  unfolding notify_block wait_for_indexer_tip
  block_turn event states left source c =
      let end = wait_for_indexer_tip event (λ k. (states k).tip_height) left 0 in
      notify_block event (states end) source c

  -- `if affected.is_empty() { continue; }` and the rest
  unfoldable pub notify_pending :
      List ScriptHash → IndexState → ClientState → List cr.Value × ClientState
  unfolding refresh
  notify_pending [] s c = ([], c)
  notify_pending (a ∷ affected) s c =
      let refreshed = refresh (λ sh. has sh (a ∷ affected)) s c.subscribed c in
      (map change_message refreshed.0, refreshed.1)
