-- ===== src/App.antt =====
-- src/app.rs: how the client of the crate `nakamoto` is started, and the threads that pass its
-- events on. The client, the file system and the shutdown flag are parameters.
pub mod Ends
pub mod Run
use nakamoto_electrs.Prelude.{
  ℕ, zero, suc, ◌+◌, ◌/◌, ◌%◌, Bool, true, false, not, ◌&&◌, ◌||◌, ◌==◌, ltb, Option, none, some,
  List, [], ◌∷◌, if◌then◌else◌,
}
use nakamoto_electrs.Bytes.{Bytes}
use nakamoto_electrs.Bitcoin.{Bitcoin}
use nakamoto_electrs.Text.{text}
use nakamoto_electrs.Sled.{Sled}
use nakamoto_electrs.Sled.Entries.{starts_with}
use nakamoto_electrs.Electrum.Crates.{Crates}
use nakamoto_electrs.Electrum.Status.{Server}
use nakamoto_electrs.Electrum.TxStatus.{apply_tx_status_change}

-- the lengths of `headers.db` and `filters.db` in the directory of the cache
pub record Cache : Type 0 where
  pub headers : Option ℕ
  pub filters : Option ℕ

-- `meta.is_ok()`
abbrev pub exists : Option ℕ → Bool
exists none = false
exists (some n) = true

-- `map(|m| m.len()).unwrap_or(0)`
abbrev pub file_len : Option ℕ → ℕ
file_len none = 0
file_len (some n) = n

-- Whether `clear_corrupt_nakamoto_cache` goes on to remove the directories.
unfoldable pub is_corrupt : Cache → Bool
is_corrupt c =
    let headers_exists = exists c.headers in
    let filters_exists = exists c.filters in
    let headers_len = file_len c.headers in
    let filters_len = file_len c.filters in
    let headers_ok = headers_exists && (ltb 0 headers_len && headers_len % 80 == 0) in
    let filters_ok = filters_exists && (ltb 0 filters_len && filters_len % 64 == 0) in
    if not headers_exists && not filters_exists
    then false
    else not (headers_ok && (filters_ok && headers_len / 80 == filters_len / 64))

-- `str::contains`
unfoldable pub contains_text : Bytes → Bytes → Bool
contains_text p [] = starts_with p []
contains_text p (c ∷ cs) = starts_with p (c ∷ cs) || contains_text p cs

-- what comes out of the channel of the client's thread within the time for its start
pub data Startup : Type 0 where
  client_error : Bytes → Startup
  still_running lost : Startup

-- how the start ends: the client runs, a shutdown was asked for, or an error is returned
pub data Launch : Type 0 where
  running stopped : Launch
  failed : Bytes → Launch

-- what the loop meets in its rounds
pub record World : Type 0 where
  -- both calls of `remove_dir_all`, whose results are dropped
  pub remove_dirs : Cache → Cache
  -- the flag at the top of a round, and after the wait
  pub shutdown : ℕ → Bool
  pub shutdown_after : ℕ → Bool
  -- `Client::new()`, with its error
  pub create_client : ℕ → Option Bytes
  -- the client on this cache
  pub start : ℕ → Cache → Startup

abbrev pub genesis_mismatch : Bytes
genesis_mismatch = text "stored genesis header doesn't match network genesis"

-- the body of the loop after the cache was checked: `none` for `continue`
abbrev pub started : Bool → Option Bytes → Startup → Option Launch
started shutdown_after (some e) outcome = some (failed e)
started shutdown_after none (client_error e) =
    if contains_text genesis_mismatch e then none else some (failed e)
started shutdown_after none still_running = if shutdown_after then some stopped else some running
started shutdown_after none lost =
    some (failed (text "nakamoto client startup channel disconnected"))

-- a round of the loop: how it ends, or the cache that the next one finds
unfoldable pub launch_round : World → ℕ → Cache → Option Launch × Cache
launch_round w round c =
    if w.shutdown round
    then (some stopped, c)
    else if is_corrupt c
    then (none, w.remove_dirs c)
    else (
      started (w.shutdown_after round) (w.create_client round) (w.start round c),
      w.remove_dirs c,
    )

-- The loop, of which `rounds` are left; `none` where they are used up.
unfoldable pub launch : World → ℕ → ℕ → Cache → Option Launch
unfolding launch_round
launch w zero round c = none
launch w (suc rounds) round c =
    let later = launch w rounds (suc round) (launch_round w round c).1 in
    elim ((launch_round w round c).0) [ some result ↦ some result | none ↦ later ]

-- what `recv_timeout` gives in the wait for peers
pub data PeersMessage : Type 0 where
  peers_found peers_failed peers_timeout peers_lost : PeersMessage

-- the wait for peers, and the check after it: whether the server is started. A shutdown is
-- asked for where a flag is set, one for the top of a round and one after a timeout.
unfoldable pub wait_for_peers : List (Bool × PeersMessage × Bool) → Bool → Option Bool
wait_for_peers [] shutdown = none
wait_for_peers ((true, message, after) ∷ rest) shutdown = some false
wait_for_peers ((false, peers_found, after) ∷ rest) shutdown = some (not shutdown)
wait_for_peers ((false, peers_failed, after) ∷ rest) shutdown = some (not shutdown)
wait_for_peers ((false, peers_lost, after) ∷ rest) shutdown = some (not shutdown)
wait_for_peers ((false, peers_timeout, true) ∷ rest) shutdown = some false
wait_for_peers ((false, peers_timeout, false) ∷ rest) shutdown = wait_for_peers rest shutdown

-- the client's events that the two threads look at, and any other
pub data ClientEvent : Type 0 where
  fee_estimated : ℕ → ClientEvent
  tx_status_changed : Bytes → Bytes → ClientEvent
  other_client_event : ClientEvent

-- a round of the thread of the fee rate: `update_sat_per_vb` of the median
unfoldable pub on_fee_event : ClientEvent → ℕ → ℕ
on_fee_event (fee_estimated median) fee_rate = median
on_fee_event (tx_status_changed txid status) fee_rate = fee_rate
on_fee_event other_client_event fee_rate = fee_rate

module _ ⦃sl : Sled⦄ ⦃bc : Bitcoin⦄ ⦃cr : Crates⦄ where
  -- a round of the thread of the transactions' states; an error is logged only
  unfoldable pub on_tx_status_event : ClientEvent → Server → Server
  on_tx_status_event (tx_status_changed txid status) s = (apply_tx_status_change txid status s).1
  on_tx_status_event (fee_estimated median) s = s
  on_tx_status_event other_client_event s = s
