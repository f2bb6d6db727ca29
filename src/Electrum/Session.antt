-- ===== src/Electrum/Session.antt =====
-- The life of a connection in src/electrum_server.rs: what its client's state can become, by the
-- client's requests and by the notifications, in any order and between any changes of the index.
pub mod Invariant
pub mod Lines
use nakamoto_electrs.Prelude.{◌≡◌, false, none, List}
use nakamoto_electrs.Bytes.{Bytes}
use nakamoto_electrs.Bitcoin.{Bitcoin}
use nakamoto_electrs.BlockSource.{Blocks, BlockSource, BlockEvent}
use nakamoto_electrs.Sled.{Sled}
use nakamoto_electrs.HashMap.{get}
use nakamoto_electrs.HashMap.Keys.{bytes_eq}
use nakamoto_electrs.HashMap.Sets.{has}
use nakamoto_electrs.Store.Types.{ScriptHash}
use nakamoto_electrs.Indexer.State.{IndexState}
use nakamoto_electrs.Electrum.Crates.{Crates}
use nakamoto_electrs.Electrum.Client.{ClientState, new_client}
use nakamoto_electrs.Electrum.Dispatch.{Connection, Context, dispatch_request}
use nakamoto_electrs.Electrum.Notify.{notify_block, notify_pending}
use nakamoto_electrs.Electrum.Notify.Refresh.{Distinct}

-- No script hash is subscribed twice, a status is kept for subscribed ones only, and a header only
-- where the client follows the headers.
pub record IsValid (c : ClientState) : Type 0 where
  pub distinct : Distinct c.subscribed
  pub subscribed_only :
      (sh : ScriptHash) → has sh c.subscribed ≡ false → get sh c.status_by_scripthash ≡ none
  pub headers_only : c.headers_subscribed ≡ false → c.header_subscription ≡ none

module _ ⦃sl : Sled⦄ ⦃bc : Bitcoin⦄ ⦃bl : Blocks⦄ ⦃cr : Crates⦄ where
  pub data Reachable : ClientState → Type 0 where
    initial : Reachable new_client
    request :
        (x : Context) (raw : Bytes) (k : Connection)
        → Reachable k.client
        → Reachable (dispatch_request x raw k).1.client
    block :
        (event : BlockEvent) (s : IndexState) (source : BlockSource) (c : ClientState)
        → Reachable c
        → Reachable (notify_block event s source c).1
    pending :
        (affected : List ScriptHash) (s : IndexState) (c : ClientState)
        → Reachable c
        → Reachable (notify_pending affected s c).1
