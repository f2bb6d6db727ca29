-- ===== src/App/Run.antt =====
-- `run_bridge` and `run_nakamoto` of src/app.rs, and `main` of src/main.rs: the parts of the program in
-- the order in which they are started. Signals, sockets and the binary behind the feature
-- `electrs-bin` are parameters.
use nakamoto_electrs.Prelude.{
  ℕ, Bool, true, false, Option, none, some, List, [], ◌∷◌, Error, Result, ok, err,
}
use nakamoto_electrs.Bytes.{Bytes}
use nakamoto_electrs.Bitcoin.{Bitcoin}
use nakamoto_electrs.BlockSource.{Blocks}
use nakamoto_electrs.Sled.{Sled}
use nakamoto_electrs.Metrics.{zeroed}
use nakamoto_electrs.Store.Open.{Opener}
use nakamoto_electrs.Indexer.Events.{new_indexer, Indexer}
use nakamoto_electrs.Config.{
  Host, Cli, Mode, BridgeConfig, NakamotoConfig, bridge, nakamoto, electrs, into_mode,
}
use nakamoto_electrs.App.{
  Cache, World, Launch, running, stopped, failed, launch, PeersMessage, wait_for_peers,
}

-- how the program ends
pub data Ended : Type 0 where
  finished : Ended
  client_failed server_failed : Bytes → Ended
  index_failed : Error → Ended

-- `wait_for_shutdown`, with the flag at each round; `none` where they are used up
unfoldable pub wait_for_shutdown : List Bool → Option Ended
wait_for_shutdown [] = none
wait_for_shutdown (true ∷ rest) = some finished
wait_for_shutdown (false ∷ rest) = wait_for_shutdown rest

-- `ElectrumServer::bind` and `ElectrumServer::run`, with their errors
abbrev served : Option Bytes → Option Bytes → Ended
served (some e) run_error = server_failed e
served none (some e) = server_failed e
served none none = finished

-- what follows the wait for peers
abbrev peered : Option Bool → Option Bytes → Option Bytes → Option Ended
peered none bind_error run_error = none
peered (some false) bind_error run_error = some finished
peered (some true) bind_error run_error = some (served bind_error run_error)

-- what the program meets outside its code
pub record Machine ⦃sl : Sled⦄ : Type 1 where
  pub world : World
  pub cache : Cache
  pub rounds : ℕ
  pub opener : Opener
  pub peers : List (Bool × PeersMessage × Bool)
  pub shutdown_before_bind : Bool
  pub bind_error : Option Bytes
  pub run_error : Option Bytes
  pub shutdown_polls : List Bool
  pub electrs_end : Option Ended

module _ ⦃sl : Sled⦄ ⦃bc : Bitcoin⦄ ⦃bl : Blocks⦄ where
  abbrev indexed : Result Indexer → Machine → Option Ended
  indexed (err e) m = some (index_failed e)
  indexed (ok i) m = peered (wait_for_peers m.peers m.shutdown_before_bind) m.bind_error m.run_error

  abbrev launched : Option Launch → Machine → Option Ended
  launched none m = none
  launched (some stopped) m = some finished
  launched (some (failed e)) m = some (client_failed e)
  launched (some running) m = indexed (new_indexer m.opener zeroed) m

  unfoldable pub run_bridge : Machine → Option Ended
  run_bridge m = launched (launch m.world m.rounds 0 m.cache) m

module _ ⦃sl : Sled⦄ where
  abbrev node_launched : Option Launch → Machine → Option Ended
  node_launched none m = none
  node_launched (some stopped) m = some finished
  node_launched (some (failed e)) m = some (client_failed e)
  node_launched (some running) m = wait_for_shutdown m.shutdown_polls

  unfoldable pub run_nakamoto : Machine → Option Ended
  unfolding wait_for_shutdown
  run_nakamoto m = node_launched (launch m.world m.rounds 0 m.cache) m

module _ ⦃sl : Sled⦄ ⦃bc : Bitcoin⦄ ⦃bl : Blocks⦄ ⦃ho : Host⦄ where
  -- the match of `main`; the machine may depend on the settings
  abbrev pub run_mode :
      Mode → (BridgeConfig → Machine) → (NakamotoConfig → Machine) → Machine → Option Ended
  run_mode (bridge config) with_bridge with_node other = run_bridge (with_bridge config)
  run_mode (nakamoto config) with_bridge with_node other = run_nakamoto (with_node config)
  run_mode electrs with_bridge with_node other = other.electrs_end

  unfoldable pub main :
      Cli → (BridgeConfig → Machine) → (NakamotoConfig → Machine) → Machine → Option Ended
  unfolding into_mode run_bridge run_nakamoto
  main cli = run_mode (into_mode cli)
