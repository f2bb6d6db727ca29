-- ===== src/Config.antt =====
-- src/config.rs: the settings, their defaults, and the mode that the command line asks for, with
-- the feature `electrs-bin` on. Socket addresses, paths, log levels and the environment are parameters; the
-- command line is parsed by the crate `clap`.
pub mod Defaults
use nakamoto_electrs.Prelude.{ℕ, Option, none, some, List, []}
use nakamoto_electrs.Bytes.{Bytes}
use nakamoto_electrs.Text.{text}
use nakamoto_electrs.Library.{Network, mainnet, testnet, signet, regtest, default_electrum_port}

pub record Host : Type 1 where
  pub SocketAddr : Type 0
  pub PathBuf : Type 0
  -- `format!("127.0.0.1:{port}").parse()`
  pub local_addr : ℕ → SocketAddr
  pub path_of : Bytes → PathBuf
  pub push : PathBuf → Bytes → PathBuf
  -- the variable `HOME`
  pub home : Option PathBuf
  -- `tracing::Level`
  pub Level : Type 0
  pub error : Level
  pub warn : Level
  pub info : Level
  pub debug : Level
  pub trace : Level

pub data NetworkArg : Type 0 where
  mainnet_arg testnet_arg signet_arg regtest_arg : NetworkArg

pub data LevelArg : Type 0 where
  error_arg warn_arg info_arg debug_arg trace_arg : LevelArg

pub data Command : Type 0 where
  nakamoto_command electrs_command : Command

unfoldable pub network_of : NetworkArg → Network
network_of mainnet_arg = mainnet
network_of testnet_arg = testnet
network_of signet_arg = signet
network_of regtest_arg = regtest

unfoldable pub network_dir : Network → Bytes
network_dir mainnet = text "mainnet"
network_dir testnet = text "testnet"
network_dir signet = text "signet"
network_dir regtest = text "regtest"

abbrev pub default_reorg_depth : ℕ
default_reorg_depth = 100

module _ ⦃ho : Host⦄ where
  unfoldable pub level_of : LevelArg → ho.Level
  level_of error_arg = ho.error
  level_of warn_arg = ho.warn
  level_of info_arg = ho.info
  level_of debug_arg = ho.debug
  level_of trace_arg = ho.trace

  pub record BridgeConfig : Type 0 where
    pub network : Network
    pub electrum_listen_addr : ho.SocketAddr
    pub nakamoto_peers : List ho.SocketAddr
    pub index_dir : ho.PathBuf
    pub log_level : ho.Level
    pub max_reorg_depth : ℕ

  pub record NakamotoConfig : Type 0 where
    pub network : Network
    pub nakamoto_peers : List ho.SocketAddr
    pub index_dir : ho.PathBuf
    pub log_level : ho.Level

  pub record Cli : Type 0 where
    pub network : NetworkArg
    pub listen : Option ho.SocketAddr
    pub data_dir : Option ho.PathBuf
    pub peer : List ho.SocketAddr
    pub log : LevelArg
    pub max_reorg_depth : ℕ
    pub command : Option Command

  pub data Mode : Type 0 where
    bridge : BridgeConfig → Mode
    nakamoto : NakamotoConfig → Mode
    electrs : Mode

  -- `unwrap_or_else`
  abbrev pub or_default {ℓ} : {A : Type ℓ} → Option A → A → A
  or_default none a = a
  or_default (some b) a = b

  unfoldable pub dirs_or_home : ho.PathBuf
  dirs_or_home = or_default ho.home (ho.path_of (text "."))

  unfoldable pub default_index_dir : Network → ho.PathBuf
  unfolding dirs_or_home network_dir
  default_index_dir network =
      ho.push (ho.push dirs_or_home (text ".nakamoto-electrs")) (network_dir network)

  unfoldable pub default_electrum_addr : Network → ho.SocketAddr
  unfolding default_electrum_port
  default_electrum_addr network = ho.local_addr (default_electrum_port network)

  -- `Config::new`
  unfoldable pub default_config : Network → BridgeConfig
  default_config network = record {
    network = network;
    electrum_listen_addr = ho.local_addr (default_electrum_port network);
    nakamoto_peers = [];
    index_dir = default_index_dir network;
    log_level = ho.info;
    max_reorg_depth = default_reorg_depth;
  }

  -- `NakamotoConfig::new`
  unfoldable pub default_nakamoto_config : Network → NakamotoConfig
  default_nakamoto_config network = record {
    network = network;
    nakamoto_peers = [];
    index_dir = default_index_dir network;
    log_level = ho.info;
  }

  abbrev pub bridge_of : Cli → BridgeConfig
  bridge_of cli = record {
    network = network_of cli.network;
    electrum_listen_addr = or_default cli.listen (default_electrum_addr (network_of cli.network));
    nakamoto_peers = cli.peer;
    index_dir = or_default cli.data_dir (default_index_dir (network_of cli.network));
    log_level = level_of cli.log;
    max_reorg_depth = cli.max_reorg_depth;
  }

  abbrev pub nakamoto_of : Cli → NakamotoConfig
  nakamoto_of cli = record {
    network = network_of cli.network;
    nakamoto_peers = cli.peer;
    index_dir = or_default cli.data_dir (default_index_dir (network_of cli.network));
    log_level = level_of cli.log;
  }

  unfoldable pub into_mode : Cli → Mode
  into_mode cli = elim (cli.command) [
    | some nakamoto_command ↦ nakamoto (nakamoto_of cli)
    | some electrs_command ↦ electrs
    | none ↦ bridge (bridge_of cli)
  ]
