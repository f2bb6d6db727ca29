-- ===== src/Config/Defaults.antt =====
-- The settings that an empty command line leads to.
use nakamoto_electrs.Prelude.{◌≡◌, refl, none, some, []}
use nakamoto_electrs.Config.{
  Host, NetworkArg, info_arg, Cli, Command, nakamoto_command, bridge, nakamoto, default_reorg_depth,
  network_of, level_of, default_config, default_nakamoto_config, default_electrum_addr, into_mode,
}
use nakamoto_electrs.Prelude.{Option}

module _ ⦃ho : Host⦄ where
  -- what `clap` makes of a command line that only names a network and a command
  abbrev pub plain : NetworkArg → Option Command → Cli
  plain network command = record {
    network = network;
    listen = none;
    data_dir = none;
    peer = [];
    log = info_arg;
    max_reorg_depth = default_reorg_depth;
    command = command;
  }

  -- The bridge that an empty command line asks for has the default settings of its network.
  pub into_mode-default_config :
      (network : NetworkArg)
      → into_mode (plain network none) ≡ bridge (default_config (network_of network))
  unfolding into_mode default_config default_electrum_addr level_of
  into_mode-default_config network = refl

  -- So has the node.
  pub into_mode-default_nakamoto_config :
      (network : NetworkArg)
      → into_mode (plain network (some nakamoto_command))
        ≡ nakamoto (default_nakamoto_config (network_of network))
  unfolding into_mode default_nakamoto_config level_of
  into_mode-default_nakamoto_config network = refl
