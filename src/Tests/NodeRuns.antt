-- ===== src/Tests/NodeRuns.antt =====
-- The theorems about the client of the network at concrete inputs.
use nakamoto_electrs.Prelude.{◌≡◌, refl, none, some, [], false}
use nakamoto_electrs.NakamotoSource.{Source, on_block, subscribe_source}
use nakamoto_electrs.NakamotoSource.Cache.{
  IsConsistent, starts, subscribes, block, Runs-IsConsistent,
}
use nakamoto_electrs.App.{Cache, World, Launch, launch, still_running}
use nakamoto_electrs.App.Ends.{IsWorking, empty_cache, launch_lem}
use nakamoto_electrs.Tests.Instances.{toy}
use nakamoto_electrs.Tests.Peers.{blocks, node, ToyBlock}

abbrev first_block : ToyBlock
first_block = record { at = 7; txs = [] }

abbrev at_start : Source
at_start = record { subscribers = []; block_cache = [] }

Runs-IsConsistent_example : IsConsistent (on_block first_block 5 (subscribe_source at_start))
Runs-IsConsistent_example =
    Runs-IsConsistent (on_block first_block 5 (subscribe_source at_start))
      (block first_block 5 (subscribe_source at_start) (subscribes at_start starts))

-- the directories can be removed, and the client starts
abbrev healthy : World
healthy = record {
  remove_dirs = λ c. empty_cache;
  shutdown = λ n. false;
  shutdown_after = λ n. false;
  create_client = λ n. none;
  start = λ n c. still_running;
}

healthy-IsWorking : IsWorking healthy
healthy-IsWorking = record { removes = λ c. refl; own_genesis = λ n e h. absurd (cc (h)) }

-- a cache with half a header
abbrev broken : Cache
broken = record { headers = some 40; filters = some 64 }

launch_lem_example : (l : Launch) × (launch healthy 2 0 broken ≡ some l)
launch_lem_example = launch_lem healthy broken healthy-IsWorking
