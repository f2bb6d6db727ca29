-- ===== src/Indexer/Events.antt =====
-- The indexer's thread (`Indexer::start` of src/indexer.rs): the loop over the events of a chain,
-- on the counters and the index. The loop holds the write lock of the index during each call, so
-- each event is one step.
pub mod Reorg
use nakamoto_electrs.Prelude.{ℕ, List, [], ◌∷◌, ok, err, Result, ◌>>=◌}
use nakamoto_electrs.Bitcoin.{Bitcoin}
use nakamoto_electrs.BlockSource.{Blocks, BlockEvent, connected, disconnected, synced}
use nakamoto_electrs.Sled.{Sled}
use nakamoto_electrs.Metrics.{Metrics, inc_blocks_indexed, inc_blocks_rolled_back}
use nakamoto_electrs.Store.Open.{Opener, open_index}
use nakamoto_electrs.Indexer.Startup.{new}
use nakamoto_electrs.Indexer.State.{IndexState}
use nakamoto_electrs.Indexer.Blocks.{apply_block, rollback_height}

-- the match on the result: a counter moves where the call went well
abbrev pub counted : (Metrics → Metrics) → Result (Unit {0}) → Metrics → Metrics
counted inc (ok x) m = inc m
counted inc (err e) m = m

module _ ⦃sl : Sled⦄ ⦃bc : Bitcoin⦄ ⦃bl : Blocks⦄ where
  pub record Indexer : Type 0 where
    pub metrics : Metrics
    pub state : IndexState

  -- the body of the loop
  unfoldable pub handle_event : BlockEvent → Indexer → Indexer
  handle_event (connected b height) i =
      let r = apply_block (bl.txdata b) height i.state in
      record { metrics = counted inc_blocks_indexed r.0 i.metrics; state = r.1 }
  handle_event (disconnected hash height) i =
      let r = rollback_height height i.state in
      record { metrics = counted inc_blocks_rolled_back r.0 i.metrics; state = r.1 }
  handle_event (synced height tip) i = i

  -- `for event in &rx`
  unfoldable pub handle_events : List BlockEvent → Indexer → Indexer
  unfolding handle_event
  handle_events [] i = i
  handle_events (event ∷ rest) i = handle_events rest (handle_event event i)

  -- `Indexer::new`
  unfoldable pub new_indexer : Opener → Metrics → Result Indexer
  unfolding open_index new
  new_indexer o metrics = open_index o >>= λ store.
      new store >>= λ state. ok (record { metrics = metrics; state = state })
