-- ===== src/BlockSource.antt =====
-- src/block_source.rs: the events of a chain, and the interface of a source of blocks. Blocks,
-- headers and their hashes are those of the crate `bitcoin`, which the repository does not hold.
use nakamoto_electrs.Prelude.{ℕ, Option, List, Result}
use nakamoto_electrs.Bytes.{Bytes}
use nakamoto_electrs.Bitcoin.{Bitcoin}

pub record Blocks ⦃bc : Bitcoin⦄ : Type 1 where
  pub Header : Type 0
  pub Block : Type 0
  pub header : Block → Header
  pub txdata : Block → List bc.Transaction
  -- `header.block_hash()`, 32 bytes
  pub block_hash : Header → Bytes
  -- `serialize_hex(&header)`
  pub header_hex : Header → Bytes

module _ ⦃bc : Bitcoin⦄ ⦃bl : Blocks⦄ where
  pub data BlockEvent : Type 0 where
    connected : bl.Block → ℕ → BlockEvent
    disconnected : Bytes → ℕ → BlockEvent
    synced : ℕ → Bytes → BlockEvent

  -- the queries of the trait `BlockSource`, at one moment
  pub record BlockSource : Type 0 where
    pub tip : Result (ℕ × Bytes)
    pub block_header : ℕ → Result (Option bl.Header)
    pub block_by_hash : Bytes → Result (Option bl.Block)
