-- ===== src/Indexer.antt =====
-- src/indexer.rs: the state of the index, the view of the mempool, connected and disconnected
-- blocks, and the queries.
pub mod State
pub mod Payload
pub mod Pending
pub mod Graph
pub mod Mempool
pub mod Blocks
pub mod Events
pub mod Queries
pub mod Startup
pub mod Reachable
