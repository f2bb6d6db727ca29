-- ===== src/Indexer/Queries.antt =====
-- The queries of src/indexer.rs: history, mempool entries and fees, the unconfirmed balance, and
-- the unspent outputs.
pub mod History
pub mod Fees
pub mod Delta
pub mod Balance
pub mod Unspent
