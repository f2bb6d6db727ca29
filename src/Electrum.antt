-- ===== src/Electrum.antt =====
-- src/electrum_server.rs: what its handlers of peer events do to the index.
pub mod Crates
pub mod Scripthash
pub mod Headers
pub mod StatusHash
pub mod Client
pub mod Handlers
pub mod Status
pub mod TxStatus
pub mod Broadcast
pub mod Dispatch
pub mod Notify
pub mod Serve
pub mod Accept
pub mod Session
