-- ===== src/Lib.antt =====
-- nakamoto-electrs: an Electrum server on a light client, with its own index of a wallet's
-- scripts. This library models the index (what it keeps on disk, what it holds in memory, and how
-- blocks and unconfirmed transactions change both), the server's requests and notifications, and
-- the way of the light client's events to the index.
--
-- The parts and how they interact. The indexer (src/indexer.rs) is one state, `IndexState`, behind
-- a lock. A block is connected (`apply_block`) or disconnected (`rollback_height`); an unconfirmed
-- transaction is tracked, restored or forgotten. Each of these calls the persistent index
-- (src/store.rs), six trees of an embedded database, whose keys and values are byte strings of
-- fixed layouts. Every block leaves undo records, in memory by height and in the journal on disk.
-- The block source (src/nakamoto_source.rs) turns the events of the light client into events of
-- the chain (src/block_source.rs), which the indexer's thread applies one by one. The Electrum
-- server (src/electrum_server.rs) answers the requests of its clients from the index, keeps what
-- each client follows, and notifies a client when a block or a pending transaction changes a
-- status; it hands transactions that clients broadcast, and the states of transactions that the
-- peer reports, to the index. The process (src/app.rs) starts the light client and the threads.
--
-- Which file models which part:
--   Prelude, Bytes, HashMap: shared helpers, integers as bytes, the maps and sets of the standard
--     library as lists.
--   Bitcoin: the crate `bitcoin` as a parameter (transactions, ids, wire format, digest).
--   Sled: the crate `sled` as a parameter, and the behaviour of an ordered map that does not fail.
--   Store/Codec: the keys and values of src/store.rs (`history_key`, `encode_output`, …).
--   Text: texts as their bytes, and the standard library's functions on them.
--   BlockSource, Metrics: the events of a chain, and the counters.
--   Store/Loops, Store/Index: `PersistentIndex` and its methods, one definition per method.
--   Store/Index/Writes: the writes of the store as data, and the contents that it represents.
--   Store/Open: `PersistentIndex::open`.
--   Indexer/State, Indexer/Payload: `IndexState`, `BlockAction`, and the journal's payloads.
--   Indexer/Pending: `rebuild_pending_view`, `pending_conflicting_txids` and the lookups.
--   Indexer/Graph, Indexer/Mempool: the walks over pending transactions, and tracking, restoring
--     and forgetting them (`track_pending_transaction_internal` and its neighbours).
--   Indexer/Blocks: `apply_block` and `rollback_height`. Indexer/Blocks/Journal: the records that
--     the journal holds for a height.
--   Indexer/Queries: `get_history`, the mempool entries and the fee histogram, the unconfirmed
--     balance, and `list_unspent`.
--   Indexer/Startup: `IndexState::new` and the three functions that reload the store.
--   Indexer/Reachable: the states that the indexer goes through, by all of these operations and by
--     restarts.
--   Indexer/Events: the loop of `Indexer::start` over the events of the chain.
--   NakamotoSource: the threads and queries of `NakamotoBlockSource`.
--   Electrum/Crates: JSON values, floating point and error texts as a parameter.
--   Electrum/Status, Electrum/TxStatus: `apply_tx_status_change` and the broadcast to clients.
--   Electrum/Scripthash, Electrum/Headers, Electrum/StatusHash, Electrum/Client,
--   Electrum/Handlers, Electrum/Broadcast: the handlers of src/electrum_server.rs and their helpers.
--   Electrum/Dispatch, Electrum/Serve: `dispatch_request`, and a connection's lines.
--   Electrum/Notify: the notification thread of `handle_client`.
--   Electrum/Session: what a client's state can become by requests and notifications.
--   Electrum/Accept: the accept loop, and the counter of the open connections.
--   App: the start of the light client and the small threads of `run_bridge`. App/Run: `run_bridge`,
--     `run_nakamoto` and `main` of src/main.rs.
--   Library, Config: the helpers of src/lib.rs and the settings of src/config.rs.
--   Tests: a database in memory, four transactions, a toy of JSON and of the light client, at which
--     the theorems are run.
--
-- How state and operations correspond. A method on `&mut self` is a function from the state to a
-- result and the next state (`Exec`); `?` is the bind, which keeps what was written before an
-- error. `let _ =` drops the error and keeps the writes. Integers are natural numbers: casts to
-- `u32` and the sequence counter wrap at 2 ^ 32, as in a release build. A hash map is an
-- association list with one entry for each key, and its iteration order is that of the list.
--
-- Bounds and fuel. The walks over the pending transactions run on fuel: with `n` pending
-- transactions a walk takes at most `2 + (n + 1) * n` rounds, since each vertex is expanded once
-- and queues at most `n` others; `walk_fuel` is that number, and a walk that has an empty queue
-- stops early.
--
-- The number of rounds of `wait_for_indexer_tip` is an argument (100 rounds of 20 ms), and so is
-- that of the loop that starts the light client. A decimal text has at most 20 digits, which a
-- number of 64 bits has.
--
-- Threads. The index is behind a lock, and each step takes it once: a step of the indexer's thread
-- is an event, a step of a client is a request, a step of the notification thread is a message that
-- arrives, and in between the index may change in any way. The state of a client is behind a lock
-- too. A step sees one state of the index and of the client, also where the code takes a lock more
-- than once in it.
--
-- Not modelled: the database itself, sockets and writes to them that fail, logging,
-- signals, panics, the parsing of the command line, and the construction of threads and channels
-- (src/store.rs, src/electrum_server.rs, src/app.rs, src/config.rs), which are input
-- and output; the methods of `Indexer` that only take the lock and delegate; JSON, floating point,
-- the texts of errors and the light client itself, which are parameters; and `format_fee_rate` of
-- src/lib.rs, which formats a floating-point number.
pub mod Prelude
pub mod Bytes
pub mod Text
pub mod Bitcoin
pub mod Sled
pub mod HashMap
pub mod BlockSource
pub mod Metrics
pub mod NakamotoSource
pub mod Indexer
pub mod Electrum
pub mod App
pub mod Library
pub mod Config
pub mod Tests
pub mod Store
