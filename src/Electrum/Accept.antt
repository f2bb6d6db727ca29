-- ===== src/Electrum/Accept.antt =====
-- The accept loop of src/electrum_server.rs (`ElectrumServer::run`) and the threads that it starts:
-- the counter of the open connections.
pub mod Gauge
use nakamoto_electrs.Prelude.{ℕ, suc, ◌-◌, Bool, true, false, List, [], ◌∷◌}
use nakamoto_electrs.Metrics.{
  Metrics, inc_electrum_connections, dec_electrum_connections, inc_electrum_requests,
  inc_transactions_broadcast, inc_blocks_indexed, inc_blocks_rolled_back,
}

-- what `accept` gives: a stream, or an error of one of the kinds that are told apart
pub data Accepted : Type 0 where
  stream would_block interrupted accept_error : Accepted

-- the counters, and the number of the threads of clients that run
pub record Listening : Type 0 where
  pub metrics : Metrics
  pub clients : ℕ

-- the body of the loop
unfoldable pub accept_round : Accepted → Listening → Listening
accept_round stream l = record {
  metrics = inc_electrum_connections l.metrics;
  clients = suc l.clients;
}
accept_round would_block l = l
accept_round interrupted l = l
accept_round accept_error l = l

-- the loop, with the flag and what is accepted at each round
unfoldable pub accept_loop : List (Bool × Accepted) → Listening → Listening
unfolding accept_round
accept_loop [] l = l
accept_loop ((true, a) ∷ rest) l = l
accept_loop ((false, a) ∷ rest) l = accept_loop rest (accept_round a l)

-- the end of a client's thread, with or without an error; a thread that panics does not come to
-- the decrement, and is not modelled
unfoldable pub client_ends : Listening → Listening
client_ends l = record { metrics = dec_electrum_connections l.metrics; clients = l.clients - 1 }

-- the counters that the other threads move
pub data Counted : Type 0 where
  request sent indexed rolled_back : Counted

unfoldable pub count : Counted → Metrics → Metrics
count request m = inc_electrum_requests m
count sent m = inc_transactions_broadcast m
count indexed m = inc_blocks_indexed m
count rolled_back m = inc_blocks_rolled_back m
