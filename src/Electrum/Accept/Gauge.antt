-- ===== src/Electrum/Accept/Gauge.antt =====
-- The counter of the open connections is the number of the clients that are served.
use nakamoto_electrs.Prelude.{
  ◌%◌, ◌^◌, ◌<◌, ◌≡◌, refl, ◌∙◌, arith, List, [], ◌∷◌, true, false, Bool,
}
use nakamoto_electrs.Metrics.{
  Metrics, zeroed, inc_electrum_connections, dec_electrum_connections, inc_electrum_requests,
  inc_transactions_broadcast, inc_blocks_indexed, inc_blocks_rolled_back,
}
use nakamoto_electrs.Electrum.Accept.{
  Accepted, stream, would_block, interrupted, accept_error, Listening, accept_round, accept_loop,
  client_ends, Counted, request, sent, indexed, rolled_back, count,
}

-- What the threads of the server do, in any order: a part of the accept loop, the end of a client
-- that runs, and the counters of the others.
pub data Runs : Listening → Type 0 where
  starts : Runs (record { metrics = zeroed; clients = 0 })
  accepts : (l : Listening) (polls : List (Bool × Accepted)) → Runs l → Runs (accept_loop polls l)
  ends : (l : Listening) → 0 < l.clients → Runs l → Runs (client_ends l)
  counts : (l : Listening) (c : Counted) → Runs l → Runs (record l { metrics = count c l.metrics })

abbrev IsGauge : Listening → Type 0
IsGauge l = l.metrics.electrum_connections ≡ l.clients % 2 ^ 64

accept_round-IsGauge : (a : Accepted) (l : Listening) → IsGauge l → IsGauge (accept_round a l)
unfolding accept_round inc_electrum_connections
accept_round-IsGauge stream l h = rw h (omega arith)
accept_round-IsGauge would_block l h = h
accept_round-IsGauge interrupted l h = h
accept_round-IsGauge accept_error l h = h

accept_loop-IsGauge :
    (polls : List (Bool × Accepted)) (l : Listening) → IsGauge l → IsGauge (accept_loop polls l)
unfolding accept_loop
accept_loop-IsGauge [] l h = h
accept_loop-IsGauge ((true, a) ∷ rest) l h = h
accept_loop-IsGauge ((false, a) ∷ rest) l h =
    accept_loop-IsGauge rest (accept_round a l) (accept_round-IsGauge a l h)

client_ends-IsGauge : (l : Listening) → 0 < l.clients → IsGauge l → IsGauge (client_ends l)
unfolding client_ends dec_electrum_connections
client_ends-IsGauge l some h = rw h (omega (arith, some))

count_connections :
    (c : Counted) (m : Metrics) → (count c m).electrum_connections ≡ m.electrum_connections
unfolding count inc_electrum_requests inc_transactions_broadcast inc_blocks_indexed
    inc_blocks_rolled_back
count_connections request m = refl
count_connections sent m = refl
count_connections indexed m = refl
count_connections rolled_back m = refl

-- Whatever the accept loop meets, and in whatever order clients end (their threads do not panic)
-- and the other counters move, the counter of the open connections is the number of clients that
-- are served, modulo 2 ^ 64.
pub electrum_connections_lem :
    (l : Listening) → Runs l → l.metrics.electrum_connections ≡ l.clients % 2 ^ 64
electrum_connections_lem _ starts = refl
electrum_connections_lem _ (accepts l polls before) =
    accept_loop-IsGauge polls l (electrum_connections_lem l before)
electrum_connections_lem _ (ends l some before) =
    client_ends-IsGauge l some (electrum_connections_lem l before)
electrum_connections_lem _ (counts l c before) =
    count_connections c l.metrics ∙ electrum_connections_lem l before
