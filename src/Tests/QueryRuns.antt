-- ===== src/Tests/QueryRuns.antt =====
-- The theorems about the rows of the queries, the counter of the connections and the settings at
-- concrete inputs.
use nakamoto_electrs.Prelude.{
  ℕ, ◌<◌, ◌≡◌, refl, arith, true, false, Bool, List, [], ◌∷◌, ok, beq, All,
}
use nakamoto_electrs.Prelude.Sort.{sort_by}
use nakamoto_electrs.Prelude.Sort.Ordered.{Ordered}
use nakamoto_electrs.Prelude.{◌++◌}
use mathlib.Core.List.{Perm}
use nakamoto_electrs.Bitcoin.{same_outpoint}
use nakamoto_electrs.Sled.Entries.{find, scan}
use nakamoto_electrs.HashMap.{get, insert, listed}
use nakamoto_electrs.HashMap.Keys.{bytes_eq, outpoint_eq}
use nakamoto_electrs.HashMap.Sets
use nakamoto_electrs.HashMap.Sets.{has}
use nakamoto_electrs.Store.Types.{StoredUnspent}
use nakamoto_electrs.Store.Loops.{collect}
use nakamoto_electrs.Store.Index.{store_tx, store_pending_txid, load_pending_txids}
use nakamoto_electrs.Indexer.Mempool.{track_pending_transaction, track_evicted, forget_each}
use nakamoto_electrs.Indexer.State.{IndexState, from_script}
use nakamoto_electrs.Indexer.Pending.{
  pending_spent_outpoints, rebuild_pending_view, pending_conflicting_txids, conflicts,
}
use nakamoto_electrs.Indexer.Queries.History.{get_history}
use nakamoto_electrs.Indexer.Queries.History.Order.{Before, unconfirmed, get_history-Ordered}
use nakamoto_electrs.Indexer.Queries.Fees.{fee_histogram}
use nakamoto_electrs.Indexer.Queries.Fees.Rows.{Descending, fee_histogram-Descending}
use nakamoto_electrs.Indexer.Queries.Unspent.{list_unspent, unspent_le, dedup}
use nakamoto_electrs.Indexer.Queries.Unspent.Free.{IsFree, list_unspent-IsFree}
use nakamoto_electrs.Electrum.Accept.{
  Accepted, stream, would_block, Listening, accept_loop, client_ends,
}
use nakamoto_electrs.Electrum.Accept.Gauge.{starts, accepts, ends, electrum_connections_lem}
use nakamoto_electrs.Metrics.{zeroed}
use nakamoto_electrs.Tests.Instances.{memory, reliable, toy, lawful, digest, empty_store}
use nakamoto_electrs.Tests.MempoolRuns.{empty_IsListed}
use nakamoto_electrs.Tests.IndexRuns.{viewed, payee}
use nakamoto_electrs.Tests.ReachableRuns.{waiting, waiting_Reachable, empty_IsNamed}

-- an entry of a block beside the pending ones
abbrev confirmed_too : IndexState
confirmed_too = record viewed {
  history = (payee, record { txid = digest 1; height = 5; sequence = 0 } ∷ []) ∷ [];
}

get_history-Ordered_example :
    Ordered Before (get_history payee confirmed_too)
    × Perm (get_history payee confirmed_too) (
        listed (get payee confirmed_too.history)
        ++ unconfirmed payee confirmed_too confirmed_too.pending_txs)
unfolding from_script
get_history-Ordered_example =
    get_history-Ordered payee confirmed_too (unfold get beq in (omega arith, tt))

-- the spend leaves a fee of 10 for a size of 1
one_row : fee_histogram viewed ≡ ok ((10, 1) ∷ [])
unfolding fee_histogram rebuild_pending_view beq has find get Sets.add same_outpoint insert sort_by
one_row = refl

fee_histogram-Descending_example :
    Descending ((10, 1) ∷ []) × All (λ (row : ℕ × ℕ). 0 < row.0) ((10, 1) ∷ [])
fee_histogram-Descending_example = fee_histogram-Descending viewed ((10, 1) ∷ []) one_row

abbrev paid : StoredUnspent
paid = record { txid = digest 2; vout = 0; value = 40; height = 0 }

one_unspent : list_unspent payee waiting ≡ ok (paid ∷ [])
unfolding list_unspent collect scan track_pending_transaction track_evicted store_tx
    store_pending_txid load_pending_txids find forget_each pending_conflicting_txids conflicts
    rebuild_pending_view sort_by insert has beq Sets.add same_outpoint from_script
one_unspent = refl

list_unspent-IsFree_example : All (IsFree (pending_spent_outpoints waiting)) (paid ∷ [])
list_unspent-IsFree_example =
    list_unspent-IsFree reliable lawful empty_store waiting payee (paid ∷ []) empty_IsListed
      empty_IsNamed waiting_Reachable one_unspent

-- An output that is confirmed and pending is listed twice, where another one stands between.
abbrev row : ℕ → ℕ → StoredUnspent
row n height = record { txid = digest n; vout = 0; value = 50; height = height }

kept_twice :
    dedup (sort_by unspent_le (row 1 5 ∷ row 3 2 ∷ row 1 0 ∷ [])) ≡ row 1 0 ∷ row 3 2 ∷ row 1 5 ∷ []
unfolding dedup sort_by unspent_le beq
kept_twice = refl

-- two clients are accepted, one of them leaves
abbrev polls : List (Bool × Accepted)
polls = (false, stream) ∷ (false, would_block) ∷ (false, stream) ∷ (true, stream) ∷ []

abbrev opened : Listening
opened = accept_loop polls (record { metrics = zeroed; clients = 0 })

two_open : opened.clients ≡ 2
unfolding accept_loop
two_open = refl

electrum_connections_lem_example : (client_ends opened).metrics.electrum_connections ≡ 1
unfolding client_ends accept_loop
electrum_connections_lem_example =
    electrum_connections_lem (client_ends opened)
      (ends opened (omega (arith, two_open)) (accepts _ polls starts))
