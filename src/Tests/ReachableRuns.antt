-- ===== src/Tests/ReachableRuns.antt =====
-- The theorems about the states that the indexer goes through at concrete inputs.
use nakamoto_electrs.Prelude.{
  ◌^◌, ◌≤◌, ◌≡◌, refl, arith, none, some, [], ◌∷◌, ok, beq, if◌then◌else◌, length,
}
use nakamoto_electrs.Bytes.{Bytes}
use nakamoto_electrs.Bitcoin.{OutPoint}
use nakamoto_electrs.Sled.Entries
use nakamoto_electrs.Sled.Entries.{find}
use nakamoto_electrs.HashMap.{get}
use nakamoto_electrs.HashMap.Keys.{bytes_eq, outpoint_eq, nat_eq}
use nakamoto_electrs.HashMap.Sets.{has}
use nakamoto_electrs.Store.Index.{
  load_tx, store_tx, store_pending_txid, load_pending_txids, load_journal_actions,
  load_history_entries,
}
use nakamoto_electrs.Store.Loops.{collect, push_new}
use nakamoto_electrs.Store.Codec.{decode_txid_list, encode_txid_list}
use nakamoto_electrs.Indexer.State.{IndexState}
use nakamoto_electrs.Indexer.Pending.{
  pending_spent_outpoints, scanned, rebuild_pending_view, pending_conflicting_txids, conflicts,
}
use nakamoto_electrs.Indexer.Mempool.{track_pending_transaction, track_evicted, forget_each}
use nakamoto_electrs.Indexer.Mempool.Track.{track_pending_transaction_lem}
use nakamoto_electrs.Indexer.Blocks.{apply_block}
use nakamoto_electrs.Indexer.Startup.{new}
use nakamoto_electrs.Indexer.Reachable.{Reachable, begun, block, tracked}
use nakamoto_electrs.Indexer.Reachable.Sound.{IsCoherent, IsNamed}
use nakamoto_electrs.Indexer.Reachable.Invariant.{
  Reachable-IsCoherent, Reachable-pending_outputs, Reachable-restart,
}
use nakamoto_electrs.Tests.Instances.{
  memory, reliable, toy, lawful, digest, Tx, coinbase, spend, rival, grandchild, outputs,
  empty_store,
}
use nakamoto_electrs.Indexer.Reachable.Restart.{confirms, new_pending_lem}
use nakamoto_electrs.Tests.IndexRuns.{found, stored_reads}
use nakamoto_electrs.Tests.MempoolRuns.{empty_IsListed}

-- what a start from the empty store makes
abbrev pub fresh : IndexState
fresh = record {
  history = [];
  by_height = [];
  pending_txs = [];
  pending_outputs = [];
  tip_height = 0;
  store = empty_store;
}

begins : new empty_store ≡ ok fresh
unfolding new load_history_entries collect load_journal_actions load_pending_txids find
    rebuild_pending_view
begins = refl

first_Reachable : Reachable empty_store fresh
first_Reachable = begun fresh begins

-- the coinbase is confirmed, and the spend is pending
abbrev busy : IndexState
busy = (track_pending_transaction spend (apply_block (coinbase ∷ []) 1 fresh).1).1

busy_Reachable : Reachable empty_store busy
busy_Reachable = tracked _ spend (block fresh (coinbase ∷ []) 1 first_Reachable)

pub empty_IsNamed : IsNamed empty_store
unfolding load_tx find
empty_IsNamed txid tx e = absurd (cc (e))

small : (tx : Tx) → length (outputs tx) ≤ 2 ^ 32
small coinbase = omega arith
small spend = omega arith
small rival = omega arith
small grandchild = omega arith

Reachable-IsCoherent_example : IsCoherent busy
Reachable-IsCoherent_example =
    Reachable-IsCoherent reliable lawful empty_store busy empty_IsListed empty_IsNamed
      busy_Reachable

abbrev paid_output : OutPoint
paid_output = record { txid = digest 2; vout = 0 }

Reachable-pending_outputs_example : get paid_output busy.pending_outputs ≡ (
    if has paid_output (pending_spent_outpoints busy)
    then none
    else scanned paid_output (get (digest 2) busy.pending_txs))
Reachable-pending_outputs_example =
    Reachable-pending_outputs reliable lawful empty_store busy paid_output empty_IsListed
      empty_IsNamed small busy_Reachable

-- the spend alone is pending
abbrev pub waiting : IndexState
waiting = (track_pending_transaction spend fresh).1

pub waiting_Reachable : Reachable empty_store waiting
waiting_Reachable = tracked fresh spend first_Reachable

-- what a start from its store makes
abbrev reloaded : IndexState
reloaded = record waiting { tip_height = 0 }

reloads : new waiting.store ≡ ok reloaded
unfolding new load_history_entries collect load_journal_actions load_pending_txids find
    rebuild_pending_view track_pending_transaction track_evicted store_tx store_pending_txid
    forget_each pending_conflicting_txids conflicts Entries.insert beq decode_txid_list
    encode_txid_list push_new has load_tx
reloads = refl

reads : (t : Bytes) → load_tx t waiting.store ≡ ok (found t)
unfolding load_tx track_pending_transaction track_evicted store_tx store_pending_txid
    load_pending_txids find forget_each pending_conflicting_txids conflicts rebuild_pending_view
reads t = stored_reads t

waits : get (digest 2) waiting.pending_txs ≡ some spend
waits = (track_pending_transaction_lem reliable lawful spend fresh empty_IsListed).1

no_actions : load_journal_actions waiting.store ≡ ok []
unfolding load_journal_actions collect track_pending_transaction track_evicted store_tx
    store_pending_txid load_pending_txids find forget_each pending_conflicting_txids conflicts
    rebuild_pending_view
no_actions = refl

-- the list of the store
waiting_listed : load_pending_txids waiting.store ≡ ok (digest 2 ∷ [])
unfolding load_pending_txids track_pending_transaction track_evicted store_tx store_pending_txid
    find forget_each pending_conflicting_txids conflicts rebuild_pending_view Entries.insert beq
    decode_txid_list encode_txid_list push_new
waiting_listed = refl

new_pending_lem_example : get (digest 2) reloaded.pending_txs ≡ some spend
unfolding confirms beq has
new_pending_lem_example =
    new_pending_lem waiting.store (digest 2 ∷ []) reloaded (digest 2) [] (λ t. (found t, reads t))
      waiting_listed no_actions reloads

Reachable-restart_example : get (digest 2) reloaded.pending_txs ≡ some spend
unfolding confirms beq
Reachable-restart_example =
    Reachable-restart reliable lawful empty_store waiting reloaded (digest 2) spend []
      (λ t. (found t, reads t)) empty_IsListed empty_IsNamed waiting_Reachable waits
      (reads (digest 2)) no_actions refl reloads
