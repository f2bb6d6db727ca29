-- ===== src/Tests/MempoolRuns.antt =====
-- The theorems about pending transactions at concrete inputs.
use nakamoto_electrs.Prelude.{
  ℕ, ◌<◌, ◌≡◌, ◌≢◌, refl, sym, arith, true, false, none, some, List, [], ◌∷◌, ok, ◌⊎◌, ap, beq,
}
use nakamoto_electrs.Bytes.{Bytes}
use nakamoto_electrs.Bitcoin.{same_outpoint}
use nakamoto_electrs.Sled.Entries.{find}
use nakamoto_electrs.HashMap.{get, insert}
use nakamoto_electrs.HashMap.Keys.{bytes_eq, outpoint_eq}
use nakamoto_electrs.HashMap.Sets
use nakamoto_electrs.HashMap.Sets.{has}
use nakamoto_electrs.Store.Types.{ScriptHash}
use nakamoto_electrs.Store.Index.{load_pending_txids}
use nakamoto_electrs.Indexer.State.{IndexState}
use nakamoto_electrs.Store.Codec.Outpoints.{IsOutPoint}
use nakamoto_electrs.Indexer.Pending.{
  rebuild_pending_view, spend_inputs, spends_from, conflicts, meets, prevout_txids,
  pending_conflicting_txids,
}
use nakamoto_electrs.Indexer.Graph.{walk, unseen}
use nakamoto_electrs.Indexer.Graph.Closure.{Reach, here, next}
use nakamoto_electrs.Indexer.Mempool.{
  chain, descendants, forget_each, forget_pending_transaction_chain_internal,
  track_pending_transaction,
}
use nakamoto_electrs.Indexer.Mempool.Chain.{
  has-chain, forgotten_chain, kept_outside_chain, no_orphan,
}
use nakamoto_electrs.Indexer.Mempool.Track.{
  IsListed, track_evicted_lem, track_pending_transaction_lem, tracked_no_conflict,
}
use nakamoto_electrs.Indexer.Mempool.Rebroadcast.{rebroadcast_evicts}
use nakamoto_electrs.Bytes.{Bytes}
use nakamoto_electrs.Sled.Entries.{find}
use nakamoto_electrs.Prelude.{List}
use nakamoto_electrs.Store.Index.{load_output}
use nakamoto_electrs.Indexer.State.{from_script}
use nakamoto_electrs.Indexer.Pending.{
  pending_tx_touches_script, input_touches, output_touches, script_hash_for_outpoint,
  pending_output_for_outpoint,
}
use nakamoto_electrs.Electrum.Status.{
  Sender, stale, apply_tx_status_kind, Server, Delivered, apply_stale,
}
use nakamoto_electrs.Tests.Instances.{
  memory, reliable, toy, lawful, digest, digest-IsArray, coinbase, spend, rival, grandchild,
  first_output, empty_store, empty_state,
}

-- the coinbase and the spend of its output are pending
abbrev chained : IndexState
chained = record empty_state { pending_txs = (digest 1, coinbase) ∷ (digest 2, spend) ∷ [] }

-- the spend alone is pending
abbrev spending : IndexState
spending = record empty_state { pending_txs = (digest 2, spend) ∷ [] }

reached : Reach (descendants chained.pending_txs) (digest 1) (digest 2)
unfolding descendants spends_from has beq
reached = next here refl

forgotten_chain_example :
    get (digest 2) (forget_pending_transaction_chain_internal (digest 1) chained).1.pending_txs
    ≡ none
forgotten_chain_example = forgotten_chain chained (digest 1) (digest 2) reached

pub empty_IsListed : IsListed empty_store
unfolding load_pending_txids find
empty_IsListed = record { txids = []; loads = refl; arrays = tt }

abbrev first : Bytes → ℕ
first [] = 0
first (x ∷ xs) = x

distinct : (m n : ℕ) → m < 256 → n < 256 → (m < n) → digest m ≢ digest n
distinct m n hm hn lt e = absurd (omega (arith, ap first e))

different : digest 1 ≢ digest 2
different = distinct 1 2 (omega arith) (omega arith) (omega arith)

track_pending_transaction_lem_example :
    ((affected : List ScriptHash) × ((track_pending_transaction rival spending).0 ≡ ok affected))
    × (get (digest 3) (track_pending_transaction rival spending).1.pending_txs ≡ some rival)
    × IsListed (track_pending_transaction rival spending).1.store
track_pending_transaction_lem_example =
    track_pending_transaction_lem reliable lawful rival spending empty_IsListed

-- a spend is pending with a transaction that spends its output
abbrev spent_again : IndexState
spent_again = record empty_state { pending_txs = (digest 2, spend) ∷ (digest 4, grandchild) ∷ [] }

pending_spend : get (digest 2) spent_again.pending_txs ≡ some spend
unfolding get beq
pending_spend = refl

below : Reach (descendants spent_again.pending_txs) (digest 2) (digest 4)
unfolding descendants spends_from has beq
below = next here refl

rebroadcast_evicts_example :
    get (digest 4) (track_pending_transaction spend spent_again).1.pending_txs ≡ none
unfolding has spends_from same_outpoint beq
rebroadcast_evicts_example =
    rebroadcast_evicts reliable spend spent_again (digest 4) first_output empty_IsListed
      pending_spend refl refl refl below
      (λ e. distinct 2 4 (omega arith) (omega arith) (omega arith) (sym e))

unreached : has (digest 1) (chain (digest 2) chained) ≡ false
unfolding chain walk unseen descendants spends_from has beq
unreached = refl

outside : ¬ Reach (descendants chained.pending_txs) (digest 2) (digest 1)
outside r = cc ((has-chain chained (digest 2) (digest 1)).1 r, unreached)

kept_outside_chain_example :
    get (digest 1) (forget_pending_transaction_chain_internal (digest 2) chained).1.pending_txs
    ≡ some coinbase
unfolding get beq
kept_outside_chain_example = kept_outside_chain chained (digest 2) (digest 1) outside

left :
    get (digest 1) (forget_pending_transaction_chain_internal (digest 2) chained).1.pending_txs
    ≡ some coinbase
unfolding get beq
left = kept_outside_chain chained (digest 2) (digest 1) outside

no_orphan_example : spends_from (digest 2) (toy.prevouts coinbase) ≡ false
no_orphan_example = no_orphan chained (digest 2) (digest 1) (digest 2) coinbase left here

-- the coinbase alone is pending
abbrev funded : IndexState
funded = record empty_state { pending_txs = (digest 1, coinbase) ∷ [] }

nothing : pending_conflicting_txids spend funded ≡ []
unfolding pending_conflicting_txids conflicts meets prevout_txids spend_inputs has same_outpoint beq
    Sets.add
nothing = refl

beside : get (digest 1) (track_pending_transaction spend funded).1.pending_txs ≡ some coinbase
unfolding track_pending_transaction forget_each rebuild_pending_view insert get beq
beside = rw (nothing, track_evicted_lem reliable spend [] funded empty_IsListed) refl

tracked_no_conflict_example :
    (get (digest 1) funded.pending_txs ≡ some coinbase)
    × ((meets (spend_inputs (toy.prevouts spend) []) (toy.prevouts coinbase) ≡ false)
        ⊎ (has (digest 1) (prevout_txids (spend_inputs (toy.prevouts spend) [])) ≡ true))
tracked_no_conflict_example =
    tracked_no_conflict reliable spend funded (digest 1) coinbase empty_IsListed different beside

first_output-IsOutPoint : IsOutPoint first_output
first_output-IsOutPoint = record { txid = digest-IsArray 1; vout = omega arith }

abbrev listener : Sender
listener = record { is_open = true; queue = [] }

-- a client that went away
abbrev absent : Sender
absent = record { is_open = false; queue = [] }

abbrev watched : Server
watched = record { index = spent_again; senders = absent ∷ listener ∷ [] }

below_pays : pending_tx_touches_script grandchild (from_script (7 ∷ [])) spent_again ≡ true
unfolding pending_tx_touches_script input_touches output_touches script_hash_for_outpoint
    pending_output_for_outpoint from_script get load_output find beq
below_pays = refl

pending_grandchild : get (digest 4) spent_again.pending_txs ≡ some grandchild
unfolding get beq
pending_grandchild = refl

apply_stale_example :
    let after = apply_tx_status_kind (digest 2) stale watched in
    (after.0 ≡ ok tt)
    × (get (digest 4) after.1.index.pending_txs ≡ none)
    × ((affected : List Bytes) × Delivered affected watched.senders after.1.senders
        × (has (from_script (7 ∷ [])) affected ≡ true))
apply_stale_example =
    apply_stale watched (digest 2) (digest 4) spend grandchild (from_script (7 ∷ [])) pending_spend
      below pending_grandchild below_pays
