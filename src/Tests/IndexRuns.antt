-- ===== src/Tests/IndexRuns.antt =====
-- The theorems about the queries and the reload at concrete inputs.
use nakamoto_electrs.Prelude.{
  ℕ, ◌+◌, ◌%◌, ◌^◌, ◌-◌, ◌≡◌, refl, Option, none, some, [], ◌∷◌, ok, ◌∙◌, beq, if◌then◌else◌,
  Bool-cases, inl, inr,
}
use nakamoto_electrs.Bytes.{Bytes}
use nakamoto_electrs.Bitcoin.{OutPoint, same_outpoint}
use nakamoto_electrs.Sled.Entries.{find}
use nakamoto_electrs.HashMap.{get, insert}
use nakamoto_electrs.HashMap.Sets
use nakamoto_electrs.HashMap.Sets.{has}
use nakamoto_electrs.HashMap.Keys.{bytes_eq}
use nakamoto_electrs.Store.Types.{StoredOutput, ScriptHash}
use nakamoto_electrs.Store.Index.{load_output, load_tx, store_tx}
use nakamoto_electrs.Store.Index.Laws.{load_tx-store_tx}
use nakamoto_electrs.Indexer.State.{IndexState, from_script}
use nakamoto_electrs.Indexer.Pending.{rebuild_pending_view, pending_spent_outpoints}
use nakamoto_electrs.Indexer.Queries.Delta.{unconfirmed_balance_delta_for_script}
use nakamoto_electrs.Indexer.Queries.Balance.{
  total, confirmed_worth, chained_worth, received, unconfirmed_balance_delta_for_script_lem,
}
use nakamoto_electrs.Tests.Instances.{
  memory, toy, reliable, lawful, Tx, digest, coinbase, spend, empty_store, empty_state,
}

-- the coinbase and the spend of its output are pending, and the view is built
abbrev pub viewed : IndexState
viewed =
    rebuild_pending_view
      (record empty_state { pending_txs = (digest 1, coinbase) ∷ (digest 2, spend) ∷ [] })

abbrev pub payee : ScriptHash
payee = from_script (8 ∷ [])

no_outputs : (o : OutPoint) → (v : Option StoredOutput) × (load_output o viewed.store ≡ ok v)
unfolding load_output find rebuild_pending_view
no_outputs o = (none, refl)

-- whom the coinbase pays; the spend takes it away
abbrev miner : ScriptHash
miner = from_script (7 ∷ [])

unconfirmed_balance_delta_for_script_lem_example :
    (d : ℕ) × (unconfirmed_balance_delta_for_script miner viewed ≡ ok d)
    × ((d
            + total miner viewed no_outputs
                (confirmed_worth miner viewed)
                (pending_spent_outpoints viewed)
            + total miner viewed no_outputs
                (chained_worth miner viewed)
                (pending_spent_outpoints viewed))
          % 2 ^ 64
        ≡ received miner viewed viewed.pending_outputs % 2 ^ 64)
unconfirmed_balance_delta_for_script_lem_example =
    unconfirmed_balance_delta_for_script_lem miner viewed no_outputs

-- An output that is made and spent by pending transactions counts as a loss of 50.
chained_loss : unconfirmed_balance_delta_for_script miner viewed ≡ ok (2 ^ 64 - 50)
unfolding unconfirmed_balance_delta_for_script rebuild_pending_view beq has get Sets.add
    same_outpoint insert from_script find
chained_loss = refl

no_txs : (t : Bytes) → load_tx t empty_store ≡ ok none
unfolding load_tx find
no_txs t = refl

-- the spend is in the store
abbrev stored : IndexState
stored = record empty_state { store = (store_tx spend empty_store).1 }

abbrev pub found : Bytes → Option Tx
found t = if beq t (digest 2) then some spend else none

pub stored_reads : (t : Bytes) → load_tx t stored.store ≡ ok (found t)
stored_reads t = elim (Bool-cases (beq t (digest 2))) [
  | inl h ↦ load_tx-store_tx reliable lawful empty_store spend t ∙ rw h refl
  | inr h ↦ load_tx-store_tx reliable lawful empty_store spend t ∙ rw h (no_txs t)
]
