-- ===== src/Tests/TurnRuns.antt =====
-- A turn of the notification thread beside the indexer at concrete inputs.
use nakamoto_electrs.Prelude.{
  ℕ, zero, suc, ◌≤◌, ◌≡◌, refl, arith, true, some, Option, [], ◌∷◌, ok, beq,
}
use nakamoto_electrs.Bytes.{Bytes}
use nakamoto_electrs.BlockSource.{BlockEvent, connected}
use nakamoto_electrs.HashMap.{get}
use nakamoto_electrs.HashMap.Keys.{bytes_eq}
use nakamoto_electrs.HashMap.Sets.{has}
use nakamoto_electrs.Store.Types.{ScriptHash}
use nakamoto_electrs.Indexer.State.{IndexState}
use nakamoto_electrs.Indexer.Blocks.{
  apply_block, apply_txs, apply_tx, apply_inputs, apply_input, apply_outputs, apply_output,
}
use nakamoto_electrs.Store.Index.{
  store_tx, store_journal_action, store_history_entry, store_output, set_tip_height,
}
use nakamoto_electrs.Electrum.Client.{new_client}
use nakamoto_electrs.Electrum.StatusHash.{script_status}
use nakamoto_electrs.Electrum.Notify.{ready, block_turn, notify_tip}
use nakamoto_electrs.Electrum.Notify.Turn.{block_turn_lem}
use nakamoto_electrs.Tests.Instances.{memory, toy, coinbase, empty_state}
use nakamoto_electrs.Tests.Peers.{blocks, crates, short_chain}

abbrev fifth_block : BlockEvent
fifth_block = connected (record { at = 5; txs = coinbase ∷ [] }) 5

-- the block is connected between the first look of the thread and the second
abbrev states : ℕ → IndexState
states zero = empty_state
states (suc n) = (apply_block (coinbase ∷ []) 5 empty_state).1

applies : (apply_block (coinbase ∷ []) 5 empty_state).0 ≡ ok tt
unfolding apply_block apply_txs apply_tx store_tx store_journal_action apply_inputs apply_input beq
    apply_outputs apply_output store_history_entry store_output set_tip_height
applies = refl

block_turn_lem_example :
    (end : ℕ) × (end ≤ 1)
    × (ready fifth_block (states end).tip_height ≡ true)
    × (block_turn fifth_block states 100 short_chain new_client
        ≡ notify_tip fifth_block (states end) short_chain new_client)
    × ((sh : ScriptHash) (status : Option Bytes)
        → has sh new_client.subscribed ≡ true
        → script_status sh (states end) ≡ ok status
        → get sh (block_turn fifth_block states 100 short_chain new_client).1.status_by_scripthash
          ≡ some status)
block_turn_lem_example =
    block_turn_lem fifth_block states 100 1 short_chain new_client (omega arith)
      (empty_state, applies, refl)
