-- ===== src/Tests/BlockRuns.antt =====
-- A block with a coinbase and a spend of its output, connected and disconnected.
use nakamoto_electrs.Prelude.{ℕ, ◌≡◌, refl, arith, none, [], ◌∷◌, ok, beq}
use nakamoto_electrs.Bytes.{be_bytes, IsArray}
use nakamoto_electrs.Bytes.Order
use nakamoto_electrs.Sled.Entries
use nakamoto_electrs.HashMap.{get, push_at}
use nakamoto_electrs.HashMap.Keys.{nat_eq}
use nakamoto_electrs.Store.Types.{StoredOutput}
use nakamoto_electrs.Store.Codec.{
  journal_key, outpoint_key, utxo_key, history_key, encode_output, decode_output, encode_txid_list,
  decode_txid_list, chunks,
}
use nakamoto_electrs.Store.Loops.{without}
use nakamoto_electrs.Store.Index.{
  load_output, store_tx, store_journal_action, delete_pending_txid, load_pending_txids,
  store_output, store_history_entry, delete_utxo,
}
use nakamoto_electrs.Indexer.State.{IndexState, BlockAction, push_action, push_history, from_script}
use nakamoto_electrs.Indexer.Pending.{rebuild_pending_view}
use nakamoto_electrs.Indexer.Mempool.{
  restore_pending_transaction, forget_pending_transaction_internal,
}
use nakamoto_electrs.Indexer.Blocks.{
  apply_tx, apply_input, apply_inputs, apply_spend, apply_output, apply_outputs, apply_block,
  apply_txs, rollback_height, undo,
}
use nakamoto_electrs.Indexer.Blocks.Views.{views}
use nakamoto_electrs.Indexer.Blocks.Run
use nakamoto_electrs.Indexer.Blocks.Run.{ValidTx, ValidTxs}
use nakamoto_electrs.Indexer.Blocks.Reverted.{restore-undo}
use nakamoto_electrs.Indexer.Blocks.Rollback.{rollback_height-apply_block, rollback_height_others}
use nakamoto_electrs.Metrics.{zeroed}
use nakamoto_electrs.Indexer.Events.{Indexer, handle_events}
use nakamoto_electrs.Indexer.Events.Reorg.{Returned, next, ends, reorg, handle_events-reorg}
use nakamoto_electrs.Tests.Peers.{blocks, ToyBlock}
use nakamoto_electrs.Tests.Instances.{memory, reliable, toy, digest, coinbase, spend, empty_state}

script-IsArray : (n : ℕ) → IsArray 32 (from_script (n ∷ []))
unfolding from_script
script-IsArray n = record { sized = refl; bytes = ground arith }

pub coinbase_valid : ValidTx reliable 5 empty_state 0 coinbase 3
unfolding Entries.find Entries.insert beq apply_inputs apply_input push_action push_history store_tx
    store_journal_action delete_pending_txid load_pending_txids rebuild_pending_view
    forget_pending_transaction_internal journal_key be_bytes Order.bcmp outpoint_key utxo_key
    history_key from_script
coinbase_valid = record {
  new = refl;
  mid = 1;
  inputs = Run.input _ _ _ _ _ _ _ (Run.coinbase refl) (Run.no_input _ _ _);
  outputs =
      Run.output _ _ _ _ _ _
        (record {
          storable = record {
            script_hash = script-IsArray 7;
            value = omega arith;
            height = omega arith;
          };
          new_output = refl;
          new_utxo = refl;
          new_history = refl;
          room = record { bounded = omega arith; first = refl; second = refl };
        })
        (Run.no_output _ _ _);
}

-- the output of the coinbase as it is stored
abbrev coin : StoredOutput
coin = record {
  script_hash = from_script (7 ∷ []);
  txid = digest 1;
  vout = 0;
  value = 50;
  height = 5;
}

spend_valid : ValidTx reliable 5 (apply_tx 5 0 coinbase empty_state).1 3 spend 8
unfolding apply_tx apply_output apply_outputs apply_spend store_output store_history_entry
    delete_utxo Entries.remove load_output encode_txid_list decode_txid_list chunks without
    decode_output encode_output Entries.find Entries.insert beq apply_inputs apply_input push_action
    push_history store_tx store_journal_action delete_pending_txid load_pending_txids
    rebuild_pending_view forget_pending_transaction_internal journal_key be_bytes Order.bcmp
    outpoint_key utxo_key history_key from_script
spend_valid = record {
  new = refl;
  mid = 6;
  inputs =
      Run.input _ _ _ _ _ _ _
        (Run.spends refl coin (record {
          at = refl;
          storable = record {
            script_hash = script-IsArray 7;
            value = omega arith;
            height = omega arith;
          };
          held = refl;
          unspent = refl;
          new_history = refl;
          room = record { bounded = omega arith; first = refl; second = refl };
        }))
        (Run.no_input _ _ _);
  outputs =
      Run.output _ _ _ _ _ _
        (record {
          storable = record {
            script_hash = script-IsArray 8;
            value = omega arith;
            height = omega arith;
          };
          new_output = refl;
          new_utxo = refl;
          new_history = refl;
          room = record { bounded = omega arith; first = refl; second = refl };
        })
        (Run.no_output _ _ _);
}

block_valid : ValidTxs reliable 5 empty_state 0 (coinbase ∷ spend ∷ []) 8
block_valid =
    Run.next_tx _ _ _ _ _ _ coinbase_valid (Run.next_tx _ _ _ _ _ _ spend_valid (Run.no_tx _ _))

rollback_height-apply_block_example :
    let after = apply_block (coinbase ∷ spend ∷ []) 5 empty_state in
    let back = rollback_height 5 after.1 in
    (after.0 ≡ ok tt)
    × (back.0 ≡ ok tt)
    × (views reliable back.1.store ≡ views reliable empty_state.store)
    × (get 5 back.1.by_height ≡ none)
    × (back.1.tip_height ≡ 4)
unfolding get
rollback_height-apply_block_example =
    rollback_height-apply_block reliable 5 empty_state (coinbase ∷ spend ∷ []) 8 (omega arith) refl
      block_valid

rollback_height_others_example :
    get 4 (rollback_height 5 (apply_block (coinbase ∷ spend ∷ []) 5 empty_state).1).1.by_height
    ≡ get 4 empty_state.by_height
unfolding get
rollback_height_others_example =
    rollback_height_others reliable 5 empty_state (coinbase ∷ spend ∷ []) 8 4 (omega arith) refl
      block_valid refl

restore-undo_example :
    let after : IndexState = record empty_state {
      store = (undo (BlockAction.tx (digest 2) (journal_key 5 3)) empty_state.store).1;
    } in
    restore_pending_transaction (digest 2) after ≡ (ok none, after)
restore-undo_example = restore-undo reliable (digest 2) (journal_key 5 3) empty_state

abbrev fifth : ToyBlock
fifth = record { at = 5; txs = coinbase ∷ spend ∷ [] }

abbrev empty_sixth : ToyBlock
empty_sixth = record { at = 6; txs = [] }

abbrev indexer : Indexer
indexer = record { metrics = zeroed; state = empty_state }

fifth_free : get 5 empty_state.by_height ≡ none
unfolding get
fifth_free = refl

sixth_free : get 6 (apply_block (coinbase ∷ spend ∷ []) 5 empty_state).1.by_height ≡ none
unfolding get push_at apply_block apply_txs apply_tx apply_output apply_outputs apply_spend
    store_output store_history_entry delete_utxo Entries.remove load_output encode_txid_list
    decode_txid_list chunks without decode_output encode_output Entries.find Entries.insert beq
    apply_inputs apply_input push_action push_history store_tx store_journal_action
    delete_pending_txid load_pending_txids rebuild_pending_view forget_pending_transaction_internal
    journal_key be_bytes Order.bcmp outpoint_key utxo_key history_key from_script
sixth_free = refl

handle_events-reorg_example :
    Returned reliable 5 2 indexer
      (handle_events (reorg reliable 5 (fifth ∷ empty_sixth ∷ [])) indexer)
handle_events-reorg_example =
    handle_events-reorg reliable 5 (fifth ∷ empty_sixth ∷ []) indexer
      (next 5 empty_state fifth (empty_sixth ∷ []) 8 (omega arith) fifth_free block_valid
        (next 6 _ empty_sixth [] 0 (omega arith) sixth_free (Run.no_tx _ _) (ends 7 _)))
      refl
