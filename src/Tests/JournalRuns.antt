-- ===== src/Tests/JournalRuns.antt =====
-- A start from the store of a block.
use nakamoto_electrs.Prelude.{All, arith, ◌≡◌, refl, [], ◌∷◌, ok, beq}
use mathlib.Core.List.{Perm}
use nakamoto_electrs.Prelude.{Result, err, List}
use nakamoto_electrs.Prelude.Sort.Sorted.{Sorted}
use nakamoto_electrs.Store.Types.{StoredJournalAction}
use nakamoto_electrs.Bytes.{be_bytes, from_be_bytes}
use nakamoto_electrs.Bytes.Order
use nakamoto_electrs.Indexer.Payload.{outpoint_bytes}
use nakamoto_electrs.Prelude.Sort.{sort_by}
use nakamoto_electrs.Sled.Entries
use nakamoto_electrs.Sled.Entries.{find}
use nakamoto_electrs.HashMap.{get, listed, push_at, remove}
use nakamoto_electrs.HashMap.Keys.{bytes_eq, outpoint_eq, nat_eq}
use nakamoto_electrs.Store.Index.{
  delete_pending_txid, store_journal_action, store_history_entry, store_output, set_tip_height,
  store_tx, load_pending_txids, load_journal_actions, load_history_entries,
}
use nakamoto_electrs.Store.Loops.{collect, without}
use nakamoto_electrs.Store.Codec.{
  decode_txid_list, encode_txid_list, journal_key, history_key, parse_history_key,
  parse_journal_action, journal_kind,
}
use nakamoto_electrs.Indexer.State.{from_script, IndexState, push_action, push_history}
use nakamoto_electrs.Indexer.Pending.{rebuild_pending_view}
use nakamoto_electrs.Indexer.Mempool.{forget_pending_transaction_internal}
use nakamoto_electrs.Indexer.Blocks.{
  apply_block, apply_txs, apply_tx, apply_inputs, apply_input, apply_outputs, apply_output,
}
use nakamoto_electrs.Indexer.Startup.{new, load_history, load_history_from_store}
use nakamoto_electrs.Tests.Instances.{memory, reliable, toy, coinbase, empty_state, digest-IsArray}
use nakamoto_electrs.Indexer.Reachable.Records.{rank_of, new_by_height_lem}
use nakamoto_electrs.Indexer.Reachable.Reload.{Mirrors, new-apply_block}
use nakamoto_electrs.Indexer.Blocks.Journal.{recorded, journal_records, IsFit}
use nakamoto_electrs.Indexer.Blocks.Run
use nakamoto_electrs.Indexer.Blocks.Run.{ValidTxs}
use nakamoto_electrs.Tests.BlockRuns.{coinbase_valid}
use mathlib.Core.List.Perm as Perm

-- the coinbase alone is confirmed, by a block at height 5
abbrev confirmed : IndexState
confirmed = (apply_block (coinbase ∷ []) 5 empty_state).1

abbrev actions_in : Result (List StoredJournalAction) → List StoredJournalAction
actions_in (ok actions) = actions
actions_in (err e) = []

-- what its store holds as the journal
abbrev journal : List StoredJournalAction
journal = actions_in (load_journal_actions confirmed.store)

reads_journal : load_journal_actions confirmed.store ≡ ok journal
unfolding new load_history_from_store load_history load_history_entries collect load_journal_actions
    load_pending_txids find rebuild_pending_view apply_txs apply_tx apply_inputs apply_input
    apply_outputs apply_output forget_pending_transaction_internal store_tx store_journal_action
    store_history_entry store_output delete_pending_txid push_action push_history Entries.insert beq
    set_tip_height apply_block parse_history_key history_key from_script be_bytes Order.bcmp
    journal_key parse_journal_action journal_kind outpoint_bytes decode_txid_list encode_txid_list
    without from_be_bytes push_at remove sort_by
reads_journal = refl

-- A start from the store gives the state back.
reloads_block : new confirmed.store ≡ ok confirmed
unfolding new load_history_from_store load_history load_history_entries collect load_journal_actions
    load_pending_txids find rebuild_pending_view apply_txs apply_tx apply_inputs apply_input
    apply_outputs apply_output forget_pending_transaction_internal store_tx store_journal_action
    store_history_entry store_output delete_pending_txid push_action push_history Entries.insert beq
    set_tip_height apply_block parse_history_key history_key from_script be_bytes Order.bcmp
    journal_key parse_journal_action journal_kind outpoint_bytes decode_txid_list encode_txid_list
    without from_be_bytes push_at remove sort_by
reloads_block = refl

new_by_height_lem_example :
    Perm (listed (get 5 confirmed.by_height)) (recorded 5 journal)
    × Sorted rank_of (listed (get 5 confirmed.by_height))
new_by_height_lem_example =
    new_by_height_lem confirmed.store confirmed journal 5 reads_journal reloads_block

empty_Mirrors : Mirrors reliable empty_state
unfolding get journal_records
empty_Mirrors h = Perm.refl []

alone : ValidTxs reliable 5 empty_state 0 (coinbase ∷ []) 3
alone = Run.next_tx _ _ _ _ _ _ coinbase_valid (Run.no_tx _ _)

confirmed_fits : All IsFit (listed (get 5 confirmed.by_height))
unfolding apply_block apply_txs apply_tx apply_inputs apply_input apply_outputs apply_output
    forget_pending_transaction_internal rebuild_pending_view push_action push_history push_at get
    store_tx store_journal_action store_history_entry store_output delete_pending_txid
    load_pending_txids find Entries.insert beq set_tip_height
confirmed_fits = (refl, (tt, (record { txid = digest-IsArray 1; vout = omega arith }, tt)))

new-apply_block_example :
    Mirrors reliable confirmed
    × Perm (listed (get 5 confirmed.by_height)) (listed (get 5 confirmed.by_height))
    × Sorted rank_of (listed (get 5 confirmed.by_height))
new-apply_block_example =
    new-apply_block reliable 5 empty_state (coinbase ∷ []) 3 confirmed 5 (omega arith) empty_Mirrors
      alone confirmed_fits reloads_block
