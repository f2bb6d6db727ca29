-- ===== src/Indexer/Startup.antt =====
-- `IndexState::new` of src/indexer.rs, after the database was opened: the state in memory is built
-- from what the store holds.
pub mod Pending
use nakamoto_electrs.Prelude.{
  ℕ, leb, Bool, true, false, Option, none, some, List, [], ◌∷◌, Result, ok, err, map_ok,
  if◌then◌else◌,
}
use nakamoto_electrs.Prelude.Exec.{Exec, pure, asks, ◌>>=◌, ◌>>◌, continue}
use nakamoto_electrs.Prelude.Sort.{sort_by}
use nakamoto_electrs.Bitcoin.{Bitcoin}
use nakamoto_electrs.Sled.{Sled}
use nakamoto_electrs.HashMap.{HashMap, insert}
use nakamoto_electrs.HashMap.Keys.{bytes_eq, nat_eq}
use nakamoto_electrs.HashMap.Sets.{has, add}
use nakamoto_electrs.Store.Types.{Txid, StoredHistoryEntry, JournalActionKind, StoredJournalAction}
use nakamoto_electrs.Store.Index.{
  PersistentIndex, tip_height, load_history_entries, load_journal_actions, load_pending_txids,
  load_tx,
}
use nakamoto_electrs.Indexer.State.{IndexState, BlockAction, push_history, push_action}
use nakamoto_electrs.Indexer.Payload.{parse_txid, parse_outpoint, action_sequence}
use nakamoto_electrs.Indexer.Pending.{rebuild_pending_view}

module _ ⦃sl : Sled⦄ ⦃bc : Bitcoin⦄ where
  unfoldable pub load_history : List StoredHistoryEntry → IndexState → IndexState
  unfolding push_history
  load_history [] s = s
  load_history (e ∷ es) s = load_history es (
      push_history e.script_hash
        (record { txid = e.txid; height = e.height; sequence = e.sequence }) s)

  unfoldable pub load_history_from_store : Exec IndexState (Unit {0})
  unfolding load_history
  load_history_from_store = do
    entries ← asks (λ s. load_history_entries s.store)
    λ s. (ok tt, load_history entries s)

  -- the undo record of a journal action
  unfoldable pub action_of : StoredJournalAction → JournalActionKind → Result BlockAction
  unfolding parse_txid parse_outpoint
  action_of a JournalActionKind.tx =
      map_ok (λ txid. BlockAction.tx txid a.journal_key) (parse_txid a.payload)
  action_of a JournalActionKind.history = ok (BlockAction.history a.payload a.journal_key)
  action_of a JournalActionKind.output =
      map_ok (λ o. BlockAction.output o a.journal_key) (parse_outpoint a.payload)
  action_of a JournalActionKind.spend =
      map_ok (λ o. BlockAction.spend o a.journal_key) (parse_outpoint a.payload)

  abbrev pub note_confirmed : BlockAction → List Txid → List Txid
  note_confirmed (BlockAction.tx txid key) confirmed = add txid confirmed
  note_confirmed (BlockAction.history hk key) confirmed = confirmed
  note_confirmed (BlockAction.output o key) confirmed = confirmed
  note_confirmed (BlockAction.spend o key) confirmed = confirmed

  -- the loop over the journal; the txids of confirmed transactions are gathered
  unfoldable pub load_actions : List StoredJournalAction → List Txid → Exec IndexState (List Txid)
  unfolding action_of push_action
  load_actions [] confirmed s = (ok confirmed, s)
  load_actions (a ∷ rest) confirmed s = elim (action_of a a.kind) [
    | err e ↦ (err e, s)
    | ok entry ↦ load_actions rest (note_confirmed entry confirmed) (push_action a.height entry s)
  ]

  -- `action_sequence`, where the key holds a sequence number
  abbrev pub sequence_of : Result ℕ → ℕ
  sequence_of (ok n) = n
  sequence_of (err e) = 0

  unfoldable pub sort_actions : HashMap ℕ (List BlockAction) → HashMap ℕ (List BlockAction)
  unfolding action_sequence
  sort_actions [] = []
  sort_actions ((height, actions) ∷ rest) =
      (
        height,
        sort_by (λ a b. leb (sequence_of (action_sequence a)) (sequence_of (action_sequence b)))
            actions,
      )
      ∷ sort_actions rest

  unfoldable pub load_journal_from_store : Exec IndexState (List Txid)
  unfolding load_actions sort_actions
  load_journal_from_store = do
    actions ← asks (λ s. load_journal_actions s.store)
    confirmed ← load_actions actions []
    λ s. (ok confirmed, record s { by_height = sort_actions s.by_height })

  abbrev pub insert_found :
      Txid → Option bc.Transaction → HashMap Txid bc.Transaction → HashMap Txid bc.Transaction
  insert_found txid none txs = txs
  insert_found txid (some tx) txs = insert txid tx txs

  -- the loop over the pending txids
  unfoldable pub load_pending : List Txid → List Txid → Exec IndexState (Unit {0})
  load_pending confirmed [] s = (ok tt, s)
  load_pending confirmed (txid ∷ rest) s = elim (has txid confirmed) [
    | true ↦ load_pending confirmed rest s
    | false ↦ elim (load_tx txid s.store) [
      | err e ↦ (err e, s)
      | ok found ↦
          load_pending confirmed rest
            (record s { pending_txs = insert_found txid found s.pending_txs })
    ]
  ]

  unfoldable pub load_pending_from_store : List Txid → Exec IndexState (Unit {0})
  unfolding load_pending
  load_pending_from_store confirmed = do
    txids ← asks (λ s. load_pending_txids s.store)
    load_pending confirmed txids

  abbrev pub state_of : Result (Unit {0}) × IndexState → Result IndexState
  state_of (ok x, s) = ok (rebuild_pending_view s)
  state_of (err e, s) = err e

  -- `IndexState::new`, given the store that was opened
  unfoldable pub new : PersistentIndex → Result IndexState
  unfolding load_history_from_store load_journal_from_store load_pending_from_store tip_height
  new store =
      let start : IndexState = record {
        history = [];
        by_height = [];
        pending_txs = [];
        pending_outputs = [];
        tip_height = tip_height store;
        store = store;
      } in
      state_of (
        (do
          load_history_from_store
          confirmed ← load_journal_from_store
          load_pending_from_store confirmed)
          start)
