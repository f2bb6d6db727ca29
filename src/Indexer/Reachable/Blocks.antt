-- ===== src/Indexer/Reachable/Blocks.antt =====
-- Connecting and disconnecting a block keep a coherent state coherent, on every error path too.
use nakamoto_electrs.Prelude.{
  ℕ, suc, ◌-◌, ◌==◌, Bool-cases, inl, inr, Option, none, some, List, [], ◌∷◌,
}
use nakamoto_electrs.Prelude.Exec.{asks}
use nakamoto_electrs.Prelude.Exec.Keeps.{Keeps, pure-Keeps, asks-Keeps, bind-Keeps, method_rules}
use nakamoto_electrs.Bitcoin.{OutPoint, TxOut, Bitcoin, IsLawful}
use nakamoto_electrs.Sled.{Sled, IsReliable}
use nakamoto_electrs.HashMap.{remove}
use nakamoto_electrs.HashMap.Keys.{nat_eq}
use nakamoto_electrs.Store.Types.{ScriptHash, Txid, StoredOutput, TxEntry}
use nakamoto_electrs.Store.Index.{set_tip_height, load_output}
use nakamoto_electrs.Indexer.State.{IndexState, BlockAction, modify, push_history, push_action}
use nakamoto_electrs.Indexer.Pending.{rebuild_pending_view}
use nakamoto_electrs.Indexer.Mempool.{forget_pending_transaction_internal}
use nakamoto_electrs.Indexer.Blocks.{
  apply_spend, apply_input, apply_inputs, apply_output, apply_outputs, apply_tx, apply_txs,
  apply_block, prune, rollback_entries, lower_tip, rollback_height,
}
use nakamoto_electrs.Indexer.Reachable.Sound.{
  IsCoherent, rebuild-IsCoherent, IsCoherent-aside, on_store-Keeps, set_tip_height-Keeps,
  store_tx-Keeps, forget-IsCoherent,
}
use nakamoto_electrs.Indexer.Reachable.Writes.{store_rules, undo_all-Keeps}

module _ ⦃sl : Sled⦄ ⦃bc : Bitcoin⦄ where
  push_history-Keeps :
      (sh : ScriptHash) (entry : TxEntry) → Keeps IsCoherent (modify (push_history sh entry))
  unfolding push_history
  push_history-Keeps sh entry = record {
    at = λ s h. IsCoherent-aside s _ s.by_height s.tip_height h;
  }

  push_action-Keeps :
      (height : ℕ) (a : BlockAction) → Keeps IsCoherent (modify (push_action height a))
  unfolding push_action
  push_action-Keeps height a = record { at = λ s h. IsCoherent-aside s s.history _ s.tip_height h }

  forget_record-Keeps :
      (height : ℕ)
      → Keeps IsCoherent (modify (λ s. record s { by_height = remove height s.by_height }))
  forget_record-Keeps height = record { at = λ s h. IsCoherent-aside s s.history _ s.tip_height h }

  set_tip-Keeps : (height : ℕ) → Keeps IsCoherent (modify (λ s. record s { tip_height = height }))
  set_tip-Keeps height = record { at = λ s h. IsCoherent-aside s s.history s.by_height height h }

  prune-Keeps :
      (height : ℕ)
      → Keeps IsCoherent
          (modify (λ s. rebuild_pending_view (record s { history = prune height s.history })))
  prune-Keeps height = record {
    at = λ s h.
        rebuild-IsCoherent _
          (IsCoherent-aside s (prune height s.history) s.by_height s.tip_height h).sound;
  }

ruleset state_rules =
    (method_rules, push_history-Keeps, push_action-Keeps, on_store-Keeps, store_rules)

module _ ⦃sl : Sled⦄ ⦃bc : Bitcoin⦄ where
  apply_spend-Keeps :
      (height : ℕ) (txid : Txid) (i sequence : ℕ) (prevout : OutPoint) (found : Option StoredOutput)
      → Keeps IsCoherent (apply_spend height txid i sequence prevout found)
  unfolding apply_spend
  apply_spend-Keeps height txid i sequence prevout none = search method_rules
  apply_spend-Keeps height txid i sequence prevout (some o) = search state_rules depth 20

  apply_output-Keeps :
      (height : ℕ) (txid : Txid) (i sequence : ℕ) (o : TxOut)
      → Keeps IsCoherent (apply_output height txid i sequence o)
  unfolding apply_output
  apply_output-Keeps height txid i sequence o = search state_rules depth 20

  apply_input-Keeps :
      (height : ℕ) (txid : Txid) (i sequence : ℕ) (prevout : OutPoint)
      → Keeps IsCoherent (apply_input height txid i sequence prevout)
  unfolding apply_input
  apply_input-Keeps height txid i sequence prevout = elim (Bool-cases (bc.is_null prevout)) [
    | inl h ↦ rw h (pure-Keeps sequence)
    | inr h ↦ rw h (
        bind-Keeps (asks (λ s. load_output prevout s.store))
          (apply_spend height txid i sequence prevout) (asks-Keeps _)
          (apply_spend-Keeps height txid i sequence prevout))
  ]

  apply_inputs-Keeps :
      (height : ℕ) (txid : Txid) (i sequence : ℕ) (prevouts : List OutPoint)
      → Keeps IsCoherent (apply_inputs height txid i sequence prevouts)
  unfolding apply_inputs
  apply_inputs-Keeps height txid i sequence [] = pure-Keeps sequence
  apply_inputs-Keeps height txid i sequence (prevout ∷ rest) =
      bind-Keeps (apply_input height txid i sequence prevout)
        (λ next. apply_inputs height txid (suc i) next rest)
        (apply_input-Keeps height txid i sequence prevout)
        (λ next. apply_inputs-Keeps height txid (suc i) next rest)

  apply_outputs-Keeps :
      (height : ℕ) (txid : Txid) (i sequence : ℕ) (outputs : List TxOut)
      → Keeps IsCoherent (apply_outputs height txid i sequence outputs)
  unfolding apply_outputs
  apply_outputs-Keeps height txid i sequence [] = pure-Keeps sequence
  apply_outputs-Keeps height txid i sequence (o ∷ rest) =
      bind-Keeps (apply_output height txid i sequence o)
        (λ next. apply_outputs height txid (suc i) next rest)
        (apply_output-Keeps height txid i sequence o)
        (λ next. apply_outputs-Keeps height txid (suc i) next rest)

module _ ⦃sl : Sled⦄ (r : IsReliable sl) ⦃bc : Bitcoin⦄ where
  forget-Keeps :
      (txid : Txid) → Keeps IsCoherent (modify (forget_pending_transaction_internal txid))
  forget-Keeps txid = record { at = λ s h. forget-IsCoherent r txid s h.sound }

  apply_tx-Keeps :
      (l : IsLawful bc) (height sequence : ℕ) (tx : bc.Transaction)
      → Keeps IsCoherent (apply_tx height sequence tx)
  unfolding apply_tx
  apply_tx-Keeps l height sequence tx =
      search
        (state_rules, forget-Keeps, store_tx-Keeps r l, apply_inputs-Keeps, apply_outputs-Keeps)
        depth 20

  apply_txs-Keeps :
      (l : IsLawful bc) (height sequence : ℕ) (txs : List bc.Transaction)
      → Keeps IsCoherent (apply_txs height sequence txs)
  unfolding apply_txs
  apply_txs-Keeps l height sequence [] = pure-Keeps sequence
  apply_txs-Keeps l height sequence (tx ∷ rest) =
      bind-Keeps (apply_tx height sequence tx) (λ next. apply_txs height next rest)
        (apply_tx-Keeps l height sequence tx) (λ next. apply_txs-Keeps l height next rest)

  pub apply_block-Keeps :
      (l : IsLawful bc) (txs : List bc.Transaction) (height : ℕ)
      → Keeps IsCoherent (apply_block txs height)
  unfolding apply_block
  apply_block-Keeps l txs height =
      search
        (method_rules, apply_txs-Keeps l, set_tip-Keeps, on_store-Keeps, set_tip_height-Keeps r)
        depth 10

  rollback_entries-Keeps :
      (height : ℕ) (entries : Option (List BlockAction))
      → Keeps IsCoherent (rollback_entries height entries)
  unfolding rollback_entries
  rollback_entries-Keeps height none = pure-Keeps tt
  rollback_entries-Keeps height (some entries) =
      search (method_rules, forget_record-Keeps, on_store-Keeps, undo_all-Keeps r, prune-Keeps)
        depth 10

  lower_tip-Keeps : (height : ℕ) → Keeps IsCoherent (lower_tip height)
  unfolding lower_tip
  lower_tip-Keeps height = record {
    at = λ s h. elim (Bool-cases (s.tip_height == height)) [
      | inl e ↦
          let lowered : IndexState = record s { tip_height = height - 1 } in
          let kept =
            on_store-Keeps (set_tip_height (height - 1))
              (λ txids. set_tip_height-Keeps r (height - 1)) in
          rw e (kept.at lowered (IsCoherent-aside s s.history s.by_height (height - 1) h))
      | inr e ↦ rw e h
    ];
  }

  pub rollback_height-Keeps : (height : ℕ) → Keeps IsCoherent (rollback_height height)
  unfolding rollback_height
  rollback_height-Keeps height =
      search (method_rules, rollback_entries-Keeps, lower_tip-Keeps) depth 10
