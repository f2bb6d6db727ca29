-- ===== src/Indexer/Reachable/Reload.antt =====
-- The undo records over a restart: what `apply_block` of src/indexer.rs pushes, and what
-- `IndexState::new` reads back.
use mathlib.Core.List.{Perm, append-nil}
use mathlib.Core.List.Perm as Perm
use mathlib.Core.Path.{subst}
use nakamoto_electrs.Prelude.{ℕ, ◌^◌, ◌<◌, ◌≡◌, ap, ◌∙◌, Bool-cases, inl, inr, List, All, ok, ◌++◌}
use nakamoto_electrs.Prelude.Sort.Sorted.{Sorted}
use nakamoto_electrs.Bitcoin.{Bitcoin}
use nakamoto_electrs.Sled.{Sled, IsReliable}
use nakamoto_electrs.HashMap.{get, listed}
use nakamoto_electrs.HashMap.Keys.{◌≐◌, nat_eq, eq_of_same_nat}
use nakamoto_electrs.Store.Types.{StoredJournalAction}
use nakamoto_electrs.Store.Index.{PersistentIndex, load_journal_actions}
use nakamoto_electrs.Indexer.State.{IndexState}
use nakamoto_electrs.Indexer.Startup.{new}
use nakamoto_electrs.Indexer.Blocks.{apply_block, apply_txs}
use nakamoto_electrs.Indexer.Blocks.Views.{Views}
use nakamoto_electrs.Indexer.Blocks.Journal.{
  IsFit, All-append_inv, recorded, journal_records, recorded-collect,
}
use nakamoto_electrs.Indexer.Blocks.Run.{ValidTxs, apply_txs_lem}
use nakamoto_electrs.Indexer.Blocks.Rollback.{apply_block_lem}
use nakamoto_electrs.Indexer.Reachable.Records.{rank_of, new-store, new_reads, new_by_height_lem}

module _ ⦃sl : Sled⦄ (r : IsReliable sl) ⦃bc : Bitcoin⦄ where
  -- The journal holds the records of each height.
  abbrev pub Mirrors : IndexState → Type 0
  Mirrors s =
      (h : ℕ) → Perm (listed (get h s.by_height)) (journal_records h (r.view s.store.journal))

  recorded_lem :
      (store : PersistentIndex) (actions : List StoredJournalAction) (h : ℕ)
      → load_journal_actions store ≡ ok actions
      → recorded h actions ≡ journal_records h (r.view store.journal)
  unfolding load_journal_actions
  recorded_lem store actions h a =
      recorded-collect h (r.view store.journal) actions (rw (r.iter_lem store.journal) at a)

  -- A start that succeeds leaves records that the journal holds.
  pub new-Mirrors : (store : PersistentIndex) (s : IndexState) → new store ≡ ok s → Mirrors s
  new-Mirrors store s e h =
      let (actions, a) = new_reads store s e in
      let records = new_by_height_lem store s actions h a e in
      rw (new-store store s e) (rw (recorded_lem store actions h a) at records.0)

  module _ (height : ℕ) (s : IndexState) (txs : List bc.Transaction) (n : ℕ) where
    pub apply_block-Mirrors :
        height < 2 ^ 32
        → Mirrors s
        → ValidTxs r height s 0 txs n
        → All IsFit (listed (get height (apply_block txs height s).1.by_height))
        → Mirrors (apply_block txs height s).1
    apply_block-Mirrors l m v f h =
        let a = (apply_txs height 0 txs s).1 in
        let b = (apply_block txs height s).1 in
        let ran = apply_txs_lem r height s 0 txs n l v in
        let (done, trees, records, tip) = apply_block_lem r height s txs n ran.returns in
        let pushed : listed (get height b.by_height)
            ≡ listed (get height s.by_height) ++ ran.actions =
          ap (λ x. listed (get height x)) records ∙ ran.undoes.pushed in
        let fits =
          (All-append_inv IsFit (listed (get height s.by_height)) ran.actions (rw pushed at f)).1 in
        let adds = ran.undoes.journalled l fits h in
        let journal = ap (λ (w : Views). w.journal) trees in
        elim (Bool-cases (height ≐ h)) [
          | inl same ↦
              let pushed' : listed (get h b.by_height) ≡ listed (get h s.by_height) ++ ran.actions =
                subst (λ x. listed (get x b.by_height) ≡ listed (get x s.by_height) ++ ran.actions)
                  (eq_of_same_nat height h same) pushed in
              rw (journal, pushed')
                (Perm.trans (Perm.append_right ran.actions (m h)) (Perm.symm (rw same at adds)))
          | inr other ↦
              let kept =
                rw (other, append-nil (journal_records h (r.view s.store.journal))) at adds in
              let still : get h b.by_height ≡ get h s.by_height =
                ap (get h) records ∙ ran.undoes.others h other in
              rw (journal, still) (Perm.trans (m h) (Perm.symm kept))
        ]

    -- In a database that does not fail, where the journal holds the records of each height, a
    -- valid block of 32-bit height is connected, and the records of its height fit their types:
    -- the journal still holds the records of each height, and after a restart that succeeds each
    -- height has the records that it had before, in an order in which the sequence numbers of
    -- their keys never decrease.
    pub new-apply_block :
        (t : IndexState) (h : ℕ)
        → height < 2 ^ 32
        → Mirrors s
        → ValidTxs r height s 0 txs n
        → All IsFit (listed (get height (apply_block txs height s).1.by_height))
        → new (apply_block txs height s).1.store ≡ ok t
        → Mirrors (apply_block txs height s).1
          × Perm
              (listed (get h t.by_height))
              (listed (get h (apply_block txs height s).1.by_height))
          × Sorted rank_of (listed (get h t.by_height))
    new-apply_block t h l m v f e =
        let after = (apply_block txs height s).1 in
        let mirrors = apply_block-Mirrors l m v f in
        let (actions, a) = new_reads after.store t e in
        let (same, sorted) = new_by_height_lem after.store t actions h a e in
        let held = rw (recorded_lem after.store actions h a) at same in
        (mirrors, Perm.trans held (Perm.symm (mirrors h)), sorted)
