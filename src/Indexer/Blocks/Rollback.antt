-- ===== src/Indexer/Blocks/Rollback.antt =====
-- Disconnecting a block undoes connecting it.
use mathlib.Core.List.{reverse}
use nakamoto_electrs.Prelude.{
  ℕ, ◌-◌, ◌^◌, ◌<◌, ◌≡◌, refl, ap, ◌∙◌, arith, true, false, none, some, List, ok, Option, Result,
  ◌==◌,
}
use nakamoto_electrs.Bitcoin.{Bitcoin}
use nakamoto_electrs.Sled.{Sled, IsReliable}
use nakamoto_electrs.HashMap.{get, listed}
use nakamoto_electrs.HashMap.Keys.{nat_eq, same_nat_refl, ◌≐◌}
use nakamoto_electrs.HashMap.Laws.{get-remove}
use nakamoto_electrs.Store.Index.{set_tip_height, tip_height_key}
use nakamoto_electrs.Bytes.{be_bytes}
use nakamoto_electrs.Indexer.State.{IndexState, BlockAction}
use nakamoto_electrs.Indexer.Pending.{rebuild_pending_view}
use nakamoto_electrs.Indexer.Blocks.{
  apply_txs, apply_block, undo_all, rollback_entries, lower_tip, rollback_height,
}
use nakamoto_electrs.Indexer.Blocks.Views.{Views, views, Leaves}
use nakamoto_electrs.Indexer.Blocks.Run.{Runs, ValidTxs, apply_txs_lem}

equal_refl : (n : ℕ) → (n == n) ≡ true
equal_refl n = ground arith

module _ ⦃sl : Sled⦄ (r : IsReliable sl) ⦃bc : Bitcoin⦄ (height : ℕ) where
  -- What a step of the rollback leaves: the trees as `v`, and no record at the height.
  record Restored (v : Views) (a : IndexState) (m : Result (Unit {0}) × IndexState) : Type 0 where
    pub returns : m.0 ≡ ok tt
    pub trees : views r m.1.store ≡ v
    pub no_record : get height m.1.by_height ≡ none
    pub others : (j : ℕ) → (height ≐ j) ≡ false → get j m.1.by_height ≡ get j a.by_height
    pub tip : m.1.tip_height ≡ a.tip_height

  rollback_entries_lem :
      (a : IndexState) (m : Option (List BlockAction)) (v : Views)
      → get height a.by_height ≡ m
      → Leaves r (undo_all (reverse (listed m)) a.store) v
      → Restored v a (rollback_entries height m a)
  unfolding rollback_entries
  rollback_entries_lem a none v e l = record {
    returns = refl;
    trees = unfold undo_all in (l.1);
    no_record = e;
    others = λ j n. refl;
    tip = refl;
  }
  rollback_entries_lem a (some entries) v e l = rw (l.0) (
      unfold rebuild_pending_view in
      record {
        returns = refl;
        trees = l.1;
        no_record = rw (get-remove height height a.by_height, same_nat_refl height) refl;
        others = λ j n. rw (get-remove j height a.by_height, n) refl;
        tip = refl;
      })

  lower_tip_lem :
      (a : IndexState)
      → a.tip_height ≡ height
      → let b = lower_tip height a in
        (b.0 ≡ ok tt)
        × (views r b.1.store ≡ views r a.store)
        × (b.1.by_height ≡ a.by_height)
        × (b.1.tip_height ≡ height - 1)
  unfolding lower_tip set_tip_height
  lower_tip_lem a e =
      rw (e, equal_refl height)
        (r.insert_ok tip_height_key (be_bytes 4 (height - 1)) a.store.meta, refl, refl, refl)

  pub apply_block_lem :
      (s : IndexState) (txs : List bc.Transaction) (n : ℕ)
      → (apply_txs height 0 txs s).0 ≡ ok n
      → let a = (apply_txs height 0 txs s).1 in
        let b = apply_block txs height s in
        (b.0 ≡ ok tt)
        × (views r b.1.store ≡ views r a.store)
        × (b.1.by_height ≡ a.by_height)
        × (b.1.tip_height ≡ height)
  unfolding apply_block set_tip_height
  apply_block_lem s txs n e = rw e (
    r.insert_ok tip_height_key (be_bytes 4 height) (apply_txs height 0 txs s).1.store.meta,
    refl,
    refl,
    refl,
  )

  -- A rollback where undoing the records of the height leads to the trees `v`.
  pub rollback_height_lem :
      (a : IndexState) (v : Views)
      → a.tip_height ≡ height
      → Leaves r (undo_all (reverse (listed (get height a.by_height))) a.store) v
      → let back = rollback_height height a in
        (back.0 ≡ ok tt)
        × (views r back.1.store ≡ v)
        × (get height back.1.by_height ≡ none)
        × ((j : ℕ) → (height ≐ j) ≡ false → get j back.1.by_height ≡ get j a.by_height)
        × (back.1.tip_height ≡ height - 1)
  unfolding rollback_height
  rollback_height_lem a v at l =
      let b = rollback_entries height (get height a.by_height) a in
      let done = rollback_entries_lem a (get height a.by_height) v refl l in
      let (low, trees, records, tip) = lower_tip_lem b.1 (done.tip ∙ at) in
      rw (done.returns) (
        low,
        trees ∙ done.trees,
        ap (get height) records ∙ done.no_record,
        λ j n. ap (get j) records ∙ done.others j n,
        tip,
      )

  run_back :
      (s : IndexState) (txs : List bc.Transaction) (n : ℕ)
      → get height s.by_height ≡ none
      → (run : Runs r height s n (apply_txs height 0 txs s))
      → let after = apply_block txs height s in
        (after.0 ≡ ok tt)
        × (after.1.tip_height ≡ height)
        × Leaves r
            (undo_all (reverse (listed (get height after.1.by_height))) after.1.store)
            (views r s.store)
        × ((j : ℕ) → (height ≐ j) ≡ false → get j after.1.by_height ≡ get j s.by_height)
  run_back s txs n e run =
      let (done, trees, records, at) = apply_block_lem s txs n run.returns in
      let entries : listed (get height (apply_block txs height s).1.by_height) ≡ run.actions =
        ap (λ m. listed (get height m)) records ∙ run.undoes.pushed ∙ rw e refl in
      (
        done,
        at,
        rw entries (run.undoes.undone (apply_block txs height s).1.store trees),
        λ j n. ap (get j) records ∙ run.undoes.others j n,
      )

  -- In a database that does not fail, a block that is connected at a height of 32 bits without
  -- records and disconnected again, where along the run each input is null, unknown to the store
  -- or an unspent output of it, and the outputs and all records are new: both calls succeed, the
  -- trees of the history, the outputs, the unspent outputs and the journal hold what they held
  -- before, no record is left at the height, and the tip is one below the height.
  pub rollback_height-apply_block :
      (s : IndexState) (txs : List bc.Transaction) (n : ℕ)
      → height < 2 ^ 32
      → get height s.by_height ≡ none
      → ValidTxs r height s 0 txs n
      → let after = apply_block txs height s in
        let back = rollback_height height after.1 in
        (after.0 ≡ ok tt)
        × (back.0 ≡ ok tt)
        × (views r back.1.store ≡ views r s.store)
        × (get height back.1.by_height ≡ none)
        × (back.1.tip_height ≡ height - 1)
  rollback_height-apply_block s txs n h e v =
      let (done, at, leaves, kept) = run_back s txs n e (apply_txs_lem r height s 0 txs n h v) in
      let (back, trees, gone, others, tip) =
        rollback_height_lem (apply_block txs height s).1 (views r s.store) at leaves in
      (done, back, trees, gone, tip)

  -- In a database that does not fail, connecting and disconnecting a block at a height of 32 bits
  -- without records, where along the run each input is null, unknown to the store or an unspent
  -- output of it, and the outputs and all records are new, leaves the records of every other
  -- height as they were.
  pub rollback_height_others :
      (s : IndexState) (txs : List bc.Transaction) (n j : ℕ)
      → height < 2 ^ 32
      → get height s.by_height ≡ none
      → ValidTxs r height s 0 txs n
      → (height ≐ j) ≡ false
      → get j (rollback_height height (apply_block txs height s).1).1.by_height ≡ get j s.by_height
  rollback_height_others s txs n j h e v ne =
      let (done, at, leaves, kept) = run_back s txs n e (apply_txs_lem r height s 0 txs n h v) in
      let (back, trees, gone, others, tip) =
        rollback_height_lem (apply_block txs height s).1 (views r s.store) at leaves in
      others j ne ∙ kept j ne
