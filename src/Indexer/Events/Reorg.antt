-- ===== src/Indexer/Events/Reorg.antt =====
-- A reorganisation of any depth leads back to where it started.
use mathlib.Core.List.{reverse}
use nakamoto_electrs.Prelude.{
  ℕ, suc, ◌+◌, ◌-◌, ◌^◌, ◌%◌, ◌<◌, ◌≡◌, refl, ap, sym, ◌∙◌, arith, false, none, List, [], ◌∷◌, ◌++◌,
  ok, length, Result,
}
use nakamoto_electrs.Bitcoin.{Bitcoin}
use nakamoto_electrs.BlockSource.{Blocks, BlockEvent, connected, disconnected}
use nakamoto_electrs.Sled.{Sled, IsReliable}
use nakamoto_electrs.HashMap.{get, listed}
use nakamoto_electrs.HashMap.Keys.{nat_eq, ◌≐◌}
use nakamoto_electrs.Metrics.{inc_blocks_indexed, inc_blocks_rolled_back}
use nakamoto_electrs.Indexer.State.{IndexState}
use nakamoto_electrs.Indexer.Blocks.{apply_block, undo_all}
use nakamoto_electrs.Indexer.Blocks.Views.{views, Leaves}
use nakamoto_electrs.Indexer.Blocks.Run.{ValidTxs, apply_txs_lem}
use nakamoto_electrs.Indexer.Blocks.Rollback.{rollback_height_lem, apply_block_lem}
use nakamoto_electrs.Indexer.Events.{Indexer, handle_event, handle_events}

after_one :
    (i j n : ℕ) → j % 2 ^ 64 ≡ ((i + 1) % 2 ^ 64 + n) % 2 ^ 64 → j % 2 ^ 64 ≡ (i + suc n) % 2 ^ 64
after_one i j n e = omega (arith, e)

one_more :
    (i j n : ℕ) → j % 2 ^ 64 ≡ (i + n) % 2 ^ 64 → ((j + 1) % 2 ^ 64) % 2 ^ 64 ≡ (i + suc n) % 2 ^ 64
one_more i j n e = omega (arith, e)

module _ ⦃sl : Sled⦄ (r : IsReliable sl) ⦃bc : Bitcoin⦄ where
  -- A block that was connected to `s`: `done` is its result, and it can be disconnected from any
  -- state that has the same trees and the same records of its height.
  record Connected (height : ℕ) (s : IndexState) (done : Result (Unit {0}) × IndexState)
      : Type 0 where
    pub returns : done.0 ≡ ok tt
    pub tip : done.1.tip_height ≡ height
    pub others : (j : ℕ) → (height ≐ j) ≡ false → get j done.1.by_height ≡ get j s.by_height
    pub undone :
        (a : IndexState)
        → views r a.store ≡ views r done.1.store
        → get height a.by_height ≡ get height done.1.by_height
        → Leaves r (undo_all (reverse (listed (get height a.by_height))) a.store) (views r s.store)

  connects :
      (height : ℕ) (s : IndexState) (txs : List bc.Transaction) (n : ℕ)
      → height < 2 ^ 32
      → get height s.by_height ≡ none
      → ValidTxs r height s 0 txs n
      → Connected height s (apply_block txs height s)
  connects height s txs n h e v =
      let run = apply_txs_lem r height s 0 txs n h v in
      let (done, trees, records, at) = apply_block_lem r height s txs n run.returns in
      let entries : listed (get height (apply_block txs height s).1.by_height) ≡ run.actions =
        ap (λ m. listed (get height m)) records ∙ run.undoes.pushed ∙ rw e refl in
      record {
        returns = done;
        tip = at;
        others = λ j k. ap (get j) records ∙ run.undoes.others j k;
        undone = λ a same kept. rw (kept, entries) (run.undoes.undone a.store (same ∙ trees));
      }

module _ ⦃sl : Sled⦄ (r : IsReliable sl) ⦃bc : Bitcoin⦄ ⦃bl : Blocks⦄ where
  -- Blocks that can be connected one after the other from a height on: the heights have 32 bits
  -- and no records, and along each block every input is null, unknown to the store or an unspent
  -- output of it, and the outputs and all records are new.
  pub data Chain : ℕ → IndexState → List bl.Block → Type 0 where
    ends : (h : ℕ) (s : IndexState) → Chain h s []
    next :
        (h : ℕ) (s : IndexState) (b : bl.Block) (bs : List bl.Block) (n : ℕ)
        → h < 2 ^ 32
        → get h s.by_height ≡ none
        → ValidTxs r h s 0 (bl.txdata b) n
        → Chain (suc h) (apply_block (bl.txdata b) h s).1 bs
        → Chain h s (b ∷ bs)

  -- The blocks are connected from the height on, and disconnected again, the last one first.
  abbrev pub reorg : ℕ → List bl.Block → List BlockEvent
  reorg h [] = []
  reorg h (b ∷ bs) =
      connected b h ∷ (reorg (suc h) bs ++ disconnected (bl.block_hash (bl.header b)) h ∷ [])

  handle_events-append :
      (xs ys : List BlockEvent) (i : Indexer)
      → handle_events (xs ++ ys) i ≡ handle_events ys (handle_events xs i)
  unfolding handle_events
  handle_events-append [] ys i = refl
  handle_events-append (x ∷ xs) ys i = handle_events-append xs ys (handle_event x i)

  -- what a reorganisation leaves
  pub record Returned (h : ℕ) (n : ℕ) (i j : Indexer) : Type 0 where
    pub trees : views r j.state.store ≡ views r i.state.store
    pub tip : j.state.tip_height ≡ i.state.tip_height
    pub below : (k : ℕ) → k < h → get k j.state.by_height ≡ get k i.state.by_height
    pub indexed : j.metrics.blocks_indexed % 2 ^ 64 ≡ (i.metrics.blocks_indexed + n) % 2 ^ 64
    pub rolled_back :
        j.metrics.blocks_rolled_back % 2 ^ 64 ≡ (i.metrics.blocks_rolled_back + n) % 2 ^ 64

  -- a connected block, then what `i` and `j` stand for, then its disconnection
  around :
      (h n : ℕ) (i j : Indexer) (b : bl.Block) (hash : List ℕ)
      → Connected r h i.state (apply_block (bl.txdata b) h i.state)
      → i.state.tip_height ≡ h - 1
      → Returned (suc h) n (handle_event (connected b h) i) j
      → Returned h (suc n) i (handle_event (disconnected hash h) j)
  unfolding handle_event inc_blocks_indexed inc_blocks_rolled_back
  around h n i j b hash c at back =
      let back_to =
        rollback_height_lem r h j.state (views r i.state.store) (back.tip ∙ c.tip)
          (c.undone j.state back.trees (back.below h (omega arith))) in
      let (went, trees, gone, others, tip) = back_to in
      let indexed : j.metrics.blocks_indexed % 2 ^ 64
          ≡ ((i.metrics.blocks_indexed + 1) % 2 ^ 64 + n) % 2 ^ 64 =
        back.indexed ∙ rw (c.returns) refl in
      let rolled : j.metrics.blocks_rolled_back % 2 ^ 64
          ≡ (i.metrics.blocks_rolled_back + n) % 2 ^ 64 =
        back.rolled_back ∙ rw (c.returns) refl in
      rw went (record {
        trees = trees;
        tip = tip ∙ sym at;
        below = λ k e.
            others k (ground (arith, e))
            ∙ back.below k (omega (arith, e))
            ∙ c.others k (ground (arith, e));
        indexed = after_one i.metrics.blocks_indexed j.metrics.blocks_indexed n indexed;
        rolled_back = one_more i.metrics.blocks_rolled_back j.metrics.blocks_rolled_back n rolled;
      })

  -- In a database that does not fail, the indexer receives blocks that can be connected one after
  -- the other from a height on (heights of 32 bits without records; each input null, unknown to
  -- the store or an unspent output of it; outputs and records new), and then their disconnections,
  -- the last block first: if the tip was one below the height (0 below 0), the trees of the
  -- history, the outputs, the unspent outputs and the journal, the tip, and the records below the
  -- height are what they were, and both block counters moved, modulo 2 ^ 64, by the number of
  -- blocks.
  pub handle_events-reorg :
      (h : ℕ) (blocks : List bl.Block) (i : Indexer)
      → Chain h i.state blocks
      → i.state.tip_height ≡ h - 1
      → Returned h (length blocks) i (handle_events (reorg h blocks) i)
  unfolding handle_events
  handle_events-reorg _ _ i (ends h s) at = record {
    trees = refl;
    tip = refl;
    below = λ k e. refl;
    indexed = omega arith;
    rolled_back = omega arith;
  }
  handle_events-reorg _ _ i (next h s b bs n low new valid chain) at =
      let c = connects r h s (bl.txdata b) n low new valid in
      let j = handle_event (connected b h) i in
      let hash = bl.block_hash (bl.header b) in
      rw (handle_events-append (reorg (suc h) bs) (disconnected hash h ∷ []) j) (
        around h (length bs) i _ b hash c at
          (handle_events-reorg (suc h) bs j chain (c.tip ∙ omega arith)))
