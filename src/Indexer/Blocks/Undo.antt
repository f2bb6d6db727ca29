-- ===== src/Indexer/Blocks/Undo.antt =====
-- Steps of `apply_block` together with the records that undo them.
use mathlib.Core.List.{reverse, reverse-append, append_assoc, append-nil}
use nakamoto_electrs.Prelude.{ℕ, All, ◌<◌, ◌^◌, ◌≡◌, refl, ap, ◌∙◌, false, List, [], ◌++◌}
use nakamoto_electrs.Bitcoin.{Bitcoin}
use nakamoto_electrs.Sled.{Sled, IsReliable}
use nakamoto_electrs.HashMap.{get, listed}
use nakamoto_electrs.HashMap.Keys.{◌≐◌, nat_eq}
use nakamoto_electrs.Store.Index.{PersistentIndex}
use nakamoto_electrs.Indexer.State.{IndexState, BlockAction}
use nakamoto_electrs.Indexer.Blocks.{undo_all}
use nakamoto_electrs.Indexer.Blocks.Journal.{IsFit, All-append_inv, Adds, Adds-nil, Adds-append}
use nakamoto_electrs.Indexer.Blocks.Views.{Views, views, Leaves, undo_all-append}

module _ ⦃sl : Sled⦄ (r : IsReliable sl) ⦃bc : Bitcoin⦄ (height : ℕ) where
  -- From `s` to `t` the records `actions` were added at `height`, and undoing them, the last one
  -- first, leads back to what the trees held in `s`.
  pub record Undoes (s t : IndexState) (actions : List BlockAction) : Type 0 where
    pub pushed : listed (get height t.by_height) ≡ listed (get height s.by_height) ++ actions
    pub others : (j : ℕ) → (height ≐ j) ≡ false → get j t.by_height ≡ get j s.by_height
    pub undone :
        (u : PersistentIndex)
        → views r u ≡ views r t.store
        → Leaves r (undo_all (reverse actions) u) (views r s.store)
    pub journalled :
        height < 2 ^ 32
        → All IsFit actions
        → Adds height (r.view s.store.journal) (r.view t.store.journal) actions

  -- A step that leaves the trees and the records alone.
  pub Undoes-nil :
      (s t : IndexState)
      → t.by_height ≡ s.by_height
      → views r t.store ≡ views r s.store
      → Undoes s t []
  Undoes-nil s t e v = record {
    pushed = rw (e, append-nil (listed (get height s.by_height))) refl;
    others = λ j n. ap (get j) e;
    undone = λ u h. unfold undo_all in (refl, h ∙ v);
    journalled = λ l f.
        Adds-nil height (r.view s.store.journal) (r.view t.store.journal)
          (ap (λ (w : Views). w.journal) v);
  }

  pub Undoes-append :
      (s t u : IndexState) (as' bs : List BlockAction)
      → Undoes s t as'
      → Undoes t u bs
      → Undoes s u (as' ++ bs)
  Undoes-append s t u as' bs a b = record {
    pushed = b.pushed ∙ rw (a.pushed, append_assoc (listed (get height s.by_height)) as' bs) refl;
    others = λ j n. b.others j n ∙ a.others j n;
    undone = λ x h. rw (reverse-append as' bs) (
        undo_all-append r (reverse bs) (reverse as') x (views r t.store) (views r s.store)
          (b.undone x h) (λ y g. a.undone y g));
    journalled = λ l f.
        let (fa, fb) = All-append_inv IsFit as' bs f in
        Adds-append height (r.view s.store.journal) (r.view t.store.journal)
          (r.view u.store.journal) as' bs (a.journalled l fa) (b.journalled l fb);
  }
