-- ===== src/Indexer/Queries/Unspent/Free.antt =====
-- No output that a pending transaction spends is listed as unspent.
use nakamoto_electrs.Prelude.{
  ℕ, suc, ◌==◌, ◌&&◌, ◌≡◌, refl, false, Bool-cases, inl, inr, All, All-append, List, [], ◌∷◌, ok,
  map_ok_inv, beq,
}
use nakamoto_electrs.Prelude.Sort.Sorted.{sort_by-All}
use nakamoto_electrs.Bitcoin.{OutPoint, TxOut, Bitcoin, IsLawful}
use nakamoto_electrs.Sled.{Sled, IsReliable}
use nakamoto_electrs.HashMap.{HashMap, insert}
use nakamoto_electrs.HashMap.Keys.{◌≐◌, outpoint_eq, bytes_eq}
use nakamoto_electrs.HashMap.Sets.{has}
use nakamoto_electrs.Store.Types.{ScriptHash, Txid, StoredOutput, StoredUnspent}
use nakamoto_electrs.Store.Index.{PersistentIndex, list_unspent_for_script}
use nakamoto_electrs.Indexer.State.{IndexState, as_u32}
use nakamoto_electrs.Indexer.Pending.{
  view_outputs, view_all, pending_output, pending_spent_outpoints, rebuild_pending_view,
}
use nakamoto_electrs.Indexer.Mempool.Track.{IsListed}
use nakamoto_electrs.Indexer.Reachable.{Reachable}
use nakamoto_electrs.Indexer.Reachable.Sound.{IsNamed}
use nakamoto_electrs.Indexer.Reachable.Invariant.{Reachable-IsCoherent}
use nakamoto_electrs.Indexer.Queries.Unspent.{
  drop_spent, paying, pending_unspent_for_script, dedup_after, dedup, unspent_le, list_unspent,
}

module _ (spent : List OutPoint) where
  -- The outpoint that a row of the list names is not spent.
  abbrev pub IsFree : StoredUnspent → Type 0
  IsFree e = has (record { txid = e.txid; vout = e.vout }) spent ≡ false

  -- An entry of the view carries its own outpoint, which is not spent.
  abbrev IsViewed : OutPoint × StoredOutput → Type 0
  IsViewed (o, output) = (output.txid ≡ o.txid) × (output.vout ≡ o.vout) × (has o spent ≡ false)

  insert-IsViewed :
      (o : OutPoint) (output : StoredOutput) (view : HashMap OutPoint StoredOutput)
      → IsViewed (o, output)
      → All IsViewed view
      → All IsViewed (insert o output view)
  unfolding insert
  insert-IsViewed o output [] p h = (p, tt)
  insert-IsViewed o output ((j, w) ∷ view) p (q, qs) = elim (Bool-cases (j ≐ o)) [
    | inl same ↦ rw same (p, qs)
    | inr other ↦ rw other (q, insert-IsViewed o output view p qs)
  ]

  module _ ⦃bc : Bitcoin⦄ where
    view_outputs-IsViewed :
        (txid : Txid) (i : ℕ) (outs : List TxOut) (view : HashMap OutPoint StoredOutput)
        → All IsViewed view
        → All IsViewed (view_outputs spent txid i outs view)
    unfolding view_outputs
    view_outputs-IsViewed txid i [] view h = h
    view_outputs-IsViewed txid i (x ∷ rest) view h =
        let o : OutPoint = record { txid = txid; vout = as_u32 i } in
        let output = pending_output txid (as_u32 i) x in
        elim (Bool-cases (has o spent)) [
          | inl gone ↦ rw gone (view_outputs-IsViewed txid (suc i) rest view h)
          | inr free ↦ rw free (
              view_outputs-IsViewed txid (suc i) rest (insert o output view)
                (insert-IsViewed o output view (refl, refl, free) h))
        ]

    view_all-IsViewed :
        (txs : HashMap Txid bc.Transaction) (view : HashMap OutPoint StoredOutput)
        → All IsViewed view
        → All IsViewed (view_all spent txs view)
    unfolding view_all
    view_all-IsViewed [] view h = h
    view_all-IsViewed ((key, tx) ∷ rest) view h =
        view_all-IsViewed rest _
          (view_outputs-IsViewed (bc.compute_txid tx) 0 (bc.outputs tx) view h)

  module _ ⦃sl : Sled⦄ ⦃bc : Bitcoin⦄ where
    paying-IsFree :
        (sh : ScriptHash) (view : HashMap OutPoint StoredOutput)
        → All IsViewed view
        → All IsFree (paying sh view)
    unfolding paying
    paying-IsFree sh [] h = tt
    paying-IsFree sh ((o, output) ∷ view) ((id, number, free), rest) =
        elim (Bool-cases (output.script_hash ≐ sh)) [
          | inl pays ↦ rw (pays, id, number) (free, paying-IsFree sh view rest)
          | inr other ↦ rw other (paying-IsFree sh view rest)
        ]

    drop_spent-IsFree : (es : List StoredUnspent) → All IsFree (drop_spent spent es)
    unfolding drop_spent
    drop_spent-IsFree [] = tt
    drop_spent-IsFree (e ∷ es) =
        elim (Bool-cases (has (record { txid = e.txid; vout = e.vout }) spent)) [
          | inl gone ↦ rw gone (drop_spent-IsFree es)
          | inr free ↦ rw free (free, drop_spent-IsFree es)
        ]

    dedup_after-IsFree :
        (kept : StoredUnspent) (es : List StoredUnspent)
        → All IsFree es
        → All IsFree (dedup_after kept es)
    unfolding dedup_after
    dedup_after-IsFree kept [] h = tt
    dedup_after-IsFree kept (e ∷ es) (p, ps) =
        elim (Bool-cases (beq e.txid kept.txid && e.vout == kept.vout)) [
          | inl same ↦ rw same (dedup_after-IsFree kept es ps)
          | inr other ↦ rw other (p, dedup_after-IsFree e es ps)
        ]

    dedup-IsFree : (es : List StoredUnspent) → All IsFree es → All IsFree (dedup es)
    unfolding dedup
    dedup-IsFree [] h = tt
    dedup-IsFree (e ∷ es) (p, ps) = (p, dedup_after-IsFree e es ps)

module _ ⦃sl : Sled⦄ (r : IsReliable sl) ⦃bc : Bitcoin⦄ (l : IsLawful bc) where
  -- In every state that the indexer comes to (under the conditions of the invariant of these
  -- states), no row that is listed as unspent names an outpoint that a pending transaction spends,
  -- whether the row is confirmed or pending.
  pub list_unspent-IsFree :
      (store : PersistentIndex) (s : IndexState) (sh : ScriptHash) (rows : List StoredUnspent)
      → IsListed store
      → IsNamed store
      → Reachable store s
      → list_unspent sh s ≡ ok rows
      → All (IsFree (pending_spent_outpoints s)) rows
  unfolding list_unspent pending_unspent_for_script rebuild_pending_view
  list_unspent-IsFree store s sh rows listed named before e =
      let spent = pending_spent_outpoints s in
      let fresh = (Reachable-IsCoherent r l store s listed named before).fresh in
      let (confirmed, found, same) = map_ok_inv (list_unspent_for_script sh s.store) _ rows e in
      let pending : All (IsFree spent) (paying sh s.pending_outputs) =
        rw fresh (paying-IsFree spent sh _ (view_all-IsViewed spent s.pending_txs [] tt)) in
      let all =
        All-append (IsFree spent) (drop_spent spent confirmed) _ (drop_spent-IsFree spent confirmed)
          pending in
      rw (← same) (dedup-IsFree spent _ (sort_by-All unspent_le (IsFree spent) _ all))
