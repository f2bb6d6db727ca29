-- ===== src/Indexer/Pending/View.antt =====
-- The rebuilt view holds exactly the outputs of pending transactions that no pending transaction
-- spends.
use nakamoto_electrs.Prelude.{
  ℕ, zero, suc, ◌+◌, ◌^◌, ◌≤◌, ◌<◌, ◌≡◌, ◌⊎◌, ◌∙◌, refl, sym, ap, true, false, Option, none, some,
  List, [], ◌∷◌, arith, length, get_elem?, Bool-cases, inl, inr, if◌then◌else◌, eq_of_beq,
}
use mathlib.Core.Option
use nakamoto_electrs.Bitcoin.{OutPoint, TxOut, Bitcoin, same_outpoint}
use nakamoto_electrs.Sled.{Sled}
use nakamoto_electrs.HashMap.{HashMap, get, insert}
use nakamoto_electrs.HashMap.Keys.{◌≐◌, bytes_eq, outpoint_eq}
use nakamoto_electrs.HashMap.Sets.{has}
use nakamoto_electrs.HashMap.Laws.{get-insert}
use nakamoto_electrs.Store.Types.{Txid, StoredOutput}
use nakamoto_electrs.Indexer.State.{IndexState, as_u32}
use nakamoto_electrs.Store.Codec.Outpoints.{eq_of_same_outpoint, same_outpoint_refl}
use nakamoto_electrs.Indexer.Pending.{
  view_outputs, view_all, pending_output, pending_spent_outpoints, rebuild_pending_view, scanned,
  or_else,
}

module _ ⦃bc : Bitcoin⦄ where
  -- Each transaction stands once, under its own id, and its outputs can be numbered by a `u32`.
  abbrev pub IsTracked : HashMap Txid bc.Transaction → Type 0
  IsTracked [] = Unit
  IsTracked ((key, tx) ∷ rest) =
      (key ≡ bc.compute_txid tx)
      × (get key rest ≡ none)
      × (length (bc.outputs tx) ≤ 2 ^ 32)
      × IsTracked rest

  module _ (spent : List OutPoint) (o : OutPoint) where
    -- one round of the loop leaves another outpoint, and a spent one, as it was
    step_skip :
        (p : OutPoint) (v : StoredOutput) (view : HashMap OutPoint StoredOutput)
        → (has o spent ≡ true) ⊎ ((p ≐ o) ≡ false)
        → get o (if has p spent then view else insert p v view) ≡ get o view
    step_skip p v view h = ground (arith, get-insert o p v view, eq_of_same_outpoint p o, h)

    -- outputs that are spent, of another transaction, or of higher numbers
    view_outputs_skip :
        (txid : Txid) (i : ℕ) (outs : List TxOut) (view : HashMap OutPoint StoredOutput)
        → i + length outs ≤ 2 ^ 32
        → (has o spent ≡ true) ⊎ (((txid ≐ o.txid) ≡ false) ⊎ (o.vout < i))
        → get o (view_outputs spent txid i outs view) ≡ get o view
    unfolding view_outputs
    view_outputs_skip txid i [] view b h = refl
    view_outputs_skip txid i (x ∷ rest) view b h =
        let p : OutPoint = record { txid = txid; vout = as_u32 i } in
        let apart : (has o spent ≡ true) ⊎ ((p ≐ o) ≡ false) =
          unfold same_outpoint in ground arith in
        let later : (has o spent ≡ true) ⊎ (((txid ≐ o.txid) ≡ false) ⊎ (o.vout < suc i)) =
          ground arith in
        view_outputs_skip txid (suc i) rest
          (if has p spent then view else insert p (pending_output txid (as_u32 i) x) view)
          (omega arith) later
        ∙ step_skip p (pending_output txid (as_u32 i) x) view apart

    view_outputs_hit :
        (i k : ℕ) (outs : List TxOut) (view : HashMap OutPoint StoredOutput)
        → i + length outs ≤ 2 ^ 32
        → has o spent ≡ false
        → o.vout ≡ i + k
        → get o (view_outputs spent o.txid i outs view)
          ≡ or_else (Option.map (pending_output o.txid o.vout) (get_elem? outs k)) (get o view)
    unfolding view_outputs
    view_outputs_hit i k [] view b h e = refl
    view_outputs_hit i zero (x ∷ rest) view b h e =
        let p : OutPoint = record { txid = o.txid; vout = as_u32 i } in
        let number : as_u32 i ≡ o.vout = omega arith in
        let later : (has o spent ≡ true) ⊎ (((o.txid ≐ o.txid) ≡ false) ⊎ (o.vout < suc i)) =
          inr (inr (omega arith)) in
        view_outputs_skip o.txid (suc i) rest
          (if has p spent then view else insert p (pending_output o.txid (as_u32 i) x) view)
          (omega arith) later
        ∙ rw (number, h, get-insert o o (pending_output o.txid o.vout x) view, same_outpoint_refl o)
            refl
    view_outputs_hit i (suc k) (x ∷ rest) view b h e =
        let p : OutPoint = record { txid = o.txid; vout = as_u32 i } in
        let apart : (p ≐ o) ≡ false = unfold same_outpoint in ground arith in
        view_outputs_hit (suc i) k rest
          (if has p spent then view else insert p (pending_output o.txid (as_u32 i) x) view)
          (omega arith) h (omega arith)
        ∙ rw (step_skip p (pending_output o.txid (as_u32 i) x) view (inr apart)) refl

    -- no transaction of the id is left
    view_all-none :
        (txs : HashMap Txid bc.Transaction) (view : HashMap OutPoint StoredOutput)
        → IsTracked txs
        → (has o spent ≡ true) ⊎ (get o.txid txs ≡ none)
        → get o (view_all spent txs view) ≡ get o view
    unfolding view_all get
    view_all-none [] view t h = refl
    view_all-none ((key, tx) ∷ rest) view t h =
        let here : (has o spent ≡ true) ⊎ (((bc.compute_txid tx ≐ o.txid) ≡ false) ⊎ (o.vout < 0)) =
          rw (← t.0) (ground arith) in
        let there : (has o spent ≡ true) ⊎ (get o.txid rest ≡ none) = ground arith in
        view_all-none rest (view_outputs spent (bc.compute_txid tx) 0 (bc.outputs tx) view) t.3
          there
        ∙ view_outputs_skip (bc.compute_txid tx) 0 (bc.outputs tx) view (omega arith) here

    view_all_lem :
        (txs : HashMap Txid bc.Transaction) (view : HashMap OutPoint StoredOutput)
        → IsTracked txs
        → has o spent ≡ false
        → get o (view_all spent txs view) ≡ or_else (scanned o (get o.txid txs)) (get o view)
    unfolding view_all get
    view_all_lem [] view t h = refl
    view_all_lem ((key, tx) ∷ rest) view t h = elim (Bool-cases (key ≐ o.txid)) [
      | inl same ↦
          let id : bc.compute_txid tx ≡ o.txid = sym t.0 ∙ eq_of_beq key o.txid same in
          let gone : get o.txid rest ≡ none = rw (← eq_of_beq key o.txid same) t.1 in
          rw (same, id)
            (view_all-none rest (view_outputs spent o.txid 0 (bc.outputs tx) view) t.3 (inr gone)
              ∙ view_outputs_hit 0 o.vout (bc.outputs tx) view (omega arith) h (omega arith))
      | inr other ↦
          let here : ((bc.compute_txid tx ≐ o.txid) ≡ false) = rw (← t.0) other in
          rw other (
            view_all_lem rest (view_outputs spent (bc.compute_txid tx) 0 (bc.outputs tx) view) t.3 h
            ∙ ap (or_else (scanned o (get o.txid rest))) (
                view_outputs_skip (bc.compute_txid tx) 0 (bc.outputs tx) view (omega arith)
                  (inr (inl here))))
    ]

or_else-none : (x : Option StoredOutput) → or_else x none ≡ x
or_else-none none = refl
or_else-none (some x) = refl

module _ ⦃sl : Sled⦄ ⦃bc : Bitcoin⦄ where
  -- After a rebuild an outpoint is in the view exactly if it is an output of a pending transaction
  -- that no pending transaction spends, and it carries that output's script hash and value, where
  -- each pending transaction stands once, under its own txid, with at most 2 ^ 32 outputs.
  pub get-rebuild_pending_view :
      (s : IndexState) (o : OutPoint)
      → IsTracked s.pending_txs
      → get o (rebuild_pending_view s).pending_outputs
        ≡ (if has o (pending_spent_outpoints s) then none else scanned o (get o.txid s.pending_txs))
  unfolding rebuild_pending_view get
  get-rebuild_pending_view s o t =
      let spent = pending_spent_outpoints s in
      elim (Bool-cases (has o spent)) [
        | inl h ↦ rw h (view_all-none spent o s.pending_txs [] t (inl h))
        | inr h ↦ rw h (
            view_all_lem spent o s.pending_txs [] t h
            ∙ or_else-none (scanned o (get o.txid s.pending_txs)))
      ]
