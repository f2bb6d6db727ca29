-- ===== src/Indexer/Mempool/Chain.antt =====
-- Forgetting a transaction takes exactly its descendants with it.
use nakamoto_electrs.Prelude.{
  ◌≤◌, ◌≡◌, refl, sym, ap, suc, true, false, none, some, List, [], ◌∷◌, arith, length, Bool-cases,
  inl, inr, if◌then◌else◌,
}
use nakamoto_electrs.Bitcoin.{Bitcoin}
use nakamoto_electrs.Sled.{Sled}
use nakamoto_electrs.HashMap.{HashMap, get, remove}
use nakamoto_electrs.HashMap.Keys.{bytes_eq}
use nakamoto_electrs.HashMap.Sets.{has}
use nakamoto_electrs.HashMap.Laws.{get-remove}
use nakamoto_electrs.Store.Types.{Txid}
use nakamoto_electrs.Indexer.State.{IndexState, ignore}
use nakamoto_electrs.Store.Index.{delete_pending_txid}
use nakamoto_electrs.Indexer.Pending.{spends_from, rebuild_pending_view}
use nakamoto_electrs.Indexer.Graph.Closure.{Reach, next, walk-Reach}
use nakamoto_electrs.Indexer.Mempool.{
  descendants, remove_each, chain, chain_visit, forget_pending_transaction_chain_internal,
}

module _ ⦃bc : Bitcoin⦄ where
  abbrev pub keys : HashMap Txid bc.Transaction → List Txid
  keys [] = []
  keys ((key, tx) ∷ rest) = key ∷ keys rest

  length-keys : (p : HashMap Txid bc.Transaction) → length (keys p) ≡ length p
  length-keys [] = refl
  length-keys ((key, tx) ∷ rest) = ap suc (length-keys rest)

  length-descendants :
      (p : HashMap Txid bc.Transaction) (t : Txid) → length (descendants p t) ≤ length (keys p)
  unfolding descendants
  length-descendants [] t = omega arith
  length-descendants ((key, tx) ∷ rest) t = ground (arith, length-descendants rest t)

  has-keys :
      (p : HashMap Txid bc.Transaction) (t x : Txid)
      → has x (descendants p t) ≡ true
      → has x (keys p) ≡ true
  unfolding descendants has
  has-keys [] t x h = h
  has-keys ((key, tx) ∷ rest) t x h = ground (arith, has-keys rest t x)

  -- A pending transaction that spends from `t` is one of the descendants of `t`.
  pub has-descendants :
      (p : HashMap Txid bc.Transaction) (t x : Txid) (tx : bc.Transaction)
      → get x p ≡ some tx
      → spends_from t (bc.prevouts tx) ≡ true
      → has x (descendants p t) ≡ true
  unfolding descendants has get
  has-descendants [] t x tx g h = cc
  has-descendants ((key, other) ∷ rest) t x tx g h = ground (arith, has-descendants rest t x tx)

module _ ⦃sl : Sled⦄ ⦃bc : Bitcoin⦄ where
  -- The walk of the eviction finds exactly the descendants, whatever the graph is.
  pub has-chain :
      (s : IndexState) (txid x : Txid)
      → (has x (chain txid s) ≡ true → Reach (descendants s.pending_txs) txid x)
        × (Reach (descendants s.pending_txs) txid x → has x (chain txid s) ≡ true)
  unfolding chain
  has-chain s txid x =
      let p = s.pending_txs in
      walk-Reach (descendants p) (chain_visit s) txid (keys p) (length p) [] (sym (length-keys p))
        (length-descendants p) (has-keys p) x

  get-remove_each :
      (xs : List Txid) (s : IndexState) (x : Txid)
      → get x (remove_each xs s).pending_txs ≡ (if has x xs then none else get x s.pending_txs)
  unfolding remove_each has
  get-remove_each [] s x = refl
  get-remove_each (y ∷ xs) s x =
      let rest : IndexState =
        ignore (delete_pending_txid y) (record s { pending_txs = remove y s.pending_txs }) in
      ground (arith, get-remove_each xs rest x, get-remove x y s.pending_txs)

  pub get-forget_chain :
      (s : IndexState) (txid x : Txid)
      → get x (forget_pending_transaction_chain_internal txid s).1.pending_txs
        ≡ (if has x (chain txid s) then none else get x s.pending_txs)
  unfolding forget_pending_transaction_chain_internal rebuild_pending_view
  get-forget_chain s txid x = get-remove_each (chain txid s) s x

  -- what is pending after the eviction was pending before, outside the chain
  pub left_pending :
      (s : IndexState) (txid x : Txid) (tx : bc.Transaction)
      → get x (forget_pending_transaction_chain_internal txid s).1.pending_txs ≡ some tx
      → (has x (chain txid s) ≡ false) × (get x s.pending_txs ≡ some tx)
  left_pending s txid x tx left = ground (arith, get-forget_chain s txid x, left)

  -- After a transaction has been forgotten with its chain, it and its descendants are not pending.
  pub forgotten_chain :
      (s : IndexState) (txid x : Txid)
      → Reach (descendants s.pending_txs) txid x
      → get x (forget_pending_transaction_chain_internal txid s).1.pending_txs ≡ none
  forgotten_chain s txid x r = rw (get-forget_chain s txid x, (has-chain s txid x).1 r) refl

  -- A transaction that is no descendant of the forgotten one is pending as before.
  pub kept_outside_chain :
      (s : IndexState) (txid x : Txid)
      → ¬ Reach (descendants s.pending_txs) txid x
      → get x (forget_pending_transaction_chain_internal txid s).1.pending_txs ≡ get x s.pending_txs
  kept_outside_chain s txid x n = elim (Bool-cases (has x (chain txid s))) [
    | inl h ↦ absurd (n ((has-chain s txid x).0 h))
    | inr h ↦ rw (get-forget_chain s txid x, h) refl
  ]

  -- After a transaction was forgotten with its chain, no transaction that is left pending spends
  -- an output of one that was forgotten.
  pub no_orphan :
      (s : IndexState) (txid x t : Txid) (tx : bc.Transaction)
      → get x (forget_pending_transaction_chain_internal txid s).1.pending_txs ≡ some tx
      → Reach (descendants s.pending_txs) txid t
      → spends_from t (bc.prevouts tx) ≡ false
  no_orphan s txid x t tx left r = elim (Bool-cases (spends_from t (bc.prevouts tx))) [
    | inl spends ↦
        let (kept, before) = left_pending s txid x tx left in
        let kid = has-descendants s.pending_txs t x tx before spends in
        cc ((has-chain s txid x).1 (next r kid), kept)
    | inr h ↦ h
  ]
