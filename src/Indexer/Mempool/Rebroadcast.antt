-- ===== src/Indexer/Mempool/Rebroadcast.antt =====
-- Tracking a transaction that is pending already.
use nakamoto_electrs.Prelude.{
  ◌≡◌, ◌≢◌, refl, true, false, none, some, Option, List, [], ◌∷◌, arith, eq_of_beq, beq, beq_refl,
  Bool-cases, inl, inr,
}
use nakamoto_electrs.Bitcoin.{OutPoint, Bitcoin}
use nakamoto_electrs.Sled.{Sled, IsReliable}
use nakamoto_electrs.HashMap.{HashMap, get, remove}
use nakamoto_electrs.HashMap.Keys.{◌≐◌, bytes_eq, outpoint_eq}
use nakamoto_electrs.HashMap.Sets.{has, add, has-add, extend}
use nakamoto_electrs.HashMap.Laws.{get-insert}
use nakamoto_electrs.Store.Types.{ScriptHash, Txid}
use nakamoto_electrs.Store.Index.{delete_pending_txid}
use nakamoto_electrs.Indexer.State.{IndexState, ignore}
use nakamoto_electrs.Indexer.Pending.{
  meets, spend_inputs, spends_from, prevout_txids, pending_conflicting_txids, rebuild_pending_view,
}
use nakamoto_electrs.Indexer.Graph.Closure.{Reach, here, next}
use nakamoto_electrs.Indexer.Mempool.{
  descendants, chain, remove_each, forget_each, forget_pending_transaction_chain_internal,
  track_pending_transaction,
}
use nakamoto_electrs.Indexer.Mempool.Chain.{has-chain, get-forget_chain}
use nakamoto_electrs.Indexer.Mempool.Track.{
  IsListed, forget_each-IsListed, track_evicted_lem, has-conflicts, kept_by_forget_each,
}

module _ ⦃bc : Bitcoin⦄ where
  spend_inputs_keeps :
      (os spent : List OutPoint) (o : OutPoint)
      → has o spent ≡ true
      → has o (spend_inputs os spent) ≡ true
  unfolding spend_inputs
  spend_inputs_keeps [] spent o h = h
  spend_inputs_keeps (p ∷ os) spent o h = elim (Bool-cases (bc.is_null p)) [
    | inl e ↦ rw (spend_inputs, e) (spend_inputs_keeps os spent o h)
    | inr e ↦
        rw (spend_inputs, e)
          (spend_inputs_keeps os (add p spent) o (ground (arith, has-add p o spent, h)))
  ]

  has-spend_inputs :
      (os spent : List OutPoint) (o : OutPoint)
      → bc.is_null o ≡ false
      → has o os ≡ true
      → has o (spend_inputs os spent) ≡ true
  unfolding has spend_inputs
  has-spend_inputs [] spent o n h = absurd (cc (h))
  has-spend_inputs (p ∷ os) spent o n h = elim (Bool-cases (p ≐ o)) [
    | inl same ↦
        let e : p ≡ o = outpoint_eq.eq_of_same p o same in
        let real : bc.is_null p ≡ false = rw e n in
        rw (spend_inputs, real)
          (spend_inputs_keeps os (add p spent) o (ground (arith, has-add p o spent, same)))
    | inr other ↦ has-spend_inputs os _ o n (ground (arith, h, other))
  ]

  meets_at :
      (nps os : List OutPoint) (o : OutPoint)
      → has o nps ≡ true
      → has o os ≡ true
      → meets nps os ≡ true
  unfolding has meets
  meets_at nps [] o k h = absurd (cc (h))
  meets_at nps (p ∷ os) o k h = elim (Bool-cases (p ≐ o)) [
    | inl same ↦ let at : has p nps ≡ true = rw (outpoint_eq.eq_of_same p o same) k in rw at refl
    | inr other ↦
        let later = meets_at nps os o k (ground (arith, h, other)) in ground (arith, later)
  ]

  -- A transaction with an input shares it with itself.
  meets_itself :
      (os : List OutPoint) (o : OutPoint)
      → bc.is_null o ≡ false
      → has o os ≡ true
      → meets (spend_inputs os []) os ≡ true
  meets_itself os o n h = meets_at (spend_inputs os []) os o (has-spend_inputs os [] o n h) h

  no_parent_added :
      (p : OutPoint) (spent : List OutPoint) (id : Txid)
      → (p.txid ≐ id) ≡ false
      → has id (prevout_txids spent) ≡ false
      → has id (prevout_txids (add p spent)) ≡ false
  unfolding add prevout_txids
  no_parent_added p spent id n h = elim (Bool-cases (has p spent)) [
    | inl e ↦ rw e h
    | inr e ↦ rw (e, has-add p.txid id (prevout_txids spent), n, h) refl
  ]

  no_parent_from :
      (os spent : List OutPoint) (id : Txid)
      → spends_from id os ≡ false
      → has id (prevout_txids spent) ≡ false
      → has id (prevout_txids (spend_inputs os spent)) ≡ false
  unfolding spends_from spend_inputs
  no_parent_from [] spent id h k = k
  no_parent_from (p ∷ os) spent id h k = elim (Bool-cases (bc.is_null p)) [
    | inl e ↦ rw (spend_inputs, e) (no_parent_from os spent id (ground (arith, h)) k)
    | inr e ↦
        rw (spend_inputs, e)
          (no_parent_from os (add p spent) id (ground (arith, h))
            (no_parent_added p spent id (ground (arith, h, e)) k))
  ]

  no_parent :
      (os : List OutPoint) (id : Txid)
      → spends_from id os ≡ false
      → has id (prevout_txids (spend_inputs os [])) ≡ false
  no_parent os id h = no_parent_from os [] id h (unfold prevout_txids has in refl)

  descendants-remove :
      (p : HashMap Txid bc.Transaction) (y t x : Txid)
      → beq y x ≡ false
      → has x (descendants p t) ≡ true
      → has x (descendants (remove y p) t) ≡ true
  unfolding descendants remove has
  descendants-remove [] y t x n h = h
  descendants-remove ((key, tx) ∷ p) y t x n h =
      ground (arith, descendants-remove p y t x n, eq_of_beq key y, eq_of_beq key x, beq_refl x)

module _ ⦃sl : Sled⦄ ⦃bc : Bitcoin⦄ where
  descendants-remove_each :
      (xs : List Txid) (s : IndexState) (t x : Txid)
      → has x xs ≡ false
      → has x (descendants s.pending_txs t) ≡ true
      → has x (descendants (remove_each xs s).pending_txs t) ≡ true
  unfolding remove_each has
  descendants-remove_each [] s t x n h = h
  descendants-remove_each (y ∷ xs) s t x n h =
      let rest : IndexState =
        ignore (delete_pending_txid y) (record s { pending_txs = remove y s.pending_txs }) in
      descendants-remove_each xs rest t x (ground (arith, n))
        (descendants-remove s.pending_txs y t x (ground (arith, n)) h)

  -- What another chain does not hold is reached as before when that chain is forgotten.
  still_reached :
      (s : IndexState) (c d : Txid) {x : Txid}
      → has x (chain d s) ≡ false
      → Reach (descendants s.pending_txs) c x
      → Reach (descendants (forget_pending_transaction_chain_internal d s).1.pending_txs) c x
  unfolding forget_pending_transaction_chain_internal rebuild_pending_view
  still_reached s c d n here = here
  still_reached s c d n (next {t} {x} r k) = elim (Bool-cases (has t (chain d s))) [
    | inl held ↦ absurd (cc ((has-chain s d x).1 (next ((has-chain s d t).0 held) k), n))
    | inr free ↦ next (still_reached s c d free r) (descendants-remove_each (chain d s) s t x n k)
  ]

  stays_gone :
      (cs : List Txid) (affected : List ScriptHash) (s : IndexState) (x : Txid)
      → get x s.pending_txs ≡ none
      → get x (forget_each cs affected s).1.pending_txs ≡ none
  stays_gone cs affected s x e = left (get x (forget_each cs affected s).1.pending_txs) refl
    where
      left :
          (m : Option bc.Transaction)
          → get x (forget_each cs affected s).1.pending_txs ≡ m
          → m ≡ none
      left none g = refl
      left (some tx) g = absurd (cc ((kept_by_forget_each cs affected s x tx g).0, e))

  -- Every chain of the list is forgotten, though those before it may have taken a part of it.
  forget_each_chain :
      (cs : List Txid) (affected : List ScriptHash) (s : IndexState) (c x : Txid)
      → has c cs ≡ true
      → Reach (descendants s.pending_txs) c x
      → get x (forget_each cs affected s).1.pending_txs ≡ none
  unfolding forget_each has
  forget_each_chain [] affected s c x h reach = absurd (cc (h))
  forget_each_chain (d ∷ cs) affected s c x h reach =
      let f = forget_pending_transaction_chain_internal d s in
      elim (Bool-cases (has x (chain d s))) [
        | inl held ↦
            stays_gone cs (extend f.0 affected) f.1 x (rw (get-forget_chain s d x, held) refl)
        | inr free ↦ elim (Bool-cases (beq d c)) [
          | inl same ↦ absurd (cc ((has-chain s d x).1 (rw (eq_of_beq d c same) reach), free))
          | inr other ↦
              forget_each_chain cs (extend f.0 affected) f.1 c x (ground (arith, h, other))
                (still_reached s c d free reach)
        ]
      ]

module _ ⦃sl : Sled⦄ (r : IsReliable sl) ⦃bc : Bitcoin⦄ where
  -- Where a pending transaction that spends an outpoint, and none of its own outputs, is tracked
  -- once more, every other descendant of it is no longer pending, in a database that does not fail
  -- and whose list of pending txids can be read.
  pub rebroadcast_evicts :
      (tx : bc.Transaction) (s : IndexState) (x : Txid) (o : OutPoint)
      → IsListed s.store
      → get (bc.compute_txid tx) s.pending_txs ≡ some tx
      → has o (bc.prevouts tx) ≡ true
      → bc.is_null o ≡ false
      → spends_from (bc.compute_txid tx) (bc.prevouts tx) ≡ false
      → Reach (descendants s.pending_txs) (bc.compute_txid tx) x
      → x ≢ bc.compute_txid tx
      → get x (track_pending_transaction tx s).1.pending_txs ≡ none
  unfolding track_pending_transaction pending_conflicting_txids
  rebroadcast_evicts tx s x o h held input real own reach n =
      let id = bc.compute_txid tx in
      let os = bc.prevouts tx in
      let cs = pending_conflicting_txids tx s in
      let f = forget_each cs [] s in
      let itself : has id cs ≡ true =
        has-conflicts (spend_inputs os []) s.pending_txs id tx held (no_parent os id own)
          (meets_itself os o real input) in
      let gone = forget_each_chain cs [] s id x itself reach in
      rw (track_evicted_lem r tx f.0 f.1 (forget_each-IsListed r cs [] s h)) (
        unfold rebuild_pending_view in
        ground (arith, get-insert x id tx f.1.pending_txs, eq_of_beq id x, n, gone))
