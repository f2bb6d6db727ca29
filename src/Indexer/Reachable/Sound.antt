-- ===== src/Indexer/Reachable/Sound.antt =====
-- What ties the pending transactions to their view and to the store, and the writes that keep it.
use nakamoto_electrs.Prelude.{
  ℕ, ◌^◌, ◌≤◌, ◌≡◌, refl, arith, true, none, some, List, [], ◌∷◌, length, ok, beq, eq_of_beq,
  beq_refl, Bool-cases, inl, inr,
}
use nakamoto_electrs.Prelude.Exec.{Exec}
use nakamoto_electrs.Prelude.Exec.Keeps.{Keeps}
use nakamoto_electrs.Bytes.{IsArray, be_bytes}
use nakamoto_electrs.Bitcoin.{Bitcoin, IsLawful}
use nakamoto_electrs.Sled.{Sled, IsReliable}
use nakamoto_electrs.Sled.Reads
use nakamoto_electrs.HashMap.{HashMap, get, insert, remove}
use nakamoto_electrs.HashMap.Keys.{◌≐◌, bytes_eq}
use nakamoto_electrs.HashMap.Laws.{get-insert, get-remove}
use nakamoto_electrs.Store.Types.{ScriptHash, Txid, TxEntry}
use nakamoto_electrs.Store.Loops.{contains, without}
use nakamoto_electrs.Store.Index.{
  PersistentIndex, load_pending_txids, load_tx, store_tx, delete_tx, set_tip_height,
  pending_txids_key, tip_height_key, delete_pending_txid,
}
use nakamoto_electrs.Store.Index.Laws.{
  load-delete_pending_txid, load_tx-store_tx, load_tx-delete_tx,
}
use nakamoto_electrs.Indexer.State.{IndexState, BlockAction, on_store, ignore}
use nakamoto_electrs.Indexer.Pending.{rebuild_pending_view}
use nakamoto_electrs.Indexer.Pending.View.{IsTracked}
use nakamoto_electrs.Indexer.Mempool.Track.{IsListed}
use nakamoto_electrs.Indexer.Mempool.{forget_pending_transaction_internal}
use nakamoto_electrs.Store.Loops.Txids.{contains-without, All-without}

module _ ⦃bc : Bitcoin⦄ where
  -- Each transaction stands once, under its own id.
  abbrev pub IsKeyed : HashMap Txid bc.Transaction → Type 0
  IsKeyed [] = Unit
  IsKeyed ((key, tx) ∷ rest) = (key ≡ bc.compute_txid tx) × (get key rest ≡ none) × IsKeyed rest

  pub insert-IsKeyed :
      (k : Txid) (tx : bc.Transaction) (m : HashMap Txid bc.Transaction)
      → k ≡ bc.compute_txid tx
      → IsKeyed m
      → IsKeyed (insert k tx m)
  unfolding insert get
  insert-IsKeyed k tx [] e h = (e, refl, tt)
  insert-IsKeyed k tx ((j, w) ∷ m) e h = elim (Bool-cases (j ≐ k)) [
    | inl same ↦ rw same (e, rw (← eq_of_beq j k same) (h.1), h.2)
    | inr other ↦
        let free : get j (insert k tx m) ≡ none =
          ground (arith, get-insert j k tx m, other, eq_of_beq k j, beq_refl k, h.1) in
        rw other (h.0, free, insert-IsKeyed k tx m e h.2)
  ]

  pub remove-IsKeyed :
      (k : Txid) (m : HashMap Txid bc.Transaction) → IsKeyed m → IsKeyed (remove k m)
  unfolding remove
  remove-IsKeyed k [] h = tt
  remove-IsKeyed k ((j, w) ∷ m) h = elim (Bool-cases (j ≐ k)) [
    | inl same ↦ rw same (remove-IsKeyed k m h.2)
    | inr other ↦
        let free : get j (remove k m) ≡ none = ground (arith, get-remove j k m, h.1) in
        rw other (h.0, free, remove-IsKeyed k m h.2)
  ]

  pub IsKeyed-IsTracked :
      (m : HashMap Txid bc.Transaction)
      → ((tx : bc.Transaction) → length (bc.outputs tx) ≤ 2 ^ 32)
      → IsKeyed m
      → IsTracked m
  IsKeyed-IsTracked [] small h = tt
  IsKeyed-IsTracked ((k, tx) ∷ m) small h = (h.0, h.1, small tx, IsKeyed-IsTracked m small h.2)

module _ ⦃sl : Sled⦄ ⦃bc : Bitcoin⦄ where
  -- A stored transaction stands under its own id.
  abbrev pub IsNamed : PersistentIndex → Type 0
  IsNamed s =
      (txid : Txid) (tx : bc.Transaction)
      → load_tx txid s ≡ ok (some tx)
      → bc.compute_txid tx ≡ txid

  -- What the index relies on in the store, with the list of pending txids.
  pub record IsKept (txids : List Txid) (s : PersistentIndex) : Type 0 where
    pub loads : load_pending_txids s ≡ ok txids
    pub named : IsNamed s

  -- The pending transactions stand once, under their ids, and each is in the store's list.
  pub record IsSound (s : IndexState) : Type 0 where
    pub listed : IsListed s.store
    pub durable :
        (txid : Txid) (tx : bc.Transaction)
        → get txid s.pending_txs ≡ some tx
        → contains listed.txids txid ≡ true
    pub keyed : IsKeyed s.pending_txs
    pub named : IsNamed s.store

  -- The view of the pending outputs is the one that a rebuild would give, too.
  pub record IsCoherent (s : IndexState) : Type 0 where
    pub sound : IsSound s
    pub fresh : s.pending_outputs ≡ (rebuild_pending_view s).pending_outputs

  pub rebuild-IsCoherent : (s : IndexState) → IsSound s → IsCoherent (rebuild_pending_view s)
  unfolding rebuild_pending_view
  rebuild-IsCoherent s h = record {
    sound = record { listed = h.listed; durable = h.durable; keyed = h.keyed; named = h.named };
    fresh = refl;
  }

  -- the other fields
  pub IsSound-aside :
      (s : IndexState) (history : HashMap ScriptHash (List TxEntry))
      (by_height : HashMap ℕ (List BlockAction)) (tip_height : ℕ)
      → IsSound s
      → IsSound (record s { history = history; by_height = by_height; tip_height = tip_height })
  IsSound-aside s history by_height tip_height h = record {
    listed = h.listed;
    durable = h.durable;
    keyed = h.keyed;
    named = h.named;
  }

  pub IsCoherent-aside :
      (s : IndexState) (history : HashMap ScriptHash (List TxEntry))
      (by_height : HashMap ℕ (List BlockAction)) (tip_height : ℕ)
      → IsCoherent s
      → IsCoherent (record s { history = history; by_height = by_height; tip_height = tip_height })
  unfolding rebuild_pending_view
  IsCoherent-aside s history by_height tip_height h = record {
    sound = IsSound-aside s history by_height tip_height h.sound;
    fresh = h.fresh;
  }

  -- a call on the store
  pub on_store-Keeps :
      {A : Type 0} (m : Exec PersistentIndex A)
      → ((txids : List Txid) → Keeps (IsKept txids) m)
      → Keeps IsCoherent (on_store m)
  unfolding rebuild_pending_view
  on_store-Keeps m k = record {
    at = λ s h.
        let listed = h.sound.listed in
        let after =
          (k listed.txids).at s.store (record { loads = listed.loads; named = h.sound.named }) in
        record {
          sound = record {
            listed = record { txids = listed.txids; loads = after.loads; arrays = listed.arrays };
            durable = h.sound.durable;
            keyed = h.sound.keyed;
            named = after.named;
          };
          fresh = h.fresh;
        };
  }

module _ ⦃sl : Sled⦄ (r : IsReliable sl) ⦃bc : Bitcoin⦄ {txids : List Txid} where
  pub set_tip_height-Keeps : (height : ℕ) → Keeps (IsKept txids) (set_tip_height height)
  unfolding set_tip_height load_pending_txids load_tx beq
  set_tip_height-Keeps height = record {
    at = λ s h. record {
      loads =
          rw (Reads.get-insert r pending_txids_key tip_height_key (be_bytes 4 height) s.meta)
            (h.loads);
      named = h.named;
    };
  }

  pub delete_tx-Keeps : (gone : Txid) → Keeps (IsKept txids) (delete_tx gone)
  delete_tx-Keeps gone = record {
    at = λ s h. record {
      loads = unfold delete_tx load_pending_txids in h.loads;
      named = λ txid tx e. ground (arith, h.named txid tx, load_tx-delete_tx r s gone txid, e);
    };
  }

  pub store_tx-Keeps : (l : IsLawful bc) (tx : bc.Transaction) → Keeps (IsKept txids) (store_tx tx)
  store_tx-Keeps l tx = record {
    at = λ s h. record {
      loads = unfold store_tx load_pending_txids in h.loads;
      named = λ txid other e. ground (
        arith,
        h.named txid other,
        load_tx-store_tx r l s tx txid,
        e,
        eq_of_beq txid (bc.compute_txid tx),
      );
    };
  }

module _ ⦃sl : Sled⦄ (r : IsReliable sl) ⦃bc : Bitcoin⦄ where
  -- one transaction leaves the pending ones and the store's list
  pub drop-IsSound :
      (txid : Txid) (s : IndexState)
      → IsSound s
      → IsSound
          (ignore (delete_pending_txid txid) (record s { pending_txs = remove txid s.pending_txs }))
  drop-IsSound txid s h = record {
    listed = record {
      txids = without txid h.listed.txids;
      loads = load-delete_pending_txid r s.store txid h.listed.txids h.listed.loads h.listed.arrays;
      arrays = All-without (IsArray 32) txid h.listed.txids h.listed.arrays;
    };
    durable = λ x tx e. ground (
      arith,
      contains-without txid h.listed.txids x,
      get-remove x txid s.pending_txs,
      h.durable x tx,
      e,
    );
    keyed = remove-IsKeyed txid s.pending_txs h.keyed;
    named = unfold delete_pending_txid load_tx in rw (h.listed.loads) (h.named);
  }

  pub forget-IsCoherent :
      (txid : Txid) (s : IndexState)
      → IsSound s
      → IsCoherent (forget_pending_transaction_internal txid s)
  unfolding forget_pending_transaction_internal
  forget-IsCoherent txid s h = rebuild-IsCoherent _ (drop-IsSound txid s h)
