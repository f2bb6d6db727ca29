-- ===== src/Store/Index/Laws.antt =====
-- What a read of the persistent index returns after a write, where the database does not fail.
use nakamoto_electrs.Prelude.{
  ℕ, ◌^◌, ◌<◌, ◌≡◌, refl, none, some, List, ◌||◌, ◌&&◌, not, All, beq, beq_refl, Bool-cases, inl,
  inr, if◌then◌else◌, ok,
}
use nakamoto_electrs.Bytes.{IsArray, be_bytes, length-be_bytes, from_be_bytes-be_bytes}
use nakamoto_electrs.Bitcoin.{OutPoint, same_outpoint, Bitcoin, IsLawful}
use nakamoto_electrs.Sled.{Sled, IsReliable}
use nakamoto_electrs.Sled.Reads.{get-insert, get-remove}
use nakamoto_electrs.Store.Types.{ScriptHash, Txid, StoredOutput}
use nakamoto_electrs.Store.Codec.{encode_txid_list, outpoint_key, encode_output}
use nakamoto_electrs.Store.Codec.RoundTrip.{
  decode_output-encode_output, decode_txid_list-encode_txid_list,
}
use nakamoto_electrs.Store.Codec.Outpoints.{IsOutPoint, beq-outpoint_key, eq_of_same_outpoint}
use nakamoto_electrs.Store.Loops.{contains, without, push_new}
use nakamoto_electrs.Store.Loops.Txids.{
  IsDistinct, All-push_new, All-without, push_new-IsDistinct, without-IsDistinct, contains-without,
  contains-push_new,
}
use nakamoto_electrs.Store.Index.{
  PersistentIndex, tip_height_key, pending_txids_key, set_tip_height, tip_height,
  store_pending_txid, delete_pending_txid, load_pending_txids, store_output, load_output,
  delete_output, store_tx, load_tx, delete_tx,
}

module _ ⦃sl : Sled⦄ (r : IsReliable sl) where
  -- In a database that does not fail, the tip height of 32 bits that was set is read back.
  pub tip_height-set_tip_height :
      (s : PersistentIndex) (height : ℕ)
      → height < 2 ^ 32
      → tip_height (set_tip_height height s).1 ≡ height
  unfolding tip_height set_tip_height
  tip_height-set_tip_height s height h =
      rw
        (
          get-insert r tip_height_key tip_height_key (be_bytes 4 height) s.meta,
          beq_refl tip_height_key,
          length-be_bytes 4 height,
          from_be_bytes-be_bytes 4 height h,
        )
        refl

  -- the list that a write leaves
  load_written :
      (s : PersistentIndex) (ts : List Txid)
      → All (IsArray 32) ts
      → load_pending_txids
          (record s { meta = (sl.insert pending_txids_key (encode_txid_list ts) s.meta).1 })
        ≡ ok ts
  unfolding load_pending_txids
  load_written s ts h =
      rw
        (
          get-insert r pending_txids_key pending_txids_key (encode_txid_list ts) s.meta,
          beq_refl pending_txids_key,
        )
        (decode_txid_list-encode_txid_list ts h)

  pub load-store_pending_txid :
      (s : PersistentIndex) (txid : Txid) (ts : List Txid)
      → load_pending_txids s ≡ ok ts
      → All (IsArray 32) ts
      → IsArray 32 txid
      → load_pending_txids (store_pending_txid txid s).1 ≡ ok (push_new txid ts)
  unfolding store_pending_txid
  load-store_pending_txid s txid ts e h t =
      rw e (load_written s (push_new txid ts) (All-push_new (IsArray 32) txid ts t h))

  pub load-delete_pending_txid :
      (s : PersistentIndex) (txid : Txid) (ts : List Txid)
      → load_pending_txids s ≡ ok ts
      → All (IsArray 32) ts
      → load_pending_txids (delete_pending_txid txid s).1 ≡ ok (without txid ts)
  unfolding delete_pending_txid
  load-delete_pending_txid s txid ts e h =
      rw e (load_written s (without txid ts) (All-without (IsArray 32) txid ts h))

  -- Storing and then deleting a txid leave a list without duplicates, which holds a txid exactly
  -- if it is not the deleted one, and is the stored one or was in the list before, in a database
  -- that does not fail.
  pub pending_txids_set :
      (s : PersistentIndex) (added gone : Txid) (ts : List Txid) (x : Txid)
      → load_pending_txids s ≡ ok ts
      → All (IsArray 32) ts
      → IsArray 32 added
      → IsDistinct ts
      → (us : List Txid) × (load_pending_txids
            (delete_pending_txid gone (store_pending_txid added s).1).1
          ≡ ok us)
        × IsDistinct us
        × (contains us x ≡ (not (beq gone x) && (beq added x || contains ts x)))
  pending_txids_set s added gone ts x e h t d =
      let stored = load-store_pending_txid s added ts e h t in
      (
        without gone (push_new added ts),
        load-delete_pending_txid (store_pending_txid added s).1 gone (push_new added ts) stored
            (All-push_new (IsArray 32) added ts t h),
        without-IsDistinct gone (push_new added ts) (push_new-IsDistinct added ts d),
        rw (contains-without gone (push_new added ts) x, contains-push_new added ts x) refl,
      )

  -- In a database that does not fail, a stored output is found at its outpoint with every field,
  -- and every other outpoint reads as before.
  pub load_output-store_output :
      (s : PersistentIndex) (a b : OutPoint) (sh : ScriptHash) (value height : ℕ)
      → IsOutPoint a
      → IsOutPoint b
      → IsArray 32 sh
      → value < 2 ^ 64
      → height < 2 ^ 32
      → load_output b (store_output a sh value height s).1 ≡ (
          if same_outpoint b a
          then ok (
              some (record {
                script_hash = sh;
                txid = a.txid;
                vout = a.vout;
                value = value;
                height = height;
              }))
          else load_output b s)
  unfolding load_output store_output
  load_output-store_output s a b sh value height ha hb hs hv hh =
      let o : StoredOutput = record {
        script_hash = sh;
        txid = a.txid;
        vout = a.vout;
        value = value;
        height = height;
      } in
      rw
        (
          r.insert_ok (outpoint_key a) (encode_output o) s.outputs,
          get-insert r (outpoint_key b) (outpoint_key a) (encode_output o) s.outputs,
          beq-outpoint_key b a hb ha,
        )
        (elim (Bool-cases (same_outpoint b a)) [
          | inl same ↦
              rw
                (
                  same,
                  eq_of_same_outpoint b a same,
                  decode_output-encode_output o
                      (record { script_hash = hs; value = hv; height = hh }),
                )
                refl
          | inr other ↦ rw other refl
        ])

  -- In a database that does not fail, a deleted output is not found, and every other outpoint
  -- reads as before.
  pub load_output-delete_output :
      (s : PersistentIndex) (a b : OutPoint)
      → IsOutPoint a
      → IsOutPoint b
      → load_output b (delete_output a s).1
        ≡ (if same_outpoint b a then ok none else load_output b s)
  unfolding load_output delete_output
  load_output-delete_output s a b ha hb =
      rw (get-remove r (outpoint_key b) (outpoint_key a) s.outputs, beq-outpoint_key b a hb ha)
        (elim (Bool-cases (same_outpoint b a)) [
          | inl same ↦ rw same refl
          | inr other ↦ rw other refl
        ])

module _ ⦃sl : Sled⦄ (r : IsReliable sl) ⦃bc : Bitcoin⦄ (l : IsLawful bc) where
  -- In a database that does not fail, a stored transaction is found under its txid, and every
  -- other txid reads as before.
  pub load_tx-store_tx :
      (s : PersistentIndex) (tx : bc.Transaction) (txid : Txid)
      → load_tx txid (store_tx tx s).1
        ≡ (if beq txid (bc.compute_txid tx) then ok (some tx) else load_tx txid s)
  unfolding load_tx store_tx
  load_tx-store_tx s tx txid =
      rw (get-insert r txid (bc.compute_txid tx) (bc.serialize tx) s.txs)
        (elim (Bool-cases (beq txid (bc.compute_txid tx))) [
          | inl same ↦ rw (same, l.wire tx) refl
          | inr other ↦ rw other refl
        ])

module _ ⦃sl : Sled⦄ (r : IsReliable sl) ⦃bc : Bitcoin⦄ where
  pub load_tx-delete_tx :
      (s : PersistentIndex) (gone txid : Txid)
      → load_tx txid (delete_tx gone s).1 ≡ (if beq txid gone then ok none else load_tx txid s)
  unfolding load_tx delete_tx
  load_tx-delete_tx s gone txid =
      rw (get-remove r txid gone s.txs)
        (elim (Bool-cases (beq txid gone)) [ inl same ↦ rw same refl | inr other ↦ rw other refl ])
