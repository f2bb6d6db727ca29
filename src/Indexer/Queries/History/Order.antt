-- ===== src/Indexer/Queries/History/Order.antt =====
-- The entries of a history and their order.
use Prim.Native.Nat.Ordering.{lt, eq}
use nakamoto_electrs.Prelude.{
  ◌<◌, ◌≡◌, ◌⊎◌, if◌then◌else◌, refl, arith, true, false, Bool-cases, inl, inr, List, [], ◌∷◌, ◌++◌,
  All, All-append,
}
use mathlib.Core.List.{Perm}
use nakamoto_electrs.Prelude.Sort.Perms.{sort_by-Perm}
use nakamoto_electrs.Prelude.Sort.Sorted.{sort_by-All}
use nakamoto_electrs.Prelude.Sort.Ordered.{Ordered, Ordered-map, sort_by-Ordered}
use nakamoto_electrs.Bytes.Order.{bcmp, eq_of_bcmp, lt_of_gt, lt_trans}
use nakamoto_electrs.Bitcoin.{Bitcoin}
use nakamoto_electrs.Sled.{Sled}
use nakamoto_electrs.HashMap.{HashMap, get, listed}
use nakamoto_electrs.HashMap.Keys.{bytes_eq}
use nakamoto_electrs.Store.Types.{ScriptHash, Txid, TxEntry}
use nakamoto_electrs.Store.Loops.{height_rank, u32_max}
use nakamoto_electrs.Indexer.State.{IndexState}
use nakamoto_electrs.Indexer.Pending.{pending_tx_touches_script}
use nakamoto_electrs.Indexer.Queries.History.{
  combined_le, get_history, touching, pending_history_for_script,
}

module _ ⦃bc : Bitcoin⦄ where
  -- An entry may stand before another. An entry of height 0 is unconfirmed.
  pub data Before (a b : TxEntry) : Type 0 where
    confirmed_first : 0 < a.height → b.height ≡ 0 → Before a b
    lower : 0 < a.height → a.height < b.height → Before a b
    earlier : a.height ≡ b.height → a.sequence < b.sequence → Before a b
    by_txid :
        a.height ≡ b.height
        → a.sequence ≡ b.sequence
        → bcmp (bc.txid_string a.txid) (bc.txid_string b.txid) ≡ lt
        → Before a b
    same_txid :
        a.height ≡ b.height
        → a.sequence ≡ b.sequence
        → bc.txid_string a.txid ≡ bc.txid_string b.txid
        → Before a b

module _ ⦃sl : Sled⦄ ⦃bc : Bitcoin⦄ where
  combined_down : (a b : TxEntry) → combined_le a b ≡ false → combined_le b a ≡ true
  unfolding combined_le
  combined_down a b h = ground (arith, h, lt_of_gt (bc.txid_string a.txid) (bc.txid_string b.txid))

  combined_trans :
      (a b c : TxEntry) → combined_le a b ≡ true → combined_le b c ≡ true → combined_le a c ≡ true
  unfolding combined_le
  combined_trans a b c h k = ground (
    arith,
    h,
    k,
    lt_trans (bc.txid_string a.txid) (bc.txid_string b.txid) (bc.txid_string c.txid),
    eq_of_bcmp (bc.txid_string a.txid) (bc.txid_string b.txid),
    eq_of_bcmp (bc.txid_string b.txid) (bc.txid_string c.txid),
  )

  order_cases :
      (a b : TxEntry)
      → a.height < u32_max
      → b.height < u32_max
      → combined_le a b ≡ true
      → ((0 < a.height) × (b.height ≡ 0))
        ⊎ (((0 < a.height) × (a.height < b.height))
            ⊎ (((a.height ≡ b.height) × (a.sequence < b.sequence))
                ⊎ ((a.height ≡ b.height)
                    × (a.sequence ≡ b.sequence)
                    × ((bcmp (bc.txid_string a.txid) (bc.txid_string b.txid) ≡ lt)
                        ⊎ (bcmp (bc.txid_string a.txid) (bc.txid_string b.txid) ≡ eq)))))
  unfolding combined_le height_rank
  order_cases a b ha hb h = ground (arith, ha, hb, h)

  -- Below the largest height of 32 bits, the order of the sort is this one.
  combined-Before :
      (a b : TxEntry)
      → a.height < u32_max
      → b.height < u32_max
      → combined_le a b ≡ true
      → Before a b
  combined-Before a b ha hb h = elim (order_cases a b ha hb h) [
    | inl (p, z) ↦ confirmed_first p z
    | inr (inl (p, l)) ↦ lower p l
    | inr (inr (inl (e, l))) ↦ earlier e l
    | inr (inr (inr (e, q, inl l))) ↦ by_txid e q l
    | inr (inr (inr (e, q, inr l))) ↦
        same_txid e q (eq_of_bcmp (bc.txid_string a.txid) (bc.txid_string b.txid) l)
  ]

  -- the unconfirmed entries of the transactions that touch the script hash
  abbrev pub unconfirmed : ScriptHash → IndexState → HashMap Txid bc.Transaction → List TxEntry
  unconfirmed sh s [] = []
  unconfirmed sh s ((key, tx) ∷ rest) =
      let others = unconfirmed sh s rest in
      if pending_tx_touches_script tx sh s
      then record { txid = bc.compute_txid tx; height = 0; sequence = 0 } ∷ others
      else others

  touching_lem :
      (sh : ScriptHash) (s : IndexState) (m : HashMap Txid bc.Transaction)
      → touching sh s m ≡ unconfirmed sh s m
  unfolding touching
  touching_lem sh s [] = refl
  touching_lem sh s ((key, tx) ∷ m) = elim (Bool-cases (pending_tx_touches_script tx sh s)) [
    | inl e ↦ rw (unconfirmed, e, touching_lem sh s m) refl
    | inr e ↦ rw (unconfirmed, e, touching_lem sh s m) refl
  ]

  unconfirmed-All :
      (sh : ScriptHash) (s : IndexState) (m : HashMap Txid bc.Transaction)
      → All (λ e. e.height < u32_max) (unconfirmed sh s m)
  unconfirmed-All sh s [] = tt
  unconfirmed-All sh s ((key, tx) ∷ m) = elim (Bool-cases (pending_tx_touches_script tx sh s)) [
    | inl e ↦ rw (unconfirmed, e) (omega arith, unconfirmed-All sh s m)
    | inr e ↦ rw (unconfirmed, e) (unconfirmed-All sh s m)
  ]

  -- Where the confirmed entries of a script hash lie below the height 2 ^ 32 - 1, its history
  -- holds exactly these and one entry of height 0 for each pending transaction that touches the
  -- script hash. The entries with a height come first, from low to high; those of one height are
  -- in the order of their sequence numbers, and those of one number in the order of their ids'
  -- texts.
  pub get_history-Ordered :
      (sh : ScriptHash) (s : IndexState)
      → All (λ e. e.height < u32_max) (listed (get sh s.history))
      → Ordered Before (get_history sh s)
        × Perm (get_history sh s) (listed (get sh s.history) ++ unconfirmed sh s s.pending_txs)
  unfolding get_history pending_history_for_script
  get_history-Ordered sh s h =
      let entries = listed (get sh s.history) ++ unconfirmed sh s s.pending_txs in
      let small =
        All-append (λ (e : TxEntry). e.height < u32_max) (listed (get sh s.history))
          (unconfirmed sh s s.pending_txs) h (unconfirmed-All sh s s.pending_txs) in
      rw (touching_lem sh s s.pending_txs) (
        Ordered-map (λ (e : TxEntry). e.height < u32_max) combined-Before _
            (sort_by-All combined_le (λ (e : TxEntry). e.height < u32_max) entries small)
            (sort_by-Ordered combined_le (λ a b. combined_le a b ≡ true) (λ a b h. h) combined_down
              combined_trans entries),
        sort_by-Perm combined_le entries,
      )
