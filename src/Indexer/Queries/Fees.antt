-- ===== src/Indexer/Queries/Fees.antt =====
-- `pending_mempool_for_script` and `fee_histogram` of src/indexer.rs. Sums of `u64` saturate where
-- the code says so, and wrap at 2 ^ 64 elsewhere.
pub mod Rows
use nakamoto_electrs.Prelude.Int.{ℤ, pos, negsuc}
use nakamoto_electrs.Prelude.{
  ℕ, ◌+◌, ◌-◌, ◌/◌, ◌%◌, ◌^◌, max, Bool, true, false, not, Option, none, some, List, [], ◌∷◌, ◌==◌,
  ◌||◌, ltb, leb, if◌then◌else◌, Result, ok, err, map_ok,
}
use nakamoto_electrs.Prelude.Sort.{sort_by}
use nakamoto_electrs.Bytes.Order.{bcmp}
use nakamoto_electrs.Bitcoin.{OutPoint, TxOut, Bitcoin}
use nakamoto_electrs.Sled.{Sled}
use nakamoto_electrs.HashMap.{HashMap}
use nakamoto_electrs.HashMap.Keys.{bytes_eq, outpoint_eq}
use nakamoto_electrs.HashMap.Sets.{has}
use nakamoto_electrs.Store.Types.{ScriptHash, Txid, StoredOutput}
use nakamoto_electrs.Store.Loops.{saturating_add}
use nakamoto_electrs.Store.Index.{load_output}
use nakamoto_electrs.Indexer.State.{IndexState}
use nakamoto_electrs.Indexer.Pending.{pending_tx_touches_script, pending_output_for_outpoint}
use nakamoto_electrs.Indexer.Queries.History.{not_gt}

pub record MempoolEntry : Type 0 where
  pub txid : Txid
  pub height : ℤ
  pub fee : ℕ

module _ ⦃sl : Sled⦄ ⦃bc : Bitcoin⦄ where
  -- `tx.output.iter().fold(0, |acc, o| acc.saturating_add(o.value))`
  unfoldable pub output_total : ℕ → List TxOut → ℕ
  output_total acc [] = acc
  output_total acc (o ∷ rest) = output_total (saturating_add acc o.value) rest

  -- What an input of a pending transaction spends: its value, and whether it is confirmed.
  abbrev prevout_value :
      Result (Option StoredOutput) → Option StoredOutput → Result (ℕ × Bool × Bool)
  prevout_value (err e) pending = err e
  prevout_value (ok (some output)) pending = ok (output.value, true, true)
  prevout_value (ok none) (some output) = ok (output.value, false, true)
  prevout_value (ok none) none = ok (0, false, false)

  -- the loop over the inputs in `pending_mempool_for_script`: the sum so far, and whether an
  -- input is unconfirmed
  unfoldable pub mempool_inputs :
      IndexState → List OutPoint → List OutPoint → ℕ → Bool → Result (ℕ × Bool)
  unfolding load_output pending_output_for_outpoint
  mempool_inputs s [] seen value unconfirmed = ok (value, unconfirmed)
  mempool_inputs s (o ∷ rest) seen value unconfirmed = elim (bc.is_null o || has o seen) [
    | true ↦ mempool_inputs s rest seen value unconfirmed
    | false ↦ elim (prevout_value (load_output o s.store) (pending_output_for_outpoint o s)) [
      | err e ↦ err e
      | ok found ↦
          mempool_inputs s rest (o ∷ seen) (saturating_add value found.0)
            (unconfirmed || not found.1)
    ]
  ]

  abbrev pub mempool_entry : bc.Transaction → ℕ × Bool → MempoolEntry
  mempool_entry tx found = record {
    txid = bc.compute_txid tx;
    height = if found.1 then negsuc 0 else pos 0;
    fee = found.0 - output_total 0 (bc.outputs tx);
  }

  unfoldable pub mempool_loop :
      ScriptHash → IndexState → HashMap Txid bc.Transaction → Result (List MempoolEntry)
  unfolding mempool_inputs
  mempool_loop sh s [] = ok []
  mempool_loop sh s ((key, tx) ∷ rest) = elim (pending_tx_touches_script tx sh s) [
    | false ↦ mempool_loop sh s rest
    | true ↦ elim (mempool_inputs s (bc.prevouts tx) [] 0 false) [
      | err e ↦ err e
      | ok found ↦ map_ok (λ others. mempool_entry tx found ∷ others) (mempool_loop sh s rest)
    ]
  ]

  unfoldable pub pending_mempool_for_script : ScriptHash → IndexState → Result (List MempoolEntry)
  pending_mempool_for_script sh s =
      map_ok (sort_by (λ a b. not_gt (bcmp (bc.txid_string a.txid) (bc.txid_string b.txid))))
        (mempool_loop sh s s.pending_txs)

  -- the condition of the loop over the inputs in `fee_histogram`: `none` where the fee is unknown
  unfoldable pub fee_inputs : IndexState → List OutPoint → List OutPoint → ℕ → Result (Option ℕ)
  unfolding load_output pending_output_for_outpoint
  fee_inputs s [] seen value = ok (some value)
  fee_inputs s (o ∷ rest) seen value = elim (bc.is_null o || has o seen) [
    | true ↦ fee_inputs s rest seen value
    | false ↦ elim (prevout_value (load_output o s.store) (pending_output_for_outpoint o s)) [
      | err e ↦ err e
      | ok found ↦ elim (found.2) [
        | true ↦ fee_inputs s rest (o ∷ seen) (saturating_add value found.0)
        | false ↦ ok none
      ]
    ]
  ]

  -- `*buckets.entry(rate).or_insert(0) += vsize` on a `BTreeMap`
  unfoldable pub bucket_add : ℕ → ℕ → List (ℕ × ℕ) → List (ℕ × ℕ)
  bucket_add rate vsize [] = (rate, vsize % 2 ^ 64) ∷ []
  bucket_add rate vsize ((r, v) ∷ rest) =
      let later = bucket_add rate vsize rest in
      if rate == r
      then (r, (v + vsize) % 2 ^ 64) ∷ rest
      else if ltb rate r
      then (rate, vsize % 2 ^ 64) ∷ (r, v) ∷ rest
      else (r, v) ∷ later

  -- what a transaction whose inputs are worth `value` adds
  unfoldable pub bucket_tx : bc.Transaction → ℕ → List (ℕ × ℕ) → List (ℕ × ℕ)
  unfolding bucket_add output_total
  bucket_tx tx value buckets =
      let fee = value - output_total 0 (bc.outputs tx) in
      let vsize = (bc.weight tx + 3) / 4 in
      let rate = fee / max vsize 1 in
      if fee == 0 then buckets else if rate == 0 then buckets else bucket_add rate vsize buckets

  unfoldable pub fee_loop :
      IndexState → HashMap Txid bc.Transaction → List (ℕ × ℕ) → Result (List (ℕ × ℕ))
  unfolding fee_inputs bucket_tx
  fee_loop s [] buckets = ok buckets
  fee_loop s ((key, tx) ∷ rest) buckets = elim (fee_inputs s (bc.prevouts tx) [] 0) [
    | err e ↦ err e
    | ok none ↦ fee_loop s rest buckets
    | ok (some value) ↦ fee_loop s rest (bucket_tx tx value buckets)
  ]

  unfoldable pub fee_histogram : IndexState → Result (List (ℕ × ℕ))
  unfolding fee_loop
  fee_histogram s = map_ok (sort_by (λ a b. leb b.0 a.0)) (fee_loop s s.pending_txs [])
