-- ===== src/Indexer/Queries/Fees/Rows.antt =====
-- The rows of the fee histogram.
use nakamoto_electrs.Prelude.{
  ℕ, ◌+◌, ◌-◌, ◌/◌, ◌<◌, ◌≡◌, arith, max, Bool, false, Bool-cases, inl, inr, leb, ltb, ◌==◌, All,
  none, some, List, [], ◌∷◌, ok, Result-cases, map_ok_inv,
}
use nakamoto_electrs.Prelude.Sort.{insert_by, sort_by}
use nakamoto_electrs.Prelude.Sort.Sorted.{All-map, insert_by-All, sort_by-All}
use nakamoto_electrs.Bitcoin.{Bitcoin}
use nakamoto_electrs.Sled.{Sled}
use nakamoto_electrs.HashMap.{HashMap}
use nakamoto_electrs.Store.Types.{Txid}
use nakamoto_electrs.Indexer.State.{IndexState}
use nakamoto_electrs.Indexer.Queries.Fees.{
  bucket_add, bucket_tx, fee_inputs, fee_loop, fee_histogram, output_total,
}

-- A fee rate, and the total size at it.
abbrev Row : Type 0
Row = ℕ × ℕ

-- The rates strictly increase, or strictly decrease.
abbrev Ascending : List Row → Type 0
Ascending [] = Unit
Ascending (x ∷ xs) = All (λ (y : Row). x.0 < y.0) xs × Ascending xs

abbrev pub Descending : List Row → Type 0
Descending [] = Unit
Descending (x ∷ xs) = All (λ (y : Row). y.0 < x.0) xs × Descending xs

-- the order of the histogram
abbrev by_rate : Row → Row → Bool
by_rate a b = leb b.0 a.0

insert_by-Descending :
    (x : Row) (ys : List Row)
    → All (λ (y : Row). x.0 < y.0) ys
    → Descending ys
    → Descending (insert_by by_rate x ys)
unfolding insert_by
insert_by-Descending x [] below down = (tt, tt)
insert_by-Descending x (y ∷ ys) (less, below) (above, down) =
    let later : leb y.0 x.0 ≡ false = ground (arith, less) in
    rw later (
      insert_by-All by_rate (λ (z : Row). z.0 < y.0) x ys less above,
      insert_by-Descending x ys below down,
    )

sort_by-Descending : (xs : List Row) → Ascending xs → Descending (sort_by by_rate xs)
unfolding sort_by
sort_by-Descending [] h = tt
sort_by-Descending (x ∷ xs) (above, up) =
    insert_by-Descending x (sort_by by_rate xs)
      (sort_by-All by_rate (λ (y : Row). x.0 < y.0) xs above) (sort_by-Descending xs up)

-- What the loop keeps of its buckets.
abbrev IsBuckets : List Row → Type 0
IsBuckets rows = Ascending rows × All (λ (y : Row). 0 < y.0) rows

module _ ⦃sl : Sled⦄ ⦃bc : Bitcoin⦄ where
  bucket_add-All :
      (P : ℕ → Type 0) (rate vsize : ℕ) (buckets : List Row)
      → P rate
      → All (λ (y : Row). P y.0) buckets
      → All (λ (y : Row). P y.0) (bucket_add rate vsize buckets)
  unfolding bucket_add
  bucket_add-All P rate vsize [] p h = (p, tt)
  bucket_add-All P rate vsize ((r, v) ∷ rest) p (q, qs) = elim (Bool-cases (rate == r)) [
    | inl same ↦ rw same (q, qs)
    | inr other ↦ elim (Bool-cases (ltb rate r)) [
      | inl less ↦ rw (other, less) (p, (q, qs))
      | inr more ↦ rw (other, more) (q, bucket_add-All P rate vsize rest p qs)
    ]
  ]

  bucket_add-Ascending :
      (rate vsize : ℕ) (buckets : List Row)
      → Ascending buckets
      → Ascending (bucket_add rate vsize buckets)
  unfolding bucket_add
  bucket_add-Ascending rate vsize [] h = (tt, tt)
  bucket_add-Ascending rate vsize ((r, v) ∷ rest) (above, up) = elim (Bool-cases (rate == r)) [
    | inl same ↦ rw same (above, up)
    | inr other ↦ elim (Bool-cases (ltb rate r)) [
      | inl less ↦
          let first : rate < r = ground (arith, less) in
          rw (other, less)
            ((first, All-map (λ y h. omega (arith, h, first)) rest above), (above, up))
      | inr more ↦
          rw (other, more)
            (
              bucket_add-All (λ n. r < n) rate vsize rest (ground (arith, other, more)) above,
              bucket_add-Ascending rate vsize rest up,
            )
    ]
  ]

  bucket_tx-IsBuckets :
      (tx : bc.Transaction) (value : ℕ) (buckets : List Row)
      → IsBuckets buckets
      → IsBuckets (bucket_tx tx value buckets)
  unfolding bucket_tx
  bucket_tx-IsBuckets tx value buckets (up, positive) =
      let fee = value - output_total 0 (bc.outputs tx) in
      let vsize = (bc.weight tx + 3) / 4 in
      let rate = fee / max vsize 1 in
      elim (Bool-cases (fee == 0)) [
        | inl free ↦ rw (bucket_tx, free) (up, positive)
        | inr paid ↦ elim (Bool-cases (rate == 0)) [
          | inl low ↦ rw (bucket_tx, paid, low) (up, positive)
          | inr high ↦
              rw (bucket_tx, paid, high)
                (
                  bucket_add-Ascending rate vsize buckets up,
                  bucket_add-All (λ n. 0 < n) rate vsize buckets (ground (arith, high)) positive,
                )
        ]
      ]

  fee_loop-IsBuckets :
      (s : IndexState) (txs : HashMap Txid bc.Transaction) (buckets rows : List Row)
      → IsBuckets buckets
      → fee_loop s txs buckets ≡ ok rows
      → IsBuckets rows
  unfolding fee_loop
  fee_loop-IsBuckets s [] buckets rows h e = let same : buckets ≡ rows = cc (e) in rw (← same) h
  fee_loop-IsBuckets s ((key, tx) ∷ rest) buckets rows h e =
      elim (Result-cases (fee_inputs s (bc.prevouts tx) [] 0)) [
        | inl (none, f) ↦ fee_loop-IsBuckets s rest buckets rows h (rw (fee_loop, f) at e)
        | inl (some value, f) ↦
            fee_loop-IsBuckets s rest (bucket_tx tx value buckets) rows
              (bucket_tx-IsBuckets tx value buckets h) (rw (fee_loop, f) at e)
        | inr (x, f) ↦ absurd (cc (rw (fee_loop, f) at e))
      ]

  -- The rows of a fee histogram have strictly decreasing fee rates, none of which is 0.
  pub fee_histogram-Descending :
      (s : IndexState) (rows : List (ℕ × ℕ))
      → fee_histogram s ≡ ok rows
      → Descending rows × All (λ (y : ℕ × ℕ). 0 < y.0) rows
  unfolding fee_histogram
  fee_histogram-Descending s rows e =
      let (buckets, found, same) =
        map_ok_inv (fee_loop s s.pending_txs []) (sort_by by_rate) rows e in
      let (up, positive) = fee_loop-IsBuckets s s.pending_txs [] buckets (tt, tt) found in
      rw (← same)
        (sort_by-Descending buckets up, sort_by-All by_rate (λ (y : Row). 0 < y.0) buckets positive)
