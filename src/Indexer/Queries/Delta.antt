-- ===== src/Indexer/Queries/Delta.antt =====
-- `unconfirmed_balance_delta_for_script` of src/indexer.rs. An `i64` is its 64-bit pattern.
use nakamoto_electrs.Prelude.{
  ℕ, ◌+◌, ◌-◌, ◌%◌, ◌^◌, true, false, Option, none, some, List, [], ◌∷◌, ◌||◌, if◌then◌else◌,
  Result, ok, err, map_ok,
}
use nakamoto_electrs.Bitcoin.{OutPoint, Bitcoin}
use nakamoto_electrs.Sled.{Sled}
use nakamoto_electrs.HashMap.{HashMap}
use nakamoto_electrs.HashMap.Keys.{bytes_eq, outpoint_eq, ◌≐◌}
use nakamoto_electrs.HashMap.Sets.{has}
use nakamoto_electrs.Store.Types.{ScriptHash, Txid, StoredOutput}
use nakamoto_electrs.Store.Index.{load_output}
use nakamoto_electrs.Indexer.State.{IndexState}
use nakamoto_electrs.Indexer.Pending.{
  pending_output_for_outpoint, script_hash_for_outpoint, or_else,
}

module _ ⦃sl : Sled⦄ ⦃bc : Bitcoin⦄ where
  -- `delta -= value as i64` and `delta += value as i64`
  abbrev pub sub_i64 : ℕ → ℕ → ℕ
  sub_i64 delta value = (delta + 2 ^ 64 - value % 2 ^ 64) % 2 ^ 64

  abbrev pub add_i64 : ℕ → ℕ → ℕ
  add_i64 delta value = (delta + value) % 2 ^ 64

  -- the value that an outpoint of the script hash takes away
  abbrev pub value_or_zero : Option StoredOutput → ℕ
  value_or_zero none = 0
  value_or_zero (some output) = output.value

  unfoldable pub spent_value : ScriptHash → OutPoint → IndexState → Result ℕ
  unfolding script_hash_for_outpoint load_output pending_output_for_outpoint
  spent_value sh o s = elim (script_hash_for_outpoint o s) [
    | err e ↦ err e
    | ok none ↦ ok 0
    | ok (some found) ↦
        if found ≐ sh
        then map_ok (λ stored. value_or_zero (or_else stored (pending_output_for_outpoint o s)))
            (load_output o s.store)
        else ok 0
  ]

  -- the loop over the inputs in `unconfirmed_balance_delta_for_script`
  unfoldable pub delta_inputs :
      ScriptHash → IndexState → List OutPoint → List OutPoint × ℕ → Result (List OutPoint × ℕ)
  unfolding spent_value
  delta_inputs sh s [] (seen, delta) = ok (seen, delta)
  delta_inputs sh s (o ∷ rest) (seen, delta) = elim (bc.is_null o || has o seen) [
    | true ↦ delta_inputs sh s rest (seen, delta)
    | false ↦ elim (spent_value sh o s) [
      | err e ↦ err e
      | ok value ↦ delta_inputs sh s rest (o ∷ seen, sub_i64 delta value)
    ]
  ]

  unfoldable pub delta_txs :
      ScriptHash
      → IndexState
      → HashMap Txid bc.Transaction
      → List OutPoint × ℕ
      → Result (List OutPoint × ℕ)
  unfolding delta_inputs
  delta_txs sh s [] acc = ok acc
  delta_txs sh s ((key, tx) ∷ rest) acc = elim (delta_inputs sh s (bc.prevouts tx) acc) [
    | err e ↦ err e
    | ok next ↦ delta_txs sh s rest next
  ]

  unfoldable pub delta_outputs : ScriptHash → HashMap OutPoint StoredOutput → ℕ → ℕ
  delta_outputs sh [] delta = delta
  delta_outputs sh ((o, output) ∷ rest) delta =
      delta_outputs sh rest (if output.script_hash ≐ sh then add_i64 delta output.value else delta)

  unfoldable pub unconfirmed_balance_delta_for_script : ScriptHash → IndexState → Result ℕ
  unfolding delta_txs delta_outputs
  unconfirmed_balance_delta_for_script sh s =
      map_ok (λ acc. delta_outputs sh s.pending_outputs acc.1)
        (delta_txs sh s s.pending_txs ([], 0))
