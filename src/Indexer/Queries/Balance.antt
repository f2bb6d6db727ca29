-- ===== src/Indexer/Queries/Balance.antt =====
-- The unconfirmed balance as a difference of two sums.
use nakamoto_electrs.Prelude.{
  ℕ, ◌+◌, ◌%◌, ◌^◌, ◌≡◌, refl, ap, ◌∙◌, arith, Bool-cases, inl, inr, Option, none, some, List, [],
  ◌∷◌, if◌then◌else◌, Result, ok, err, map_ok,
}
use nakamoto_electrs.Bitcoin.{OutPoint, Bitcoin}
use nakamoto_electrs.Sled.{Sled}
use nakamoto_electrs.HashMap.{HashMap}
use nakamoto_electrs.HashMap.Keys.{bytes_eq, outpoint_eq, ◌≐◌}
use nakamoto_electrs.HashMap.Sets.{has}
use nakamoto_electrs.HashMap.Sets
use nakamoto_electrs.Store.Types.{ScriptHash, Txid, StoredOutput}
use nakamoto_electrs.Store.Index.{load_output}
use nakamoto_electrs.Indexer.State.{IndexState}
use nakamoto_electrs.Indexer.Pending.{
  spend_inputs, spend_all, pending_spent_outpoints, pending_output_for_outpoint,
  script_hash_for_outpoint, script_or_stored, or_else,
}
use nakamoto_electrs.Indexer.Queries.Delta.{
  spent_value, value_or_zero, delta_inputs, delta_txs, delta_outputs,
  unconfirmed_balance_delta_for_script, sub_i64,
}

module _ ⦃sl : Sled⦄ ⦃bc : Bitcoin⦄ (sh : ScriptHash) (s : IndexState) where
  -- what a confirmed output that no pending transaction makes is worth to the script hash
  abbrev pub confirmed_worth : Option StoredOutput → Option StoredOutput → ℕ
  confirmed_worth pending none = 0
  confirmed_worth (some output) (some stored) = 0
  confirmed_worth none (some stored) = if stored.script_hash ≐ sh then stored.value else 0

  -- what an output of a pending transaction is worth to it; a stored output gives the value
  abbrev pub chained_worth : Option StoredOutput → Option StoredOutput → ℕ
  chained_worth none stored = 0
  chained_worth (some output) none = if output.script_hash ≐ sh then output.value else 0
  chained_worth (some output) (some stored) = if output.script_hash ≐ sh then stored.value else 0

  -- what the outputs of the view pay to the script hash
  abbrev pub received : HashMap OutPoint StoredOutput → ℕ
  received [] = 0
  received ((o, output) ∷ rest) =
      (if output.script_hash ≐ sh then output.value else 0) + received rest

  delta_outputs_lem :
      (m : HashMap OutPoint StoredOutput) (d : ℕ)
      → delta_outputs sh m d % 2 ^ 64 ≡ (d + received m) % 2 ^ 64
  unfolding delta_outputs
  delta_outputs_lem [] d = omega arith
  delta_outputs_lem ((o, output) ∷ rest) d = elim (Bool-cases (output.script_hash ≐ sh)) [
    | inl h ↦ rw h (omega (arith, delta_outputs_lem rest ((d + output.value) % 2 ^ 64)))
    | inr h ↦ rw h (omega (arith, delta_outputs_lem rest d))
  ]

  -- `spent_value`, from the pending output and the read of the store
  abbrev valued : Option StoredOutput → Result (Option StoredOutput) → Result ℕ
  valued p l = elim (script_or_stored p l) [
    | err e ↦ err e
    | ok none ↦ ok 0
    | ok (some found) ↦
        if found ≐ sh then map_ok (λ stored. value_or_zero (or_else stored p)) l else ok 0
  ]

  worth_lem :
      (p v : Option StoredOutput) → valued p (ok v) ≡ ok (confirmed_worth p v + chained_worth p v)
  worth_lem none none = refl
  worth_lem none (some stored) = elim (Bool-cases (stored.script_hash ≐ sh)) [
    | inl h ↦ rw h (ap ok (omega arith))
    | inr h ↦ rw h refl
  ]
  worth_lem (some output) none = elim (Bool-cases (output.script_hash ≐ sh)) [
    | inl h ↦ rw h (ap ok (omega arith))
    | inr h ↦ rw h (ap ok (omega arith))
  ]
  worth_lem (some output) (some stored) = elim (Bool-cases (output.script_hash ≐ sh)) [
    | inl h ↦ rw h (ap ok (omega arith))
    | inr h ↦ rw h (ap ok (omega arith))
  ]

  module _
      (reads : (o : OutPoint) → (v : Option StoredOutput) × (load_output o s.store ≡ ok v)) where
    -- the sum over outpoints that are spent, by the pending output and the stored one at each
    abbrev pub total : (Option StoredOutput → Option StoredOutput → ℕ) → List OutPoint → ℕ
    total worth [] = 0
    total worth (o ∷ os) = worth (pending_output_for_outpoint o s) (reads o).0 + total worth os

    spent_value_worth :
        (o : OutPoint)
        → let p = pending_output_for_outpoint o s in
          let v = (reads o).0 in spent_value sh o s ≡ ok (confirmed_worth p v + chained_worth p v)
    unfolding spent_value script_hash_for_outpoint
    spent_value_worth o =
        ap (valued (pending_output_for_outpoint o s)) (reads o).1
        ∙ worth_lem (pending_output_for_outpoint o s) (reads o).0

    abbrev spent_total : List OutPoint → ℕ
    spent_total os = total confirmed_worth os + total chained_worth os

    abbrev Spends : Result (List OutPoint × ℕ) → List OutPoint → ℕ → List OutPoint → Type 0
    Spends result seen d seen' =
        (d' : ℕ) × (result ≡ ok (seen', d'))
        × ((d' + spent_total seen') % 2 ^ 64 ≡ (d + spent_total seen) % 2 ^ 64)

    delta_inputs_lem :
        (os seen : List OutPoint) (d : ℕ)
        → Spends (delta_inputs sh s os (seen, d)) seen d (spend_inputs os seen)
    unfolding delta_inputs spend_inputs Sets.add
    delta_inputs_lem [] seen d = (d, refl, refl)
    delta_inputs_lem (o ∷ os) seen d = elim (Bool-cases (bc.is_null o)) [
      | inl h ↦ rw (delta_inputs, h) (delta_inputs_lem os seen d)
      | inr h ↦ elim (Bool-cases (has o seen)) [
        | inl g ↦ rw (delta_inputs, h, g) (delta_inputs_lem os seen d)
        | inr g ↦
            let p = pending_output_for_outpoint o s in
            let v = confirmed_worth p (reads o).0 + chained_worth p (reads o).0 in
            let (d', run, sums) = delta_inputs_lem os (o ∷ seen) (sub_i64 d v) in
            rw (delta_inputs, h, g, spent_value_worth o) (d', run, sums ∙ omega arith)
      ]
    ]

    delta_txs_lem :
        (txs : HashMap Txid bc.Transaction) (seen : List OutPoint) (d : ℕ)
        → Spends (delta_txs sh s txs (seen, d)) seen d (spend_all txs seen)
    unfolding delta_txs spend_all
    delta_txs_lem [] seen d = (d, refl, refl)
    delta_txs_lem ((key, tx) ∷ rest) seen d =
        let (d1, run, sums) = delta_inputs_lem (bc.prevouts tx) seen d in
        let (d2, runs, all) = delta_txs_lem rest (spend_inputs (bc.prevouts tx) seen) d1 in
        rw (delta_txs, run) (d2, runs, all ∙ sums)

  -- Where every outpoint can be read from the store, the unconfirmed balance of a script hash is
  -- returned. Modulo 2 ^ 64 it is the sum of the outputs of the view that pay to the script hash,
  -- less two sums over the outpoints that pending transactions spend, each counted once: the
  -- confirmed outputs that pay to it, and the outputs of pending transactions that pay to it.
  pub unconfirmed_balance_delta_for_script_lem :
      (reads : (o : OutPoint) → (v : Option StoredOutput) × (load_output o s.store ≡ ok v))
      → (d : ℕ) × (unconfirmed_balance_delta_for_script sh s ≡ ok d)
        × ((d
                + total reads confirmed_worth (pending_spent_outpoints s)
                + total reads chained_worth (pending_spent_outpoints s))
              % 2 ^ 64
            ≡ received s.pending_outputs % 2 ^ 64)
  unfolding unconfirmed_balance_delta_for_script pending_spent_outpoints
  unconfirmed_balance_delta_for_script_lem reads =
      let (d, run, sums) = delta_txs_lem reads s.pending_txs [] 0 in
      let m = s.pending_outputs in
      rw run (delta_outputs sh m d, refl, omega (arith, sums, delta_outputs_lem m d))
