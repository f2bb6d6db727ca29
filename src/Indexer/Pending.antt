-- ===== src/Indexer/Pending.antt =====
-- The view of the unconfirmed transactions: the outputs that they make and the outpoints that
-- they spend, with the lookups on it.
pub mod View
use nakamoto_electrs.Prelude.{
  ℕ, zero, suc, ◌+◌, Bool, true, false, ◌&&◌, ◌||◌, not, Option, none, some, List, [], ◌∷◌, ◌++◌,
  get_elem?, if◌then◌else◌, Result, ok, err, map_ok,
}
use mathlib.Core.Option
use nakamoto_electrs.Bitcoin.{OutPoint, TxOut, Bitcoin}
use nakamoto_electrs.Sled.{Sled}
use nakamoto_electrs.HashMap.{HashMap, get, insert}
use nakamoto_electrs.HashMap.Keys.{◌≐◌, nat_eq, bytes_eq, outpoint_eq}
use nakamoto_electrs.HashMap.Sets.{has, add}
use nakamoto_electrs.Store.Types.{ScriptHash, Txid, StoredOutput}
use nakamoto_electrs.Store.Index.{load_output}
use nakamoto_electrs.Indexer.State.{IndexState, from_script, as_u32}

-- `.ok().flatten()`
abbrev pub ok_flatten {ℓ} : {A : Type ℓ} → Result (Option A) → Option A
ok_flatten (err e) = none
ok_flatten (ok o) = o

abbrev pub or_else : Option StoredOutput → Option StoredOutput → Option StoredOutput
or_else (some output) other = some output
or_else none other = other

module _ ⦃bc : Bitcoin⦄ where
  -- the inner loop over the inputs of one transaction
  unfoldable pub spend_inputs : List OutPoint → List OutPoint → List OutPoint
  spend_inputs [] spent = spent
  spend_inputs (prevout ∷ rest) spent =
      spend_inputs rest (if bc.is_null prevout then spent else add prevout spent)

  unfoldable pub spend_all : HashMap Txid bc.Transaction → List OutPoint → List OutPoint
  unfolding spend_inputs
  spend_all [] spent = spent
  spend_all ((txid, tx) ∷ rest) spent = spend_all rest (spend_inputs (bc.prevouts tx) spent)

  -- an output of a pending transaction, as `StoredOutput`
  abbrev pub pending_output : Txid → ℕ → TxOut → StoredOutput
  pending_output txid vout output = record {
    script_hash = from_script output.script_pubkey;
    txid = txid;
    vout = vout;
    value = output.value;
    height = 0;
  }

  -- the inner loop of `rebuild_pending_view` over the outputs, from the one numbered `i`
  unfoldable pub view_outputs :
      List OutPoint
      → Txid
      → ℕ
      → List TxOut
      → HashMap OutPoint StoredOutput
      → HashMap OutPoint StoredOutput
  view_outputs spent txid i [] view = view
  view_outputs spent txid i (output ∷ rest) view =
      let outpoint : OutPoint = record { txid = txid; vout = as_u32 i } in
      view_outputs spent txid (suc i) rest (
        if has outpoint spent
        then view
        else insert outpoint (pending_output txid (as_u32 i) output) view)

  unfoldable pub view_all :
      List OutPoint
      → HashMap Txid bc.Transaction
      → HashMap OutPoint StoredOutput
      → HashMap OutPoint StoredOutput
  unfolding view_outputs
  view_all spent [] view = view
  view_all spent ((key, tx) ∷ rest) view =
      view_all spent rest (view_outputs spent (bc.compute_txid tx) 0 (bc.outputs tx) view)

  -- `candidate.input.iter().any(|input| !input.previous_output.is_null() && ….txid == txid)`
  unfoldable pub spends_from : Txid → List OutPoint → Bool
  spends_from txid [] = false
  spends_from txid (prevout ∷ rest) =
      not (bc.is_null prevout) && prevout.txid ≐ txid || spends_from txid rest

  -- `candidate.input.iter().any(|input| new_prevouts.contains(&input.previous_output))`
  unfoldable pub meets : List OutPoint → List OutPoint → Bool
  meets new_prevouts [] = false
  meets new_prevouts (prevout ∷ rest) = has prevout new_prevouts || meets new_prevouts rest

  -- `new_prevouts.iter().map(|prevout| prevout.txid).collect()`
  unfoldable pub prevout_txids : List OutPoint → List Txid
  prevout_txids [] = []
  prevout_txids (prevout ∷ rest) = add prevout.txid (prevout_txids rest)

  unfoldable pub conflicts : List OutPoint → HashMap Txid bc.Transaction → List Txid
  unfolding meets prevout_txids
  conflicts new_prevouts [] = []
  conflicts new_prevouts ((txid, tx) ∷ rest) =
      let others = conflicts new_prevouts rest in
      if not (has txid (prevout_txids new_prevouts)) && meets new_prevouts (bc.prevouts tx)
      then txid ∷ others
      else others

  -- the outputs of pending transactions that are spent in the mempool too
  abbrev pub scanned : OutPoint → Option bc.Transaction → Option StoredOutput
  scanned outpoint none = none
  scanned outpoint (some tx) =
      Option.map (pending_output outpoint.txid outpoint.vout)
        (get_elem? (bc.outputs tx) outpoint.vout)

module _ ⦃sl : Sled⦄ ⦃bc : Bitcoin⦄ where
  unfoldable pub pending_spent_outpoints : IndexState → List OutPoint
  unfolding spend_all
  pending_spent_outpoints s = spend_all s.pending_txs []

  unfoldable pub rebuild_pending_view : IndexState → IndexState
  unfolding view_all pending_spent_outpoints
  rebuild_pending_view s = record s {
    pending_outputs = view_all (pending_spent_outpoints s) s.pending_txs [];
  }

  unfoldable pub pending_conflicting_txids : bc.Transaction → IndexState → List Txid
  pending_conflicting_txids tx s = conflicts (spend_inputs (bc.prevouts tx) []) s.pending_txs

  unfoldable pub pending_output_for_outpoint : OutPoint → IndexState → Option StoredOutput
  pending_output_for_outpoint outpoint s =
      or_else (get outpoint s.pending_outputs) (scanned outpoint (get outpoint.txid s.pending_txs))

  abbrev pub script_or_stored :
      Option StoredOutput → Result (Option StoredOutput) → Result (Option ScriptHash)
  script_or_stored (some output) stored = ok (some output.script_hash)
  script_or_stored none stored = map_ok (Option.map (λ (o : StoredOutput). o.script_hash)) stored

  unfoldable pub script_hash_for_outpoint : OutPoint → IndexState → Result (Option ScriptHash)
  unfolding pending_output_for_outpoint
  script_hash_for_outpoint outpoint s =
      script_or_stored (pending_output_for_outpoint outpoint s) (load_output outpoint s.store)

  abbrev pub is_script : ScriptHash → Option ScriptHash → Bool
  is_script sh none = false
  is_script sh (some found) = found ≐ sh

  unfoldable pub input_touches : IndexState → ScriptHash → List OutPoint → Bool
  unfolding script_hash_for_outpoint
  input_touches s sh [] = false
  input_touches s sh (prevout ∷ rest) =
      not (bc.is_null prevout) && is_script sh (ok_flatten (script_hash_for_outpoint prevout s))
      || input_touches s sh rest

  unfoldable pub output_touches : ScriptHash → List TxOut → Bool
  output_touches sh [] = false
  output_touches sh (output ∷ rest) =
      from_script output.script_pubkey ≐ sh || output_touches sh rest

  unfoldable pub pending_tx_touches_script : bc.Transaction → ScriptHash → IndexState → Bool
  unfolding input_touches output_touches
  pending_tx_touches_script tx sh s =
      input_touches s sh (bc.prevouts tx) || output_touches sh (bc.outputs tx)
