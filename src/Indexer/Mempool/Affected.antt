-- ===== src/Indexer/Mempool/Affected.antt =====
-- The script hashes that are reported as affected hold those that a transaction touches.
use nakamoto_electrs.Prelude.{
  ◌≡◌, true, refl, List, [], ◌∷◌, some, none, Option, arith, length, Bool-cases, inl, inr, beq_refl,
}
use nakamoto_electrs.Bitcoin.{OutPoint, TxOut, Bitcoin}
use nakamoto_electrs.Sled.{Sled}
use nakamoto_electrs.HashMap.{get}
use nakamoto_electrs.HashMap.Keys.{◌≐◌, bytes_eq}
use nakamoto_electrs.HashMap.Sets.{has, has-add, extend, has-extend}
use nakamoto_electrs.Store.Types.{ScriptHash, Txid}
use nakamoto_electrs.Indexer.State.{IndexState, from_script}
use nakamoto_electrs.Indexer.Pending.{
  ok_flatten, script_hash_for_outpoint, input_touches, output_touches, pending_tx_touches_script,
  is_script,
}
use nakamoto_electrs.Indexer.Graph.{walk_fuel}
use nakamoto_electrs.Indexer.Graph.Closure.{Reach}
use nakamoto_electrs.Indexer.Graph.Found.{walk_first, walk_found}
use nakamoto_electrs.Indexer.Mempool.{
  descendants, touch_outputs, touch_inputs, add_found, affected_visit, affected_kids, current,
  pending_affected_scripts_for_tx, chain, chain_visit, chain_affected,
}
use nakamoto_electrs.Indexer.Mempool.Chain.{has-chain}

module _ ⦃sl : Sled⦄ ⦃bc : Bitcoin⦄ (sh : ScriptHash) where
  touch_outputs_keeps :
      (os : List TxOut) (touched : List ScriptHash)
      → has sh touched ≡ true
      → has sh (touch_outputs os touched) ≡ true
  unfolding touch_outputs
  touch_outputs_keeps [] touched h = h
  touch_outputs_keeps (o ∷ os) touched h =
      touch_outputs_keeps os _ (ground (arith, has-add (from_script o.script_pubkey) sh touched, h))

  touch_outputs_lem :
      (os : List TxOut) (touched : List ScriptHash)
      → output_touches sh os ≡ true
      → has sh (touch_outputs os touched) ≡ true
  unfolding touch_outputs output_touches
  touch_outputs_lem [] touched h = absurd (cc (h))
  touch_outputs_lem (o ∷ os) touched h = elim (Bool-cases (from_script o.script_pubkey ≐ sh)) [
    | inl same ↦
        touch_outputs_keeps os _
          (ground (arith, has-add (from_script o.script_pubkey) sh touched, same))
    | inr other ↦ touch_outputs_lem os _ (ground (arith, h, other))
  ]

module _ ⦃sl : Sled⦄ ⦃bc : Bitcoin⦄ (sh : ScriptHash) (s : IndexState) where
  add_found_keeps :
      (found : Option ScriptHash) (touched : List ScriptHash)
      → has sh touched ≡ true
      → has sh (add_found found touched) ≡ true
  add_found_keeps none touched h = h
  add_found_keeps (some x) touched h = ground (arith, has-add x sh touched, h)

  add_found_lem :
      (found : Option ScriptHash) (touched : List ScriptHash)
      → is_script sh found ≡ true
      → has sh (add_found found touched) ≡ true
  add_found_lem none touched h = absurd (cc (h))
  add_found_lem (some x) touched h = ground (arith, has-add x sh touched, h)

  touch_inputs_keeps :
      (os : List OutPoint) (touched : List ScriptHash)
      → has sh touched ≡ true
      → has sh (touch_inputs s os touched) ≡ true
  unfolding touch_inputs
  touch_inputs_keeps [] touched h = h
  touch_inputs_keeps (o ∷ os) touched h = elim (Bool-cases (bc.is_null o)) [
    | inl e ↦ rw (touch_inputs, e) (touch_inputs_keeps os touched h)
    | inr e ↦
        rw (touch_inputs, e)
          (touch_inputs_keeps os _
            (add_found_keeps (ok_flatten (script_hash_for_outpoint o s)) touched h))
  ]

  touch_inputs_lem :
      (os : List OutPoint) (touched : List ScriptHash)
      → input_touches s sh os ≡ true
      → has sh (touch_inputs s os touched) ≡ true
  unfolding touch_inputs input_touches
  touch_inputs_lem [] touched h = absurd (cc (h))
  touch_inputs_lem (o ∷ os) touched h =
      let found = ok_flatten (script_hash_for_outpoint o s) in
      elim (Bool-cases (bc.is_null o)) [
        | inl e ↦ rw (touch_inputs, e) (touch_inputs_lem os touched (ground (arith, h, e)))
        | inr e ↦
            rw (touch_inputs, e)
              (elim (Bool-cases (is_script sh found)) [
                | inl same ↦ touch_inputs_keeps os _ (add_found_lem found touched same)
                | inr other ↦ touch_inputs_lem os _ (ground (arith, h, e, other))
              ])
      ]

  visit_keeps :
      (tx : bc.Transaction) (t : Txid) (touched : List ScriptHash)
      → has sh touched ≡ true
      → has sh (affected_visit tx s t touched) ≡ true
  unfolding affected_visit
  visit_keeps tx t touched h = visited (current tx s t)
    where
      visited :
          (c : Option bc.Transaction)
          → has sh (elim c [
            | none ↦ touched
            | some d ↦ touch_outputs (bc.outputs d) (touch_inputs s (bc.prevouts d) touched)
          ])
            ≡ true
      visited none = h
      visited (some d) =
          touch_outputs_keeps sh (bc.outputs d) _ (touch_inputs_keeps (bc.prevouts d) touched h)

  touches_lem :
      (tx : bc.Transaction) (touched : List ScriptHash)
      → pending_tx_touches_script tx sh s ≡ true
      → has sh (touch_outputs (bc.outputs tx) (touch_inputs s (bc.prevouts tx) touched)) ≡ true
  unfolding pending_tx_touches_script
  touches_lem tx touched h = elim (Bool-cases (input_touches s sh (bc.prevouts tx))) [
    | inl e ↦ touch_outputs_keeps sh (bc.outputs tx) _ (touch_inputs_lem (bc.prevouts tx) touched e)
    | inr e ↦ touch_outputs_lem sh (bc.outputs tx) _ (ground (arith, h, e))
  ]

  -- What a transaction touches is affected by it.
  pub has-pending_affected_scripts_for_tx :
      (tx : bc.Transaction)
      → pending_tx_touches_script tx sh s ≡ true
      → has sh (pending_affected_scripts_for_tx tx s) ≡ true
  unfolding pending_affected_scripts_for_tx
  has-pending_affected_scripts_for_tx tx h =
      let id = bc.compute_txid tx in
      let first : has sh (affected_visit tx s id []) ≡ true =
        rw (affected_visit, current, beq_refl id) (touches_lem tx [] h) in
      walk_first (affected_kids tx s) (affected_visit tx s) (λ touched. has sh touched ≡ true)
        (visit_keeps tx) (walk_fuel (length s.pending_txs)) id [] (omega arith) first

  chain_visit_keeps :
      (t : Txid) (affected : List ScriptHash)
      → has sh affected ≡ true
      → has sh (chain_visit s t affected) ≡ true
  unfolding chain_visit
  chain_visit_keeps t affected h = visited (get t s.pending_txs)
    where
      visited :
          (c : Option bc.Transaction)
          → has sh (elim c [
            | none ↦ affected
            | some tx ↦ extend (pending_affected_scripts_for_tx tx s) affected
          ])
            ≡ true
      visited none = h
      visited (some tx) =
          ground (arith, has-extend (pending_affected_scripts_for_tx tx s) affected sh, h)

  -- What a pending transaction of the chain touches is affected when the chain is forgotten.
  pub has-chain_affected :
      (txid x : Txid) (tx : bc.Transaction)
      → Reach (descendants s.pending_txs) txid x
      → get x s.pending_txs ≡ some tx
      → pending_tx_touches_script tx sh s ≡ true
      → has sh (chain_affected txid s) ≡ true
  unfolding chain_affected
  has-chain_affected txid x tx reach g h =
      let own = has-pending_affected_scripts_for_tx tx h in
      walk_found (descendants s.pending_txs) (chain_visit s) (λ touched. has sh touched ≡ true)
        chain_visit_keeps x
        (λ affected.
          rw (chain_visit, g)
            (ground (arith, has-extend (pending_affected_scripts_for_tx tx s) affected sh, own)))
        (walk_fuel (length s.pending_txs)) [] (txid ∷ []) [] (unfold has in refl)
        (unfold chain in (has-chain s txid x).1 reach)
