-- ===== src/Electrum/Notify/Turn.antt =====
-- A turn of the notification thread beside a running indexer.
use nakamoto_electrs.Prelude.{
  ℕ, ◌-◌, ◌≤◌, ◌<◌, ◌≡◌, ◌∙◌, refl, arith, true, leb, Bool-cases, inl, inr, Option, none, some,
  List, Result, ok, err,
}
use nakamoto_electrs.Prelude.Exec.{Exec, continue}
use nakamoto_electrs.Prelude.Exec.Keeps.{Keeps, method_rules}
use nakamoto_electrs.Indexer.Pending.{rebuild_pending_view}
use nakamoto_electrs.Bytes.{Bytes}
use nakamoto_electrs.Bitcoin.{Bitcoin}
use nakamoto_electrs.BlockSource.{Blocks, BlockSource, BlockEvent, connected, disconnected, synced}
use nakamoto_electrs.Sled.{Sled}
use nakamoto_electrs.HashMap.{get}
use nakamoto_electrs.HashMap.Keys.{bytes_eq, nat_eq, same_nat_refl}
use nakamoto_electrs.HashMap.Sets.{has}
use nakamoto_electrs.Store.Types.{ScriptHash}
use nakamoto_electrs.Indexer.State.{IndexState, BlockAction, on_store, modify}
use nakamoto_electrs.Store.Index.{PersistentIndex}
use nakamoto_electrs.Indexer.Blocks.{
  apply_block, apply_txs, rollback_height, rollback_entries, lower_tip,
}
use nakamoto_electrs.Electrum.Crates.{Crates}
use nakamoto_electrs.Electrum.StatusHash.{script_status}
use nakamoto_electrs.Electrum.Client.{ClientState}
use nakamoto_electrs.Electrum.Notify.{
  ready, wait_for_indexer_tip, block_turn, notify_block, notify_tip,
}
use nakamoto_electrs.Electrum.Notify.Messages.{tip_stored}
use nakamoto_electrs.Electrum.Notify.Wait.{wait_for_indexer_tip_lem}

module _ ⦃sl : Sled⦄ ⦃bc : Bitcoin⦄ ⦃bl : Blocks⦄ ⦃cr : Crates⦄ where
  -- The state that the indexer leaves when it has handled the event without an error; the tip is
  -- the block that is disconnected, and it is not the first one.
  abbrev pub IsHandled : BlockEvent → IndexState → Type 0
  IsHandled (connected b height) s =
      (u : IndexState) × ((apply_block (bl.txdata b) height u).0 ≡ ok tt)
      × (s ≡ (apply_block (bl.txdata b) height u).1)
  IsHandled (disconnected hash height) s =
      (u : IndexState) × (u.tip_height ≡ height)
      × (0 < height)
      × ((rollback_height height u).0 ≡ ok tt)
      × (s ≡ (rollback_height height u).1)
  IsHandled (synced height hash) s = ⊥

  -- the tip that a last part sets
  tip_after :
      {A : Type 0} (P : IndexState → Type 0) (height : ℕ) (m : Result A × IndexState)
      (f : Exec IndexState (Unit {0}))
      → P m.1
      → ((t : IndexState) → P t → (f t).1.tip_height ≡ height)
      → (continue m.0 (λ n. f) m.1).0 ≡ ok tt
      → (continue m.0 (λ n. f) m.1).1.tip_height ≡ height
  tip_after P height (ok n, t) f h sets e = sets t h
  tip_after P height (err x, t) f h sets e = absurd (cc (e))

  block_tip :
      (txs : List bc.Transaction) (height : ℕ) (u : IndexState)
      → (apply_block txs height u).0 ≡ ok tt
      → (apply_block txs height u).1.tip_height ≡ height
  unfolding apply_block
  block_tip txs height u =
      tip_after (λ t. Unit) height (apply_txs height 0 txs u) _ tt (λ t h. refl)

  on_store-tip :
      (height : ℕ) (m : Exec PersistentIndex (Unit {0}))
      → Keeps (λ (s : IndexState). s.tip_height ≡ height) (on_store m)
  on_store-tip height m = record { at = λ s h. h }

  modify-tip :
      (height : ℕ) (f : IndexState → IndexState)
      → ((s : IndexState) → (f s).tip_height ≡ s.tip_height)
      → Keeps (λ (s : IndexState). s.tip_height ≡ height) (modify f)
  modify-tip height f same = record { at = λ s h. same s ∙ h }

  entries_tip :
      (height : ℕ) (entries : Option (List BlockAction))
      → Keeps (λ (s : IndexState). s.tip_height ≡ height) (rollback_entries height entries)
  unfolding rollback_entries rebuild_pending_view
  entries_tip height none = record { at = λ s h. h }
  entries_tip height (some entries) =
      search (method_rules, on_store-tip, modify-tip height) depth 10

  lowered_tip :
      (height : ℕ) (s : IndexState)
      → s.tip_height ≡ height
      → (lower_tip height s).1.tip_height ≡ height - 1
  unfolding lower_tip
  lowered_tip height s e = rw (e, same_nat_refl height) refl

  rollback_tip :
      (height : ℕ) (u : IndexState)
      → u.tip_height ≡ height
      → (rollback_height height u).0 ≡ ok tt
      → (rollback_height height u).1.tip_height ≡ height - 1
  unfolding rollback_height
  rollback_tip height u at =
      let entries = get height u.by_height in
      tip_after (λ (t : IndexState). t.tip_height ≡ height) (height - 1)
        (rollback_entries height entries u) _ ((entries_tip height entries).at u at)
        (lowered_tip height)

  -- the wait ends, once the tip has reached the event
  wait_ends :
      (event : BlockEvent) (tips : ℕ → ℕ) (left k : ℕ)
      → k ≤ left
      → ready event (tips k) ≡ true
      → let end = wait_for_indexer_tip event tips left 0 in
        (end ≤ k) × (ready event (tips end) ≡ true)
  wait_ends event tips left k within at =
      let end = wait_for_indexer_tip event tips left 0 in
      let (after, by, why, before) = wait_for_indexer_tip_lem event tips left 0 in
      let soon : end ≤ k = elim (Bool-cases (leb end k)) [
        | inl h ↦ ground (arith, h)
        | inr h ↦ absurd (cc (before k (omega arith) (ground (arith, h)), at))
      ] in
      let there : ready event (tips end) ≡ true = elim why [
        | inl r ↦ r
        | inr late ↦ let same : end ≡ k = omega (arith, late, soon, within) in rw same at
      ] in
      (soon, there)

  tip_event :
      (event : BlockEvent) (s t : IndexState) (source : BlockSource) (c : ClientState)
      → IsHandled event s
      → notify_block event t source c ≡ notify_tip event t source c
  unfolding notify_block
  tip_event (connected b height) s t source c h = refl
  tip_event (disconnected hash height) s t source c h = refl
  tip_event (synced height hash) s t source c h = absurd h

  IsHandled-ready :
      (event : BlockEvent) (s : IndexState) → IsHandled event s → ready event s.tip_height ≡ true
  unfolding ready
  IsHandled-ready (connected b height) s (u, done, same) =
      let tip = block_tip (bl.txdata b) height u done in rw (same, tip) (ground arith)
  IsHandled-ready (disconnected hash height) s (u, at, positive, done, same) =
      let tip = rollback_tip height u at done in rw (same, tip) (ground (arith, positive))
  IsHandled-ready (synced height hash) s h = absurd h

  -- If the indexer has handled an event of the chain without an error by some round before the
  -- deadline (a disconnected block being its tip and not the first), whatever it does in the other
  -- rounds, the turn of a client's thread for that event ends its wait by that round, in a state
  -- whose tip has reached the event, and notifies the client from that state: the current status
  -- of each subscribed script hash that can be read there is the one stored.
  pub block_turn_lem :
      (event : BlockEvent) (states : ℕ → IndexState) (left k : ℕ) (source : BlockSource)
      (c : ClientState)
      → k ≤ left
      → IsHandled event (states k)
      → (end : ℕ) × (end ≤ k)
        × (ready event (states end).tip_height ≡ true)
        × (block_turn event states left source c ≡ notify_tip event (states end) source c)
        × ((sh : ScriptHash) (status : Option Bytes)
            → has sh c.subscribed ≡ true
            → script_status sh (states end) ≡ ok status
            → get sh (block_turn event states left source c).1.status_by_scripthash ≡ some status)
  unfolding block_turn
  block_turn_lem event states left k source c within handled =
      let end = wait_for_indexer_tip event (λ n. (states n).tip_height) left 0 in
      let (soon, there) =
        wait_ends event (λ n. (states n).tip_height) left k within
          (IsHandled-ready event (states k) handled) in
      let same = tip_event event (states k) (states end) source c handled in
      (
        end,
        soon,
        there,
        same,
        λ sh status h e. rw same (tip_stored event (states end) source c sh status h e),
      )
