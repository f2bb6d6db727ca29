-- ===== src/Electrum/Notify/Wait.antt =====
-- When the wait for the index ends.
use nakamoto_electrs.Prelude.{
  ℕ, zero, suc, ◌+◌, ◌≤◌, ◌<◌, ◌≡◌, arith, true, false, ◌⊎◌, inl, inr, Bool-cases, ◌==◌,
}
use nakamoto_electrs.Bitcoin.{Bitcoin}
use nakamoto_electrs.BlockSource.{Blocks, BlockEvent}
use nakamoto_electrs.Sled.{Sled}
use nakamoto_electrs.HashMap.Keys.{eq_of_same_nat}
use nakamoto_electrs.Electrum.Crates.{Crates}
use nakamoto_electrs.Electrum.Notify.{ready, wait_for_indexer_tip}

module _ ⦃sl : Sled⦄ ⦃bc : Bitcoin⦄ ⦃bl : Blocks⦄ ⦃cr : Crates⦄ where
  -- The wait ends by the deadline, with the tip at the event or at the deadline itself, and not
  -- later than the first round in which the tip has reached the event.
  pub wait_for_indexer_tip_lem :
      (event : BlockEvent) (tips : ℕ → ℕ) (left round : ℕ)
      → let end = wait_for_indexer_tip event tips left round in
        (round ≤ end)
        × (end ≤ round + left)
        × ((ready event (tips end) ≡ true) ⊎ (end ≡ round + left))
        × ((k : ℕ) → round ≤ k → k < end → ready event (tips k) ≡ false)
  unfolding wait_for_indexer_tip
  wait_for_indexer_tip_lem event tips zero round =
      (omega arith, omega arith, inr (omega arith), λ k a b. absurd (omega (arith, a, b)))
  wait_for_indexer_tip_lem event tips (suc left) round =
      elim (Bool-cases (ready event (tips round))) [
        | inl h ↦
            rw (wait_for_indexer_tip, h)
              (omega arith, omega arith, inl h, λ k a b. absurd (omega (arith, a, b)))
        | inr h ↦
            let (after, by, why, before) = wait_for_indexer_tip_lem event tips left (suc round) in
            let end = wait_for_indexer_tip event tips left (suc round) in
            rw (wait_for_indexer_tip, h)
              (
                omega (arith, after),
                omega (arith, by),
                elim why [ inl at ↦ inl at | inr late ↦ inr (omega (arith, late)) ],
                λ k a b. elim (Bool-cases (k == round)) [
                  | inl same ↦ rw (eq_of_same_nat k round same) h
                  | inr other ↦ before k (ground (arith, a, other)) b
                ],
              )
      ]
