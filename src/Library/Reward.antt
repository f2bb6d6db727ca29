-- ===== src/Library/Reward.antt =====
-- The reward between two heights.
use nakamoto_electrs.Prelude.{
  ℕ, ◌+◌, ◌*◌, ◌/◌, ◌^◌, ◌≡◌, refl, arith, ◌%◌, ◌==◌, leb, Bool-cases, inl, inr, sym, ap, ◌∙◌, true,
  if◌then◌else◌,
}
use native.Mathlib.Nat.{div-div-eq-div-mul, pow-suc}
use nakamoto_electrs.Library.{is_halving_height, block_reward_sats}

abbrev after : ℕ → ℕ
after n = if leb 64 n then 0 else 5000000000 / 2 ^ n

halved : (n : ℕ) → 5000000000 / 2 ^ (n + 1) ≡ 5000000000 / 2 ^ n / 2
halved n =
    let twice : 2 ^ (n + 1) ≡ 2 ^ n * 2 = ap (λ (k : ℕ). 2 ^ k) (omega arith) ∙ pow-suc 2 n in
    ap (λ (m : ℕ). 5000000000 / m) twice ∙ sym (div-div-eq-div-mul 5000000000 (2 ^ n) 2)

after-next : (n : ℕ) → after (n + 1) ≡ after n / 2
after-next n = elim (Bool-cases (leb 64 n)) [
  | inl h ↦ let next : leb 64 (n + 1) ≡ true = ground (arith, h) in rw (next, h) refl
  | inr h ↦ elim (Bool-cases (leb 64 (n + 1))) [
    | inl g ↦ let last : n ≡ 63 = ground (arith, h, g) in rw (g, h, last) refl
    | inr g ↦ rw (g, h) (halved n)
  ]
]

halving : (h : ℕ) → is_halving_height (h + 1) ≡ ((h + 1) % 210000 == 0)
unfolding is_halving_height
halving h = ground arith

-- From one height to the next the block reward is halved, rounded down, exactly if the next height
-- is a halving height, and stays the same otherwise.
pub block_reward_sats-next :
    (height : ℕ)
    → block_reward_sats (height + 1) ≡ (
        if is_halving_height (height + 1)
        then block_reward_sats height / 2
        else block_reward_sats height)
unfolding block_reward_sats
block_reward_sats-next height = elim (Bool-cases ((height + 1) % 210000 == 0)) [
  | inl h ↦
      let next : (height + 1) / 210000 ≡ height / 210000 + 1 = ground (arith, h) in
      rw (halving height, h, next) (after-next (height / 210000))
  | inr h ↦
      let same : (height + 1) / 210000 ≡ height / 210000 = ground (arith, h) in
      rw (halving height, h, same) refl
]
