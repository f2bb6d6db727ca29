-- ===== src/Bytes/Defs.antt =====
-- Byte strings: `u32::to_be_bytes`, `u64::to_be_bytes`, `from_be_bytes` and slices. A byte is a
-- number below 256.
use mathlib.Core.List.{foldl, foldl-append}
use native.Mathlib.Nat.{pow-suc}
use nakamoto_electrs.Prelude.{
  ℕ, zero, suc, ◌+◌, ◌-◌, ◌*◌, ◌/◌, ◌%◌, ◌^◌, ◌<◌, ◌≡◌, refl, List, [], ◌∷◌, ◌++◌, arith, length,
  length-append, take, drop, All, All-append,
}

abbrev pub Bytes : Type 0
Bytes = List ℕ

-- `[u8; n]`
pub record IsArray (n : ℕ) (xs : Bytes) : Type 0 where
  pub sized : length xs ≡ n
  pub bytes : All (λ b. b < 256) xs

-- `to_be_bytes` of an integer of `n` bytes.
unfoldable pub be_bytes : ℕ → ℕ → Bytes
be_bytes zero v = []
be_bytes (suc n) v = be_bytes n (v / 256) ++ v % 256 ∷ []

-- `from_be_bytes`
unfoldable pub from_be_bytes : Bytes → ℕ
from_be_bytes xs = foldl (λ (acc b : ℕ). acc * 256 + b) 0 xs

-- `xs[a..b]`, where `b ≤ len(xs)`
abbrev pub slice : ℕ → ℕ → Bytes → Bytes
slice a b xs = take (b - a) (drop a xs)

pub length-be_bytes : (n v : ℕ) → length (be_bytes n v) ≡ n
unfolding be_bytes
length-be_bytes zero v = refl
length-be_bytes (suc n) v =
    omega (arith, length-append (be_bytes n (v / 256)) (v % 256 ∷ []), length-be_bytes n (v / 256))

All-be_bytes : (n v : ℕ) → All (λ b. b < 256) (be_bytes n v)
unfolding be_bytes
All-be_bytes zero v = tt
All-be_bytes (suc n) v =
    All-append (λ b. b < 256) (be_bytes n (v / 256)) (v % 256 ∷ []) (All-be_bytes n (v / 256))
      (omega arith, tt)

pub be_bytes-IsArray : (n v : ℕ) → IsArray n (be_bytes n v)
be_bytes-IsArray n v = record { sized = length-be_bytes n v; bytes = All-be_bytes n v }

pub from_be_bytes-snoc :
    (xs : Bytes) (b : ℕ) → from_be_bytes (xs ++ b ∷ []) ≡ from_be_bytes xs * 256 + b
unfolding from_be_bytes
from_be_bytes-snoc xs b = rw foldl-append

-- An integer that fits in `n` bytes is read back.
pub from_be_bytes-be_bytes : (n v : ℕ) → v < 256 ^ n → from_be_bytes (be_bytes n v) ≡ v
unfolding be_bytes
from_be_bytes-be_bytes zero v h = unfold from_be_bytes in omega arith
from_be_bytes-be_bytes (suc n) v h =
    rw from_be_bytes-snoc
      (omega (arith, from_be_bytes-be_bytes n (v / 256) (omega (arith, pow-suc 256 n))))
