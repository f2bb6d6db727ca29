-- ===== src/Prelude/Int.antt =====
-- Signed integers: `negsuc n` is `-(n + 1)`.
use nakamoto_electrs.Prelude.Tests.{ltb, if◌then◌else◌}
use Prim.Native.Nat.{ℕ, ◌-◌, ◌^◌}

pub data ℤ : Type 0 where
  pos negsuc : ℕ → ℤ

-- The value of an `i64` by its 64-bit pattern.
abbrev pub of_i64 : ℕ → ℤ
of_i64 n = if ltb n (2 ^ 63) then pos n else negsuc (2 ^ 64 - 1 - n)
