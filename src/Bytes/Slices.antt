-- ===== src/Bytes/Slices.antt =====
-- Slices of a string that is put together from parts of known lengths.
use nakamoto_electrs.Prelude.{
  ℕ, ◌+◌, ◌-◌, ◌≡◌, refl, ◌++◌, arith, length, take_append, drop_beyond, take_all,
}
use nakamoto_electrs.Bytes.Defs.{Bytes, slice}

pub slice_first : (n : ℕ) (xs ys : Bytes) → length xs ≡ n → slice 0 n (xs ++ ys) ≡ xs
slice_first n xs ys h = let e : n - 0 ≡ n = omega arith in rw e (take_append n xs ys h)

pub slice_all : (n : ℕ) (xs : Bytes) → length xs ≡ n → slice 0 n xs ≡ xs
slice_all n xs h = let e : n - 0 ≡ n = omega arith in rw e (take_all n xs h)

-- A slice that begins in the second part.
pub slice_skip :
    (n a b c d : ℕ) (xs ys : Bytes)
    → length xs ≡ n
    → n + c ≡ a
    → n + d ≡ b
    → slice a b (xs ++ ys) ≡ slice c d ys
slice_skip n a b c d xs ys h e f =
    let width : b - a ≡ d - c = omega arith in rw (width, drop_beyond n c a xs ys h e) refl
