-- ===== src/Bytes/Order.antt =====
-- The lexicographic order of byte strings, in which sled keeps its keys, and the order of
-- big-endian integers in it.
use Prim.Native.Nat.{compare, Ordering}
use Prim.Native.Nat.Ordering.{lt, eq, gt}
use native.Mathlib.Nat.{pow-suc}
use nakamoto_electrs.Prelude.{
  ℕ, zero, suc, ◌/◌, ◌%◌, ◌^◌, ◌<◌, ◌≡◌, refl, [], ◌∷◌, ◌++◌, arith, length, sym, ◌∙◌,
}
use nakamoto_electrs.Bytes.Defs.{Bytes, be_bytes, length-be_bytes}

-- The second comparison decides where the first finds no difference.
abbrev pub then : Ordering → Ordering → Ordering
then eq second = second
then lt second = lt
then gt second = gt

unfoldable pub bcmp : Bytes → Bytes → Ordering
bcmp [] [] = eq
bcmp [] (y ∷ ys) = lt
bcmp (x ∷ xs) [] = gt
bcmp (x ∷ xs) (y ∷ ys) = then (compare x y) (bcmp xs ys)

pub bcmp_refl : (xs : Bytes) → bcmp xs xs ≡ eq
unfolding bcmp
bcmp_refl [] = refl
bcmp_refl (x ∷ xs) = ground (arith, bcmp_refl xs)

pub eq_of_bcmp : (xs ys : Bytes) → bcmp xs ys ≡ eq → xs ≡ ys
unfolding bcmp
eq_of_bcmp [] [] h = refl
eq_of_bcmp [] (y ∷ ys) h = cc
eq_of_bcmp (x ∷ xs) [] h = cc
eq_of_bcmp (x ∷ xs) (y ∷ ys) h = ground (arith, eq_of_bcmp xs ys)

pub lt_of_gt : (xs ys : Bytes) → bcmp xs ys ≡ gt → bcmp ys xs ≡ lt
unfolding bcmp
lt_of_gt [] [] h = cc
lt_of_gt [] (y ∷ ys) h = cc
lt_of_gt (x ∷ xs) [] h = refl
lt_of_gt (x ∷ xs) (y ∷ ys) h = ground (arith, lt_of_gt xs ys)

pub lt_trans : (xs ys zs : Bytes) → bcmp xs ys ≡ lt → bcmp ys zs ≡ lt → bcmp xs zs ≡ lt
unfolding bcmp
lt_trans [] [] zs h k = cc
lt_trans [] (y ∷ ys) [] h k = cc
lt_trans [] (y ∷ ys) (z ∷ zs) h k = refl
lt_trans (x ∷ xs) [] zs h k = cc
lt_trans (x ∷ xs) (y ∷ ys) [] h k = cc
lt_trans (x ∷ xs) (y ∷ ys) (z ∷ zs) h k = ground (arith, lt_trans xs ys zs)

-- Strings of one length are compared before what follows them.
pub bcmp-append :
    (xs ys us vs : Bytes)
    → length xs ≡ length ys
    → bcmp (xs ++ us) (ys ++ vs) ≡ then (bcmp xs ys) (bcmp us vs)
unfolding bcmp
bcmp-append [] [] us vs h = refl
bcmp-append [] (y ∷ ys) us vs h = absurd (omega arith)
bcmp-append (x ∷ xs) [] us vs h = absurd (omega arith)
bcmp-append (x ∷ xs) (y ∷ ys) us vs h = ground (arith, bcmp-append xs ys us vs (omega arith))

-- Big-endian integers that fit in `n` bytes are in the order of their values.
pub bcmp-be_bytes :
    (n v w : ℕ) → v < 256 ^ n → w < 256 ^ n → bcmp (be_bytes n v) (be_bytes n w) ≡ compare v w
unfolding be_bytes
bcmp-be_bytes zero v w hv hw = unfold bcmp in ground arith
bcmp-be_bytes (suc n) v w hv hw =
    rw
      (bcmp-append (be_bytes n (v / 256)) (be_bytes n (w / 256)) (v % 256 ∷ []) (w % 256 ∷ [])
        (length-be_bytes n (v / 256) ∙ sym (length-be_bytes n (w / 256))))
      (rw
        (bcmp-be_bytes n (v / 256) (w / 256) (omega (arith, pow-suc 256 n))
          (omega (arith, pow-suc 256 n)))
        (unfold bcmp in ground arith))
