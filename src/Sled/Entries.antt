-- ===== src/Sled/Entries.antt =====
-- An ordered map from byte strings to byte strings: the list of its entries in key order.
pub mod Inverse
use Prim.Native.Nat.Ordering.{lt, eq, gt}
use nakamoto_electrs.Prelude.{
  ◌≡◌, refl, Bool, true, false, ◌&&◌, Option, none, some, List, [], ◌∷◌, arith, All, ◌==◌, beq,
  eq_of_beq, beq_refl, if◌then◌else◌,
}
use nakamoto_electrs.Bytes.{Bytes}
use nakamoto_electrs.Bytes.Order.{bcmp, bcmp_refl, eq_of_bcmp, lt_of_gt, lt_trans}

abbrev pub Entry : Type 0
Entry = Bytes × Bytes

-- Every key lies above `k`.
abbrev pub Above : Bytes → List Entry → Type 0
Above k m = All (λ e. bcmp k e.0 ≡ lt) m

abbrev pub IsSorted : List Entry → Type 0
IsSorted [] = Unit
IsSorted (e ∷ m) = Above e.0 m × IsSorted m

unfoldable pub find : Bytes → List Entry → Option Bytes
find k [] = none
find k ((j, v) ∷ m) = if beq k j then some v else find k m

unfoldable pub insert : Bytes → Bytes → List Entry → List Entry
insert k v [] = (k, v) ∷ []
insert k v ((j, w) ∷ m) = elim (bcmp k j) [
  | lt ↦ (k, v) ∷ (j, w) ∷ m
  | eq ↦ (k, v) ∷ m
  | gt ↦ (j, w) ∷ insert k v m
]

unfoldable pub remove : Bytes → List Entry → List Entry
remove k [] = []
remove k ((j, w) ∷ m) = let rest = remove k m in if beq k j then m else (j, w) ∷ rest

unfoldable pub starts_with : Bytes → Bytes → Bool
starts_with [] xs = true
starts_with (p ∷ ps) [] = false
starts_with (p ∷ ps) (x ∷ xs) = p == x && starts_with ps xs

-- The entries whose key starts with `p`.
unfoldable pub scan : Bytes → List Entry → List Entry
unfolding starts_with
scan p [] = []
scan p (e ∷ m) = let rest = scan p m in if starts_with p e.0 then e ∷ rest else rest

pub find-insert :
    (j k v : Bytes) (m : List Entry)
    → find j (insert k v m) ≡ (if beq j k then some v else find j m)
unfolding find insert
find-insert j k v [] = refl
find-insert j k v ((i, w) ∷ m) = ground (
  arith,
  find-insert j k v m,
  eq_of_bcmp k i,
  eq_of_beq j k,
  eq_of_beq j i,
  beq_refl j,
  bcmp_refl k,
)

pub find-Above : (k : Bytes) (m : List Entry) → Above k m → find k m ≡ none
unfolding find
find-Above k [] a = refl
find-Above k ((i, w) ∷ m) a = ground (arith, find-Above k m, eq_of_beq k i, bcmp_refl k)

pub find-remove :
    (j k : Bytes) (m : List Entry)
    → IsSorted m
    → find j (remove k m) ≡ (if beq j k then none else find j m)
unfolding find remove
find-remove j k [] s = ground arith
find-remove j k ((i, w) ∷ m) s = ground (
  arith,
  find-remove j k m,
  find-Above i m s.0,
  eq_of_beq k i,
  eq_of_beq j k,
  eq_of_beq j i,
  beq_refl j,
)

Above-insert : (i k v : Bytes) (m : List Entry) → bcmp i k ≡ lt → Above i m → Above i (insert k v m)
unfolding insert
Above-insert i k v [] h a = (h, tt)
Above-insert i k v ((j, w) ∷ m) h a = ground (arith, Above-insert i k v m)

pub Above-trans : (i k : Bytes) (m : List Entry) → bcmp i k ≡ lt → Above k m → Above i m
Above-trans i k [] h a = tt
Above-trans i k ((j, w) ∷ m) h a = (lt_trans i k j h a.0, Above-trans i k m h a.1)

pub insert-IsSorted : (k v : Bytes) (m : List Entry) → IsSorted m → IsSorted (insert k v m)
unfolding insert
insert-IsSorted k v [] s = (tt, tt)
insert-IsSorted k v ((j, w) ∷ m) s = ground (
  arith,
  insert-IsSorted k v m,
  Above-insert j k v m,
  lt_of_gt k j,
  eq_of_bcmp k j,
  Above-trans k j m,
)

Above-remove : (i k : Bytes) (m : List Entry) → Above i m → Above i (remove k m)
unfolding remove
Above-remove i k [] a = tt
Above-remove i k ((j, w) ∷ m) a = ground (arith, Above-remove i k m)

pub remove-IsSorted : (k : Bytes) (m : List Entry) → IsSorted m → IsSorted (remove k m)
unfolding remove
remove-IsSorted k [] s = tt
remove-IsSorted k ((j, w) ∷ m) s = ground (arith, remove-IsSorted k m, Above-remove j k m)
