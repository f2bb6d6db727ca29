-- ===== src/Sled/Entries/Inverse.antt =====
-- Writes of an ordered map that cancel.
use Prim.Native.Nat.Ordering.{lt}
use nakamoto_electrs.Prelude.{◌≡◌, refl, none, some, List, [], ◌∷◌, arith, eq_of_beq, beq_refl}
use nakamoto_electrs.Bytes.{Bytes}
use nakamoto_electrs.Bytes.Order.{bcmp, bcmp_refl, eq_of_bcmp}
use nakamoto_electrs.Sled.Entries.{
  Entry, Above, IsSorted, find, insert, remove, find-Above, Above-trans,
}

-- A new entry is taken out again.
pub remove-insert : (k v : Bytes) (m : List Entry) → find k m ≡ none → remove k (insert k v m) ≡ m
unfolding find insert remove
remove-insert k v [] n = ground (arith, beq_refl k)
remove-insert k v ((j, w) ∷ m) n =
    ground (arith, remove-insert k v m, beq_refl k, eq_of_bcmp k j, eq_of_beq k j)

find_beyond : (k j : Bytes) (m : List Entry) → bcmp k j ≡ lt → Above j m → find k m ≡ none
find_beyond k j m h a = find-Above k m (Above-trans k j m h a)

insert_front : (k v : Bytes) (m : List Entry) → Above k m → insert k v m ≡ (k, v) ∷ m
unfolding insert
insert_front k v [] a = refl
insert_front k v ((j, w) ∷ m) a = ground arith

-- An entry that is written once more as it was changes nothing.
pub insert_same : (k v : Bytes) (m : List Entry) → IsSorted m → find k m ≡ some v → insert k v m ≡ m
unfolding find insert
insert_same k v [] s h = cc
insert_same k v ((j, w) ∷ m) s h = ground (
  arith,
  insert_same k v m,
  find_beyond k j m,
  s.0,
  eq_of_bcmp k j,
  eq_of_beq k j,
  beq_refl k,
  bcmp_refl k,
)

-- An entry that was removed is put back at its place.
pub insert-remove :
    (k v : Bytes) (m : List Entry) → IsSorted m → find k m ≡ some v → insert k v (remove k m) ≡ m
unfolding find insert remove
insert-remove k v [] s h = cc
insert-remove k v ((j, w) ∷ m) s h = ground (
  arith,
  insert-remove k v m,
  insert_front k v m,
  find_beyond k j m,
  s.0,
  eq_of_bcmp k j,
  eq_of_beq k j,
  beq_refl k,
)
