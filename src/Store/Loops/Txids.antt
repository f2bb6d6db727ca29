-- ===== src/Store/Loops/Txids.antt =====
-- A list of txids as a set without duplicates.
use nakamoto_electrs.Prelude.{
  ◌≡◌, refl, false, not, ◌&&◌, List, [], ◌∷◌, ◌++◌, ◌||◌, arith, All, All-append, beq, eq_of_beq,
  beq_refl, Bool-cases, inl, inr,
}
use nakamoto_electrs.Store.Types.{Txid}
use nakamoto_electrs.Store.Loops.{contains, without, push_new}

-- No txid stands in the list twice.
abbrev pub IsDistinct : List Txid → Type 0
IsDistinct [] = Unit
IsDistinct (x ∷ xs) = (contains xs x ≡ false) × IsDistinct xs

pub contains-snoc :
    (xs : List Txid) (y x : Txid) → contains (xs ++ y ∷ []) x ≡ (contains xs x || beq y x)
unfolding contains
contains-snoc [] y x = ground arith
contains-snoc (z ∷ xs) y x = ground (arith, contains-snoc xs y x)

IsDistinct-snoc :
    (xs : List Txid) (y : Txid) → contains xs y ≡ false → IsDistinct xs → IsDistinct (xs ++ y ∷ [])
unfolding contains
IsDistinct-snoc [] y h d = (refl, tt)
IsDistinct-snoc (z ∷ xs) y h d =
    ground (
      arith,
      IsDistinct-snoc xs y,
      contains-snoc xs y z,
      eq_of_beq y z,
      eq_of_beq z y,
      beq_refl y,
      h,
    )

pub contains-push_new :
    (txid : Txid) (ts : List Txid) (x : Txid)
    → contains (push_new txid ts) x ≡ (beq txid x || contains ts x)
unfolding push_new
contains-push_new txid ts x = ground (arith, contains-snoc ts txid x, eq_of_beq txid x)

pub push_new-IsDistinct :
    (txid : Txid) (ts : List Txid) → IsDistinct ts → IsDistinct (push_new txid ts)
unfolding push_new
push_new-IsDistinct txid ts d = elim (Bool-cases (contains ts txid)) [
  | inl h ↦ rw h d
  | inr h ↦ rw h (IsDistinct-snoc ts txid h d)
]

pub contains-without :
    (txid : Txid) (ts : List Txid) (x : Txid)
    → contains (without txid ts) x ≡ (not (beq txid x) && contains ts x)
unfolding contains without
contains-without txid [] x = ground arith
contains-without txid (z ∷ ts) x = ground (
  arith,
  contains-without txid ts x,
  eq_of_beq z txid,
  eq_of_beq z x,
  eq_of_beq txid x,
  beq_refl x,
)

pub without-IsDistinct :
    (txid : Txid) (ts : List Txid) → IsDistinct ts → IsDistinct (without txid ts)
unfolding without
without-IsDistinct txid [] d = tt
without-IsDistinct txid (z ∷ ts) d =
    ground (arith, without-IsDistinct txid ts, contains-without txid ts z)

module _ (P : Txid → Type 0) where
  pub All-push_new : (txid : Txid) (ts : List Txid) → P txid → All P ts → All P (push_new txid ts)
  unfolding push_new
  All-push_new txid ts p h = elim (Bool-cases (contains ts txid)) [
    | inl old ↦ rw old h
    | inr new ↦ rw new (All-append P ts (txid ∷ []) h (p, tt))
  ]

  pub All-without : (txid : Txid) (ts : List Txid) → All P ts → All P (without txid ts)
  unfolding without
  All-without txid [] h = tt
  All-without txid (z ∷ ts) h = elim (Bool-cases (beq z txid)) [
    | inl same ↦ rw same (All-without txid ts h.1)
    | inr other ↦ rw other (h.0, All-without txid ts h.1)
  ]
