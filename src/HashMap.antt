-- ===== src/HashMap.antt =====
-- `std::collections::HashMap` as the list of its entries. The order of an iteration, which the
-- standard library leaves open, is the order of that list.
pub mod Keys
pub mod Sets
pub mod Laws
use nakamoto_electrs.Prelude.{
  ℕ, Bool, true, false, Option, none, some, List, [], ◌∷◌, ◌++◌, if◌then◌else◌,
}
use nakamoto_electrs.HashMap.Keys.{Eq, ◌≐◌}

abbrev pub HashMap {ℓ κ} : Type ℓ → Type κ → Type (ℓ ⊔ κ)
HashMap K V = List (K × V)

module _ {ℓ κ} {K : Type ℓ} {V : Type κ} ⦃e : Eq K⦄ where
  unfoldable pub get : K → HashMap K V → Option V
  get k [] = none
  get k ((j, v) ∷ m) = if j ≐ k then some v else get k m

  unfoldable pub insert : K → V → HashMap K V → HashMap K V
  insert k v [] = (k, v) ∷ []
  insert k v ((j, w) ∷ m) = let rest = insert k v m in if j ≐ k then (k, v) ∷ m else (j, w) ∷ rest

  unfoldable pub remove : K → HashMap K V → HashMap K V
  remove k [] = []
  remove k ((j, w) ∷ m) = let rest = remove k m in if j ≐ k then rest else (j, w) ∷ rest

module _ {ℓ κ} {K : Type ℓ} {V : Type κ} ⦃e : Eq K⦄ where
  -- `m.entry(k).or_default().push(x)`
  unfoldable pub push_at : K → V → HashMap K (List V) → HashMap K (List V)
  push_at k x [] = (k, x ∷ []) ∷ []
  push_at k x ((j, vs) ∷ m) =
      let rest = push_at k x m in if j ≐ k then (j, vs ++ x ∷ []) ∷ m else (j, vs) ∷ rest

-- `contains_key`
unfoldable pub contains_key {ℓ κ} : {K : Type ℓ} {V : Type κ} ⦃e : Eq K⦄ → K → HashMap K V → Bool
unfolding get
contains_key k m = elim (get k m) [ none ↦ false | some _ ↦ true ]

-- the list at a key, empty where the key is missing
abbrev pub listed {ℓ} : {V : Type ℓ} → Option (List V) → List V
listed none = []
listed (some vs) = vs
