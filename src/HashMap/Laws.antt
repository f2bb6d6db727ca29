-- ===== src/HashMap/Laws.antt =====
-- Reads of a map after a write.
use nakamoto_electrs.Prelude.{◌≡◌, refl, none, some, List, [], ◌∷◌, ◌++◌, arith, if◌then◌else◌}
use nakamoto_electrs.HashMap.Keys.{Eq, ◌≐◌}
use nakamoto_electrs.HashMap.{HashMap, get, insert, remove, push_at, listed}

module _ {ℓ κ} {K : Type ℓ} {V : Type κ} ⦃e : Eq K⦄ where
  pub get-insert :
      (j k : K) (v : V) (m : HashMap K V)
      → get j (insert k v m) ≡ (if k ≐ j then some v else get j m)
  unfolding get insert
  get-insert j k v [] = refl
  get-insert j k v ((i, w) ∷ m) = ground (
    arith,
    get-insert j k v m,
    e.eq_of_same i k,
    e.eq_of_same i j,
    e.eq_of_same k j,
    e.same_refl k,
  )

  pub get-remove :
      (j k : K) (m : HashMap K V) → get j (remove k m) ≡ (if k ≐ j then none else get j m)
  unfolding get remove
  get-remove j k [] = ground arith
  get-remove j k ((i, w) ∷ m) =
      ground (
        arith,
        get-remove j k m,
        e.eq_of_same i k,
        e.eq_of_same i j,
        e.eq_of_same k j,
        e.same_refl k,
      )

module _ {ℓ κ} {K : Type ℓ} {V : Type κ} ⦃e : Eq K⦄ where
  pub get-push_at :
      (j k : K) (x : V) (m : HashMap K (List V))
      → get j (push_at k x m) ≡ (if k ≐ j then some (listed (get j m) ++ x ∷ []) else get j m)
  unfolding get push_at
  get-push_at j k x [] = refl
  get-push_at j k x ((i, w) ∷ m) = ground (
    arith,
    get-push_at j k x m,
    e.eq_of_same i k,
    e.eq_of_same i j,
    e.eq_of_same k j,
    e.same_refl k,
  )
