-- ===== src/Prelude/Sort/Sorted.antt =====
-- What a sort makes of the order and of the members.
use mathlib.Core.Path.{◌≡◌}
use mathlib.Core.Bool.{Bool, true, false}
use mathlib.Core.List.{List, [], ◌∷◌}
use mathlib.Core.Logic.{inl, inr}
use Prim.Native.Nat.{ℕ, ◌≤◌}
use native.Mathlib.Omega.{arith}
use nakamoto_electrs.Prelude.Lists.{All}
use nakamoto_electrs.Prelude.Tests.{Bool-cases}
use nakamoto_electrs.Prelude.Sort.{insert_by, sort_by}

module _ {ℓ} {A : Type ℓ} where
  -- The ranks never decrease.
  abbrev pub Sorted : (A → ℕ) → List A → Type 0
  Sorted rank [] = Unit
  Sorted rank (x ∷ xs) = All (λ y. rank x ≤ rank y) xs × Sorted rank xs

  pub All-map {κ μ} :
      {P : A → Type κ} {Q : A → Type μ} (f : (a : A) → P a → Q a) (xs : List A)
      → All P xs
      → All Q xs
  All-map f [] h = tt
  All-map f (x ∷ xs) (p, ps) = (f x p, All-map f xs ps)

module _ {ℓ} {A : Type ℓ} (le : A → A → Bool) where
  pub insert_by-All {κ} :
      (P : A → Type κ) (x : A) (xs : List A) → P x → All P xs → All P (insert_by le x xs)
  unfolding insert_by
  insert_by-All P x [] p h = (p, tt)
  insert_by-All P x (y ∷ ys) p (q, qs) = elim (Bool-cases (le x y)) [
    | inl h ↦ rw h (p, (q, qs))
    | inr h ↦ rw h (q, insert_by-All P x ys p qs)
  ]

  -- A sort keeps what holds of every member.
  pub sort_by-All {κ} : (P : A → Type κ) (xs : List A) → All P xs → All P (sort_by le xs)
  unfolding sort_by
  sort_by-All P [] h = tt
  sort_by-All P (x ∷ xs) (p, ps) = insert_by-All P x (sort_by le xs) p (sort_by-All P xs ps)

  module _ (rank : A → ℕ) (up : (a b : A) → le a b ≡ true → rank a ≤ rank b)
      (down : (a b : A) → le a b ≡ false → rank b ≤ rank a) where
    insert_by-Sorted : (x : A) (xs : List A) → Sorted rank xs → Sorted rank (insert_by le x xs)
    unfolding insert_by
    insert_by-Sorted x [] h = (tt, tt)
    insert_by-Sorted x (y ∷ ys) (before, rest) = elim (Bool-cases (le x y)) [
      | inl h ↦
          let first = up x y h in
          rw h ((first, All-map (λ z le. omega (arith, le, first)) ys before), (before, rest))
      | inr h ↦ rw h (
        insert_by-All (λ z. rank y ≤ rank z) x ys (down x y h) before,
        insert_by-Sorted x ys rest,
      )
    ]

    -- A sort by an order that the ranks follow leaves ranks that never decrease.
    pub sort_by-Sorted : (xs : List A) → Sorted rank (sort_by le xs)
    unfolding sort_by
    sort_by-Sorted [] = tt
    sort_by-Sorted (x ∷ xs) = insert_by-Sorted x (sort_by le xs) (sort_by-Sorted xs)
