-- ===== src/Prelude/Sort/Ordered.antt =====
-- A sort by a total and transitive order.
use mathlib.Core.Path.{◌≡◌}
use mathlib.Core.Bool.{Bool, true, false}
use mathlib.Core.List.{List, [], ◌∷◌}
use mathlib.Core.Logic.{inl, inr}
use nakamoto_electrs.Prelude.Lists.{All}
use nakamoto_electrs.Prelude.Tests.{Bool-cases}
use nakamoto_electrs.Prelude.Sort.{insert_by, sort_by}
use nakamoto_electrs.Prelude.Sort.Sorted.{All-map, insert_by-All}

module _ {ℓ} {A : Type ℓ} where
  -- Each element stands in the relation to all that follow it.
  abbrev pub Ordered {κ} : (A → A → Type κ) → List A → Type κ
  Ordered R [] = Unit
  Ordered R (x ∷ xs) = All (R x) xs × Ordered R xs

  pub Ordered-map {κ μ ν} :
      (P : A → Type ν) {R : A → A → Type κ} {Q : A → A → Type μ}
      (f : (a b : A) → P a → P b → R a b → Q a b) (xs : List A)
      → All P xs
      → Ordered R xs
      → Ordered Q xs
  Ordered-map P f [] h o = tt
  Ordered-map P {R} {Q} f (x ∷ xs) (p, ps) (before, rest) =
      (each xs ps before, Ordered-map P f xs ps rest)
    where
      each : (ys : List A) → All P ys → All (R x) ys → All (Q x) ys
      each [] h o = tt
      each (y ∷ ys) (q, qs) (r, rs) = (f x y p q r, each ys qs rs)

module _ {ℓ κ} {A : Type ℓ} (le : A → A → Bool) (R : A → A → Type κ)
    (up : (a b : A) → le a b ≡ true → R a b) (down : (a b : A) → le a b ≡ false → R b a)
    (trans : (a b c : A) → R a b → R b c → R a c) where
  insert_by-Ordered : (x : A) (xs : List A) → Ordered R xs → Ordered R (insert_by le x xs)
  unfolding insert_by
  insert_by-Ordered x [] h = (tt, tt)
  insert_by-Ordered x (y ∷ ys) (before, rest) = elim (Bool-cases (le x y)) [
    | inl h ↦
        let first = up x y h in
        rw h ((first, All-map (λ z r. trans x y z first r) ys before), (before, rest))
    | inr h ↦ rw h (insert_by-All le (R y) x ys (down x y h) before, insert_by-Ordered x ys rest)
  ]

  -- A sort leaves each element before all that it is below.
  pub sort_by-Ordered : (xs : List A) → Ordered R (sort_by le xs)
  unfolding sort_by
  sort_by-Ordered [] = tt
  sort_by-Ordered (x ∷ xs) = insert_by-Ordered x (sort_by le xs) (sort_by-Ordered xs)
