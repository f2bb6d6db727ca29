-- ===== src/HashMap/Sets.antt =====
-- `std::collections::HashSet` as the list of its members.
use nakamoto_electrs.Prelude.{
  ◌≡◌, refl, Bool, false, ◌||◌, List, [], ◌∷◌, ◌++◌, arith, if◌then◌else◌,
}
use nakamoto_electrs.HashMap.Keys.{Eq, ◌≐◌}

module _ {ℓ} {A : Type ℓ} ⦃e : Eq A⦄ where
  -- `contains`
  unfoldable pub has : A → List A → Bool
  has a [] = false
  has a (x ∷ xs) = x ≐ a || has a xs

  -- `insert`
  unfoldable pub add : A → List A → List A
  add a xs = if has a xs then xs else a ∷ xs

  -- `extend`
  unfoldable pub extend : List A → List A → List A
  extend [] xs = xs
  extend (a ∷ as') xs = extend as' (add a xs)

  pub has-add : (a x : A) (xs : List A) → has x (add a xs) ≡ (a ≐ x || has x xs)
  unfolding add has
  has-add a x xs = ground (arith, e.eq_of_same a x)

  pub has-extend : (as' xs : List A) (x : A) → has x (extend as' xs) ≡ (has x as' || has x xs)
  unfolding extend has
  has-extend [] xs x = refl
  has-extend (a ∷ as') xs x = ground (arith, has-extend as' (add a xs) x, has-add a x xs)

  pub has-append : (xs ys : List A) (x : A) → has x (xs ++ ys) ≡ (has x xs || has x ys)
  unfolding has
  has-append [] ys x = refl
  has-append (y ∷ xs) ys x = ground (arith, has-append xs ys x)
