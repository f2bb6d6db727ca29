-- ===== src/Indexer/Graph/Ends.antt =====
-- A walk comes to its end: with enough fuel its queue runs empty.
use nakamoto_electrs.Prelude.{
  ℕ, zero, suc, ◌+◌, ◌*◌, ◌≤◌, ◌<◌, ◌≡◌, refl, true, false, List, [], ◌∷◌, ◌++◌, arith, length,
  length-append, Bool-cases, inl, inr, eq_of_beq, beq_refl, ap,
}
use nakamoto_electrs.HashMap.Keys.{bytes_eq}
use nakamoto_electrs.HashMap.Sets.{has, has-append}
use nakamoto_electrs.Store.Types.{Txid}
use nakamoto_electrs.Indexer.Graph.{unseen, walk, walk_fuel}

pub length-unseen : (seen xs : List Txid) → length (unseen seen xs) ≤ length xs
unfolding unseen
length-unseen seen [] = omega arith
length-unseen seen (x ∷ xs) = ground (arith, length-unseen seen xs)

unseen_less :
    (t : Txid) (seen xs : List Txid) → length (unseen (t ∷ seen) xs) ≤ length (unseen seen xs)
unfolding unseen has
unseen_less t seen [] = omega arith
unseen_less t seen (x ∷ xs) = ground (arith, unseen_less t seen xs)

-- A member that is seen for the first time leaves one fewer.
unseen_lt :
    (t : Txid) (seen xs : List Txid)
    → has t seen ≡ false
    → has t xs ≡ true
    → length (unseen (t ∷ seen) xs) < length (unseen seen xs)
unfolding unseen has
unseen_lt t seen [] h m = cc
unseen_lt t seen (x ∷ xs) h m =
    ground (arith, unseen_lt t seen xs, unseen_less t seen xs, eq_of_beq x t, beq_refl t)

pub has-unseen : (x : Txid) (seen xs : List Txid) → has x (unseen seen xs) ≡ true → has x xs ≡ true
unfolding unseen has
has-unseen x seen [] h = h
has-unseen x seen (y ∷ xs) h = ground (arith, has-unseen x seen xs)

unseen_nil : (xs : List Txid) → length (unseen [] xs) ≡ length xs
unfolding unseen has
unseen_nil [] = refl
unseen_nil (x ∷ xs) = ap suc (unseen_nil xs)

fewer : (m n b : ℕ) → m < n → b + m * b ≤ n * b
fewer m n b h = grind arith

module _ {ℓ} {A : Type ℓ} (kids : Txid → List Txid) (visit : Txid → A → A) where
  module _ (all_txids : List Txid) (bound : ℕ) (few : (t : Txid) → length (kids t) ≤ bound)
      (within : (t x : Txid) → has x (kids t) ≡ true → has x all_txids ≡ true) where
    queued :
        (t : Txid) (seen queue : List Txid)
        → ((x : Txid) → has x (t ∷ queue) ≡ true → has x all_txids ≡ true)
        → (x : Txid) → has x (queue ++ unseen (t ∷ seen) (kids t)) ≡ true
        → has x all_txids ≡ true
    queued t seen queue q x h =
        let fresh = unseen (t ∷ seen) (kids t) in
        elim (Bool-cases (has x queue)) [
          | inl old ↦ q x (unfold has in ground (arith, old))
          | inr new ↦
              within t x (
                has-unseen x (t ∷ seen) (kids t) (ground (arith, has-append queue fresh x, h, new)))
        ]

    pub walk_ends :
        (fuel : ℕ) (seen queue : List Txid) (found : A)
        → ((x : Txid) → has x queue ≡ true → has x all_txids ≡ true)
        → length queue + length (unseen seen all_txids) * bound < fuel
        → (walk kids visit fuel seen queue found).queue ≡ []
    unfolding walk
    walk_ends zero seen queue found q m = absurd (omega arith)
    walk_ends (suc fuel) seen [] found q m = refl
    walk_ends (suc fuel) seen (t ∷ queue) found q m = elim (Bool-cases (has t seen)) [
      | inl old ↦
          rw (old, walk)
            (walk_ends fuel seen queue found (λ x h. q x (unfold has in ground (arith, h)))
              (omega arith))
      | inr new ↦
          let fresh = unseen (t ∷ seen) (kids t) in
          rw (new, walk)
            (walk_ends fuel (t ∷ seen) (queue ++ fresh) (visit t found) (queued t seen queue q) (
              omega (
                arith,
                length-append queue fresh,
                length-unseen (t ∷ seen) (kids t),
                few t,
                fewer (length (unseen (t ∷ seen) all_txids)) (length (unseen seen all_txids)) bound
                    (unseen_lt t seen all_txids new
                      (q t (unfold has in ground (arith, beq_refl t)))),
              )))
    ]

  -- The fuel of a walk from one root is enough, where every vertex but the root is one of `n`.
  pub walk_fuel_enough :
      (root : Txid) (txids : List Txid) (found : A)
      → ((t : Txid) → length (kids t) ≤ length txids)
      → ((t x : Txid) → has x (kids t) ≡ true → has x txids ≡ true)
      → (walk kids visit (walk_fuel (length txids)) [] (root ∷ []) found).queue ≡ []
  walk_fuel_enough root txids found few within =
      walk_ends (root ∷ txids) (length txids) few
        (λ t x h. unfold has in ground (arith, within t x h)) (walk_fuel (length txids)) []
        (root ∷ []) found (λ x h. unfold has in ground (arith, h))
        (rw (unseen_nil (root ∷ txids)) (omega arith))
