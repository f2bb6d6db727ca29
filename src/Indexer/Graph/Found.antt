-- ===== src/Indexer/Graph/Found.antt =====
-- What a walk gathers at the vertices that it sees.
use nakamoto_electrs.Prelude.{
  ℕ, zero, suc, ◌≤◌, ◌≡◌, true, false, List, [], ◌∷◌, ◌++◌, arith, Bool-cases, inl, inr, beq,
  eq_of_beq,
}
use nakamoto_electrs.HashMap.Keys.{bytes_eq}
use nakamoto_electrs.HashMap.Sets.{has}
use nakamoto_electrs.Store.Types.{Txid}
use nakamoto_electrs.Indexer.Graph.{unseen, walk}

module _ {ℓ} {A : Type ℓ} (kids : Txid → List Txid) (visit : Txid → A → A) (P : A → Type 0)
    (keeps : (t : Txid) (a : A) → P a → P (visit t a)) where
  pub walk_keeps_found :
      (fuel : ℕ) (seen queue : List Txid) (found : A)
      → P found
      → P (walk kids visit fuel seen queue found).found
  unfolding walk
  walk_keeps_found zero seen queue found p = p
  walk_keeps_found (suc fuel) seen [] found p = p
  walk_keeps_found (suc fuel) seen (t ∷ queue) found p = elim (Bool-cases (has t seen)) [
    | inl old ↦ rw (walk, old) (walk_keeps_found fuel seen queue found p)
    | inr new ↦
        rw (walk, new)
          (walk_keeps_found fuel (t ∷ seen) (queue ++ unseen (t ∷ seen) (kids t)) (visit t found)
            (keeps t found p))
  ]

  -- The first round visits the root.
  pub walk_first :
      (fuel : ℕ) (root : Txid) (found : A)
      → 1 ≤ fuel
      → P (visit root found)
      → P (walk kids visit fuel [] (root ∷ []) found).found
  unfolding walk has
  walk_first zero root found n p = absurd (omega (arith, n))
  walk_first (suc fuel) root found n p =
      walk_keeps_found fuel (root ∷ []) (unseen (root ∷ []) (kids root)) (visit root found) p

  -- What the visit of `x` makes true is true at the end, if the walk has seen `x`.
  pub walk_found :
      (x : Txid)
      → ((a : A) → P (visit x a))
      → (fuel : ℕ) (seen queue : List Txid) (found : A) → has x seen ≡ false
      → has x (walk kids visit fuel seen queue found).seen ≡ true
      → P (walk kids visit fuel seen queue found).found
  unfolding walk
  walk_found x makes zero seen queue found n h = absurd (cc (n, h))
  walk_found x makes (suc fuel) seen [] found n h = absurd (cc (n, h))
  walk_found x makes (suc fuel) seen (t ∷ queue) found n h = elim (Bool-cases (has t seen)) [
    | inl old ↦ rw (walk, old) (walk_found x makes fuel seen queue found n (rw (walk, old) at h))
    | inr new ↦
        let later = queue ++ unseen (t ∷ seen) (kids t) in
        rw (walk, new)
          (elim (Bool-cases (beq t x)) [
            | inl same ↦
                walk_keeps_found fuel (t ∷ seen) later (visit t found)
                  (rw (eq_of_beq t x same) (makes found))
            | inr other ↦
                walk_found x makes fuel (t ∷ seen) later (visit t found)
                  (unfold has in ground (arith, n, other)) (rw (walk, new) at h)
          ])
  ]
