-- ===== src/Indexer/Graph.antt =====
-- The breadth-first walks of src/indexer.rs over the graph of pending transactions: a queue of
-- txids, the set of those seen, and what is gathered on the way. The fuel bounds the rounds.
pub mod Ends
pub mod Closure
pub mod Found
use nakamoto_electrs.Prelude.{
  ℕ, zero, suc, ◌+◌, ◌*◌, true, false, List, [], ◌∷◌, ◌++◌, length, if◌then◌else◌,
}
use nakamoto_electrs.HashMap.Keys.{bytes_eq}
use nakamoto_electrs.HashMap.Sets.{has}
use nakamoto_electrs.Store.Types.{Txid}

-- `.filter(|txid| !seen.contains(txid))`
unfoldable pub unseen : List Txid → List Txid → List Txid
unseen seen [] = []
unseen seen (x ∷ xs) = let rest = unseen seen xs in if has x seen then rest else x ∷ rest

pub record Walk {ℓ} (A : Type ℓ) : Type ℓ where
  pub seen : List Txid
  pub queue : List Txid
  pub found : A

module _ {ℓ} {A : Type ℓ} (kids : Txid → List Txid) (visit : Txid → A → A) where
  -- `while let Some(txid) = queue.pop_front() { … }`
  unfoldable pub walk : ℕ → List Txid → List Txid → A → Walk A
  walk zero seen queue found = record { seen = seen; queue = queue; found = found }
  walk (suc fuel) seen [] found = record { seen = seen; queue = []; found = found }
  walk (suc fuel) seen (txid ∷ queue) found = elim (has txid seen) [
    | true ↦ walk fuel seen queue found
    | false ↦ walk fuel (txid ∷ seen) (queue ++ unseen (txid ∷ seen) (kids txid)) (visit txid found)
  ]

-- Rounds enough for a graph in which every vertex but the root is one of `n`.
abbrev pub walk_fuel : ℕ → ℕ
walk_fuel n = 2 + suc n * n
