-- ===== src/Indexer/Graph/Closure.antt =====
-- What a walk has seen when its queue is empty: exactly the vertices that the root reaches.
use nakamoto_electrs.Prelude.{
  ℕ, zero, suc, ◌≤◌, ◌≡◌, true, ◌||◌, List, [], ◌∷◌, ◌++◌, arith, length, Bool-cases, inl, inr, beq,
  eq_of_beq, beq_refl,
}
use nakamoto_electrs.HashMap.Keys.{bytes_eq}
use nakamoto_electrs.HashMap.Sets.{has, has-append}
use nakamoto_electrs.Store.Types.{Txid}
use nakamoto_electrs.Indexer.Graph.{unseen, walk, walk_fuel}
use nakamoto_electrs.Indexer.Graph.Ends.{has-unseen, walk_fuel_enough}

-- `x` is the root or a descendant of it.
pub data Reach (kids : Txid → List Txid) (root : Txid) : Txid → Type 0 where
  here : Reach kids root root
  next : {t x : Txid} → Reach kids root t → has x (kids t) ≡ true → Reach kids root x

unseen_or_seen :
    (x : Txid) (seen xs : List Txid)
    → has x xs ≡ true
    → (has x seen || has x (unseen seen xs)) ≡ true
unfolding unseen has
unseen_or_seen x seen [] h = cc
unseen_or_seen x seen (y ∷ xs) h =
    ground (arith, unseen_or_seen x seen xs, eq_of_beq y x, beq_refl x)

module _ {ℓ} {A : Type ℓ} (kids : Txid → List Txid) (visit : Txid → A → A) where
  module _ (P : Txid → Type 0) (step : (t x : Txid) → P t → has x (kids t) ≡ true → P x) where
    -- A property that passes to the kids holds of everything that is seen.
    pub walk_sound :
        (fuel : ℕ) (seen queue : List Txid) (found : A)
        → ((x : Txid) → has x seen ≡ true → P x)
        → ((x : Txid) → has x queue ≡ true → P x)
        → (x : Txid) → has x (walk kids visit fuel seen queue found).seen ≡ true
        → P x
    unfolding walk
    walk_sound zero seen queue found hs hq x h = hs x h
    walk_sound (suc fuel) seen [] found hs hq x h = hs x h
    walk_sound (suc fuel) seen (t ∷ queue) found hs hq x h =
        let top : P t = hq t (unfold has in ground (arith, beq_refl t)) in
        elim (Bool-cases (has t seen)) [
          | inl old ↦
              walk_sound fuel seen queue found hs (λ y k. hq y (unfold has in ground (arith, k))) x
                (rw (old, walk) at h)
          | inr new ↦
              walk_sound fuel (t ∷ seen) (queue ++ unseen (t ∷ seen) (kids t)) (visit t found)
                (λ y k. elim (Bool-cases (beq t y)) [
                  | inl same ↦ rw (← eq_of_beq t y same) top
                  | inr other ↦ hs y (unfold has in ground (arith, k, other))
                ])
                (λ y k. elim (Bool-cases (has y queue)) [
                  | inl waits ↦ hq y (unfold has in ground (arith, waits))
                  | inr fresh ↦ step t y top (
                      has-unseen y (t ∷ seen) (kids t)
                        (ground (arith, has-append queue (unseen (t ∷ seen) (kids t)) y, k, fresh)))
                ])
                x (rw (new, walk) at h)
        ]

  -- Each kid of a seen vertex is seen or waits.
  abbrev IsClosed : List Txid → List Txid → Type 0
  IsClosed seen queue =
      (t x : Txid) → has t seen ≡ true → has x (kids t) ≡ true → (has x seen || has x queue) ≡ true

  IsClosed-step :
      (t : Txid) (seen queue : List Txid)
      → IsClosed seen (t ∷ queue)
      → IsClosed (t ∷ seen) (queue ++ unseen (t ∷ seen) (kids t))
  IsClosed-step t seen queue c y x hy hx =
      let fresh = unseen (t ∷ seen) (kids t) in
      elim (Bool-cases (beq t y)) [
        | inl same ↦
            let kid : has x (kids t) ≡ true = rw (eq_of_beq t y same) hx in
            ground (arith, has-append queue fresh x, unseen_or_seen x (t ∷ seen) (kids t) kid)
        | inr other ↦
            let old : has y seen ≡ true = unfold has in ground (arith, hy, other) in
            unfold has in ground (arith, has-append queue fresh x, c y x old hx)
      ]

  pub walk-IsClosed :
      (fuel : ℕ) (seen queue : List Txid) (found : A)
      → IsClosed seen queue
      → IsClosed
          (walk kids visit fuel seen queue found).seen
          (walk kids visit fuel seen queue found).queue
  unfolding walk
  walk-IsClosed zero seen queue found c = c
  walk-IsClosed (suc fuel) seen [] found c = c
  walk-IsClosed (suc fuel) seen (t ∷ queue) found c = elim (Bool-cases (has t seen)) [
    | inl old ↦
        rw (old, walk)
          (walk-IsClosed fuel seen queue found
            (λ y x hy hx. unfold has in ground (arith, c y x hy hx, old, eq_of_beq t x)))
    | inr new ↦
        rw (new, walk)
          (walk-IsClosed fuel (t ∷ seen) (queue ++ unseen (t ∷ seen) (kids t)) (visit t found)
            (IsClosed-step t seen queue c))
  ]

  pub walk_keeps :
      (fuel : ℕ) (seen queue : List Txid) (found : A) (x : Txid)
      → (has x seen || has x queue) ≡ true
      → (has x (walk kids visit fuel seen queue found).seen
          || has x (walk kids visit fuel seen queue found).queue)
        ≡ true
  unfolding walk
  walk_keeps zero seen queue found x h = h
  walk_keeps (suc fuel) seen [] found x h = h
  walk_keeps (suc fuel) seen (t ∷ queue) found x h = elim (Bool-cases (has t seen)) [
    | inl old ↦
        rw (old, walk)
          (walk_keeps fuel seen queue found x (unfold has in ground (arith, h, old, eq_of_beq t x)))
    | inr new ↦
        let fresh = unseen (t ∷ seen) (kids t) in
        rw (new, walk)
          (walk_keeps fuel (t ∷ seen) (queue ++ fresh) (visit t found) x
            (unfold has in ground (arith, h, has-append queue fresh x)))
  ]

  reached :
      (root : Txid) (seen : List Txid)
      → has root seen ≡ true
      → ((t x : Txid) → has t seen ≡ true → has x (kids t) ≡ true → has x seen ≡ true)
      → {x : Txid} → Reach kids root x
      → has x seen ≡ true
  reached root seen start closed here = start
  reached root seen start closed (next {t} {x} r k) =
      closed t x (reached root seen start closed r) k

  only_seen :
      (x : Txid) (seen queue : List Txid)
      → queue ≡ []
      → (has x seen || has x queue) ≡ true
      → has x seen ≡ true
  only_seen x seen queue e h = unfold has in ground (arith, rw e at h)

  -- With the fuel that the loops are given, the set of vertices seen from a root is exactly the set
  -- of those that it reaches.
  pub walk-Reach :
      (root : Txid) (txids : List Txid) (n : ℕ) (found : A)
      → n ≡ length txids
      → ((t : Txid) → length (kids t) ≤ length txids)
      → ((t x : Txid) → has x (kids t) ≡ true → has x txids ≡ true)
      → (x : Txid)
      → let seen = (walk kids visit (walk_fuel n) [] (root ∷ []) found).seen in
        (has x seen ≡ true → Reach kids root x) × (Reach kids root x → has x seen ≡ true)
  walk-Reach root txids n found count few within x =
      let fuel = walk_fuel n in
      let w = walk kids visit fuel [] (root ∷ []) found in
      let ends : w.queue ≡ [] =
        rw count (walk_fuel_enough kids visit root txids found few within) in
      (
        walk_sound (Reach kids root) (λ t y. next) fuel [] (root ∷ []) found
            (λ y h. absurd (unfold has in cc))
            (λ y h. rw (← eq_of_beq root y (unfold has in ground (arith, h))) here) x,
        reached root w.seen
            (only_seen root w.seen w.queue ends (
              walk_keeps fuel [] (root ∷ []) found root
                (unfold has in ground (arith, beq_refl root))))
            (λ t y ht hy.
              only_seen y w.seen w.queue ends (
                walk-IsClosed fuel [] (root ∷ []) found (λ a b ha hb. unfold has in cc) t y ht hy)),
      )
