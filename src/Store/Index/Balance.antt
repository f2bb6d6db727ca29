-- ===== src/Store/Index/Balance.antt =====
-- The balance of a script hash against the list of its unspent outputs.
use mathlib.Core.Path.{subst}
use nakamoto_electrs.Prelude.{
  ℕ, ◌+◌, min, ◌≡◌, sym, ap, ◌∙◌, arith, List, [], ◌∷◌, Result, ok, err, length, ltb, Bool-cases,
  Result-cases, inl, inr, map_ok_inv, Option, none, some,
}
use nakamoto_electrs.Bitcoin.{OutPoint}
use nakamoto_electrs.Sled.{Sled}
use nakamoto_electrs.Sled.Entries.{Entry}
use nakamoto_electrs.Store.Types.{ScriptHash, StoredOutput, StoredUnspent}
use nakamoto_electrs.Store.Loops.{collect, amount, balance_loop, saturating_add, u64_max}
use nakamoto_electrs.Store.Index.{
  PersistentIndex, load_output, unspent_of, unspent_item, list_unspent_for_script,
  balance_for_script,
}

abbrev pub total_value : List StoredUnspent → ℕ
total_value [] = 0
total_value (x ∷ xs) = x.value + total_value xs

collect_inv {ℓ κ} :
    {A : Type ℓ} {B : Type κ} (f : A → Result B) (a : A) (rest : List (Result A)) (bs : List B)
    → collect f (ok a ∷ rest) ≡ ok bs
    → (b : B) × (cs : List B) × (f a ≡ ok b) × (collect f rest ≡ ok cs) × (b ∷ cs ≡ bs)
unfolding collect
collect_inv f a rest bs h = elim (Result-cases (f a)) [
  | inl (b, e) ↦
      let (cs, k, same) = map_ok_inv (collect f rest) (λ cs. b ∷ cs) bs (rw (collect, e) at h) in
      (b, cs, e, k, same)
  | inr (e, k) ↦ absurd (cc (rw (collect, k) at h))
]

module _ ⦃sl : Sled⦄ where
  unspent_of_inv :
      (o : OutPoint) (v : ℕ) (r : Result (Option StoredOutput)) (x : StoredUnspent)
      → unspent_of o v r ≡ ok x
      → x.value ≡ v
  unspent_of_inv o v (err e) x h = absurd (cc (h))
  unspent_of_inv o v (ok none) x h = absurd (cc (h))
  unspent_of_inv o v (ok (some stored)) x h =
      let same : record { txid = o.txid; vout = o.vout; value = v; height = stored.height } ≡ x =
        cc in
      ap (λ (y : StoredUnspent). y.value) (sym same)

  item_amount :
      (s : PersistentIndex) (item : Entry) (x : StoredUnspent)
      → unspent_item s item ≡ ok x
      → amount item.1 ≡ ok x.value
  unfolding unspent_item
  item_amount s (key, value) x h = elim (Bool-cases (ltb (length key) 68)) [
    | inl short ↦ absurd (cc (rw short at h))
    | inr long ↦ elim (Result-cases (amount value)) [
      | inl (v, e) ↦
          e ∙ ap ok (sym (unspent_of_inv _ v (load_output _ s) x (rw (unspent_item, long, e) at h)))
      | inr (e, k) ↦ absurd (cc (rw (unspent_item, long, k) at h))
    ]
  ]

  capped : (a b : ℕ) → min (a + b) u64_max ≡ saturating_add (min a u64_max) b
  capped a b = omega arith

  balance_loop_lem :
      (s : PersistentIndex) (items : List (Result Entry)) (xs : List StoredUnspent) (total : ℕ)
      → collect (unspent_item s) items ≡ ok xs
      → balance_loop (min total u64_max) items ≡ ok (min (total + total_value xs) u64_max)
  unfolding balance_loop collect
  balance_loop_lem s [] xs total h = let same : [] ≡ xs = cc in rw (← same) (ap ok (omega arith))
  balance_loop_lem s (err e ∷ items) xs total h = absurd (cc (h))
  balance_loop_lem s (ok item ∷ items) xs total h =
      let (x, rest, e, k, same) = collect_inv (unspent_item s) item items xs h in
      rw (balance_loop, item_amount s item x e, ← same)
        (subst (λ n. balance_loop n items ≡ ok (min (total + (x.value + total_value rest)) u64_max))
          (capped total x.value)
          (balance_loop_lem s items rest (total + x.value) k ∙ ap ok (omega arith)))

  -- Where the unspent outputs of a script hash can be listed, its balance is the sum of their
  -- values, or 2 ^ 64 - 1 where the sum is larger.
  pub balance_for_script_lem :
      (sh : ScriptHash) (s : PersistentIndex) (xs : List StoredUnspent)
      → list_unspent_for_script sh s ≡ ok xs
      → balance_for_script sh s ≡ ok (min (total_value xs) u64_max)
  unfolding list_unspent_for_script balance_for_script
  balance_for_script_lem sh s xs h =
      balance_loop_lem s (sl.scan_prefix sh s.utxos) xs 0 h ∙ ap ok (omega arith)
