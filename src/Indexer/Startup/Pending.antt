-- ===== src/Indexer/Startup/Pending.antt =====
-- Which transactions are pending after the reload.
use nakamoto_electrs.Prelude.{
  ◌≡◌, refl, arith, true, false, Bool-cases, inl, inr, not, ◌&&◌, ◌||◌, Option, none, some, List,
  [], ◌∷◌, ok, if◌then◌else◌, eq_of_beq, ◌∙◌, ap, beq,
}
use nakamoto_electrs.Bitcoin.{Bitcoin}
use nakamoto_electrs.Sled.{Sled}
use nakamoto_electrs.HashMap.{HashMap, get}
use nakamoto_electrs.HashMap.Keys.{bytes_eq}
use nakamoto_electrs.HashMap.Sets.{has}
use nakamoto_electrs.HashMap.Laws.{get-insert}
use nakamoto_electrs.Store.Types.{Txid}
use nakamoto_electrs.Store.Index.{load_tx}
use nakamoto_electrs.Indexer.State.{IndexState}
use nakamoto_electrs.Indexer.Startup.{load_pending, insert_found}

module _ ⦃sl : Sled⦄ ⦃bc : Bitcoin⦄ where
  -- the first of two, where it is there
  abbrev pub first_of : Option bc.Transaction → Option bc.Transaction → Option bc.Transaction
  first_of none b = b
  first_of (some a) b = some a

  first_twice : (a b : Option bc.Transaction) → first_of a (first_of a b) ≡ first_of a b
  first_twice none b = refl
  first_twice (some a) b = refl

  get-insert_found :
      (x t : Txid) (found : Option bc.Transaction) (m : HashMap Txid bc.Transaction)
      → get x (insert_found t found m) ≡ (if beq t x then first_of found (get x m) else get x m)
  get-insert_found x t none m = ground arith
  get-insert_found x t (some tx) m = get-insert x t tx m ∙ ground arith

  -- a confirmed txid changes nothing
  skip :
      (confirmed ts : List Txid) (t x : Txid) (a b : Option bc.Transaction)
      → (beq t x ≡ true → t ≡ x)
      → has t confirmed ≡ true
      → first_of (if not (has x confirmed) && has x ts then a else none) b
        ≡ first_of (if not (has x confirmed) && (beq t x || has x ts) then a else none) b
  skip confirmed ts t x a b same h = elim (Bool-cases (beq t x)) [
    | inl g ↦ let at : has x confirmed ≡ true = rw (← same g) h in rw at refl
    | inr g ↦ rw g refl
  ]

  step :
      (confirmed ts : List Txid) (t x : Txid) (m : HashMap Txid bc.Transaction)
      (found : Txid → Option bc.Transaction)
      → has t confirmed ≡ false
      → first_of
          (if not (has x confirmed) && has x ts then found x else none)
          (get x (insert_found t (found t) m))
        ≡ first_of
            (if not (has x confirmed) && (beq t x || has x ts) then found x else none)
            (get x m)
  step confirmed ts t x m found h = elim (Bool-cases (beq t x)) [
    | inl g ↦
        let same = eq_of_beq t x g in
        let at : has x confirmed ≡ false = rw (← same) h in
        let value : found t ≡ found x = ap found same in
        elim (Bool-cases (has x ts)) [
          | inl k ↦
              rw (get-insert_found x t (found t) m, g, at, k, value)
                (first_twice (found x) (get x m))
          | inr k ↦ rw (get-insert_found x t (found t) m, g, at, k, value) refl
        ]
    | inr g ↦ rw (get-insert_found x t (found t) m, g) refl
  ]

  -- Where every txid can be read from the store, the loop that reloads the pending transactions
  -- succeeds, and afterwards a txid that is listed and not confirmed maps to the stored
  -- transaction, where there is one; every other txid maps to what it mapped to before.
  pub load_pending_lem :
      (confirmed ts : List Txid) (s : IndexState) (x : Txid)
      (reads : (t : Txid) → (v : Option bc.Transaction) × (load_tx t s.store ≡ ok v))
      → let after = load_pending confirmed ts s in
        (after.0 ≡ ok tt)
        × (get x after.1.pending_txs
            ≡ first_of
                (if not (has x confirmed) && has x ts then (reads x).0 else none)
                (get x s.pending_txs))
  unfolding load_pending has
  load_pending_lem confirmed [] s x reads = (refl, ground arith)
  load_pending_lem confirmed (t ∷ ts) s x reads = elim (Bool-cases (has t confirmed)) [
    | inl h ↦
        let (done, got) = load_pending_lem confirmed ts s x reads in
        rw (load_pending, h)
          (done, got ∙ skip confirmed ts t x (reads x).0 (get x s.pending_txs) (eq_of_beq t x) h)
    | inr h ↦
        let next : IndexState = record s {
          pending_txs = insert_found t (reads t).0 s.pending_txs;
        } in
        let (done, got) = load_pending_lem confirmed ts next x reads in
        rw (load_pending, h, (reads t).1)
          (done, got ∙ step confirmed ts t x s.pending_txs (λ y. (reads y).0) h)
  ]
