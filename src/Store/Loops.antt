-- ===== src/Store/Loops.antt =====
-- The loops of src/store.rs over txids, entries and amounts, and the order of a history.
pub mod Txids
use nakamoto_electrs.Prelude.{
  ℕ, ◌+◌, ◌-◌, ◌^◌, min, Bool, false, List, [], ◌∷◌, ◌++◌, length, ◌==◌, leb, ltb, ◌&&◌, ◌||◌, beq,
  if◌then◌else◌, Result, ok, err, map_ok, bad_utxo_value,
}
use nakamoto_electrs.Bytes.{Bytes, from_be_bytes}
use nakamoto_electrs.Sled.Entries.{Entry}
use nakamoto_electrs.Store.Types.{Txid, TxEntry}

-- `txids.iter().any(|existing| existing == &txid)`
unfoldable pub contains : List Txid → Txid → Bool
contains [] txid = false
contains (x ∷ xs) txid = beq x txid || contains xs txid

-- `txids.retain(|existing| existing != txid)`
unfoldable pub without : Txid → List Txid → List Txid
without txid [] = []
without txid (x ∷ xs) = let rest = without txid xs in if beq x txid then rest else x ∷ rest

unfoldable pub push_new : Txid → List Txid → List Txid
unfolding contains
push_new txid txids = if contains txids txid then txids else txids ++ txid ∷ []

-- `for item in items { out.push(f(item?)?) }`
unfoldable pub collect {ℓ κ} :
    {A : Type ℓ} {B : Type κ} → (A → Result B) → List (Result A) → Result (List B)
collect f [] = ok []
collect f (err e ∷ rest) = err e
collect f (ok a ∷ rest) =
    let others = collect f rest in
    elim (f a) [ err e ↦ err e | ok b ↦ map_ok (λ bs. b ∷ bs) others ]

abbrev pub u64_max : ℕ
u64_max = 2 ^ 64 - 1

abbrev pub u32_max : ℕ
u32_max = 2 ^ 32 - 1

-- `u64::saturating_add`
abbrev pub saturating_add : ℕ → ℕ → ℕ
saturating_add a b = min (a + b) u64_max

-- The key of the stable sort of a history: unconfirmed entries come last.
unfoldable pub height_rank : ℕ → ℕ
height_rank height = if height == 0 then u32_max else height

unfoldable pub history_le : TxEntry → TxEntry → Bool
unfolding height_rank
history_le a b =
    ltb (height_rank a.height) (height_rank b.height)
    || (height_rank a.height == height_rank b.height) && leb a.sequence b.sequence

-- `u64::from_be_bytes(<[u8; 8]>::try_from(value)?)`
unfoldable pub amount : Bytes → Result ℕ
amount value = if length value == 8 then ok (from_be_bytes value) else err bad_utxo_value

unfoldable pub balance_loop : ℕ → List (Result Entry) → Result ℕ
balance_loop total [] = ok total
balance_loop total (err e ∷ rest) = err e
balance_loop total (ok item ∷ rest) = elim (amount item.1) [
  | err e ↦ err e
  | ok value ↦ balance_loop (saturating_add total value) rest
]
