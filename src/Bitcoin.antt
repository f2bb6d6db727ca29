-- ===== src/Bitcoin.antt =====
-- What src/indexer.rs and src/store.rs take from the crate `bitcoin`, which the repository does
-- not hold: transactions with their inputs and outputs, the id, the wire encoding and the digest.
use nakamoto_electrs.Prelude.{ℕ, ◌≡◌, Bool, Option, some, List, ◌&&◌, ◌==◌, beq}
use nakamoto_electrs.Bytes.{Bytes, IsArray}

-- `OutPoint`
pub record OutPoint : Type 0 where
  pub txid : Bytes
  pub vout : ℕ

-- `TxOut`, with the value in satoshis.
pub record TxOut : Type 0 where
  pub script_pubkey : Bytes
  pub value : ℕ

pub record Bitcoin : Type 1 where
  pub Transaction : Type 0
  -- `tx.input.iter().map(|input| input.previous_output)`
  pub prevouts : Transaction → List OutPoint
  -- `tx.output`
  pub outputs : Transaction → List TxOut
  pub compute_txid : Transaction → Bytes
  pub serialize : Transaction → Bytes
  pub deserialize : Bytes → Option Transaction
  -- `tx.weight().to_wu()`
  pub weight : Transaction → ℕ
  pub is_null : OutPoint → Bool
  -- `txid.to_string()`
  pub txid_string : Bytes → Bytes
  -- `sha256::Hash::hash`
  pub sha256 : Bytes → Bytes

-- The documented behaviour that the theorems use.
pub record IsLawful (bc : Bitcoin) : Type 0 where
  pub txid_array : (tx : bc.Transaction) → IsArray 32 (bc.compute_txid tx)
  pub digest_array : (xs : Bytes) → IsArray 32 (bc.sha256 xs)
  pub wire : (tx : bc.Transaction) → bc.deserialize (bc.serialize tx) ≡ some tx

-- `==` of outpoints.
unfoldable pub same_outpoint : OutPoint → OutPoint → Bool
same_outpoint a b = beq a.txid b.txid && a.vout == b.vout
