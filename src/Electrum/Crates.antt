-- ===== src/Electrum/Crates.antt =====
-- What src/electrum_server.rs takes from other crates, which the repository does not hold: JSON
-- values of `serde_json`, `f64`, hexadecimal forms and parsers of the crates `bitcoin` and `hex`,
-- and how errors print. And `Result<_, String>`, the result of a request's handler.
use nakamoto_electrs.Prelude.{ℕ, ◌≡◌, refl, Option, List, Error}
use nakamoto_electrs.Prelude.Int.{ℤ}
use nakamoto_electrs.Bytes.{Bytes}
use nakamoto_electrs.Bitcoin.{Bitcoin}
use nakamoto_electrs.Store.Types.{Txid}

pub data Reply {ℓ} (A : Type ℓ) : Type ℓ where
  done : A → Reply A
  fail : Bytes → Reply A

infixl 5 ◌>>=◌
abbrev pub ◌>>=◌ {ℓ κ} : {A : Type ℓ} {B : Type κ} → Reply A → (A → Reply B) → Reply B
done a >>= f = f a
fail e >>= f = fail e

-- `ok_or(message)`
abbrev pub ok_or {ℓ} : {A : Type ℓ} → Bytes → Option A → Reply A
ok_or message Option.none = fail message
ok_or message (Option.some a) = done a

pub record Crates ⦃bc : Bitcoin⦄ : Type 1 where
  -- `serde_json::Value`
  pub Value : Type 0
  pub null : Value
  pub string : Bytes → Value
  pub number : ℕ → Value
  pub signed : ℤ → Value
  pub array : List Value → Value
  pub object : List (Bytes × Value) → Value
  pub from_str : Bytes → Reply Value
  -- `value.get(key)` and `value.get(index)`
  pub get_key : Bytes → Value → Option Value
  pub get_index : ℕ → Value → Option Value
  pub as_str : Value → Option Bytes
  pub as_u64 : Value → Option ℕ
  -- `f64`
  pub F64 : Type 0
  pub f64_of_u64 : ℕ → F64
  pub f64_literal : Bytes → F64
  pub f64_times : F64 → F64 → F64
  pub float : F64 → Value
  -- `serialize_hex`
  pub tx_hex : bc.Transaction → Bytes
  -- `to_string` of a digest
  pub digest_string : Bytes → Bytes
  -- `hex::decode`, `Txid::from_str`, and the error of `deserialize`
  pub hex_decode : Bytes → Reply Bytes
  pub parse_txid_string : Bytes → Reply Txid
  pub deserialize_error : Bytes → Bytes
  -- `{e}` of `from_str_radix`, and `{e}` and `{e:#}` of `anyhow::Error`
  pub radix_error : Bytes → Bytes
  pub show_error : Error → Bytes
  pub show_error_chain : Error → Bytes

-- A chain that ends well went well at its first step.
pub done_of_bind {ℓ κ} :
    {A : Type ℓ} {B : Type κ} (r : Reply A) (f : A → Reply B) (b : B)
    → (r >>= f) ≡ done b
    → (a : A) × (r ≡ done a) × (f a ≡ done b)
done_of_bind (done a) f b h = (a, refl, h)
done_of_bind (fail e) f b h = absurd (cc (h))
