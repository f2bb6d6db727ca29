-- ===== src/Prelude/Results.antt =====
-- `anyhow::Result`: fallible code returns a value or an error.
use Prim.Native.Nat.{ℕ}
use mathlib.Core.Path.{◌≡◌, refl}
use mathlib.Core.Logic.{◌⊎◌, inl, inr}

-- The errors that the modelled code makes, and `io` for one that the database reports.
pub data Error : Type 0 where
  io : Error
  bad_output_length bad_history_key bad_journal_key bad_journal_kind : ℕ → Error
  empty_journal_value bad_utxo_value bad_tx missing_output : Error
  bad_txid_list bad_txid_payload bad_outpoint_payload : ℕ → Error
  out_of_range bad_txid : Error

pub data Result {ℓ} (A : Type ℓ) : Type ℓ where
  ok : A → Result A
  err : Error → Result A

infixl 5 ◌>>=◌
abbrev pub ◌>>=◌ {ℓ κ} : {A : Type ℓ} {B : Type κ} → Result A → (A → Result B) → Result B
ok a >>= f = f a
err e >>= f = err e

-- `.map(f)` on a result.
abbrev pub map_ok {ℓ κ} : {A : Type ℓ} {B : Type κ} → (A → B) → Result A → Result B
map_ok f (ok a) = ok (f a)
map_ok f (err e) = err e

pub Result-cases {ℓ} :
    {A : Type ℓ} (r : Result A) → ((a : A) × (r ≡ ok a)) ⊎ ((e : Error) × (r ≡ err e))
Result-cases (ok a) = inl (a, refl)
Result-cases (err e) = inr (e, refl)

-- Where a mapped result is a value, the result was one.
pub map_ok_inv {ℓ κ} :
    {A : Type ℓ} {B : Type κ} (r : Result A) (f : A → B) (b : B)
    → map_ok f r ≡ ok b
    → (a : A) × (r ≡ ok a) × (f a ≡ b)
map_ok_inv (ok a) f b h = (a, refl, cc)
map_ok_inv (err e) f b h = absurd (cc (h))
