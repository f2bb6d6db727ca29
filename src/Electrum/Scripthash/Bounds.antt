-- ===== src/Electrum/Scripthash/Bounds.antt =====
-- What is parsed as a script hash has 32 bytes.
use nakamoto_electrs.Prelude.{
  ℕ, zero, suc, ◌+◌, ◌*◌, ◌<◌, ◌≡◌, refl, ap, arith, none, some, Option, [], ◌∷◌, length, All,
  Bool-cases, inl, inr, ◌==◌,
}
use nakamoto_electrs.Bytes.{Bytes, IsArray}
use nakamoto_electrs.Bitcoin.{Bitcoin}
use nakamoto_electrs.Text.{text, get_range, from_hex, to_digit, byte_of}
use nakamoto_electrs.Store.Types.{ScriptHash}
use nakamoto_electrs.Electrum.Crates.{Crates, ok_or, done, done_of_bind}
use nakamoto_electrs.Electrum.Scripthash.{parsed, parse_bytes, parse_scripthash_str}

to_digit_bound : (c d : ℕ) → to_digit c ≡ some d → d < 16
unfolding to_digit
to_digit_bound c d h = ground (arith, h)

byte_of_bound :
    (x y : Option ℕ) (b : ℕ)
    → ((d : ℕ) → x ≡ some d → d < 16)
    → ((d : ℕ) → y ≡ some d → d < 16)
    → byte_of x y ≡ some b
    → b < 256
byte_of_bound none y b f g h = cc
byte_of_bound (some c) none b f g h = cc
byte_of_bound (some c) (some d) b f g h =
    let e : c * 16 + d ≡ b = cc in omega (arith, f c refl, g d refl, e)

from_hex_bound : (s : Bytes) (b : ℕ) → from_hex s ≡ some b → b < 256
unfolding from_hex
from_hex_bound [] b h = cc
from_hex_bound (c ∷ []) b h = omega (arith, to_digit_bound c b h)
from_hex_bound (c ∷ d ∷ []) b h = elim (Bool-cases (c == 43)) [
  | inl e ↦ omega (arith, to_digit_bound d b (rw e at h))
  | inr e ↦
      byte_of_bound (to_digit c) (to_digit d) b (to_digit_bound c) (to_digit_bound d) (rw e at h)
]
from_hex_bound (c ∷ d ∷ e ∷ s) b h = cc

module _ ⦃bc : Bitcoin⦄ ⦃cr : Crates⦄ where
  parsed_inv : (s : Bytes) (o : Option ℕ) (b : ℕ) → parsed s o ≡ done b → o ≡ some b
  parsed_inv s none b h = cc
  parsed_inv s (some a) b h = cc

  parse_bytes_bound :
      (n i : ℕ) (s xs : Bytes)
      → parse_bytes n i s ≡ done xs
      → (length xs ≡ n) × All (λ b. b < 256) xs
  unfolding parse_bytes
  parse_bytes_bound zero i s xs h = let e : [] ≡ xs = cc in rw (← e) (refl, tt)
  parse_bytes_bound (suc n) i s xs h =
      let (byte_str, e, h1) =
        done_of_bind (ok_or (text "script_hash too short") (get_range (i * 2) (i * 2 + 2) s)) _ xs
          h in
      let (byte, f, h2) = done_of_bind (parsed byte_str (from_hex byte_str)) _ xs h1 in
      let (rest, g, h3) = done_of_bind (parse_bytes n (suc i) s) _ xs h2 in
      let (sized, bytes) = parse_bytes_bound n (suc i) s rest g in
      let same : byte ∷ rest ≡ xs = cc in
      rw (← same) (
        ap suc sized,
        (from_hex_bound byte_str byte (parsed_inv byte_str (from_hex byte_str) byte f), bytes),
      )

  -- What is parsed as a script hash has 32 bytes.
  pub parse_scripthash_str-IsArray :
      (s : Bytes) (sh : ScriptHash) → parse_scripthash_str s ≡ done sh → IsArray 32 sh
  unfolding parse_scripthash_str
  parse_scripthash_str-IsArray s sh h = elim (Bool-cases (length s == 64)) [
    | inl e ↦
        let (n, bytes) = parse_bytes_bound 32 0 s sh (rw e at h) in
        record { sized = n; bytes = bytes }
    | inr e ↦ absurd (cc (rw e at h))
  ]
