-- ===== src/Electrum/Scripthash/RoundTrip.antt =====
-- The hexadecimal form of a script hash is read back.
use nakamoto_electrs.Prelude.{
  ℕ, zero, suc, ◌+◌, ◌*◌, ◌/◌, ◌%◌, ◌<◌, ◌≤◌, ◌≡◌, refl, ◌∙◌, arith, true, Option-cases, inl, inr,
  leb, false, ◌==◌, get_elem?, none, some, [], ◌∷◌, ◌++◌, length, length-append, All,
}
use mathlib.Core.List.{append_assoc}
use nakamoto_electrs.Bytes.{Bytes, IsArray, slice, slice_skip}
use nakamoto_electrs.Bitcoin.{Bitcoin}
use nakamoto_electrs.Text.{hex_byte, hex_digit, get_range, from_hex, to_digit, is_char_boundary}
use nakamoto_electrs.Store.Types.{ScriptHash}
use nakamoto_electrs.Electrum.Crates.{Crates, done}
use nakamoto_electrs.Electrum.Scripthash.{to_hex, parse_bytes, parse_scripthash_str}

length-to_hex : (xs : Bytes) → length (to_hex xs) ≡ length xs * 2
unfolding to_hex hex_byte
length-to_hex [] = refl
length-to_hex (b ∷ bs) = omega (arith, length-to_hex bs)

to_digit-hex_digit : (n : ℕ) → n < 16 → to_digit (hex_digit n) ≡ some n
unfolding to_digit
to_digit-hex_digit n h = ground arith

from_hex-hex_byte : (b : ℕ) → b < 256 → from_hex (hex_byte b) ≡ some b
unfolding from_hex hex_byte
from_hex-hex_byte b h =
    let x = to_digit-hex_digit (b / 16) (omega arith) in
    let y = to_digit-hex_digit (b % 16) (omega arith) in
    let sign : (hex_digit (b / 16) == 43) ≡ false = ground arith in
    let sum : b / 16 * 16 + b % 16 ≡ b = omega arith in rw (sign, x, y, sum) refl

abbrev Ascii : ℕ → Type 0
Ascii b = b < 128

to_hex-Ascii : (xs : Bytes) → All (λ b. b < 256) xs → All Ascii (to_hex xs)
unfolding to_hex hex_byte
to_hex-Ascii [] h = tt
to_hex-Ascii (b ∷ bs) h = (ground arith, (ground arith, to_hex-Ascii bs h.1))

length-get_none : (xs : Bytes) (i : ℕ) → get_elem? xs i ≡ none → length xs ≤ i
length-get_none [] i h = omega arith
length-get_none (x ∷ xs) zero h = cc
length-get_none (x ∷ xs) (suc i) h = omega (arith, length-get_none xs i h)

get-Ascii : (xs : Bytes) (i b : ℕ) → All Ascii xs → get_elem? xs i ≡ some b → b < 128
get-Ascii [] i b a h = cc
get-Ascii (x ∷ xs) zero b a h = let e : x ≡ b = cc in omega (arith, a.0, e)
get-Ascii (x ∷ xs) (suc i) b a h = get-Ascii xs i b a.1 h

-- a text of ASCII characters has a boundary everywhere
boundary : (xs : Bytes) (i : ℕ) → All Ascii xs → i ≤ length xs → is_char_boundary xs i ≡ true
unfolding is_char_boundary
boundary xs i a h = elim (Option-cases (get_elem? xs i)) [
  | inl e ↦
      rw (is_char_boundary, e)
        (let j : i ≡ length xs = omega (arith, length-get_none xs i e, h) in ground (arith, j))
  | inr (b, e) ↦ rw (is_char_boundary, e) (ground (arith, get-Ascii xs i b a e))
]

get_range-Ascii :
    (a b : ℕ) (xs : Bytes)
    → All Ascii xs
    → a ≤ b
    → b ≤ length xs
    → get_range a b xs ≡ some (slice a b xs)
unfolding get_range
get_range-Ascii a b xs h le lt =
    let inside : leb b (length xs) ≡ true = ground (arith, lt) in
    rw (inside, boundary xs a h (omega arith), boundary xs b h lt) refl

to_hex-append : (xs ys : Bytes) → to_hex (xs ++ ys) ≡ to_hex xs ++ to_hex ys
unfolding to_hex hex_byte
to_hex-append [] ys = refl
to_hex-append (x ∷ xs) ys = rw (to_hex-append xs ys) refl

byte_str :
    (xs ys : Bytes) (y : ℕ)
    → All (λ b. b < 256) (xs ++ y ∷ ys)
    → get_range (length xs * 2) (length xs * 2 + 2) (to_hex (xs ++ y ∷ ys)) ≡ some (hex_byte y)
unfolding hex_byte to_hex
byte_str xs ys y h =
    get_range-Ascii (length xs * 2) (length xs * 2 + 2) (to_hex (xs ++ y ∷ ys))
      (to_hex-Ascii (xs ++ y ∷ ys) h) (omega arith)
      (omega (arith, length-to_hex (xs ++ y ∷ ys), length-append xs (y ∷ ys)))
    ∙ rw
        (
          to_hex-append xs (y ∷ ys),
          slice_skip (length xs * 2) (length xs * 2) (length xs * 2 + 2) 0 2 (to_hex xs)
              (to_hex (y ∷ ys)) (length-to_hex xs) (omega arith) (omega arith),
        )
        refl

middle : (xs ys : Bytes) (y : ℕ) → All (λ b. b < 256) (xs ++ y ∷ ys) → y < 256
middle [] ys y h = h.0
middle (x ∷ xs) ys y h = middle xs ys y h.1

module _ ⦃bc : Bitcoin⦄ ⦃cr : Crates⦄ where
  parse_bytes-to_hex :
      (xs ys : Bytes)
      → All (λ b. b < 256) (xs ++ ys)
      → parse_bytes (length ys) (length xs) (to_hex (xs ++ ys)) ≡ done ys
  unfolding parse_bytes
  parse_bytes-to_hex xs [] h = refl
  parse_bytes-to_hex xs (y ∷ ys) h =
      let grown : (xs ++ y ∷ []) ++ ys ≡ xs ++ y ∷ ys = append_assoc xs (y ∷ []) ys in
      let longer : length (xs ++ y ∷ []) ≡ suc (length xs) =
        omega (arith, length-append xs (y ∷ [])) in
      let rest : parse_bytes (length ys) (suc (length xs)) (to_hex (xs ++ y ∷ ys)) ≡ done ys =
        rw (← longer, ← grown) (parse_bytes-to_hex (xs ++ y ∷ []) ys (rw grown h)) in
      rw (byte_str xs ys y h, from_hex-hex_byte y (middle xs ys y h), rest) refl

  -- A script hash of 32 bytes is parsed back from its hexadecimal text.
  pub parse_scripthash_str-to_hex :
      (sh : ScriptHash) → IsArray 32 sh → parse_scripthash_str (to_hex sh) ≡ done sh
  unfolding parse_scripthash_str
  parse_scripthash_str-to_hex sh h =
      let n : length (to_hex sh) ≡ 64 = omega (arith, length-to_hex sh, h.sized) in
      rw n (rw (← h.sized) (parse_bytes-to_hex [] sh h.bytes))
