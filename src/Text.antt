-- ===== src/Text.antt =====
-- Texts as their bytes in UTF-8, and what the sources use of the standard library on them:
-- literals, `to_string` of an integer, `{:02x}`, `str::get` and `u8::from_str_radix(_, 16)`.
use Prim.Native.Char.{code}
use Prim.Native.String.{String}
use nakamoto_electrs.Prelude.{
  ℕ, zero, suc, ◌+◌, ◌-◌, ◌*◌, ◌/◌, ◌%◌, Bool, ◌&&◌, ◌||◌, Option, none, some, [], ◌∷◌, length, leb,
  ltb, ◌==◌, if◌then◌else◌, get_elem?,
}
use nakamoto_electrs.Bytes.{Bytes, slice}

-- an ASCII literal
abbrev pub text : String → Bytes
text String.[] = []
text (String.◌∷◌ c s) = code c ∷ text s

-- `to_string` of an unsigned integer; the fuel is the number of digits that a `u64` can have
unfoldable pub digits : ℕ → ℕ → Bytes → Bytes
digits zero n acc = acc
digits (suc fuel) n acc =
    let rest = digits fuel (n / 10) ((48 + n % 10) ∷ acc) in
    if n / 10 == 0 then (48 + n % 10) ∷ acc else rest

unfoldable pub to_string : ℕ → Bytes
unfolding digits
to_string n = digits 20 n []

-- `{:02x}` of a byte
abbrev pub hex_digit : ℕ → ℕ
hex_digit n = if ltb n 10 then 48 + n else 87 + n

unfoldable pub hex_byte : ℕ → Bytes
hex_byte b = hex_digit (b / 16) ∷ hex_digit (b % 16) ∷ []

-- `is_char_boundary`: the position is the end, or holds no continuation byte
unfoldable pub is_char_boundary : Bytes → ℕ → Bool
is_char_boundary xs i = elim (get_elem? xs i) [
  | none ↦ i == length xs
  | some b ↦ ltb b 128 || leb 192 b
]

-- `xs.get(a..b)`, for `a ≤ b`
unfoldable pub get_range : ℕ → ℕ → Bytes → Option Bytes
unfolding is_char_boundary
get_range a b xs =
    if leb b (length xs) && is_char_boundary xs a && is_char_boundary xs b
    then some (slice a b xs)
    else none

-- the value of a digit of base 16
unfoldable pub to_digit : ℕ → Option ℕ
to_digit c =
    if leb 48 c && leb c 57
    then some (c - 48)
    else if leb 97 c && leb c 102
    then some (c - 87)
    else if leb 65 c && leb c 70
    then some (c - 55)
    else none

-- the two values of two digits
abbrev pub byte_of : Option ℕ → Option ℕ → Option ℕ
byte_of none y = none
byte_of (some a) none = none
byte_of (some a) (some b) = some (a * 16 + b)

-- `u8::from_str_radix(_, 16)` of a text of at most two bytes: a sign `+` may stand before a digit
unfoldable pub from_hex : Bytes → Option ℕ
unfolding to_digit
from_hex [] = none
from_hex (c ∷ []) = to_digit c
from_hex (c ∷ d ∷ []) = if c == 43 then to_digit d else byte_of (to_digit c) (to_digit d)
from_hex (c ∷ d ∷ e ∷ rest) = none
