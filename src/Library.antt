-- ===== src/Library.antt =====
-- The helpers of src/lib.rs: networks with their ports, the halving schedule, and the checks of
-- hexadecimal text. A text is its bytes.
pub mod Reward
use nakamoto_electrs.Prelude.{
  ℕ, ◌+◌, ◌-◌, ◌*◌, ◌/◌, ◌%◌, ◌^◌, Bool, true, false, not, ◌&&◌, ◌||◌, ◌==◌, zero, suc, beq, map,
  ltb, leb, Option, none, some, List, [], ◌∷◌, length, if◌then◌else◌,
}
use nakamoto_electrs.Bytes.{Bytes}
use nakamoto_electrs.Text.{text, get_range, from_hex}

pub data Network : Type 0 where
  mainnet testnet signet regtest : Network

-- `eq_ignore_ascii_case`
unfoldable pub ascii_lower : ℕ → ℕ
ascii_lower c = if leb b'A' c && leb c b'Z' then c + 32 else c

unfoldable pub eq_ignore_ascii_case : Bytes → Bytes → Bool
unfolding ascii_lower
eq_ignore_ascii_case xs ys = beq (map ascii_lower xs) (map ascii_lower ys)

-- `Network::from_str`
unfoldable pub network_of_str : Bytes → Option Network
unfolding eq_ignore_ascii_case
network_of_str s =
    if eq_ignore_ascii_case s (text "mainnet")
      || (eq_ignore_ascii_case s (text "bitcoin") || eq_ignore_ascii_case s (text "main"))
    then some mainnet
    else if eq_ignore_ascii_case s (text "testnet") || eq_ignore_ascii_case s (text "test")
    then some testnet
    else if eq_ignore_ascii_case s (text "signet")
    then some signet
    else if eq_ignore_ascii_case s (text "regtest")
    then some regtest
    else none

unfoldable pub is_production : Network → Bool
is_production mainnet = true
is_production testnet = false
is_production signet = false
is_production regtest = false

unfoldable pub default_electrum_port : Network → ℕ
default_electrum_port mainnet = 50001
default_electrum_port testnet = 60001
default_electrum_port signet = 60601
default_electrum_port regtest = 60401

unfoldable pub default_p2p_port : Network → ℕ
default_p2p_port mainnet = 8333
default_p2p_port testnet = 18333
default_p2p_port signet = 38333
default_p2p_port regtest = 18444

-- `left + right` of `u64`, as in a release build
unfoldable pub add_u64 : ℕ → ℕ → ℕ
add_u64 left right = (left + right) % 2 ^ 64

-- `u64::saturating_sub`
unfoldable pub saturating_sub : ℕ → ℕ → ℕ
saturating_sub left right = left - right

-- `is_ascii_hexdigit`
unfoldable pub is_hex_digit : ℕ → Bool
is_hex_digit c = leb b'0' c && leb c b'9' || (leb b'a' c && leb c b'f' || leb b'A' c && leb c b'F')

unfoldable pub all_hex : Bytes → Bool
unfolding is_hex_digit
all_hex [] = true
all_hex (c ∷ cs) = is_hex_digit c && all_hex cs

unfoldable pub is_valid_script_hex : Bytes → Bool
unfolding all_hex
is_valid_script_hex hex = not (length hex == 0) && (length hex % 2 == 0 && all_hex hex)

-- The loop of `txid_to_electrum_bytes`, of which `n` rounds are left, from the one numbered `i`:
-- the byte of a round is written in front of those of the rounds before.
unfoldable pub electrum_loop : ℕ → ℕ → Bytes → Bytes → Option Bytes
electrum_loop zero i hex bytes = some bytes
electrum_loop (suc n) i hex bytes = elim (get_range (i * 2) (i * 2 + 2) hex) [
  | none ↦ none
  | some byte_str ↦ elim (from_hex byte_str) [
    | none ↦ none
    | some byte ↦ electrum_loop n (suc i) hex (byte ∷ bytes)
  ]
]

unfoldable pub txid_to_electrum_bytes : Bytes → Option Bytes
unfolding electrum_loop
txid_to_electrum_bytes hex = if not (length hex == 64) then none else electrum_loop 32 0 hex []

unfoldable pub is_halving_height : ℕ → Bool
is_halving_height height = ltb 0 height && height % 210000 == 0

unfoldable pub block_reward_sats : ℕ → ℕ
block_reward_sats height =
    if leb 64 (height / 210000) then 0 else 5000000000 / 2 ^ (height / 210000)
