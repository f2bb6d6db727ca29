-- ===== src/Electrum/Scripthash.antt =====
-- `parse_scripthash` of src/electrum_server.rs, and `ScriptHash::to_hex` of src/indexer.rs.
pub mod RoundTrip
pub mod Bounds
use nakamoto_electrs.Prelude.{
  ℕ, zero, suc, ◌+◌, ◌-◌, ◌*◌, Bool, true, false, not, Option, none, some, List, [], ◌∷◌, ◌++◌,
  length, ◌==◌, if◌then◌else◌,
}
use nakamoto_electrs.Bytes.{Bytes}
use nakamoto_electrs.Bitcoin.{Bitcoin}
use nakamoto_electrs.Text.{text, to_string, hex_byte, get_range, from_hex}
use nakamoto_electrs.Store.Types.{ScriptHash}
use nakamoto_electrs.Electrum.Crates.{Crates, Reply, done, fail, ◌>>=◌, ok_or}

-- `ScriptHash::to_hex`
unfoldable pub to_hex : ScriptHash → Bytes
unfolding hex_byte
to_hex [] = []
to_hex (b ∷ bs) = hex_byte b ++ to_hex bs

module _ ⦃bc : Bitcoin⦄ ⦃cr : Crates⦄ where
  abbrev pub parsed : Bytes → Option ℕ → Reply ℕ
  parsed byte_str none = fail (text "invalid hex byte: " ++ cr.radix_error byte_str)
  parsed byte_str (some b) = done b

  -- the loop over the bytes, of which `n` are left, from the one numbered `i`
  unfoldable pub parse_bytes : ℕ → ℕ → Bytes → Reply (List ℕ)
  unfolding get_range from_hex
  parse_bytes zero i hex_str = done []
  parse_bytes (suc n) i hex_str =
      ok_or (text "script_hash too short") (get_range (i * 2) (i * 2 + 2) hex_str) >>= λ byte_str.
      parsed byte_str (from_hex byte_str) >>= λ byte.
      parse_bytes n (suc i) hex_str >>= λ rest. done (byte ∷ rest)

  unfoldable pub parse_scripthash_str : Bytes → Reply ScriptHash
  parse_scripthash_str hex_str =
      if not (length hex_str == 64)
      then fail (text "script_hash must be 64 hex chars, got " ++ to_string (length hex_str))
      else parse_bytes 32 0 hex_str

  -- `params.get(i).and_then(Value::as_str)`
  abbrev pub str_at : ℕ → cr.Value → Option Bytes
  str_at i params = elim (cr.get_index i params) [ none ↦ none | some v ↦ cr.as_str v ]

  abbrev pub u64_at : ℕ → cr.Value → Option ℕ
  u64_at i params = elim (cr.get_index i params) [ none ↦ none | some v ↦ cr.as_u64 v ]

  unfoldable pub parse_scripthash : cr.Value → Reply ScriptHash
  parse_scripthash params =
      ok_or (text "missing script_hash parameter") (str_at 0 params) >>= λ hex_str.
      parse_scripthash_str hex_str
