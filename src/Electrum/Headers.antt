-- ===== src/Electrum/Headers.antt =====
-- The requests for block headers of src/electrum_server.rs: `handle_block_header`,
-- `handle_block_headers` and `current_header_status`.
pub mod Range
use nakamoto_electrs.Prelude.{
  ℕ, zero, suc, ◌+◌, ◌-◌, ◌%◌, ◌^◌, min, Bool, Option, none, some, List, [], ◌∷◌, ◌++◌, Result, ok,
  err, map_ok,
}
use nakamoto_electrs.Bytes.{Bytes}
use nakamoto_electrs.Bitcoin.{Bitcoin}
use nakamoto_electrs.BlockSource.{Blocks, BlockSource}
use nakamoto_electrs.Text.{text, to_string}
use nakamoto_electrs.Sled.{Sled}
use nakamoto_electrs.Store.Loops.{u32_max}
use nakamoto_electrs.Indexer.State.{IndexState, as_u32}
use nakamoto_electrs.Electrum.Crates.{Crates, Reply, done, fail, ◌>>=◌, ok_or}
use nakamoto_electrs.Electrum.Scripthash.{u64_at}

module _ ⦃bc : Bitcoin⦄ ⦃bl : Blocks⦄ ⦃cr : Crates⦄ where
  abbrev header_reply : ℕ → Result (Option bl.Header) → Reply cr.Value
  header_reply height (ok (some header)) = done (cr.string (bl.header_hex header))
  header_reply height (ok none) = fail (text "no header at height " ++ to_string height)
  header_reply height (err e) = fail (text "block_header error: " ++ cr.show_error e)

  unfoldable pub handle_block_header : cr.Value → BlockSource → Reply cr.Value
  handle_block_header params source =
      ok_or (text "missing height parameter") (u64_at 0 params) >>= λ n.
      header_reply (as_u32 n) (source.block_header (as_u32 n))

  -- the loop over the heights, of which `n` are left: how many headers, and their texts
  unfoldable pub headers_loop : ℕ → ℕ → BlockSource → ℕ → Bytes → Reply (ℕ × Bytes)
  headers_loop zero h source returned hex = done (returned, hex)
  headers_loop (suc n) h source returned hex = elim (source.block_header h) [
    | ok (some header) ↦ headers_loop n (suc h) source (suc returned) (hex ++ bl.header_hex header)
    | ok none ↦ done (returned, hex)
    | err e ↦ fail (text "block_header(" ++ to_string h ++ text ") error: " ++ cr.show_error e)
  ]

  -- `start..start.saturating_add(count)` has this many heights
  abbrev pub range_length : ℕ → ℕ → ℕ
  range_length start count = min (start + count) u32_max - start

  unfoldable pub headers_from : ℕ → ℕ → BlockSource → Reply (ℕ × Bytes)
  unfolding headers_loop
  headers_from start count source = headers_loop (range_length start count) start source 0 []

  unfoldable pub handle_block_headers : cr.Value → BlockSource → Reply cr.Value
  unfolding headers_from
  handle_block_headers params source =
      ok_or (text "missing start_height") (u64_at 0 params) >>= λ start.
      ok_or (text "missing count") (u64_at 1 params) >>= λ count.
      headers_from (as_u32 start) (as_u32 count) source >>= λ found. done (
        cr.object (
          (text "count", cr.number found.0)
          ∷ (text "hex", cr.string found.1)
          ∷ (text "max", cr.number 2016)
          ∷ []))

  abbrev pub status_of : ℕ → Option bl.Header → Option (ℕ × Bytes)
  status_of height none = none
  status_of height (some header) = some (height, bl.header_hex header)

  unfoldable pub current_header_status :
      ⦃sl : Sled⦄ → IndexState → BlockSource → Result (Option (ℕ × Bytes))
  current_header_status s source =
      map_ok (status_of s.tip_height) (source.block_header s.tip_height)
