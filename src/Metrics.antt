-- ===== src/Metrics.antt =====
-- src/metrics.rs: counters of 64 bits that wrap, as `fetch_add` and `fetch_sub` do.
use nakamoto_electrs.Prelude.{ℕ, ◌+◌, ◌-◌, ◌%◌, ◌^◌}

pub record Metrics : Type 0 where
  pub blocks_indexed : ℕ
  pub blocks_rolled_back : ℕ
  pub electrum_connections : ℕ
  pub electrum_requests : ℕ
  pub transactions_broadcast : ℕ

abbrev pub fetch_add : ℕ → ℕ
fetch_add n = (n + 1) % 2 ^ 64

abbrev pub fetch_sub : ℕ → ℕ
fetch_sub n = (n + (2 ^ 64 - 1)) % 2 ^ 64

-- `Metrics::new`
abbrev pub zeroed : Metrics
zeroed = record {
  blocks_indexed = 0;
  blocks_rolled_back = 0;
  electrum_connections = 0;
  electrum_requests = 0;
  transactions_broadcast = 0;
}

unfoldable pub inc_blocks_indexed : Metrics → Metrics
inc_blocks_indexed m = record m { blocks_indexed = fetch_add m.blocks_indexed }

unfoldable pub inc_blocks_rolled_back : Metrics → Metrics
inc_blocks_rolled_back m = record m { blocks_rolled_back = fetch_add m.blocks_rolled_back }

unfoldable pub inc_electrum_connections : Metrics → Metrics
inc_electrum_connections m = record m { electrum_connections = fetch_add m.electrum_connections }

unfoldable pub dec_electrum_connections : Metrics → Metrics
dec_electrum_connections m = record m { electrum_connections = fetch_sub m.electrum_connections }

unfoldable pub inc_electrum_requests : Metrics → Metrics
inc_electrum_requests m = record m { electrum_requests = fetch_add m.electrum_requests }

unfoldable pub inc_transactions_broadcast : Metrics → Metrics
inc_transactions_broadcast m = record m {
  transactions_broadcast = fetch_add m.transactions_broadcast;
}
