-- ===== src/Electrum/Headers/Range.antt =====
-- Which headers a request for a range returns.
use nakamoto_electrs.Prelude.{
  ℕ, zero, suc, ◌+◌, ◌≡◌, ap, ◌∙◌, arith, none, some, List, [], ◌∷◌, ◌++◌, length, ok,
}
use mathlib.Core.List.{append_assoc, append-nil}
use nakamoto_electrs.Bytes.{Bytes}
use nakamoto_electrs.Bitcoin.{Bitcoin}
use nakamoto_electrs.BlockSource.{Blocks, BlockSource}
use nakamoto_electrs.Electrum.Crates.{Crates, done}
use nakamoto_electrs.Electrum.Headers.{headers_loop, headers_from, range_length}

module _ ⦃bc : Bitcoin⦄ ⦃bl : Blocks⦄ ⦃cr : Crates⦄ where
  -- the texts of headers, one after the other
  abbrev pub joined : List bl.Header → Bytes
  joined [] = []
  joined (h ∷ hs) = bl.header_hex h ++ joined hs

  -- The source holds the headers from the height on, and then none, or no more are asked for.
  pub data Run (source : BlockSource) : ℕ → ℕ → List bl.Header → Type 0 where
    asked : (h : ℕ) → Run source zero h []
    missing : (n h : ℕ) → source.block_header h ≡ ok none → Run source (suc n) h []
    held :
        (n h : ℕ) (x : bl.Header) (xs : List bl.Header)
        → source.block_header h ≡ ok (some x)
        → Run source n (suc h) xs
        → Run source (suc n) h (x ∷ xs)

  loop_lem :
      (source : BlockSource) (n h returned : ℕ) (hex : Bytes) (xs : List bl.Header)
      → Run source n h xs
      → headers_loop n h source returned hex ≡ done (returned + length xs, hex ++ joined xs)
  unfolding headers_loop
  loop_lem source _ _ returned hex _ (asked h) =
      rw (append-nil hex) (ap (λ k. done (k, hex)) (omega arith))
  loop_lem source _ _ returned hex _ (missing n h e) =
      rw (headers_loop, e, append-nil hex) (ap (λ k. done (k, hex)) (omega arith))
  loop_lem source _ _ returned hex _ (held n h x xs e run) =
      rw (headers_loop, e)
        (loop_lem source n (suc h) (suc returned) (hex ++ bl.header_hex x) xs run
          ∙ rw (append_assoc hex (bl.header_hex x) (joined xs))
              (ap (λ k. done (k, hex ++ (bl.header_hex x ++ joined xs))) (omega arith)))

  -- A request for a range of headers returns the number and the joined texts of the headers that
  -- the source holds from the start on, up to the first that it does not hold or the end of the
  -- range, where it answers each of these queries.
  pub headers_from_lem :
      (source : BlockSource) (start count : ℕ) (xs : List bl.Header)
      → Run source (range_length start count) start xs
      → headers_from start count source ≡ done (length xs, joined xs)
  unfolding headers_from
  headers_from_lem source start count xs run =
      loop_lem source (range_length start count) start 0 [] xs run
      ∙ ap (λ k. done (k, joined xs)) (omega arith)
