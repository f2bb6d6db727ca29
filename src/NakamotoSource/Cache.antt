-- ===== src/NakamotoSource/Cache.antt =====
-- What the subscribers are told can be fetched.
use nakamoto_electrs.Prelude.{
  ℕ, zero, suc, ◌≡◌, refl, true, false, Option, none, some, List, [], ◌∷◌, Result, ok, err, All,
  All-append, Bool-cases, inl, inr, eq_of_beq, beq_refl,
}
use nakamoto_electrs.Bytes.{Bytes}
use nakamoto_electrs.Bitcoin.{Bitcoin}
use nakamoto_electrs.BlockSource.{Blocks, BlockEvent, connected, disconnected, synced}
use nakamoto_electrs.HashMap.{HashMap, get, insert}
use nakamoto_electrs.HashMap.Keys.{bytes_eq, ◌≐◌}
use nakamoto_electrs.HashMap.Laws.{get-insert}
use nakamoto_electrs.Indexer.State.{as_u32}
use nakamoto_electrs.NakamotoSource.{
  Nakamoto, NkEvent, block_connected, block_disconnected, nk_synced, other_event, Handle,
  Subscriber, Source, broadcast_event, delivered, on_block, disconnected_sent, tip_sent, tip_found,
  on_event, subscribe_source, conv_block, conv_header, conv_hash,
}

module _ ⦃bc : Bitcoin⦄ ⦃bl : Blocks⦄ ⦃nk : Nakamoto⦄ where
  -- The source returns a block for the hash.
  abbrev pub IsHeld : HashMap Bytes bl.Block → Bytes → Type 0
  IsHeld cache hash =
      (b : bl.Block) × (get hash cache ≡ some b) × (bl.block_hash (bl.header b) ≡ hash)

  -- A block that was announced is held under its hash.
  abbrev pub IsFetchable : HashMap Bytes bl.Block → BlockEvent → Type 0
  IsFetchable cache (connected b height) = IsHeld cache (bl.block_hash (bl.header b))
  IsFetchable cache (disconnected hash height) = Unit
  IsFetchable cache (synced height tip) = Unit

  abbrev pub IsConsistent : Source → Type 0
  IsConsistent s = All (λ c. All (IsFetchable s.block_cache) c.sent) s.subscribers

  -- a receiver goes away
  abbrev pub close_at : ℕ → List Subscriber → List Subscriber
  close_at n [] = []
  close_at zero (c ∷ cs) = record c { is_alive = false } ∷ cs
  close_at (suc n) (c ∷ cs) = c ∷ close_at n cs

  -- what the source can become, by its threads and its subscribers in any order
  pub data Runs : Source → Type 0 where
    starts : Runs (record { subscribers = []; block_cache = [] })
    subscribes : (s : Source) → Runs s → Runs (subscribe_source s)
    closes :
        (n : ℕ) (s : Source) → Runs s → Runs (record s { subscribers = close_at n s.subscribers })
    block : (b : nk.NkBlock) (height : ℕ) (s : Source) → Runs s → Runs (on_block b height s)
    event : (h : Handle) (e : NkEvent) (s : Source) → Runs s → Runs (on_event h e s).1

  IsFetchable-insert :
      (b : bl.Block) (cache : HashMap Bytes bl.Block) (e : BlockEvent)
      → IsFetchable cache e
      → IsFetchable (insert (bl.block_hash (bl.header b)) b cache) e
  IsFetchable-insert b cache (connected c height) (held, found, same) =
      let hash = bl.block_hash (bl.header b) in
      elim (Bool-cases (hash ≐ bl.block_hash (bl.header c))) [
        | inl h ↦ (
          b,
          rw (get-insert (bl.block_hash (bl.header c)) hash b cache, h) refl,
          eq_of_beq hash _ h,
        )
        | inr h ↦ (held, rw (get-insert (bl.block_hash (bl.header c)) hash b cache, h) found, same)
      ]
  IsFetchable-insert b cache (disconnected hash height) f = tt
  IsFetchable-insert b cache (synced height tip) f = tt

  All-map {ℓ κ μ} :
      {A : Type ℓ} {P : A → Type κ} {Q : A → Type μ} (f : (a : A) → P a → Q a) (xs : List A)
      → All P xs
      → All Q xs
  All-map f [] h = tt
  All-map f (x ∷ xs) h = (f x h.0, All-map f xs h.1)

  broadcast_lem :
      (cache : HashMap Bytes bl.Block) (e : BlockEvent) (subs : List Subscriber)
      → IsFetchable cache e
      → All (λ c. All (IsFetchable cache) c.sent) subs
      → All (λ c. All (IsFetchable cache) c.sent) (broadcast_event e subs)
  unfolding broadcast_event
  broadcast_lem cache e [] f h = tt
  broadcast_lem cache e (c ∷ subs) f h = elim (Bool-cases c.is_alive) [
    | inl k ↦ rw k (
      All-append (IsFetchable cache) c.sent (e ∷ []) h.0 (f, tt),
      broadcast_lem cache e subs f h.1,
    )
    | inr k ↦ rw k (broadcast_lem cache e subs f h.1)
  ]

  close_lem :
      (P : BlockEvent → Type 0) (n : ℕ) (subs : List Subscriber)
      → All (λ c. All P c.sent) subs
      → All (λ c. All P c.sent) (close_at n subs)
  close_lem P n [] h = tt
  close_lem P zero (c ∷ subs) h = h
  close_lem P (suc n) (c ∷ subs) h = (h.0, close_lem P n subs h.1)

  delivered_lem :
      (r : Result bl.Block) (height : ℕ) (s : Source)
      → IsConsistent s
      → IsConsistent (delivered r height s)
  delivered_lem (err e) height s h = h
  delivered_lem (ok b) height s h =
      let hash = bl.block_hash (bl.header b) in
      let cache = insert hash b s.block_cache in
      broadcast_lem cache (connected b (as_u32 height)) s.subscribers
        (b, rw (get-insert hash hash b s.block_cache, beq_refl hash) refl, refl)
        (All-map (λ c k. All-map (λ e f. IsFetchable-insert b s.block_cache e f) c.sent k)
          s.subscribers h)

  left_lem :
      (r : Result Bytes) (height : ℕ) (s : Source)
      → IsConsistent s
      → IsConsistent (disconnected_sent r height s)
  left_lem (err e) height s h = h
  left_lem (ok hash) height s h =
      broadcast_lem s.block_cache (disconnected hash (as_u32 height)) s.subscribers tt h

  tip_sent_lem :
      (r : Result bl.Header) (tip : ℕ) (s : Source)
      → IsConsistent s
      → IsConsistent (tip_sent r tip s)
  tip_sent_lem (err e) tip s h = h
  tip_sent_lem (ok hdr) tip s h =
      broadcast_lem s.block_cache (synced (as_u32 tip) (bl.block_hash hdr)) s.subscribers tt h

  tip_found_lem :
      (r : Result (Option nk.NkHeader)) (tip : ℕ) (s : Source)
      → IsConsistent s
      → IsConsistent (tip_found r tip s)
  tip_found_lem (err e) tip s h = h
  tip_found_lem (ok none) tip s h = h
  tip_found_lem (ok (some nk_hdr)) tip s h = tip_sent_lem (conv_header nk_hdr) tip s h

  -- Whatever the two threads of the block source do, and whoever subscribes or goes away: for each
  -- block that a subscriber was told is connected, the source has a block with that hash in its
  -- cache.
  pub Runs-IsConsistent : (s : Source) → Runs s → IsConsistent s
  unfolding on_block on_event subscribe_source
  Runs-IsConsistent _ starts = tt
  Runs-IsConsistent _ (subscribes s r) =
      All-append _ s.subscribers (record { is_alive = true; sent = [] } ∷ [])
        (Runs-IsConsistent s r) (tt, tt)
  Runs-IsConsistent _ (closes n s r) =
      close_lem (IsFetchable s.block_cache) n s.subscribers (Runs-IsConsistent s r)
  Runs-IsConsistent _ (block b height s r) =
      delivered_lem (conv_block b) height s (Runs-IsConsistent s r)
  Runs-IsConsistent _ (event handle (block_connected hash height) s r) = Runs-IsConsistent s r
  Runs-IsConsistent _ (event handle (block_disconnected hash height) s r) =
      left_lem (conv_hash hash) height s (Runs-IsConsistent s r)
  Runs-IsConsistent _ (event handle (nk_synced height tip) s r) =
      tip_found_lem (handle.query_tree tip) tip s (Runs-IsConsistent s r)
  Runs-IsConsistent _ (event handle other_event s r) = Runs-IsConsistent s r
