-- ===== src/Indexer/Reachable/Records.antt =====
-- The undo records of each height after a start: `load_journal_from_store` of src/indexer.rs.
use mathlib.Core.List.{Perm, append_assoc, append-nil}
use nakamoto_electrs.Prelude.{
  ℕ, ◌≤◌, ◌≡◌, refl, sym, ap, ◌∙◌, arith, Bool, true, false, Bool-cases, inl, inr, List, [], ◌∷◌,
  ◌++◌, leb, ok, Result-cases, if◌then◌else◌,
}
use nakamoto_electrs.Prelude.Exec.{asks}
use nakamoto_electrs.Prelude.Exec.Keeps.{Keeps, asks-Keeps, bind-Keeps}
use nakamoto_electrs.Prelude.Sort.{sort_by}
use nakamoto_electrs.Prelude.Sort.Perms.{sort_by-Perm}
use nakamoto_electrs.Prelude.Sort.Sorted.{Sorted, sort_by-Sorted}
use nakamoto_electrs.Bitcoin.{Bitcoin}
use nakamoto_electrs.Sled.{Sled}
use nakamoto_electrs.HashMap.{HashMap, get, push_at, listed}
use nakamoto_electrs.HashMap.Keys.{◌≐◌, nat_eq, bytes_eq}
use nakamoto_electrs.HashMap.Sets.{has}
use nakamoto_electrs.HashMap.Laws.{get-push_at}
use nakamoto_electrs.Store.Types.{Txid, StoredHistoryEntry, StoredJournalAction}
use nakamoto_electrs.Store.Index.{
  PersistentIndex, load_tx, load_pending_txids, load_journal_actions, load_history_entries,
  tip_height,
}
use nakamoto_electrs.Indexer.State.{IndexState, BlockAction, push_history, push_action}
use nakamoto_electrs.Indexer.Blocks.Journal.{recorded}
use nakamoto_electrs.Indexer.Payload.{action_sequence}
use nakamoto_electrs.Indexer.Reachable.Restart.{
  continue_inv, started_inv, journal_inv, load_history_from_store-IsStill, load_journal-IsStill,
}
use nakamoto_electrs.Indexer.Pending.{rebuild_pending_view}
use nakamoto_electrs.Indexer.Startup.{
  load_history_from_store, load_pending, load_pending_from_store, new, load_history, action_of,
  load_actions, load_journal_from_store, note_confirmed, sort_actions, sequence_of,
}

module _ ⦃sl : Sled⦄ ⦃bc : Bitcoin⦄ where
  abbrev pub rank_of : BlockAction → ℕ
  rank_of a = sequence_of (action_sequence a)

  abbrev by_rank : BlockAction → BlockAction → Bool
  by_rank a b = leb (rank_of a) (rank_of b)

  -- the records at a height after one more
  pushed_at :
      (h k : ℕ) (x : BlockAction) (m : HashMap ℕ (List BlockAction)) (rest : List BlockAction)
      → listed (get h (push_at k x m)) ++ rest
        ≡ listed (get h m) ++ ((if k ≐ h then x ∷ [] else []) ++ rest)
  pushed_at h k x m rest = elim (Bool-cases (k ≐ h)) [
    | inl e ↦ rw (get-push_at h k x m, e) (append_assoc (listed (get h m)) (x ∷ []) rest)
    | inr e ↦ rw (get-push_at h k x m, e) refl
  ]

  loaded_at :
      (actions : List StoredJournalAction) (before c : List Txid) (s : IndexState) (h : ℕ)
      → (load_actions actions before s).0 ≡ ok c
      → listed (get h (load_actions actions before s).1.by_height)
        ≡ listed (get h s.by_height) ++ recorded h actions
  unfolding load_actions recorded push_action
  loaded_at [] before c s h e = sym (append-nil _)
  loaded_at (a ∷ rest) before c s h e = elim (Result-cases (action_of a a.kind)) [
    | inl (entry, f) ↦
        let later =
          loaded_at rest (note_confirmed entry before) c (push_action a.height entry s) h
            (rw (load_actions, f) at e) in
        rw (load_actions, recorded, f)
          (later ∙ pushed_at h a.height entry s.by_height (recorded h rest))
    | inr (y, f) ↦ absurd (cc (rw (load_actions, f) at e))
  ]

  sorted_at :
      (h : ℕ) (m : HashMap ℕ (List BlockAction))
      → listed (get h (sort_actions m)) ≡ sort_by by_rank (listed (get h m))
  unfolding sort_actions get sort_by
  sorted_at h [] = refl
  sorted_at h ((k, actions) ∷ m) = elim (Bool-cases (k ≐ h)) [
    | inl e ↦ rw e refl
    | inr e ↦ rw e (sorted_at h m)
  ]

  -- The journal is loaded into a map without records.
  journal_at :
      (s : IndexState) (actions : List StoredJournalAction) (c : List Txid) (h : ℕ)
      → load_journal_actions s.store ≡ ok actions
      → (load_journal_from_store s).0 ≡ ok c
      → s.by_height ≡ []
      → listed (get h (load_journal_from_store s).1.by_height)
        ≡ sort_by by_rank (recorded h actions)
  unfolding load_journal_from_store get
  journal_at s actions c h a e empty =
      let loads = journal_inv s actions c a e in
      rw (a, loads) (sorted_at h _ ∙ rw (loaded_at actions [] c s h loads, empty) refl)

  load_history-by_height :
      (es : List StoredHistoryEntry) (s : IndexState) → (load_history es s).by_height ≡ s.by_height
  unfolding load_history push_history
  load_history-by_height [] s = refl
  load_history-by_height (e ∷ es) s = load_history-by_height es _

  load_history-Keeps :
      (m : HashMap ℕ (List BlockAction)) → Keeps (λ s. s.by_height ≡ m) load_history_from_store
  unfolding load_history_from_store
  load_history-Keeps m =
      bind-Keeps (asks (λ s. load_history_entries s.store)) (λ es s. (ok tt, load_history es s))
        (asks-Keeps _) (λ es. record { at = λ s h. load_history-by_height es s ∙ h })

  load_pending-by_height :
      (m : HashMap ℕ (List BlockAction)) (store : PersistentIndex) (confirmed ts : List Txid)
      → Keeps (λ s. (s.by_height ≡ m) × (s.store ≡ store)) (load_pending confirmed ts)
  unfolding load_pending
  load_pending-by_height m store confirmed [] = record { at = λ s h. h }
  load_pending-by_height m store confirmed (t ∷ ts) = record {
    at = λ s h. elim (Bool-cases (has t confirmed)) [
      | inl c ↦ rw (load_pending, c) ((load_pending-by_height m store confirmed ts).at s h)
      | inr c ↦ elim (Result-cases (load_tx t s.store)) [
        | inl (found, e) ↦
            rw (load_pending, c, e) ((load_pending-by_height m store confirmed ts).at _ h)
        | inr (x, e) ↦ rw (load_pending, c, e) h
      ]
    ];
  }

  load_pending-Keeps :
      (m : HashMap ℕ (List BlockAction)) (store : PersistentIndex) (confirmed : List Txid)
      → Keeps (λ s. (s.by_height ≡ m) × (s.store ≡ store)) (load_pending_from_store confirmed)
  unfolding load_pending_from_store
  load_pending-Keeps m store confirmed =
      bind-Keeps (asks (λ s. load_pending_txids s.store)) (load_pending confirmed) (asks-Keeps _)
        (load_pending-by_height m store confirmed)

  by_rank_up : (a b : BlockAction) → by_rank a b ≡ true → rank_of a ≤ rank_of b
  by_rank_up a b h = ground (arith, h)

  by_rank_down : (a b : BlockAction) → by_rank a b ≡ false → rank_of b ≤ rank_of a
  by_rank_down a b h = ground (arith, h)

  -- the state when the history was loaded
  abbrev with_history : PersistentIndex → IndexState
  with_history store =
      (load_history_from_store (record {
        history = [];
        by_height = [];
        pending_txs = [];
        pending_outputs = [];
        tip_height = tip_height store;
        store = store;
      })).1

  -- What a start went through.
  record Started (store : PersistentIndex) (s : IndexState) : Type 0 where
    pub confirmed : List Txid
    pub noted : (load_journal_from_store (with_history store)).0 ≡ ok confirmed
    pub from_store : (with_history store).store ≡ store
    pub empty : (with_history store).by_height ≡ []
    pub by_height : s.by_height ≡ (load_journal_from_store (with_history store)).1.by_height
    pub stored : s.store ≡ store

  start_lem : (store : PersistentIndex) (s : IndexState) → new store ≡ ok s → Started store s
  unfolding new rebuild_pending_view
  start_lem store s e =
      let start : IndexState = record {
        history = [];
        by_height = [];
        pending_txs = [];
        pending_outputs = [];
        tip_height = tip_height store;
        store = store;
      } in
      let (done, rebuilt) = started_inv _ s e in
      let first = load_history_from_store start in
      let (u, read) = continue_inv first.0 _ first.1 tt done in
      let second = load_journal_from_store first.1 in
      let (c, noted) =
        continue_inv second.0 load_pending_from_store second.1 tt (rw read at done) in
      let still = (load_history_from_store-IsStill [] store).at start (refl, refl) in
      let still' = (load_journal-IsStill [] store).at first.1 still in
      let kept = (load_pending-Keeps second.1.by_height store c).at second.1 (refl, still'.1) in
      let here = ap (λ (u : IndexState). u.by_height) (sym rebuilt) in
      let there = ap (λ (u : IndexState). u.store) (sym rebuilt) in
      record {
        confirmed = c;
        noted = noted;
        from_store = still.1;
        empty = (load_history-Keeps []).at start refl;
        by_height = rw (read, noted) at here ∙ kept.0;
        stored = rw (read, noted) at there ∙ kept.1;
      }

  pub new-store : (store : PersistentIndex) (s : IndexState) → new store ≡ ok s → s.store ≡ store
  new-store store s e = (start_lem store s e).stored

  -- A start that succeeds has read the journal.
  pub new_reads :
      (store : PersistentIndex) (s : IndexState)
      → new store ≡ ok s
      → (actions : List StoredJournalAction) × (load_journal_actions store ≡ ok actions)
  unfolding load_journal_from_store
  new_reads store s e =
      let h = start_lem store s e in
      let journal = load_journal_actions (with_history store).store in
      let (actions, a) = continue_inv journal _ (with_history store) h.confirmed h.noted in
      (actions, rw (h.from_store) at a)

  -- Where the journal can be read, a start that succeeds gives each height exactly the records
  -- that the journal holds for it, as often as it holds them, in an order in which the sequence
  -- numbers of their keys never decrease.
  pub new_by_height_lem :
      (store : PersistentIndex) (s : IndexState) (actions : List StoredJournalAction) (h : ℕ)
      → load_journal_actions store ≡ ok actions
      → new store ≡ ok s
      → Perm (listed (get h s.by_height)) (recorded h actions)
        × Sorted rank_of (listed (get h s.by_height))
  new_by_height_lem store s actions h a e =
      let started = start_lem store s e in
      let journal : load_journal_actions (with_history store).store ≡ ok actions =
        rw (started.from_store) a in
      let sorted = journal_at _ actions started.confirmed h journal started.noted started.empty in
      let same : listed (get h s.by_height) ≡ sort_by by_rank (recorded h actions) =
        ap (λ (m : HashMap ℕ (List BlockAction)). listed (get h m)) started.by_height ∙ sorted in
      rw same (sort_by-Perm by_rank _, sort_by-Sorted by_rank rank_of by_rank_up by_rank_down _)
