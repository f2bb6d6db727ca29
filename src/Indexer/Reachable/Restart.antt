-- ===== src/Indexer/Reachable/Restart.antt =====
-- Which transactions are pending after a start.
use nakamoto_electrs.Prelude.{
  ◌≡◌, refl, sym, ap, ◌∙◌, arith, Bool, false, ◌||◌, ◌&&◌, not, inl, inr, Option, none, some, List,
  [], ◌∷◌, ok, err, Result, Result-cases, if◌then◌else◌,
}
use nakamoto_electrs.Prelude.Exec.{Exec, asks, continue}
use nakamoto_electrs.Prelude.Exec.Keeps.{Keeps, asks-Keeps, bind-Keeps, method_rules}
use nakamoto_electrs.Bitcoin.{Bitcoin}
use nakamoto_electrs.Sled.{Sled}
use nakamoto_electrs.HashMap.{HashMap, get}
use nakamoto_electrs.HashMap.Keys.{◌≐◌, bytes_eq}
use nakamoto_electrs.HashMap.Sets.{has, has-add}
use nakamoto_electrs.Store.Types.{Txid, StoredHistoryEntry, StoredJournalAction}
use nakamoto_electrs.Store.Index.{
  PersistentIndex, load_tx, load_pending_txids, load_journal_actions, load_history_entries,
  tip_height,
}
use nakamoto_electrs.Indexer.State.{IndexState, BlockAction, push_history, push_action}
use nakamoto_electrs.Indexer.Pending.{rebuild_pending_view}
use nakamoto_electrs.Indexer.Startup.{
  load_history, load_history_from_store, action_of, load_actions, load_journal_from_store,
  load_pending_from_store, note_confirmed, sort_actions, new, state_of,
}
use nakamoto_electrs.Indexer.Startup.Pending.{first_of, load_pending_lem}

-- Where a method returns a value after a first part, the first part returned one.
pub continue_inv {ℓ} :
    {S A B : Type ℓ} (x : Result A) (f : A → Exec S B) (s : S) (b : B)
    → (continue x f s).0 ≡ ok b
    → (a : A) × (x ≡ ok a)
continue_inv (ok a) f s b h = (a, refl)
continue_inv (err e) f s b h = absurd (cc (h))

-- Where a last part only changes the state, the value is that of the first part.
pub continue_ok_inv {ℓ} :
    {S A : Type ℓ} (x : Result A) (g : A → S → S) (s : S) (a : A)
    → (continue x (λ b t. (ok b, g b t)) s).0 ≡ ok a
    → x ≡ ok a
continue_ok_inv (ok b) g s a h = h
continue_ok_inv (err e) g s a h = absurd (cc (h))

module _ ⦃sl : Sled⦄ ⦃bc : Bitcoin⦄ where
  -- the record says that the transaction was confirmed
  abbrev pub is_tx : Txid → Result BlockAction → Bool
  is_tx x (ok (BlockAction.tx txid key)) = txid ≐ x
  is_tx x (ok (BlockAction.history hk key)) = false
  is_tx x (ok (BlockAction.output o key)) = false
  is_tx x (ok (BlockAction.spend o key)) = false
  is_tx x (err e) = false

  -- Some record of the journal says that the transaction was confirmed.
  unfoldable pub confirms : Txid → List StoredJournalAction → Bool
  confirms x [] = false
  confirms x (a ∷ rest) = is_tx x (action_of a a.kind) || confirms x rest

  noted :
      (entry : BlockAction) (before : List Txid) (x : Txid)
      → has x (note_confirmed entry before) ≡ (has x before || is_tx x (ok entry))
  noted (BlockAction.tx txid key) before x = ground (arith, has-add txid x before)
  noted (BlockAction.history hk key) before x = ground arith
  noted (BlockAction.output o key) before x = ground arith
  noted (BlockAction.spend o key) before x = ground arith

  confirmed_by :
      (actions : List StoredJournalAction) (before c : List Txid) (s : IndexState) (x : Txid)
      → (load_actions actions before s).0 ≡ ok c
      → has x c ≡ (has x before || confirms x actions)
  unfolding load_actions confirms
  confirmed_by [] before c s x h = let same : before ≡ c = cc (h) in rw same (ground arith)
  confirmed_by (a ∷ rest) before c s x h = elim (Result-cases (action_of a a.kind)) [
    | inl (entry, e) ↦
        let later =
          confirmed_by rest (note_confirmed entry before) c (push_action a.height entry s) x
            (rw (load_actions, e) at h) in
        rw (later, noted entry before x, e) (ground arith)
    | inr (y, e) ↦ absurd (cc (rw (load_actions, e) at h))
  ]

  -- the pending transactions and the store while the history and the journal are loaded
  abbrev IsStill : HashMap Txid bc.Transaction → PersistentIndex → IndexState → Type 0
  IsStill p store s = (s.pending_txs ≡ p) × (s.store ≡ store)

  module _ (p : HashMap Txid bc.Transaction) (store : PersistentIndex) where
    load_history-IsStill :
        (es : List StoredHistoryEntry) (s : IndexState)
        → IsStill p store s
        → IsStill p store (load_history es s)
    unfolding load_history push_history
    load_history-IsStill [] s h = h
    load_history-IsStill (e ∷ es) s h = load_history-IsStill es _ h

    pub load_history_from_store-IsStill : Keeps (IsStill p store) load_history_from_store
    unfolding load_history_from_store
    load_history_from_store-IsStill =
        bind-Keeps (asks (λ s. load_history_entries s.store)) (λ es s. (ok tt, load_history es s))
          (asks-Keeps _) (λ es. record { at = λ s h. load_history-IsStill es s h })

    load_actions-IsStill :
        (actions : List StoredJournalAction) (confirmed : List Txid)
        → Keeps (IsStill p store) (load_actions actions confirmed)
    unfolding load_actions push_action
    load_actions-IsStill [] confirmed = record { at = λ s h. h }
    load_actions-IsStill (a ∷ rest) confirmed = record {
      at = λ s h. elim (Result-cases (action_of a a.kind)) [
        | inl (entry, e) ↦ rw (load_actions, e) ((load_actions-IsStill rest _).at _ h)
        | inr (x, e) ↦ rw (load_actions, e) h
      ];
    }

    sorted-IsStill :
        (confirmed : List Txid)
        → Keeps
            (IsStill p store)
            (λ s. (ok confirmed, record s { by_height = sort_actions s.by_height }))
    sorted-IsStill confirmed = record { at = λ s h. h }

    pub load_journal-IsStill : Keeps (IsStill p store) load_journal_from_store
    unfolding load_journal_from_store
    load_journal-IsStill = search (method_rules, load_actions-IsStill, sorted-IsStill) depth 10

  pub started_inv :
      (m : Result (Unit {0}) × IndexState) (s : IndexState)
      → state_of m ≡ ok s
      → (m.0 ≡ ok tt) × (rebuild_pending_view m.1 ≡ s)
  started_inv (ok x, t) s h = (refl, cc (h))
  started_inv (err e, t) s h = absurd (cc (h))

  pub journal_inv :
      (s : IndexState) (actions : List StoredJournalAction) (c : List Txid)
      → load_journal_actions s.store ≡ ok actions
      → (load_journal_from_store s).0 ≡ ok c
      → (load_actions actions [] s).0 ≡ ok c
  unfolding load_journal_from_store
  journal_inv s actions c a h =
      let m = load_actions actions [] s in
      continue_ok_inv m.0 (λ b t. record t { by_height = sort_actions t.by_height }) m.1 c
        (rw a at h)

  first_of-none : (v : Option bc.Transaction) → first_of v none ≡ v
  first_of-none none = refl
  first_of-none (some tx) = refl

  module _ (store : PersistentIndex) (listed : List Txid) where
    -- the last part of the start
    pending_after :
        (c : List Txid) (s : IndexState) (x : Txid)
        (reads : (t : Txid) → (v : Option bc.Transaction) × (load_tx t store ≡ ok v))
        → load_pending_txids store ≡ ok listed
        → IsStill [] store s
        → get x (load_pending_from_store c s).1.pending_txs
          ≡ (if not (has x c) && has x listed then (reads x).0 else none)
    unfolding load_pending_from_store get
    pending_after c s x reads l (none_yet, same) =
        let here : (t : Txid) → (v : Option bc.Transaction) × (load_tx t s.store ≡ ok v) =
          λ t. ((reads t).0, rw same (reads t).1) in
        let lists : load_pending_txids s.store ≡ ok listed = rw same l in
        rw lists ((load_pending_lem c listed s x here).1 ∙ rw none_yet (first_of-none _))

    -- Where each txid, the list of pending txids and the journal can be read, a start that
    -- succeeds makes exactly those txids pending that are listed, that no record of the journal
    -- says were confirmed, and for which a transaction is stored, and each maps to the stored
    -- transaction.
    pub new_pending_lem :
        (s : IndexState) (x : Txid) (actions : List StoredJournalAction)
        (reads : (t : Txid) → (v : Option bc.Transaction) × (load_tx t store ≡ ok v))
        → load_pending_txids store ≡ ok listed
        → load_journal_actions store ≡ ok actions
        → new store ≡ ok s
        → get x s.pending_txs
          ≡ (if not (confirms x actions) && has x listed then (reads x).0 else none)
    unfolding new has rebuild_pending_view
    new_pending_lem s x actions reads l a h =
        let start : IndexState = record {
          history = [];
          by_height = [];
          pending_txs = [];
          pending_outputs = [];
          tip_height = tip_height store;
          store = store;
        } in
        let (done, rebuilt) = started_inv _ s h in
        let pending = ap (λ (u : IndexState). u.pending_txs) (sym rebuilt) in
        let first = load_history_from_store start in
        let (u, read) = continue_inv first.0 _ first.1 tt done in
        let still = (load_history_from_store-IsStill [] store).at start (refl, refl) in
        let second = load_journal_from_store first.1 in
        let (c, noted) =
          continue_inv second.0 load_pending_from_store second.1 tt (rw read at done) in
        let still' = (load_journal-IsStill [] store).at first.1 still in
        let journal : load_journal_actions first.1.store ≡ ok actions = rw (still.1) a in
        let confirmed =
          confirmed_by actions [] c first.1 x (journal_inv first.1 actions c journal noted) in
        rw (rw (read, noted) at pending, ← confirmed) (pending_after c second.1 x reads l still')
