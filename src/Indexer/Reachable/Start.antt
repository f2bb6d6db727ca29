-- ===== src/Indexer/Reachable/Start.antt =====
-- A start from a store whose transactions stand under their ids, and whose list of pending txids
-- can be read, makes a coherent state.
use nakamoto_electrs.Prelude.{
  ◌≡◌, sym, arith, true, Bool-cases, inl, inr, Option, none, some, List, [], ◌∷◌, ok, err, Result,
  Result-cases, beq_refl, eq_of_beq,
}
use mathlib.Core.Path.{subst}
use nakamoto_electrs.Prelude.Exec.{asks, ◌>>=◌, ◌>>◌}
use nakamoto_electrs.Prelude.Exec.Keeps.{Keeps, asks-Keeps, bind-Keeps, method_rules}
use nakamoto_electrs.Bitcoin.{Bitcoin}
use nakamoto_electrs.Sled.{Sled}
use nakamoto_electrs.HashMap.{get}
use nakamoto_electrs.HashMap.Keys.{bytes_eq}
use nakamoto_electrs.HashMap.Sets.{has}
use nakamoto_electrs.HashMap.Laws.{get-insert}
use nakamoto_electrs.Store.Types.{Txid, StoredHistoryEntry, StoredJournalAction}
use nakamoto_electrs.Store.Loops.{contains}
use nakamoto_electrs.Store.Index.{
  PersistentIndex, load_tx, load_pending_txids, load_history_entries, tip_height,
}
use nakamoto_electrs.Indexer.State.{IndexState, push_history, push_action}
use nakamoto_electrs.Indexer.Pending.{rebuild_pending_view}
use nakamoto_electrs.Indexer.Mempool.Track.{IsListed}
use nakamoto_electrs.Indexer.Startup.{
  load_history, load_history_from_store, action_of, load_actions, load_journal_from_store,
  load_pending, load_pending_from_store, sort_actions, new, insert_found, state_of,
}
use nakamoto_electrs.Indexer.Reachable.Sound.{
  IsSound, IsCoherent, IsNamed, rebuild-IsCoherent, IsSound-aside, insert-IsKeyed,
}

module _ ⦃sl : Sled⦄ ⦃bc : Bitcoin⦄ where
  load_history-IsSound :
      (es : List StoredHistoryEntry) (s : IndexState) → IsSound s → IsSound (load_history es s)
  unfolding load_history push_history
  load_history-IsSound [] s h = h
  load_history-IsSound (e ∷ es) s h =
      load_history-IsSound es _ (IsSound-aside s _ s.by_height s.tip_height h)

  load_actions-IsSound :
      (actions : List StoredJournalAction) (confirmed : List Txid)
      → Keeps IsSound (load_actions actions confirmed)
  unfolding load_actions push_action
  load_actions-IsSound [] confirmed = record { at = λ s h. h }
  load_actions-IsSound (a ∷ rest) confirmed = record {
    at = λ s h. elim (Result-cases (action_of a a.kind)) [
      | inl (entry, e) ↦
          rw (load_actions, e)
            ((load_actions-IsSound rest _).at _ (IsSound-aside s s.history _ s.tip_height h))
      | inr (x, e) ↦ rw (load_actions, e) h
    ];
  }

  insert_found-IsSound :
      (txid : Txid) (found : Option bc.Transaction) (s : IndexState) (h : IsSound s)
      → load_tx txid s.store ≡ ok found
      → contains h.listed.txids txid ≡ true
      → IsSound (record s { pending_txs = insert_found txid found s.pending_txs })
  insert_found-IsSound txid none s h e listed = h
  insert_found-IsSound txid (some tx) s h e listed = record {
    listed = h.listed;
    durable = λ x other g.
        ground (
          arith,
          get-insert x txid tx s.pending_txs,
          eq_of_beq txid x,
          h.durable x other,
          g,
          listed,
        );
    keyed = insert-IsKeyed txid tx s.pending_txs (sym (h.named txid tx e)) h.keyed;
    named = h.named;
  }

  sorted-Keeps :
      (confirmed : List Txid)
      → Keeps IsSound (λ s. (ok confirmed, record s { by_height = sort_actions s.by_height }))
  sorted-Keeps confirmed = record { at = λ s h. IsSound-aside s s.history _ s.tip_height h }

  -- the loop over a part of the store's list
  load_pending-IsSound :
      (confirmed ts listed : List Txid) (s : IndexState)
      → IsSound s
      → load_pending_txids s.store ≡ ok listed
      → ((x : Txid) → contains ts x ≡ true → contains listed x ≡ true)
      → IsSound (load_pending confirmed ts s).1
  unfolding load_pending
  load_pending-IsSound confirmed [] listed s h l within = h
  load_pending-IsSound confirmed (t ∷ ts) listed s h l within =
      let later =
        λ (x : Txid) (e : contains ts x ≡ true). within x (unfold contains in ground (arith, e)) in
      elim (Bool-cases (has t confirmed)) [
        | inl c ↦ rw (load_pending, c) (load_pending-IsSound confirmed ts listed s h l later)
        | inr c ↦ elim (Result-cases (load_tx t s.store)) [
          | inl (found, e) ↦
              let here = within t (unfold contains in ground (arith, beq_refl t)) in
              let same : contains h.listed.txids t ≡ true = cc (here, l, h.listed.loads) in
              rw (load_pending, c, e)
                (load_pending-IsSound confirmed ts listed _
                  (insert_found-IsSound t found s h e same) l later)
          | inr (x, e) ↦ rw (load_pending, c, e) h
        ]
      ]

  load_history-Keeps : Keeps IsSound load_history_from_store
  unfolding load_history_from_store
  load_history-Keeps =
      bind-Keeps (asks (λ s. load_history_entries s.store)) (λ es s. (ok tt, load_history es s))
        (asks-Keeps _) (λ es. record { at = λ s h. load_history-IsSound es s h })

  load_journal-Keeps : Keeps IsSound load_journal_from_store
  unfolding load_journal_from_store
  load_journal-Keeps = search (method_rules, load_actions-IsSound, sorted-Keeps) depth 10

  load_pending-Keeps : (confirmed : List Txid) → Keeps IsSound (load_pending_from_store confirmed)
  unfolding load_pending_from_store
  load_pending-Keeps confirmed = record {
    at = λ s h. rw (h.listed.loads) (
        load_pending-IsSound confirmed h.listed.txids h.listed.txids s h h.listed.loads (λ x e. e));
  }

  loads : Keeps IsSound (do
    load_history_from_store
    confirmed ← load_journal_from_store
    load_pending_from_store confirmed)
  loads = search (method_rules, load_history-Keeps, load_journal-Keeps, load_pending-Keeps) depth 10

  state_of-IsCoherent :
      (m : Result (Unit {0}) × IndexState) (s : IndexState)
      → IsSound m.1
      → state_of m ≡ ok s
      → IsCoherent s
  state_of-IsCoherent (ok x, t) s h e =
      let same : rebuild_pending_view t ≡ s = cc (e) in
      subst IsCoherent same (rebuild-IsCoherent t h)
  state_of-IsCoherent (err x, t) s h e = absurd (cc (e))

  pub new-IsCoherent :
      (store : PersistentIndex) (s : IndexState)
      → IsListed store
      → IsNamed store
      → new store ≡ ok s
      → IsCoherent s
  unfolding new
  new-IsCoherent store s listed named e =
      let start : IndexState = record {
        history = [];
        by_height = [];
        pending_txs = [];
        pending_outputs = [];
        tip_height = tip_height store;
        store = store;
      } in
      let begins : IsSound start = record {
        listed = listed;
        durable = λ x tx g. absurd (unfold get in cc (g));
        keyed = tt;
        named = named;
      } in
      state_of-IsCoherent _ s (loads.at start begins) e
