-- ===== src/Electrum/StatusHash/Pending.antt =====
-- What a status of src/electrum_server.rs is the hash of, where transactions are pending.
use nakamoto_electrs.Prelude.{
  ℕ, ◌≡◌, refl, ap, ◌∙◌, Option, none, some, List, [], ◌∷◌, ◌++◌, map, ok, err, Bool, false,
  Bool-cases, inl, inr, Result, map_ok, map_ok_inv,
}
use nakamoto_electrs.Prelude.Sort.Perms.{sort_by-Perm}
use mathlib.Core.List.{Perm, map-append, append_assoc}
use mathlib.Core.List.Perm as Perm
use nakamoto_electrs.Bytes.{Bytes}
use nakamoto_electrs.Text.{text, to_string}
use nakamoto_electrs.Electrum.Crates.{Crates}
use nakamoto_electrs.Electrum.StatusHash.{
  int_to_string, status_line, history_lines, mempool_lines, compute_status_hash, script_status,
}
use nakamoto_electrs.Bitcoin.{Bitcoin}
use nakamoto_electrs.Sled.{Sled}
use nakamoto_electrs.HashMap.{HashMap, get, listed}
use nakamoto_electrs.HashMap.Keys.{bytes_eq}
use nakamoto_electrs.Store.Types.{ScriptHash, Txid, TxEntry}
use nakamoto_electrs.Indexer.State.{IndexState}
use nakamoto_electrs.Indexer.Pending.{pending_tx_touches_script}
use nakamoto_electrs.Indexer.Queries.History.{
  touching, pending_history_for_script, combined_le, get_history,
}
use nakamoto_electrs.Indexer.Queries.Fees.{
  MempoolEntry, mempool_entry, mempool_inputs, mempool_loop, pending_mempool_for_script,
}

-- a line of the text that is hashed: a txid and the text of a height
abbrev pub Row : Type 0
Row = Txid × Bytes

abbrev pub history_row : TxEntry → Row
history_row e = (e.txid, to_string e.height)

abbrev pub mempool_row : MempoolEntry → Row
mempool_row e = (e.txid, int_to_string e.height)

-- an entry of the mempool, with the height 0
abbrev pub unconfirmed_row : MempoolEntry → Row
unconfirmed_row e = (e.txid, to_string 0)

module _ ⦃bc : Bitcoin⦄ where
  -- `txid:height:` for each row
  abbrev pub text_of : List Row → Bytes
  text_of [] = []
  text_of ((txid, height) ∷ rows) =
      bc.txid_string txid ++ (text ":" ++ (height ++ (text ":" ++ text_of rows)))

  -- The hash of the rows, where there are any.
  abbrev pub hashed : ⦃cr : Crates⦄ → List Row → Option Bytes
  hashed [] = none
  hashed ⦃cr⦄ (row ∷ rows) = some (cr.digest_string (bc.sha256 (text_of (row ∷ rows))))

  line_lem :
      (id height rest : Bytes)
      → (id ++ (text ":" ++ (height ++ text ":"))) ++ rest
        ≡ id ++ (text ":" ++ (height ++ (text ":" ++ rest)))
  line_lem id height rest =
      append_assoc id (text ":" ++ (height ++ text ":")) rest
      ∙ ap (λ xs. id ++ (text ":" ++ xs)) (append_assoc height (text ":") rest)

  history_lines_lem :
      (es : List TxEntry) (rows : List Row)
      → history_lines es ++ text_of rows ≡ text_of (map history_row es ++ rows)
  unfolding history_lines
  history_lines_lem [] rows = refl
  history_lines_lem (e ∷ es) rows =
      append_assoc (status_line e.txid (to_string e.height)) (history_lines es) (text_of rows)
      ∙ line_lem (bc.txid_string e.txid) (to_string e.height) (history_lines es ++ text_of rows)
      ∙ ap (λ xs. bc.txid_string e.txid ++ (text ":" ++ (to_string e.height ++ (text ":" ++ xs))))
          (history_lines_lem es rows)

  mempool_lines_lem : (es : List MempoolEntry) → mempool_lines es ≡ text_of (map mempool_row es)
  unfolding mempool_lines
  mempool_lines_lem [] = refl
  mempool_lines_lem (e ∷ es) =
      line_lem (bc.txid_string e.txid) (int_to_string e.height) (mempool_lines es)
      ∙ ap
          (λ xs.
            bc.txid_string e.txid ++ (text ":" ++ (int_to_string e.height ++ (text ":" ++ xs))))
          (mempool_lines_lem es)

  compute_status_hash_lem :
      ⦃cr : Crates⦄ (history : List TxEntry) (mempool : List MempoolEntry)
      → compute_status_hash history mempool
        ≡ hashed (map history_row history ++ map mempool_row mempool)
  unfolding compute_status_hash
  compute_status_hash_lem [] [] = refl
  compute_status_hash_lem [] (m ∷ ms) =
      rw (mempool_lines_lem (m ∷ ms)) (unfold history_lines in refl)
  compute_status_hash_lem (e ∷ es) ms =
      rw (mempool_lines_lem ms, history_lines_lem (e ∷ es) (map mempool_row ms)) refl

module _ ⦃sl : Sled⦄ ⦃bc : Bitcoin⦄ where
  entry_rows :
      (tx : bc.Transaction) (found : Result (ℕ × Bool)) (others : Result (List MempoolEntry))
      (entries : List MempoolEntry) (rows : List Row)
      → ((es : List MempoolEntry) → others ≡ ok es → rows ≡ map unconfirmed_row es)
      → elim found [ err e ↦ err e | ok f ↦ map_ok (λ o. mempool_entry tx f ∷ o) others ]
        ≡ ok entries
      → (bc.compute_txid tx, to_string 0) ∷ rows ≡ map unconfirmed_row entries
  entry_rows tx (err e) others entries rows k h = absurd (cc (h))
  entry_rows tx (ok found) (err e) entries rows k h = absurd (cc (h))
  entry_rows tx (ok found) (ok others) entries rows k h =
      let same : mempool_entry tx found ∷ others ≡ entries = cc in rw (← same, k others refl) refl

  same_rows :
      (sh : ScriptHash) (s : IndexState) (m : HashMap Txid bc.Transaction)
      (entries : List MempoolEntry)
      → mempool_loop sh s m ≡ ok entries
      → map history_row (touching sh s m) ≡ map unconfirmed_row entries
  unfolding mempool_loop touching
  same_rows sh s [] entries h = let e : [] ≡ entries = cc in ap (map unconfirmed_row) e
  same_rows sh s ((key, tx) ∷ m) entries h = elim (Bool-cases (pending_tx_touches_script tx sh s)) [
    | inl t ↦ rw t (
        entry_rows tx (mempool_inputs s (bc.prevouts tx) [] 0 false) (mempool_loop sh s m) entries
          (map history_row (touching sh s m)) (λ es e. same_rows sh s m es e)
          (rw (mempool_loop, t) at h))
    | inr t ↦ rw t (same_rows sh s m entries (rw (mempool_loop, t) at h))
  ]

  history_rows :
      (sh : ScriptHash) (s : IndexState) (entries : List MempoolEntry)
      → pending_mempool_for_script sh s ≡ ok entries
      → Perm
          (map history_row (get_history sh s))
          (map history_row (listed (get sh s.history)) ++ map unconfirmed_row entries)
  unfolding get_history pending_history_for_script pending_mempool_for_script
  history_rows sh s entries h =
      let (found, e, sorted) = map_ok_inv (mempool_loop sh s s.pending_txs) _ entries h in
      Perm.trans (Perm.map history_row (sort_by-Perm combined_le _)) (
        rw
          (
            map-append history_row (listed (get sh s.history)) (touching sh s s.pending_txs),
            same_rows sh s s.pending_txs found e,
            ← sorted,
          )
          (Perm.append_left (map history_row (listed (get sh s.history)))
            (Perm.symm (Perm.map unconfirmed_row (sort_by-Perm _ found)))))

  -- Where the mempool entries of a script hash can be read, its status is none if it has no
  -- history, and otherwise the hash of a text of lines `txid:height:`. These are, in some order, a
  -- line for each confirmed entry, with its height, and a line of height 0 for each mempool entry;
  -- and after them a second line for each mempool entry, with the height of the entry.
  pub script_status_twice :
      ⦃cr : Crates⦄ (sh : ScriptHash) (s : IndexState) (entries : List MempoolEntry)
      → pending_mempool_for_script sh s ≡ ok entries
      → (history : List Row) × Perm history
          (map history_row (listed (get sh s.history)) ++ map unconfirmed_row entries)
        × (script_status sh s ≡ ok (hashed (history ++ map mempool_row entries)))
  unfolding script_status
  script_status_twice sh s entries h = (
    map history_row (get_history sh s),
    history_rows sh s entries h,
    rw (h, compute_status_hash_lem (get_history sh s) entries) refl,
  )
