-- ===== src/Store/Open.antt =====
-- `PersistentIndex::open` of src/store.rs: the database is opened in at most ten attempts, since
-- another process may hold its lock for a while, and then its trees.
use nakamoto_electrs.Prelude.{ℕ, zero, suc, Result, ok, err, ◌>>=◌}
use nakamoto_electrs.Bytes.{Bytes}
use nakamoto_electrs.Text.{text}
use nakamoto_electrs.Sled.{Sled}
use nakamoto_electrs.Store.Index.{PersistentIndex}

module _ ⦃sl : Sled⦄ where
  -- `sled::open` at each attempt, and `open_tree`
  pub record Opener : Type 1 where
    pub Db : Type 0
    pub open_db : ℕ → Result Db
    pub open_tree : Db → Bytes → Result sl.Tree

  unfoldable pub open_trees : (o : Opener) → o.Db → Result PersistentIndex
  open_trees o db = o.open_tree db (text "history") >>= λ history.
      o.open_tree db (text "outputs") >>= λ outputs. o.open_tree db (text "txs") >>= λ txs.
      o.open_tree db (text "utxos") >>= λ utxos. o.open_tree db (text "journal") >>= λ journal.
      o.open_tree db (text "meta") >>= λ meta. ok (record {
        history = history;
        outputs = outputs;
        txs = txs;
        utxos = utxos;
        journal = journal;
        meta = meta;
      })

  -- the loop, of which `rest` attempts are left after the one numbered `attempt`
  unfoldable pub open_attempts : Opener → ℕ → ℕ → Result PersistentIndex
  unfolding open_trees
  open_attempts o attempt zero = elim (o.open_db attempt) [
    | ok db ↦ open_trees o db
    | err e ↦ err e
  ]
  open_attempts o attempt (suc rest) = elim (o.open_db attempt) [
    | ok db ↦ open_trees o db
    | err e ↦ open_attempts o (suc attempt) rest
  ]

  unfoldable pub open_index : Opener → Result PersistentIndex
  unfolding open_attempts
  open_index o = open_attempts o 0 9
