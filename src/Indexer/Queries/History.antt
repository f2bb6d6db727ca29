-- ===== src/Indexer/Queries/History.antt =====
-- `get_history` of src/indexer.rs: confirmed and unconfirmed entries in one order.
pub mod Order
use Prim.Native.Nat.Ordering.{lt, eq, gt}
use Prim.Native.Nat.{compare, Ordering}
use nakamoto_electrs.Prelude.{Bool, true, false, List, [], ◌∷◌, ◌++◌, if◌then◌else◌}
use nakamoto_electrs.Prelude.Sort.{sort_by}
use nakamoto_electrs.Bytes.Order.{bcmp, then}
use nakamoto_electrs.Bitcoin.{Bitcoin}
use nakamoto_electrs.Sled.{Sled}
use nakamoto_electrs.HashMap.{HashMap, get, listed}
use nakamoto_electrs.HashMap.Keys.{bytes_eq, outpoint_eq}
use nakamoto_electrs.Store.Types.{ScriptHash, Txid, TxEntry}
use nakamoto_electrs.Store.Loops.{height_rank}
use nakamoto_electrs.Indexer.State.{IndexState}
use nakamoto_electrs.Indexer.Pending.{pending_tx_touches_script}

-- `≤` by an ordering
abbrev pub not_gt : Ordering → Bool
not_gt lt = true
not_gt eq = true
not_gt gt = false

module _ ⦃sl : Sled⦄ ⦃bc : Bitcoin⦄ where
  -- the key of the sort of `get_history`
  unfoldable pub combined_le : TxEntry → TxEntry → Bool
  unfolding height_rank bcmp
  combined_le a b = not_gt (
      (then) (compare (height_rank a.height) (height_rank b.height)) (
        (then) (compare a.sequence b.sequence)
          (bcmp (bc.txid_string a.txid) (bc.txid_string b.txid))))

  -- the loop of `pending_history_for_script` over the pending transactions
  unfoldable pub touching : ScriptHash → IndexState → HashMap Txid bc.Transaction → List TxEntry
  touching sh s [] = []
  touching sh s ((key, tx) ∷ rest) =
      let others = touching sh s rest in
      if pending_tx_touches_script tx sh s
      then record { txid = bc.compute_txid tx; height = 0; sequence = 0 } ∷ others
      else others

  unfoldable pub pending_history_for_script : ScriptHash → IndexState → List TxEntry
  pending_history_for_script sh s = touching sh s s.pending_txs

  unfoldable pub get_history : ScriptHash → IndexState → List TxEntry
  unfolding pending_history_for_script combined_le
  get_history sh s =
      sort_by combined_le (listed (get sh s.history) ++ pending_history_for_script sh s)
