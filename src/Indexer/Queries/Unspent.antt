-- ===== src/Indexer/Queries/Unspent.antt =====
-- `list_unspent` of src/indexer.rs and the pending unspent outputs it appends.
pub mod Free
use Prim.Native.Nat.{compare}
use nakamoto_electrs.Prelude.{
  Bool, List, [], ◌∷◌, ◌++◌, ◌==◌, ◌&&◌, beq, if◌then◌else◌, Result, map_ok,
}
use nakamoto_electrs.Prelude.Sort.{sort_by}
use nakamoto_electrs.Bytes.Order.{bcmp, then}
use nakamoto_electrs.Bitcoin.{OutPoint, Bitcoin}
use nakamoto_electrs.Sled.{Sled}
use nakamoto_electrs.HashMap.{HashMap}
use nakamoto_electrs.HashMap.Keys.{bytes_eq, outpoint_eq, ◌≐◌}
use nakamoto_electrs.HashMap.Sets.{has}
use nakamoto_electrs.Store.Types.{ScriptHash, StoredOutput, StoredUnspent}
use nakamoto_electrs.Store.Index.{list_unspent_for_script}
use nakamoto_electrs.Indexer.State.{IndexState}
use nakamoto_electrs.Indexer.Pending.{pending_spent_outpoints}
use nakamoto_electrs.Indexer.Queries.History.{not_gt}

module _ ⦃sl : Sled⦄ ⦃bc : Bitcoin⦄ where
  -- `.filter(|entry| !spent.contains(…))`
  unfoldable pub drop_spent : List OutPoint → List StoredUnspent → List StoredUnspent
  drop_spent spent [] = []
  drop_spent spent (e ∷ es) =
      let rest = drop_spent spent es in
      let at : OutPoint = record { txid = e.txid; vout = e.vout } in
      if has at spent then rest else e ∷ rest

  unfoldable pub paying : ScriptHash → HashMap OutPoint StoredOutput → List StoredUnspent
  paying sh [] = []
  paying sh ((o, output) ∷ rest) =
      let others = paying sh rest in
      if output.script_hash ≐ sh
      then record {
        txid = output.txid;
        vout = output.vout;
        value = output.value;
        height = output.height;
      }
        ∷ others
      else others

  unfoldable pub pending_unspent_for_script : ScriptHash → IndexState → List StoredUnspent
  unfolding paying
  pending_unspent_for_script sh s = paying sh s.pending_outputs

  -- `dedup_by_key`: an entry is dropped where the one kept before it has the same outpoint
  unfoldable pub dedup_after : StoredUnspent → List StoredUnspent → List StoredUnspent
  dedup_after kept [] = []
  dedup_after kept (e ∷ es) =
      let same = dedup_after kept es in
      let other = dedup_after e es in
      if beq e.txid kept.txid && e.vout == kept.vout then same else e ∷ other

  unfoldable pub dedup : List StoredUnspent → List StoredUnspent
  unfolding dedup_after
  dedup [] = []
  dedup (e ∷ es) = e ∷ dedup_after e es

  unfoldable pub unspent_le : StoredUnspent → StoredUnspent → Bool
  unfolding bcmp
  unspent_le a b = not_gt (
      (then) (compare a.height b.height)
        ((then) (bcmp (bc.txid_string a.txid) (bc.txid_string b.txid)) (compare a.vout b.vout)))

  unfoldable pub list_unspent : ScriptHash → IndexState → Result (List StoredUnspent)
  unfolding list_unspent_for_script pending_unspent_for_script drop_spent dedup unspent_le
  list_unspent sh s =
      map_ok
        (λ confirmed. dedup (
          sort_by unspent_le
            (drop_spent (pending_spent_outpoints s) confirmed ++ pending_unspent_for_script sh s)))
        (list_unspent_for_script sh s.store)
