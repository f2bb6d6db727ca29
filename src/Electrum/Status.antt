-- ===== src/Electrum/Status.antt =====
-- Transaction states reported by the peer (src/electrum_server.rs): `apply_tx_status_kind` and the
-- broadcast to the connected clients. A channel is the list of what was sent and not yet received,
-- the oldest first.
use nakamoto_electrs.Prelude.{
  ◌≡◌, refl, Bool, true, false, Bool-cases, inl, inr, Option, none, some, List, [], ◌∷◌, ◌++◌,
  if◌then◌else◌, ok,
}
use nakamoto_electrs.Prelude.Exec.{Exec, pure, ◌>>=◌}
use nakamoto_electrs.Bitcoin.{Bitcoin}
use nakamoto_electrs.Sled.{Sled}
use nakamoto_electrs.HashMap.{get}
use nakamoto_electrs.HashMap.Keys.{bytes_eq}
use nakamoto_electrs.Store.Types.{ScriptHash, Txid}
use nakamoto_electrs.Indexer.State.{IndexState}
use nakamoto_electrs.Indexer.Graph.Closure.{Reach}
use nakamoto_electrs.Indexer.Mempool.{
  descendants, restore_pending_transaction, forget_pending_transaction,
  forget_pending_transaction_chain, forget_pending_transaction_chain_internal,
}
use nakamoto_electrs.Indexer.Mempool.Affected.{has-chain_affected}
use nakamoto_electrs.Indexer.Pending.{pending_tx_touches_script}
use nakamoto_electrs.HashMap.Sets.{has}
use nakamoto_electrs.Indexer.Mempool.{chain_affected}
use nakamoto_electrs.Indexer.Mempool.Chain.{forgotten_chain}

-- one end of a channel: whether the client still listens, and what waits in it
pub record Sender : Type 0 where
  pub is_open : Bool
  pub queue : List (List ScriptHash)

pub data TxStatusKind : Type 0 where
  reverted confirmed stale acknowledged other : TxStatusKind

-- `PendingChangeBroadcaster::subscribe`
unfoldable pub subscribe : List Sender → List Sender
subscribe senders = senders ++ record { is_open = true; queue = [] } ∷ []

-- `PendingChangeBroadcaster::broadcast`: a closed channel is dropped
unfoldable pub broadcast : List ScriptHash → List Sender → List Sender
broadcast affected [] = []
broadcast affected (c ∷ rest) =
    let others = broadcast affected rest in
    if c.is_open then record c { queue = c.queue ++ affected ∷ [] } ∷ others else others

-- From the first channels to the second, a list was appended to each queue whose client listens,
-- and the other channels were dropped.
pub data Delivered (affected : List ScriptHash) : List Sender → List Sender → Type 0 where
  nobody : Delivered affected [] []
  heard :
      (c : Sender) (cs ds : List Sender)
      → c.is_open ≡ true
      → Delivered affected cs ds
      → Delivered affected
          (c ∷ cs)
          (record { is_open = true; queue = c.queue ++ affected ∷ [] } ∷ ds)
  dropped :
      (c : Sender) (cs ds : List Sender)
      → c.is_open ≡ false
      → Delivered affected cs ds
      → Delivered affected (c ∷ cs) ds

pub broadcast-Delivered :
    (affected : List ScriptHash) (cs : List Sender) → Delivered affected cs (broadcast affected cs)
unfolding broadcast
broadcast-Delivered affected [] = nobody
broadcast-Delivered affected (c ∷ cs) =
    let rest = broadcast-Delivered affected cs in
    elim (Bool-cases c.is_open) [
      | inl e ↦ simp (broadcast, e) (heard c cs (broadcast affected cs) e rest)
      | inr e ↦ simp (broadcast, e) (dropped c cs (broadcast affected cs) e rest)
    ]

module _ ⦃sl : Sled⦄ ⦃bc : Bitcoin⦄ where
  pub record Server : Type 0 where
    pub index : IndexState
    pub senders : List Sender

  -- a call on the index
  abbrev pub on_index : {A : Type 0} → Exec IndexState A → Exec Server A
  on_index m s = ((m s.index).0, record s { index = (m s.index).1 })

  -- the same for one that cannot fail
  abbrev pub update : {A : Type 0} → (IndexState → A × IndexState) → Exec Server A
  update f s = (ok (f s.index).0, record s { index = (f s.index).1 })

  -- the match of `apply_tx_status_kind`
  unfoldable pub apply_kind : Txid → TxStatusKind → Exec Server (Option (List ScriptHash))
  apply_kind txid reverted = on_index (restore_pending_transaction txid)
  apply_kind txid confirmed = update (forget_pending_transaction txid)
  apply_kind txid stale = update (forget_pending_transaction_chain txid)
  apply_kind txid acknowledged = pure none
  apply_kind txid other = pure none

  -- `if let Some(affected) = affected { pending_changes.broadcast(affected); }`
  abbrev pub notify : Option (List ScriptHash) → Exec Server (Unit {0})
  notify none s = (ok tt, s)
  notify (some affected) s = (ok tt, record s { senders = broadcast affected s.senders })

  unfoldable pub apply_tx_status_kind : Txid → TxStatusKind → Exec Server (Unit {0})
  unfolding apply_kind
  apply_tx_status_kind txid kind = do affected ← apply_kind txid kind; notify affected

  forget_chain_found :
      (txid : Txid) (s : IndexState) (tx : bc.Transaction)
      → get txid s.pending_txs ≡ some tx
      → forget_pending_transaction_chain txid s ≡ (
        some (forget_pending_transaction_chain_internal txid s).0,
        (forget_pending_transaction_chain_internal txid s).1,
      )
  unfolding forget_pending_transaction_chain
  forget_chain_found txid s tx e = rw (forget_pending_transaction_chain, e) refl

  -- When a pending transaction is reported as replaced, the handler succeeds and it and its
  -- descendants are no longer pending. One list of script hashes is appended to what waits for
  -- each client that still listens, and closed channels are dropped; the list holds every script
  -- hash that the transaction, or a pending descendant of it, touched before.
  pub apply_stale :
      (s : Server) (txid x : Txid) (root tx : bc.Transaction) (sh : ScriptHash)
      → get txid s.index.pending_txs ≡ some root
      → Reach (descendants s.index.pending_txs) txid x
      → get x s.index.pending_txs ≡ some tx
      → pending_tx_touches_script tx sh s.index ≡ true
      → let after = apply_tx_status_kind txid stale s in
        (after.0 ≡ ok tt)
        × (get x after.1.index.pending_txs ≡ none)
        × ((affected : List ScriptHash) × Delivered affected s.senders after.1.senders
            × (has sh affected ≡ true))
  unfolding apply_tx_status_kind apply_kind forget_pending_transaction_chain_internal
  apply_stale s txid x root tx sh e reach held touches =
      let affected = chain_affected txid s.index in
      rw (forget_chain_found txid s.index root e) (
        refl,
        forgotten_chain s.index txid x reach,
        (
          affected,
          broadcast-Delivered affected s.senders,
          has-chain_affected sh s.index txid x tx reach held touches,
        ),
      )
