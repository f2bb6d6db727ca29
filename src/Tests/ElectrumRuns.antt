-- ===== src/Tests/ElectrumRuns.antt =====
-- The theorems about the Electrum server at concrete inputs.
use mathlib.Core.List.{Perm}
use nakamoto_electrs.Prelude.{
  ◌≡◌, refl, true, not, ◌&&◌, none, some, List, [], ◌∷◌, ◌++◌, map, ok, Option, beq, if◌then◌else◌,
}
use nakamoto_electrs.Prelude.Int.{negsuc}
use nakamoto_electrs.Prelude.Sort
use nakamoto_electrs.Bytes.{Bytes}
use nakamoto_electrs.BlockSource.{BlockEvent, connected}
use nakamoto_electrs.Sled.Entries.{find}
use nakamoto_electrs.HashMap.{get}
use nakamoto_electrs.HashMap.Keys.{bytes_eq}
use nakamoto_electrs.HashMap.Sets.{has}
use nakamoto_electrs.Metrics.{zeroed, inc_transactions_broadcast}
use nakamoto_electrs.Store.Types.{ScriptHash}
use nakamoto_electrs.Indexer.State.{IndexState, from_script}
use nakamoto_electrs.Indexer.Mempool.{track_pending_transaction}
use nakamoto_electrs.Store.Index.{load_output}
use nakamoto_electrs.Bitcoin.{same_outpoint}
use nakamoto_electrs.Indexer.Pending.{
  pending_tx_touches_script, input_touches, output_touches, script_hash_for_outpoint,
  pending_output_for_outpoint,
}
use nakamoto_electrs.Indexer.Queries.Fees.{
  MempoolEntry, mempool_loop, mempool_inputs, output_total, pending_mempool_for_script,
}
use nakamoto_electrs.Electrum.Crates.{Reply, done}
use nakamoto_electrs.Electrum.Scripthash.{to_hex, parse_scripthash_str}
use nakamoto_electrs.Electrum.Scripthash.RoundTrip.{parse_scripthash_str-to_hex}
use nakamoto_electrs.Electrum.Headers.{headers_from}
use nakamoto_electrs.Electrum.Headers.Range.{missing, held, headers_from_lem}
use nakamoto_electrs.Electrum.StatusHash.{script_status}
use nakamoto_electrs.Electrum.StatusHash.Pending.{Row, hashed, script_status_twice}
use nakamoto_electrs.Electrum.StatusHash.{int_to_string}
use nakamoto_electrs.Text.{to_string}
use nakamoto_electrs.Electrum.Client.{ClientState, new_client}
use nakamoto_electrs.Electrum.Status.{Server, Delivered}
use nakamoto_electrs.Prelude.{false, arith}
use nakamoto_electrs.Electrum.Broadcast.{handle_transaction_broadcast, parse_transaction}
use nakamoto_electrs.Electrum.Broadcast.Tracked.{broadcast_tracked}
use nakamoto_electrs.Electrum.Dispatch.{Connection, Context, dispatch_request}
use nakamoto_electrs.Electrum.Notify.{
  same_header, event_header, notify_tip, notify_block, notify_pending, change_message,
  header_message,
}
use nakamoto_electrs.Electrum.Notify.Refresh.{differing, read_wanted}
use nakamoto_electrs.Electrum.Notify.Messages.{notify_pending_lem, notify_tip_lem}
use nakamoto_electrs.Electrum.Notify.Again.{notify_block_again}
use nakamoto_electrs.Electrum.Session.{IsValid, Reachable, initial, request}
use nakamoto_electrs.Electrum.Session.Invariant.{Reachable-IsValid}
use nakamoto_electrs.Tests.Instances.{
  memory, reliable, toy, lawful, digest, digest-IsArray, Tx, spend, rival, empty_state,
}
use nakamoto_electrs.Tests.MempoolRuns.{empty_IsListed}
use nakamoto_electrs.Tests.Peers.{blocks, crates, short_chain, pair, str, nil}

parse_scripthash_str-to_hex_example : parse_scripthash_str (to_hex (digest 171)) ≡ done (digest 171)
parse_scripthash_str-to_hex_example = parse_scripthash_str-to_hex (digest 171) (digest-IsArray 171)

-- headers from the height 2 on, of which there are two
headers_from_lem_example : headers_from 2 5 short_chain ≡ done (2, 2 ∷ 3 ∷ [])
headers_from_lem_example =
    headers_from_lem short_chain 2 5 (2 ∷ 3 ∷ [])
      (held 4 2 2 (3 ∷ []) refl (held 3 3 3 [] refl (missing 2 4 refl)))

abbrev spending : IndexState
spending = record empty_state { pending_txs = (digest 2, spend) ∷ [] }

abbrev context : Context
context = record { version = []; source = short_chain; broadcaster = none; fee_rate = 0 }

abbrev opened : Connection
opened = record {
  metrics = zeroed;
  server = record { index = empty_state; senders = [] };
  client = new_client;
}

-- the script hash that the spend pays
abbrev paid : ScriptHash
paid = from_script (8 ∷ [])

-- a request to follow that script hash
abbrev follow : Bytes
follow = 1 ∷ to_hex paid

abbrev follower : ClientState
follower = (dispatch_request context follow opened).1.client

following : Reachable follower
following = request context follow opened initial

Reachable-IsValid_example : IsValid follower
Reachable-IsValid_example = Reachable-IsValid follower following

notify_pending_lem_example :
    let after = notify_pending (paid ∷ []) spending follower in
    (after.0
      ≡ map change_message (
          differing
            (read_wanted (λ sh. has sh (paid ∷ [])) spending)
            follower.status_by_scripthash
            follower.subscribed))
    × ((sh : ScriptHash) (status : Option Bytes)
        → has sh (paid ∷ []) ≡ true
        → has sh follower.subscribed ≡ true
        → script_status sh spending ≡ ok status
        → get sh after.1.status_by_scripthash ≡ some status)
notify_pending_lem_example = notify_pending_lem (paid ∷ []) spending follower following

abbrev next_block : BlockEvent
next_block = connected (record { at = 5; txs = spend ∷ [] }) 5

notify_tip_lem_example :
    let after = notify_tip next_block spending short_chain follower in
    let current = event_header next_block spending short_chain in
    (after.0
      ≡ (if follower.headers_subscribed && not (same_header follower.header_subscription current)
          then header_message current ∷ []
          else [])
        ++ map change_message (
            differing
              (read_wanted (λ sh. true) spending)
              follower.status_by_scripthash
              follower.subscribed))
    × ((sh : ScriptHash) (status : Option Bytes)
        → has sh follower.subscribed ≡ true
        → script_status sh spending ≡ ok status
        → get sh after.1.status_by_scripthash ≡ some status)
notify_tip_lem_example = notify_tip_lem next_block spending short_chain follower following

notify_block_again_example :
    (notify_block next_block spending short_chain
      (notify_block next_block spending short_chain follower).1).0
    ≡ []
notify_block_again_example = notify_block_again next_block spending short_chain follower following

-- the spend as an entry of the mempool
abbrev entry : MempoolEntry
entry = record { txid = digest 2; height = negsuc 0; fee = 0 }

one_entry : pending_mempool_for_script paid spending ≡ ok (entry ∷ [])
unfolding pending_mempool_for_script mempool_loop mempool_inputs pending_tx_touches_script
    input_touches output_touches script_hash_for_outpoint pending_output_for_outpoint get find
    load_output from_script output_total beq has Sort.sort_by Sort.insert_by same_outpoint
one_entry = refl

script_status_twice_example :
    (history : List Row) × Perm history ([] ++ (digest 2, to_string 0) ∷ [])
    × (script_status paid spending
        ≡ ok (hashed (history ++ (digest 2, int_to_string (negsuc 0)) ∷ [])))
unfolding get
script_status_twice_example = script_status_twice paid spending (entry ∷ []) one_entry

-- one client listens, and one went away
abbrev busy : Server
busy = record {
  index = spending;
  senders = record { is_open = false; queue = [] } ∷ record { is_open = true; queue = [] } ∷ [];
}

-- the peer takes every transaction
abbrev accept : Tx → Reply (Unit {0})
accept tx = done tt

rival_output : output_touches (from_script (9 ∷ [])) (toy.outputs rival) ≡ true
unfolding output_touches from_script beq
rival_output = refl

rival_pays : (s : IndexState) → pending_tx_touches_script rival (from_script (9 ∷ [])) s ≡ true
unfolding pending_tx_touches_script
rival_pays s = ground (arith, rival_output)

broadcast_tracked_example :
    let after =
      handle_transaction_broadcast (pair (str (3 ∷ [])) nil) (some accept) (zeroed, busy) in
    (after.0 ≡ done (str (digest 3)))
    × (get (digest 3) after.1.1.index.pending_txs ≡ some rival)
    × (after.1.0 ≡ inc_transactions_broadcast zeroed)
    × ((affected : List ScriptHash) × Delivered affected busy.senders after.1.1.senders
        × (has (from_script (9 ∷ [])) affected ≡ true))
unfolding parse_transaction
broadcast_tracked_example =
    broadcast_tracked reliable lawful (pair (str (3 ∷ [])) nil) rival accept zeroed busy
      (from_script (9 ∷ [])) refl refl empty_IsListed
      (rival_pays (track_pending_transaction rival spending).1)
