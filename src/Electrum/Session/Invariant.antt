-- ===== src/Electrum/Session/Invariant.antt =====
-- What holds of a connection's state all along.
use nakamoto_electrs.Prelude.{
  ◌&&◌, not, ◌≡◌, refl, arith, ℕ, Bool, true, false, Option, List, [], ◌∷◌, ◌++◌, Result, ok, err,
  Bool-cases, inl, inr, beq, eq_of_beq, beq_refl,
}
use nakamoto_electrs.Bytes.{Bytes}
use nakamoto_electrs.Bitcoin.{Bitcoin}
use nakamoto_electrs.BlockSource.{Blocks, BlockSource, BlockEvent, connected, disconnected, synced}
use nakamoto_electrs.Sled.{Sled}
use nakamoto_electrs.HashMap.{get}
use nakamoto_electrs.HashMap.Keys.{bytes_eq}
use nakamoto_electrs.HashMap.Sets.{has, has-append}
use nakamoto_electrs.HashMap.Laws.{get-insert}
use nakamoto_electrs.Store.Types.{ScriptHash}
use nakamoto_electrs.Indexer.State.{IndexState}
use nakamoto_electrs.Electrum.Crates.{Crates, Reply, done, fail}
use nakamoto_electrs.Electrum.StatusHash.{script_status}
use nakamoto_electrs.Electrum.Scripthash.{parse_scripthash}
use nakamoto_electrs.Electrum.Headers.{current_header_status}
use nakamoto_electrs.Electrum.Client.{
  ClientState, add_subscription, set_status, subscribed_reply, subscribe_parsed, headers_reply,
  handle_scripthash_subscribe, handle_headers_subscribe,
}
use nakamoto_electrs.Electrum.Dispatch.{
  Method, Connection, Context, call, dispatch_parsed, dispatch_request, method_of, params_of,
}
use nakamoto_electrs.Electrum.Notify.{
  same_header, refresh, refresh_header, event_header, notify_tip, notify_block, notify_pending,
}
use nakamoto_electrs.Electrum.Notify.Refresh.{Distinct, refresh_get, refresh_rest}
use nakamoto_electrs.Electrum.Session.{IsValid, Reachable, initial, request, block, pending}

Distinct-snoc :
    (subs : List ScriptHash) (sh : ScriptHash)
    → has sh subs ≡ false
    → Distinct subs
    → Distinct (subs ++ sh ∷ [])
unfolding has
Distinct-snoc [] sh h d = (refl, tt)
Distinct-snoc (x ∷ subs) sh h d = ground (
  arith,
  Distinct-snoc subs sh,
  has-append subs (sh ∷ []) x,
  eq_of_beq x sh,
  eq_of_beq sh x,
  beq_refl x,
  h,
)

add_subscription-IsValid :
    (sh : ScriptHash) (c : ClientState) → IsValid c → IsValid (add_subscription sh c)
unfolding add_subscription
add_subscription-IsValid sh c v = elim (Bool-cases (has sh c.subscribed)) [
  | inl h ↦ rw (add_subscription, h) v
  | inr h ↦
      rw (add_subscription, h)
        (record {
          distinct = Distinct-snoc c.subscribed sh h v.distinct;
          subscribed_only =
              λ x k. v.subscribed_only x (ground (arith, has-append c.subscribed (sh ∷ []) x, k));
          headers_only = v.headers_only;
        })
]

has-add_subscription :
    (sh : ScriptHash) (c : ClientState) → has sh (add_subscription sh c).subscribed ≡ true
unfolding add_subscription has
has-add_subscription sh c = elim (Bool-cases (has sh c.subscribed)) [
  | inl h ↦ rw (add_subscription, h) h
  | inr h ↦ rw (add_subscription, h, has-append c.subscribed (sh ∷ []) sh, h, has, beq_refl sh) refl
]

set_status-IsValid :
    (sh : ScriptHash) (status : Option Bytes) (c : ClientState)
    → has sh c.subscribed ≡ true
    → IsValid c
    → IsValid (set_status sh status c)
unfolding set_status
set_status-IsValid sh status c h v = record {
  distinct = v.distinct;
  subscribed_only = λ x k. elim (Bool-cases (beq sh x)) [
    | inl e ↦ absurd (let same = eq_of_beq sh x e in cc)
    | inr e ↦ rw (get-insert x sh status c.status_by_scripthash, e) (v.subscribed_only x k)
  ];
  headers_only = v.headers_only;
}

module _ ⦃sl : Sled⦄ ⦃bc : Bitcoin⦄ ⦃bl : Blocks⦄ ⦃cr : Crates⦄ where
  subscribed_reply-IsValid :
      (sh : ScriptHash) (r : Result (Option Bytes)) (c : ClientState)
      → has sh c.subscribed ≡ true
      → IsValid c
      → IsValid (subscribed_reply sh r c).1
  subscribed_reply-IsValid sh (ok status) c h v = set_status-IsValid sh status c h v
  subscribed_reply-IsValid sh (err e) c h v = v

  subscribe_parsed-IsValid :
      (r : Reply ScriptHash) (s : IndexState) (c : ClientState)
      → IsValid c
      → IsValid (subscribe_parsed r s c).1
  subscribe_parsed-IsValid (fail e) s c v = v
  subscribe_parsed-IsValid (done sh) s c v =
      subscribed_reply-IsValid sh (script_status sh s) (add_subscription sh c)
        (has-add_subscription sh c) (add_subscription-IsValid sh c v)

  headers_reply-IsValid :
      (r : Result (Option (ℕ × Bytes))) (c : ClientState)
      → IsValid c
      → IsValid (headers_reply r (record c { headers_subscribed = true })).1
  headers_reply-IsValid (ok current) c v = record {
    distinct = v.distinct;
    subscribed_only = v.subscribed_only;
    headers_only = λ h. absurd (cc (h));
  }
  headers_reply-IsValid (err e) c v = record {
    distinct = v.distinct;
    subscribed_only = v.subscribed_only;
    headers_only = λ h. absurd (cc (h));
  }

  call-IsValid :
      (x : Context) (method : Method) (params : cr.Value) (k : Connection)
      → IsValid k.client
      → IsValid (call x method params k).1.client
  unfolding call handle_scripthash_subscribe handle_headers_subscribe
  call-IsValid x Method.scripthash_subscribe params k v =
      subscribe_parsed-IsValid (parse_scripthash params) k.server.index k.client v
  call-IsValid x Method.headers_subscribe params k v =
      headers_reply-IsValid (current_header_status k.server.index x.source) k.client v
  call-IsValid x Method.server_version params k v = v
  call-IsValid x Method.server_ping params k v = v
  call-IsValid x Method.server_banner params k v = v
  call-IsValid x Method.get_history params k v = v
  call-IsValid x Method.get_balance params k v = v
  call-IsValid x Method.get_mempool params k v = v
  call-IsValid x Method.listunspent params k v = v
  call-IsValid x Method.transaction_get params k v = v
  call-IsValid x Method.transaction_broadcast params k v = v
  call-IsValid x Method.estimatefee params k v = v
  call-IsValid x Method.block_header params k v = v
  call-IsValid x Method.block_headers params k v = v
  call-IsValid x Method.relayfee params k v = v
  call-IsValid x Method.get_fee_histogram params k v = v
  call-IsValid x (Method.unknown name) params k v = v

  dispatch_parsed-IsValid :
      (x : Context) (r : Reply cr.Value) (k : Connection)
      → IsValid k.client
      → IsValid (dispatch_parsed x r k).1.client
  dispatch_parsed-IsValid x (fail e) k v = v
  dispatch_parsed-IsValid x (done req) k v = call-IsValid x (method_of req) (params_of req) k v

  refresh-IsValid :
      (wanted : ScriptHash → Bool) (s : IndexState) (c : ClientState)
      → IsValid c
      → IsValid (refresh wanted s c.subscribed c).1
  refresh-IsValid wanted s c v = rw (refresh_rest wanted s c.subscribed c) (record {
    distinct = v.distinct;
    subscribed_only = λ x k. rw (refresh_get wanted s c.subscribed c x, k) (v.subscribed_only x k);
    headers_only = v.headers_only;
  })

  refresh_header-IsValid :
      (current : Option (ℕ × Bytes)) (c : ClientState)
      → IsValid c
      → IsValid (refresh_header current c).1
  unfolding refresh_header
  refresh_header-IsValid current c v =
      elim (Bool-cases (c.headers_subscribed && not (same_header c.header_subscription current))) [
        | inl h ↦ rw h (record {
          distinct = v.distinct;
          subscribed_only = v.subscribed_only;
          headers_only = λ k. absurd (cc (rw k at h));
        })
        | inr h ↦ rw h v
      ]

  notify_tip-IsValid :
      (event : BlockEvent) (s : IndexState) (source : BlockSource) (c : ClientState)
      → IsValid c
      → IsValid (notify_tip event s source c).1
  unfolding notify_tip
  notify_tip-IsValid event s source c v =
      refresh_header-IsValid (event_header event s source) _ (refresh-IsValid (λ sh. true) s c v)

  notify_block-IsValid :
      (event : BlockEvent) (s : IndexState) (source : BlockSource) (c : ClientState)
      → IsValid c
      → IsValid (notify_block event s source c).1
  unfolding notify_block
  notify_block-IsValid (connected b height) s source c v =
      notify_tip-IsValid (connected b height) s source c v
  notify_block-IsValid (disconnected hash height) s source c v =
      notify_tip-IsValid (disconnected hash height) s source c v
  notify_block-IsValid (synced height hash) s source c v = v

  notify_pending-IsValid :
      (affected : List ScriptHash) (s : IndexState) (c : ClientState)
      → IsValid c
      → IsValid (notify_pending affected s c).1
  unfolding notify_pending
  notify_pending-IsValid [] s c v = v
  notify_pending-IsValid (a ∷ affected) s c v = refresh-IsValid (λ sh. has sh (a ∷ affected)) s c v

  -- Whatever requests a client sends and whatever notifications its thread makes, in any order and
  -- between any states of the index: no script hash is subscribed twice, a status is kept for
  -- subscribed script hashes only, and a header only where the client follows the headers.
  pub Reachable-IsValid : (c : ClientState) → Reachable c → IsValid c
  unfolding dispatch_request get
  Reachable-IsValid _ initial = record {
    distinct = tt;
    subscribed_only = λ x k. refl;
    headers_only = λ h. refl;
  }
  Reachable-IsValid _ (request x raw k r) =
      dispatch_parsed-IsValid x (cr.from_str raw) k (Reachable-IsValid k.client r)
  Reachable-IsValid _ (block event s source c r) =
      notify_block-IsValid event s source c (Reachable-IsValid c r)
  Reachable-IsValid _ (pending affected s c r) =
      notify_pending-IsValid affected s c (Reachable-IsValid c r)
