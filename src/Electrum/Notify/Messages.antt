-- ===== src/Electrum/Notify/Messages.antt =====
-- What a notified client is sent.
use nakamoto_electrs.Prelude.{
  ℕ, ◌≡◌, refl, ap, arith, Bool, true, false, not, ◌&&◌, Option, none, some, List, [], ◌∷◌, ◌++◌,
  map, Result, ok, err, if◌then◌else◌, beq_refl,
}
use nakamoto_electrs.Bytes.{Bytes}
use nakamoto_electrs.Bitcoin.{Bitcoin}
use nakamoto_electrs.BlockSource.{Blocks, BlockSource, BlockEvent}
use nakamoto_electrs.Sled.{Sled}
use nakamoto_electrs.HashMap.{HashMap, get}
use nakamoto_electrs.HashMap.Keys.{bytes_eq}
use nakamoto_electrs.HashMap.Sets.{has}
use nakamoto_electrs.Store.Types.{ScriptHash}
use nakamoto_electrs.Indexer.State.{IndexState}
use nakamoto_electrs.Electrum.Crates.{Crates}
use nakamoto_electrs.Electrum.StatusHash.{script_status}
use nakamoto_electrs.Electrum.Client.{ClientState}
use nakamoto_electrs.Electrum.Notify.{
  same_status, same_header, refresh, refresh_header, event_header, notify_tip, notify_pending,
  change_message, header_message,
}
use nakamoto_electrs.Electrum.Notify.Refresh.{
  Distinct, differing, read_wanted, read_status, change_of, refresh_get, refresh_changes,
  refresh_rest,
}
use nakamoto_electrs.Electrum.Session.{Reachable}
use nakamoto_electrs.Electrum.Session.Invariant.{Reachable-IsValid}

module _ ⦃sl : Sled⦄ ⦃bc : Bitcoin⦄ ⦃bl : Blocks⦄ ⦃cr : Crates⦄ where
  same_status_refl : (a : Option Bytes) → same_status a a ≡ true
  unfolding same_status
  same_status_refl none = refl
  same_status_refl (some a) = beq_refl a

  pub read_ok :
      (r : Result (Option Bytes)) (status : Option Bytes)
      → read_status true r ≡ some status
      → r ≡ ok status
  read_ok (ok a) status h = cc
  read_ok (err e) status h = absurd (cc (h))

  pub differing_unread :
      (read : ScriptHash → Option (Option Bytes)) (m : HashMap ScriptHash (Option Bytes))
      (subs : List ScriptHash)
      → ((x : ScriptHash)
          → has x subs ≡ true
          → (status : Option Bytes) → read x ≡ some status
          → get x m ≡ some status)
      → differing read m subs ≡ []
  unfolding has
  differing_unread read m [] h = refl
  differing_unread read m (sh ∷ subs) h =
      rw (differing_unread read m subs (λ x k. h x (ground (arith, k))))
        (unchanged (read sh) (h sh (ground (arith, beq_refl sh))))
    where
      unchanged :
          (r : Option (Option Bytes))
          → ((status : Option Bytes) → r ≡ some status → get sh m ≡ some status)
          → change_of sh r (get sh m) ++ [] ≡ []
      unchanged none h = refl
      unchanged (some status) h = rw (h status refl, same_status_refl status) refl

  stored :
      (wanted : ScriptHash → Bool) (s : IndexState) (c : ClientState) (sh : ScriptHash)
      (status : Option Bytes)
      → has sh c.subscribed ≡ true
      → wanted sh ≡ true
      → script_status sh s ≡ ok status
      → get sh (refresh wanted s c.subscribed c).1.status_by_scripthash ≡ some status
  stored wanted s c sh status h w e = rw (refresh_get wanted s c.subscribed c sh, h, w, e) refl

  notify_pending_eq :
      (affected : List ScriptHash) (s : IndexState) (c : ClientState)
      → Distinct c.subscribed
      → (notify_pending affected s c).0
        ≡ map change_message
            (differing (read_wanted (λ sh. has sh affected) s) c.status_by_scripthash c.subscribed)
  unfolding notify_pending has
  notify_pending_eq [] s c d =
      rw
        (differing_unread (λ sh. none) c.status_by_scripthash c.subscribed
          (λ x k status e. absurd (cc (e))))
        refl
  notify_pending_eq (a ∷ affected) s c d =
      ap (map change_message) (refresh_changes (λ sh. has sh (a ∷ affected)) s c.subscribed c d)

  notify_pending_stored :
      (affected : List ScriptHash) (s : IndexState) (c : ClientState) (sh : ScriptHash)
      (status : Option Bytes)
      → has sh affected ≡ true
      → has sh c.subscribed ≡ true
      → script_status sh s ≡ ok status
      → get sh (notify_pending affected s c).1.status_by_scripthash ≡ some status
  unfolding notify_pending has
  notify_pending_stored [] s c sh status a h e = absurd (cc (a))
  notify_pending_stored (b ∷ affected) s c sh status a h e =
      stored (λ sh. has sh (b ∷ affected)) s c sh status h a e

  -- When pending transactions change, a client whose state requests and notifications led to is
  -- sent a message for exactly those of its script hashes that are affected, and whose status can
  -- be read and is not the one last sent; afterwards the current status of each affected
  -- subscribed script hash that can be read is the one stored.
  pub notify_pending_lem :
      (affected : List ScriptHash) (s : IndexState) (c : ClientState)
      → Reachable c
      → let after = notify_pending affected s c in
        (after.0
          ≡ map change_message (
              differing
                (read_wanted (λ sh. has sh affected) s)
                c.status_by_scripthash
                c.subscribed))
        × ((sh : ScriptHash) (status : Option Bytes)
            → has sh affected ≡ true
            → has sh c.subscribed ≡ true
            → script_status sh s ≡ ok status
            → get sh after.1.status_by_scripthash ≡ some status)
  notify_pending_lem affected s c r = (
    notify_pending_eq affected s c (Reachable-IsValid c r).distinct,
    λ sh status a h e. notify_pending_stored affected s c sh status a h e,
  )

  pub header_rest :
      (current : Option (ℕ × Bytes)) (c : ClientState)
      → ((refresh_header current c).1.status_by_scripthash ≡ c.status_by_scripthash)
        × ((refresh_header current c).1.subscribed ≡ c.subscribed)
  unfolding refresh_header
  header_rest current c = ground arith

  header_sent :
      (current : Option (ℕ × Bytes)) (c : ClientState)
      → (refresh_header current c).0
        ≡ (c.headers_subscribed && not (same_header c.header_subscription current))
  unfolding refresh_header
  header_sent current c = ground arith

  same_header_refl : (a : Option (ℕ × Bytes)) → same_header a a ≡ true
  unfolding same_header
  same_header_refl none = refl
  same_header_refl (some a) = ground (arith, beq_refl a.1)

  pub header_known :
      (current : Option (ℕ × Bytes)) (c : ClientState)
      → let after = (refresh_header current c).1 in
        (after.headers_subscribed && not (same_header after.header_subscription current)) ≡ false
  unfolding refresh_header
  header_known current c = ground (arith, same_header_refl current)

  pub messages :
      (event : BlockEvent) (s : IndexState) (source : BlockSource) (c : ClientState)
      → Distinct c.subscribed
      → let current = event_header event s source in
        (notify_tip event s source c).0
        ≡ (if c.headers_subscribed && not (same_header c.header_subscription current)
            then header_message current ∷ []
            else [])
          ++ map change_message
              (differing (read_wanted (λ sh. true) s) c.status_by_scripthash c.subscribed)
  unfolding notify_tip
  messages event s source c d =
      let rest = refresh_rest (λ sh. true) s c.subscribed c in
      rw
        (
          header_sent (event_header event s source) (refresh (λ sh. true) s c.subscribed c).1,
          refresh_changes (λ sh. true) s c.subscribed c d,
          ap (λ k. k.headers_subscribed) rest,
          ap (λ k. k.header_subscription) rest,
        )
        refl

  pub tip_stored :
      (event : BlockEvent) (s : IndexState) (source : BlockSource) (c : ClientState)
      (sh : ScriptHash) (status : Option Bytes)
      → has sh c.subscribed ≡ true
      → script_status sh s ≡ ok status
      → get sh (notify_tip event s source c).1.status_by_scripthash ≡ some status
  unfolding notify_tip
  tip_stored event s source c sh status h e =
      rw ((header_rest (event_header event s source) (refresh (λ sh. true) s c.subscribed c).1).0)
        (stored (λ sh. true) s c sh status h refl e)

  -- When a block is connected or disconnected, a client whose state requests and notifications led
  -- to is sent the header, if it follows headers and this one differs from the last, and then a
  -- message for exactly those of its script hashes whose status can be read and is not the one
  -- last sent, in the order of its subscriptions; afterwards the current status of each subscribed
  -- script hash that can be read is the one stored.
  pub notify_tip_lem :
      (event : BlockEvent) (s : IndexState) (source : BlockSource) (c : ClientState)
      → Reachable c
      → let after = notify_tip event s source c in
        let current = event_header event s source in
        (after.0
          ≡ (if c.headers_subscribed && not (same_header c.header_subscription current)
              then header_message current ∷ []
              else [])
            ++ map change_message
                (differing (read_wanted (λ sh. true) s) c.status_by_scripthash c.subscribed))
        × ((sh : ScriptHash) (status : Option Bytes)
            → has sh c.subscribed ≡ true
            → script_status sh s ≡ ok status
            → get sh after.1.status_by_scripthash ≡ some status)
  notify_tip_lem event s source c r =
      (messages event s source c (Reachable-IsValid c r).distinct, tip_stored event s source c)
