-- ===== src/Electrum/Notify/Again.antt =====
-- An event that is handled a second time.
use nakamoto_electrs.Prelude.{◌≡◌, refl, ap, ◌∙◌, true, false, not, ◌&&◌, []}
use nakamoto_electrs.Bitcoin.{Bitcoin}
use nakamoto_electrs.BlockSource.{Blocks, BlockSource, BlockEvent, connected, disconnected, synced}
use nakamoto_electrs.Sled.{Sled}
use nakamoto_electrs.HashMap.Keys.{bytes_eq}
use nakamoto_electrs.Indexer.State.{IndexState}
use nakamoto_electrs.Electrum.Crates.{Crates}
use nakamoto_electrs.Electrum.StatusHash.{script_status}
use nakamoto_electrs.Electrum.Client.{ClientState}
use nakamoto_electrs.Electrum.Notify.{same_header, refresh, event_header, notify_tip, notify_block}
use nakamoto_electrs.Electrum.Notify.Refresh.{Distinct, read_wanted, refresh_rest}
use nakamoto_electrs.Electrum.Session.{Reachable}
use nakamoto_electrs.Electrum.Session.Invariant.{Reachable-IsValid}
use nakamoto_electrs.Electrum.Notify.Messages.{
  differing_unread, header_rest, header_known, messages, tip_stored, read_ok,
}

module _ ⦃sl : Sled⦄ ⦃bc : Bitcoin⦄ ⦃bl : Blocks⦄ ⦃cr : Crates⦄ where
  tip_subscribed :
      (event : BlockEvent) (s : IndexState) (source : BlockSource) (c : ClientState)
      → (notify_tip event s source c).1.subscribed ≡ c.subscribed
  unfolding notify_tip
  tip_subscribed event s source c =
      (header_rest (event_header event s source) (refresh (λ sh. true) s c.subscribed c).1).1
      ∙ ap (λ k. k.subscribed) (refresh_rest (λ sh. true) s c.subscribed c)

  tip_header :
      (event : BlockEvent) (s : IndexState) (source : BlockSource) (c : ClientState)
      → let after = (notify_tip event s source c).1 in
        (after.headers_subscribed
          && not (same_header after.header_subscription (event_header event s source)))
        ≡ false
  unfolding notify_tip
  tip_header event s source c =
      header_known (event_header event s source) (refresh (λ sh. true) s c.subscribed c).1

  notify_tip_again :
      (event : BlockEvent) (s : IndexState) (source : BlockSource) (c : ClientState)
      → Distinct c.subscribed
      → (notify_tip event s source (notify_tip event s source c).1).0 ≡ []
  notify_tip_again event s source c d =
      let after = (notify_tip event s source c).1 in
      let same = tip_subscribed event s source c in
      rw
        (
          messages event s source after (rw same d),
          tip_header event s source c,
          same,
          differing_unread (read_wanted (λ sh. true) s) after.status_by_scripthash c.subscribed
              (λ x k status e.
                tip_stored event s source c x status k (read_ok (script_status x s) status e)),
        )
        refl

  -- In a state that requests and notifications led to, an event that is handled a second time,
  -- while the index and the source stand still, makes no message.
  pub notify_block_again :
      (event : BlockEvent) (s : IndexState) (source : BlockSource) (c : ClientState)
      → Reachable c
      → (notify_block event s source (notify_block event s source c).1).0 ≡ []
  unfolding notify_block
  notify_block_again (connected b height) s source c r =
      notify_tip_again (connected b height) s source c (Reachable-IsValid c r).distinct
  notify_block_again (disconnected hash height) s source c r =
      notify_tip_again (disconnected hash height) s source c (Reachable-IsValid c r).distinct
  notify_block_again (synced height hash) s source c r = refl
