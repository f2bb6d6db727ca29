-- ===== src/Indexer/Payload/RoundTrip.antt =====
-- What the journal's writer put into a payload is what its reader takes out.
use nakamoto_electrs.Prelude.{ℕ, ◌^◌, ◌<◌, ◌≡◌, refl, arith, length, length-append, ok}
use nakamoto_electrs.Bytes.{
  be_bytes, length-be_bytes, from_be_bytes-be_bytes, slice_first, slice_all, slice_skip,
}
use nakamoto_electrs.Bitcoin.{OutPoint}
use nakamoto_electrs.Store.Codec.{journal_key}
use nakamoto_electrs.Store.Codec.RoundTrip.{length-journal_key}
use nakamoto_electrs.Store.Codec.Outpoints.{IsOutPoint}
use nakamoto_electrs.Indexer.State.{BlockAction}
use nakamoto_electrs.Indexer.Payload.{parse_outpoint, outpoint_bytes, action_key, action_sequence}

length-outpoint_bytes : (o : OutPoint) → IsOutPoint o → length (outpoint_bytes o) ≡ 36
unfolding outpoint_bytes
length-outpoint_bytes o h =
    omega (arith, length-append o.txid (be_bytes 4 o.vout), length-be_bytes 4 o.vout, h.txid.sized)

-- An outpoint with a txid of 32 bytes and a number of 32 bits is read back from its payload.
pub parse_outpoint-outpoint_bytes :
    (o : OutPoint) → IsOutPoint o → parse_outpoint (outpoint_bytes o) ≡ ok o
unfolding parse_outpoint
parse_outpoint-outpoint_bytes o h =
    let v = be_bytes 4 o.vout in
    rw (length-outpoint_bytes o h) (
      unfold outpoint_bytes in
      rw
        (
          slice_first 32 o.txid v h.txid.sized,
          slice_skip 32 32 36 0 4 o.txid v h.txid.sized refl refl,
          slice_all 4 v (length-be_bytes 4 o.vout),
          from_be_bytes-be_bytes 4 o.vout h.vout,
        )
        refl)

-- The sequence number of a record is the one of 32 bits that its journal key was made with.
pub action_sequence-journal_key :
    (a : BlockAction) (height seq : ℕ)
    → action_key a ≡ journal_key height seq
    → seq < 2 ^ 32
    → action_sequence a ≡ ok seq
unfolding action_sequence
action_sequence-journal_key a height seq e h =
    let h4 = be_bytes 4 height in
    let s4 = be_bytes 4 seq in
    rw (e, length-journal_key height seq)
      (unfold journal_key in
        rw
          (
            slice_skip 4 4 8 0 4 h4 s4 (length-be_bytes 4 height) refl refl,
            slice_all 4 s4 (length-be_bytes 4 seq),
            from_be_bytes-be_bytes 4 seq h,
          )
          refl)
