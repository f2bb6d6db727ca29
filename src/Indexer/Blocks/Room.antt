-- ===== src/Indexer/Blocks/Room.antt =====
-- What a valid block finds: journal keys that are not in use, outpoints that are new, outputs that
-- are unspent.
use mathlib.Core.List.{append_assoc}
use nakamoto_electrs.Prelude.{
  ℕ, ◌^◌, ◌<◌, ◌≡◌, refl, sym, ap, ◌∙◌, false, none, some, List, [], ◌∷◌, ◌++◌, arith, ok, beq,
  eq_of_beq, Bool-cases, inl, inr,
}
use nakamoto_electrs.Bytes.{Bytes}
use nakamoto_electrs.Bytes.Order.{bcmp, bcmp_refl}
use nakamoto_electrs.Bitcoin.{OutPoint}
use nakamoto_electrs.Sled.{Sled, IsReliable}
use nakamoto_electrs.Sled.Entries
use nakamoto_electrs.Sled.Entries.{Entry, find-insert}
use nakamoto_electrs.HashMap.{HashMap, get, push_at, listed}
use nakamoto_electrs.HashMap.Keys.{◌≐◌, nat_eq, same_nat_refl}
use nakamoto_electrs.HashMap.Laws.{get-push_at}
use nakamoto_electrs.Store.Types.{StoredOutput}
use nakamoto_electrs.Store.Codec.{journal_key, outpoint_key, encode_output}
use nakamoto_electrs.Store.Codec.Keys.{bcmp-journal_key}
use nakamoto_electrs.Store.Codec.RoundTrip.{IsStorable, decode_output-encode_output}
use nakamoto_electrs.Store.Index.{PersistentIndex, load_output}
use nakamoto_electrs.Indexer.State.{BlockAction, next_u32}

-- The next two keys of the journal at a height are not in use.
pub record HasRoom (height seq : ℕ) (journal : List Entry) : Type 0 where
  pub bounded : seq < 2 ^ 32
  pub first : Entries.find (journal_key height seq) journal ≡ none
  pub second : Entries.find (journal_key height (next_u32 seq)) journal ≡ none

keys_differ :
    (height seq : ℕ)
    → height < 2 ^ 32
    → seq < 2 ^ 32
    → beq (journal_key height (next_u32 seq)) (journal_key height seq) ≡ false
keys_differ height seq h q =
    elim (Bool-cases (beq (journal_key height (next_u32 seq)) (journal_key height seq))) [
      | inl same ↦
          let e =
            ap (bcmp (journal_key height (next_u32 seq))) (sym (eq_of_beq _ _ same))
            ∙ bcmp_refl (journal_key height (next_u32 seq)) in
          absurd (
            ground (
              arith,
              e,
              sym (bcmp-journal_key height height (next_u32 seq) seq h h (omega arith) q) ∙ e,
            ))
      | inr h ↦ h
    ]

-- The second key is not in use after the first was written.
pub second_free :
    (height seq : ℕ) (value : Bytes) (journal : List Entry)
    → height < 2 ^ 32
    → HasRoom height seq journal
    → Entries.find
        (journal_key height (next_u32 seq))
        (Entries.insert (journal_key height seq) value journal)
      ≡ none
second_free height seq value journal h room =
    rw
      (
        find-insert (journal_key height (next_u32 seq)) (journal_key height seq) value journal,
        keys_differ height seq h room.bounded,
      )
      room.second

-- An output that a tree holds is loaded.
pub load_held :
    ⦃sl : Sled⦄ (r : IsReliable sl) (u : PersistentIndex) (o : OutPoint) (stored : StoredOutput)
    → Entries.find (outpoint_key o) (r.view u.outputs) ≡ some (encode_output stored)
    → IsStorable stored
    → o ≡ record { txid = stored.txid; vout = stored.vout }
    → load_output o u ≡ ok (some stored)
unfolding load_output
load_held r u o stored h storable at =
    rw (r.get_lem (outpoint_key o) u.outputs, h, at, decode_output-encode_output stored storable)
      refl

-- Two records that are pushed at one height.
pub listed-push_two :
    (height : ℕ) (a b : BlockAction) (m : HashMap ℕ (List BlockAction))
    → listed (get height (push_at height b (push_at height a m)))
      ≡ listed (get height m) ++ (a ∷ b ∷ [])
listed-push_two height a b m =
    rw
      (
        get-push_at height height b (push_at height a m),
        get-push_at height height a m,
        same_nat_refl height,
        append_assoc (listed (get height m)) (a ∷ []) (b ∷ []),
      )
      refl

pub get-push_two_ne :
    (height j : ℕ) (a b : BlockAction) (m : HashMap ℕ (List BlockAction))
    → (height ≐ j) ≡ false
    → get j (push_at height b (push_at height a m)) ≡ get j m
get-push_two_ne height j a b m n =
    rw (get-push_at j height b (push_at height a m), n, get-push_at j height a m, n) refl
