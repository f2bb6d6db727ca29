-- ===== src/Store/Codec/Keys.antt =====
-- The order of the journal's keys, and which keys a scan by script hash finds.
use Prim.Native.Nat.{compare}
use nakamoto_electrs.Prelude.{ℕ, ◌^◌, ◌<◌, ◌≡◌, refl, sym, ◌∙◌, [], ◌∷◌, ◌++◌, arith, length, beq}
use nakamoto_electrs.Bytes.{Bytes, IsArray, be_bytes, length-be_bytes}
use nakamoto_electrs.Bytes.Order.{bcmp, then, bcmp-append, bcmp-be_bytes}
use nakamoto_electrs.Sled.Entries.{starts_with}
use nakamoto_electrs.Store.Types.{ScriptHash, Txid, HistoryKind, history_byte}
use nakamoto_electrs.Store.Codec.{journal_key, utxo_key, history_key}

-- Journal keys compare as byte strings the way the heights compare, and at one height the way the
-- sequence numbers do, for numbers of 32 bits.
pub bcmp-journal_key :
    (h i s t : ℕ)
    → h < 2 ^ 32
    → i < 2 ^ 32
    → s < 2 ^ 32
    → t < 2 ^ 32
    → bcmp (journal_key h s) (journal_key i t) ≡ then (compare h i) (compare s t)
unfolding journal_key
bcmp-journal_key h i s t hh hi hs ht =
    rw
      (
        bcmp-append (be_bytes 4 h) (be_bytes 4 i) (be_bytes 4 s) (be_bytes 4 t)
            (length-be_bytes 4 h ∙ sym (length-be_bytes 4 i)),
        bcmp-be_bytes 4 h i hh hi,
        bcmp-be_bytes 4 s t hs ht,
      )
      refl

pub starts_with-append :
    (p xs ys : Bytes) → length p ≡ length xs → starts_with p (xs ++ ys) ≡ beq p xs
unfolding starts_with beq
starts_with-append [] [] ys h = refl
starts_with-append [] (x ∷ xs) ys h = absurd (omega arith)
starts_with-append (p ∷ ps) [] ys h = absurd (omega arith)
starts_with-append (p ∷ ps) (x ∷ xs) ys h =
    ground (arith, starts_with-append ps xs ys (omega arith))

-- A scan by a script hash takes exactly the unspent outputs of that script hash, where both hashes
-- have 32 bytes.
pub starts_with-utxo_key :
    (sh sh' : ScriptHash) (txid : Txid) (vout : ℕ)
    → IsArray 32 sh
    → IsArray 32 sh'
    → starts_with sh (utxo_key sh' txid vout) ≡ beq sh sh'
unfolding utxo_key
starts_with-utxo_key sh sh' txid vout h h' =
    starts_with-append sh sh' (txid ++ be_bytes 4 vout) (h.sized ∙ sym h'.sized)

-- A scan by a script hash takes exactly the history entries of that script hash, where both hashes
-- have 32 bytes.
pub starts_with-history_key :
    (sh sh' : ScriptHash) (height : ℕ) (kind : HistoryKind) (txid : Txid) (seq : ℕ)
    → IsArray 32 sh
    → IsArray 32 sh'
    → starts_with sh (history_key sh' height kind txid seq) ≡ beq sh sh'
unfolding history_key
starts_with-history_key sh sh' height kind txid seq h h' =
    starts_with-append sh sh' (be_bytes 4 height ++ (history_byte kind ∷ (txid ++ be_bytes 4 seq)))
      (h.sized ∙ sym h'.sized)
