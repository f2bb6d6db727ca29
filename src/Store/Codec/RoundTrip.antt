-- ===== src/Store/Codec/RoundTrip.antt =====
-- Decoding what was encoded gives it back, for the stored values and the two kinds of keys.
use nakamoto_electrs.Prelude.{
  ℕ, zero, suc, ◌+◌, ◌*◌, ◌/◌, ◌%◌, ◌^◌, ◌<◌, ◌≡◌, refl, ap, List, [], ◌∷◌, ◌++◌, arith, length,
  length-append, take_append, drop_append, All, ok,
}
use nakamoto_electrs.Bytes.{
  Bytes, IsArray, be_bytes, length-be_bytes, from_be_bytes-be_bytes, slice_first, slice_all,
  slice_skip,
}
use nakamoto_electrs.Store.Types.{
  ScriptHash, Txid, HistoryKind, StoredOutput, JournalActionKind, history_byte, journal_byte, spend,
  tx, history, output,
}
use nakamoto_electrs.Store.Codec.{
  byte_at, encode_output, decode_output, history_key, parse_history_key, journal_key,
  parse_journal_action, encode_txid_list, decode_txid_list, chunks, journal_kind,
}

length_fixed : (xs : Bytes) (n v : ℕ) → length (xs ++ be_bytes n v) ≡ length xs + n
length_fixed xs n v = omega (arith, length-append xs (be_bytes n v), length-be_bytes n v)

-- An output whose fields fit their types.
pub record IsStorable (o : StoredOutput) : Type 0 where
  pub script_hash : IsArray 32 o.script_hash
  pub value : o.value < 2 ^ 64
  pub height : o.height < 2 ^ 32

length-encode_output : (o : StoredOutput) → IsStorable o → length (encode_output o) ≡ 44
unfolding encode_output
length-encode_output o h = omega (
  arith,
  length-append o.script_hash (be_bytes 8 o.value ++ be_bytes 4 o.height),
  length_fixed (be_bytes 8 o.value) 4 o.height,
  length-be_bytes 8 o.value,
  h.script_hash.sized,
)

-- A stored output whose fields fit their types is read back with every field, at its own outpoint.
pub decode_output-encode_output :
    (o : StoredOutput)
    → IsStorable o
    → decode_output (record { txid = o.txid; vout = o.vout }) (encode_output o) ≡ ok o
unfolding decode_output
decode_output-encode_output o h = rw (length-encode_output o h) (
    unfold encode_output in
    let v = be_bytes 8 o.value in
    let t = be_bytes 4 o.height in
    let vt = length-be_bytes 8 o.value in
    let tt' = length-be_bytes 4 o.height in
    let s = h.script_hash.sized in
    rw
      (
        slice_first 32 o.script_hash (v ++ t) s,
        slice_skip 32 32 40 0 8 o.script_hash (v ++ t) s refl refl,
        slice_skip 32 40 44 8 12 o.script_hash (v ++ t) s refl refl,
        slice_first 8 v t vt,
        slice_skip 8 8 12 0 4 v t vt refl refl,
        slice_all 4 t tt',
        from_be_bytes-be_bytes 8 o.value h.value,
        from_be_bytes-be_bytes 4 o.height h.height,
      )
      refl)

byte_at_skip :
    (n a c : ℕ) (xs ys : Bytes) → length xs ≡ n → n + c ≡ a → byte_at a (xs ++ ys) ≡ byte_at c ys
byte_at_skip zero a c [] ys h e = ap (λ j. byte_at j ys) (omega arith)
byte_at_skip zero a c (x ∷ xs) ys h e = absurd (omega arith)
byte_at_skip (suc n) a c [] ys h e = absurd (omega arith)
byte_at_skip (suc n) zero c (x ∷ xs) ys h e = absurd (omega arith)
byte_at_skip (suc n) (suc a) c (x ∷ xs) ys h e =
    byte_at_skip n a c xs ys (omega arith) (omega arith)

length-history_key :
    (sh : ScriptHash) (height : ℕ) (kind : HistoryKind) (txid : Txid) (seq : ℕ)
    → IsArray 32 sh
    → IsArray 32 txid
    → length (history_key sh height kind txid seq) ≡ 73
unfolding history_key
length-history_key sh height kind txid seq hs ht = omega (
  arith,
  length-append sh (be_bytes 4 height ++ (history_byte kind ∷ (txid ++ be_bytes 4 seq))),
  length-append (be_bytes 4 height) (history_byte kind ∷ (txid ++ be_bytes 4 seq)),
  length_fixed txid 4 seq,
  length-be_bytes 4 height,
  hs.sized,
  ht.sized,
)

-- A history key is parsed to the fields that it was made of, where the hashes have 32 bytes and
-- the numbers 32 bits.
pub parse_history_key-history_key :
    (sh : ScriptHash) (height : ℕ) (kind : HistoryKind) (txid : Txid) (seq : ℕ)
    → IsArray 32 sh
    → IsArray 32 txid
    → height < 2 ^ 32
    → seq < 2 ^ 32
    → parse_history_key (history_key sh height kind txid seq)
      ≡ ok (record {
        script_hash = sh;
        txid = txid;
        height = height;
        sequence = seq;
        kind = history_byte kind;
        history_key = history_key sh height kind txid seq;
      })
unfolding parse_history_key
parse_history_key-history_key sh height kind txid seq hs ht hh hq =
    rw (length-history_key sh height kind txid seq hs ht) (
      unfold history_key in
      let last = be_bytes 4 seq in
      let tail = history_byte kind ∷ (txid ++ last) in
      let h4 = be_bytes 4 height in
      let s = hs.sized in
      let t = length-be_bytes 4 height in
      rw
        (
          slice_first 32 sh (h4 ++ tail) s,
          slice_skip 32 37 69 5 37 sh (h4 ++ tail) s refl refl,
          slice_skip 4 5 37 1 33 h4 tail t refl refl,
          slice_first 32 txid last ht.sized,
          slice_skip 32 32 36 0 4 sh (h4 ++ tail) s refl refl,
          slice_first 4 h4 tail t,
          slice_skip 32 69 73 37 41 sh (h4 ++ tail) s refl refl,
          slice_skip 4 37 41 33 37 h4 tail t refl refl,
          slice_skip 32 32 36 0 4 txid last ht.sized refl refl,
          slice_all 4 last (length-be_bytes 4 seq),
          byte_at_skip 32 36 4 sh (h4 ++ tail) s refl,
          byte_at_skip 4 4 0 h4 tail t refl,
          from_be_bytes-be_bytes 4 height hh,
          from_be_bytes-be_bytes 4 seq hq,
        )
        refl)

pub length-journal_key : (height seq : ℕ) → length (journal_key height seq) ≡ 8
unfolding journal_key
length-journal_key height seq =
    omega (arith, length_fixed (be_bytes 4 height) 4 seq, length-be_bytes 4 height)

pub journal_kind-journal_byte :
    (kind : JournalActionKind) → journal_kind (journal_byte kind) ≡ ok kind
unfolding journal_kind
journal_kind-journal_byte tx = refl
journal_kind-journal_byte history = refl
journal_kind-journal_byte output = refl
journal_kind-journal_byte spend = refl

-- A journal record is parsed to its height, sequence, kind and payload, where the numbers have 32
-- bits.
pub parse_journal_action-journal_key :
    (height seq : ℕ) (kind : JournalActionKind) (payload : Bytes)
    → height < 2 ^ 32
    → seq < 2 ^ 32
    → parse_journal_action (journal_key height seq) (journal_byte kind ∷ payload)
      ≡ ok (record {
        journal_key = journal_key height seq;
        height = height;
        sequence = seq;
        kind = kind;
        payload = payload;
      })
unfolding parse_journal_action
parse_journal_action-journal_key height seq kind payload hh hq =
    rw (length-journal_key height seq) (
      unfold journal_key in
      let h4 = be_bytes 4 height in
      let s4 = be_bytes 4 seq in
      let t = length-be_bytes 4 height in
      rw
        (
          journal_kind-journal_byte kind,
          slice_first 4 h4 s4 t,
          slice_skip 4 4 8 0 4 h4 s4 t refl refl,
          slice_all 4 s4 (length-be_bytes 4 seq),
          from_be_bytes-be_bytes 4 height hh,
          from_be_bytes-be_bytes 4 seq hq,
        )
        refl)

length-encode_txid_list :
    (ts : List Txid) → All (IsArray 32) ts → length (encode_txid_list ts) ≡ 32 * length ts
unfolding encode_txid_list
length-encode_txid_list [] h = refl
length-encode_txid_list (t ∷ ts) h =
    omega (arith, length-append t (encode_txid_list ts), length-encode_txid_list ts h.1, h.0.sized)

chunks-encode_txid_list :
    (ts : List Txid) → All (IsArray 32) ts → chunks (length ts) (encode_txid_list ts) ≡ ts
unfolding encode_txid_list chunks
chunks-encode_txid_list [] h = refl
chunks-encode_txid_list (t ∷ ts) h =
    rw
      (
        take_append 32 t (encode_txid_list ts) h.0.sized,
        drop_append 32 t (encode_txid_list ts) h.0.sized,
        chunks-encode_txid_list ts h.1,
      )
      refl

-- The list of pending txids, each of 32 bytes, is read back in order.
pub decode_txid_list-encode_txid_list :
    (ts : List Txid) → All (IsArray 32) ts → decode_txid_list (encode_txid_list ts) ≡ ok ts
unfolding decode_txid_list
decode_txid_list-encode_txid_list ts h =
    let n : length (encode_txid_list ts) / 32 ≡ length ts =
      omega (arith, length-encode_txid_list ts h) in
    let m : length (encode_txid_list ts) % 32 ≡ 0 = omega (arith, length-encode_txid_list ts h) in
    rw (m, n, chunks-encode_txid_list ts h) refl
