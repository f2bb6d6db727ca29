-- ===== src/Tests/StoreRuns.antt =====
-- The theorems about the store and its formats at concrete inputs.
use Prim.Native.Nat.Ordering.{lt}
use nakamoto_electrs.Prelude.{◌≡◌, refl, arith, false, none, All, List, [], ◌∷◌, ok, beq}
use nakamoto_electrs.Bytes.{be_bytes, from_be_bytes}
use nakamoto_electrs.Bytes.Order.{bcmp}
use nakamoto_electrs.Sled.Entries.{starts_with, find, insert, scan}
use nakamoto_electrs.Store.Types.{StoredOutput, StoredUnspent, HistoryKind, JournalActionKind}
use nakamoto_electrs.Store.Codec.{
  decode_output, encode_output, parse_history_key, history_key, parse_journal_action, journal_key,
  decode_txid_list, encode_txid_list, utxo_key, outpoint_key,
}
use nakamoto_electrs.Store.Codec.RoundTrip.{
  IsStorable, decode_output-encode_output, parse_history_key-history_key,
  parse_journal_action-journal_key, decode_txid_list-encode_txid_list,
}
use nakamoto_electrs.Store.Codec.Keys.{bcmp-journal_key}
use nakamoto_electrs.Store.Codec.Outpoints.{IsOutPoint}
use nakamoto_electrs.Store.Loops.{contains, collect, amount}
use nakamoto_electrs.Store.Index.{
  PersistentIndex, list_unspent_for_script, unspent_item, balance_for_script, load_output,
  store_output, load_tx, tip_height, load_pending_txids,
}
use nakamoto_electrs.Store.Index.Writes.{Write, IsFit, Contents, replay, run}
use nakamoto_electrs.Store.Index.Writes.Refines.{Represents, run_refines}
use nakamoto_electrs.Store.Index.Balance.{balance_for_script_lem}
use nakamoto_electrs.Tests.Instances.{
  memory, reliable, toy, lawful, digest, digest-IsArray, Tx, first_output, empty_store,
}

abbrev coin : StoredOutput
coin = record { script_hash = digest 7; txid = digest 1; vout = 0; value = 50; height = 5 }

coin-IsStorable : IsStorable coin
coin-IsStorable = record {
  script_hash = digest-IsArray 7;
  value = omega arith;
  height = omega arith;
}

first_output-IsOutPoint : IsOutPoint first_output
first_output-IsOutPoint = record { txid = digest-IsArray 1; vout = omega arith }

decode_output-encode_output_example : decode_output first_output (encode_output coin) ≡ ok coin
decode_output-encode_output_example = decode_output-encode_output coin coin-IsStorable

parse_history_key-history_key_example :
    parse_history_key (history_key (digest 7) 5 HistoryKind.spend (digest 1) 3)
    ≡ ok (record {
      script_hash = digest 7;
      txid = digest 1;
      height = 5;
      sequence = 3;
      kind = 1;
      history_key = history_key (digest 7) 5 HistoryKind.spend (digest 1) 3;
    })
parse_history_key-history_key_example =
    parse_history_key-history_key (digest 7) 5 HistoryKind.spend (digest 1) 3 (digest-IsArray 7)
      (digest-IsArray 1) (omega arith) (omega arith)

parse_journal_action-journal_key_example :
    parse_journal_action (journal_key 5 2) (3 ∷ digest 1)
    ≡ ok (record {
      journal_key = journal_key 5 2;
      height = 5;
      sequence = 2;
      kind = JournalActionKind.spend;
      payload = digest 1;
    })
parse_journal_action-journal_key_example =
    parse_journal_action-journal_key 5 2 JournalActionKind.spend (digest 1) (omega arith)
      (omega arith)

decode_txid_list-encode_txid_list_example :
    decode_txid_list (encode_txid_list (digest 1 ∷ digest 2 ∷ [])) ≡ ok (digest 1 ∷ digest 2 ∷ [])
decode_txid_list-encode_txid_list_example =
    decode_txid_list-encode_txid_list (digest 1 ∷ digest 2 ∷ [])
      (digest-IsArray 1, (digest-IsArray 2, tt))

bcmp-journal_key_example : bcmp (journal_key 5 300) (journal_key 6 2) ≡ lt
bcmp-journal_key_example =
    bcmp-journal_key 5 6 300 2 (omega arith) (omega arith) (omega arith) (omega arith)

abbrev funded : PersistentIndex
funded = (store_output first_output (digest 7) 50 5 empty_store).1

abbrev one_unspent : StoredUnspent
one_unspent = record { txid = digest 1; vout = 0; value = 50; height = 5 }

one_listed : list_unspent_for_script (digest 7) funded ≡ ok (one_unspent ∷ [])
unfolding list_unspent_for_script store_output collect unspent_item load_output amount outpoint_key
    utxo_key be_bytes from_be_bytes encode_output decode_output insert find scan starts_with beq
    bcmp
one_listed = refl

balance_for_script_lem_example : balance_for_script (digest 7) funded ≡ ok 50
balance_for_script_lem_example =
    balance_for_script_lem (digest 7) funded (one_unspent ∷ []) one_listed

-- nothing is stored
abbrev blank : Contents
blank = record { outputs = λ o. none; txs = λ t. none; pending = λ t. false; tip = 0 }

empty_Represents : Represents empty_store blank
unfolding load_output load_tx tip_height load_pending_txids find contains
empty_Represents = record {
  outputs = λ o h. refl;
  txs = λ t. refl;
  tip = refl;
  txids = [];
  listed = refl;
  arrays = tt;
  distinct = tt;
  pending = λ t. refl;
}

-- an output, a transaction and the tip are stored, and the output is deleted
abbrev writes : List Write
writes =
    Write.put_output first_output (digest 7) 50 5
    ∷ Write.put_tx Tx.spend
    ∷ Write.add_pending (digest 2)
    ∷ Write.put_tip 7
    ∷ Write.drop_output first_output
    ∷ []

writes-IsFit : All IsFit writes
writes-IsFit = (
  (first_output-IsOutPoint, digest-IsArray 7, omega arith, omega arith),
  (tt, (digest-IsArray 2, (omega arith, (first_output-IsOutPoint, tt)))),
)

run_refines_example :
    ((run writes empty_store).0 ≡ ok tt)
    × Represents (run writes empty_store).1 (replay writes blank)
run_refines_example =
    run_refines reliable lawful writes empty_store blank writes-IsFit empty_Represents
