-- ===== src/Tests/Instances.antt =====
-- A database in memory, and four transactions: a coinbase, a spend of its output, a rival of that
-- spend, and a spend of the first spend's output. The theorems about reliable databases and lawful transactions are run on them.
use nakamoto_electrs.Prelude.{
  ℕ, ◌%◌, ◌≡◌, refl, arith, Option, none, some, List, [], ◌∷◌, map, ok, beq, ◌==◌, if◌then◌else◌,
}
use nakamoto_electrs.Bytes.{Bytes, IsArray}
use nakamoto_electrs.Bitcoin.{OutPoint, TxOut, Bitcoin, IsLawful}
use nakamoto_electrs.Sled.{Sled, IsReliable}
use nakamoto_electrs.Sled.Entries
use nakamoto_electrs.Sled.Entries.{Entry, IsSorted, insert-IsSorted, remove-IsSorted}
use nakamoto_electrs.Store.Index.{PersistentIndex}
use nakamoto_electrs.Indexer.State.{IndexState}

pub record Tree : Type 0 where
  pub entries : List Entry
  pub sorted : IsSorted entries

instance abbrev pub memory : Sled
memory = record {
  Tree = Tree;
  get = λ k t. ok (Entries.find k t.entries);
  insert = λ k v t. (
    ok tt,
    record {
      entries = Entries.insert k v t.entries;
      sorted = insert-IsSorted k v t.entries t.sorted;
    },
  );
  remove = λ k t. (
    ok tt,
    record { entries = Entries.remove k t.entries; sorted = remove-IsSorted k t.entries t.sorted },
  );
  iter = λ t. map ok t.entries;
  scan_prefix = λ p t. map ok (Entries.scan p t.entries);
}

abbrev pub reliable : IsReliable memory
reliable = record {
  view = λ t. t.entries;
  sorted = λ t. t.sorted;
  get_lem = λ k t. refl;
  insert_ok = λ k v t. refl;
  view-insert = λ k v t. refl;
  remove_ok = λ k t. refl;
  view-remove = λ k t. refl;
  iter_lem = λ t. refl;
  scan_prefix_lem = λ p t. refl;
}

pub data Tx : Type 0 where
  coinbase spend rival grandchild : Tx

-- 32 bytes that start with `n`
abbrev pub digest : ℕ → Bytes
digest n =
    n % 256
    ∷ 0
    ∷ 0
    ∷ 0
    ∷ 0
    ∷ 0
    ∷ 0
    ∷ 0
    ∷ 0
    ∷ 0
    ∷ 0
    ∷ 0
    ∷ 0
    ∷ 0
    ∷ 0
    ∷ 0
    ∷ 0
    ∷ 0
    ∷ 0
    ∷ 0
    ∷ 0
    ∷ 0
    ∷ 0
    ∷ 0
    ∷ 0
    ∷ 0
    ∷ 0
    ∷ 0
    ∷ 0
    ∷ 0
    ∷ 0
    ∷ 0
    ∷ []

abbrev pub number : Tx → ℕ
number coinbase = 1
number spend = 2
number rival = 3
number grandchild = 4

abbrev pub numbered : ℕ → Option Tx
numbered n =
    if n == 1
    then some coinbase
    else if n == 2
    then some spend
    else if n == 3
    then some rival
    else some grandchild

abbrev pub first_output : OutPoint
first_output = record { txid = digest 1; vout = 0 }

abbrev pub prevouts : Tx → List OutPoint
prevouts coinbase = record { txid = digest 0; vout = 4294967295 } ∷ []
prevouts spend = first_output ∷ []
prevouts rival = first_output ∷ []
prevouts grandchild = record { txid = digest 2; vout = 0 } ∷ []

abbrev pub outputs : Tx → List TxOut
outputs coinbase = record { script_pubkey = 7 ∷ []; value = 50 } ∷ []
outputs spend = record { script_pubkey = 8 ∷ []; value = 40 } ∷ []
outputs rival = record { script_pubkey = 9 ∷ []; value = 30 } ∷ []
outputs grandchild = record { script_pubkey = 7 ∷ []; value = 20 } ∷ []

abbrev pub hash : Bytes → Bytes
hash [] = digest 0
hash (x ∷ xs) = digest x

abbrev pub parse : Bytes → Option Tx
parse [] = none
parse (x ∷ xs) = numbered x

instance abbrev pub toy : Bitcoin
toy = record {
  Transaction = Tx;
  prevouts = prevouts;
  outputs = outputs;
  compute_txid = λ t. digest (number t);
  serialize = λ t. number t ∷ [];
  deserialize = parse;
  weight = λ t. 4;
  is_null = λ o. beq o.txid (digest 0);
  txid_string = λ txid. txid;
  sha256 = hash;
}

pub digest-IsArray : (n : ℕ) → IsArray 32 (digest n)
digest-IsArray n = record { sized = refl; bytes = ground arith }

pub hash-IsArray : (xs : Bytes) → IsArray 32 (hash xs)
hash-IsArray [] = digest-IsArray 0
hash-IsArray (x ∷ xs) = digest-IsArray x

pub parse-number : (t : Tx) → parse (number t ∷ []) ≡ some t
parse-number coinbase = refl
parse-number spend = refl
parse-number rival = refl
parse-number grandchild = refl

abbrev pub lawful : IsLawful toy
lawful = record {
  txid_array = λ t. digest-IsArray (number t);
  digest_array = hash-IsArray;
  wire = parse-number;
}

abbrev pub empty_tree : Tree
empty_tree = record { entries = []; sorted = tt }

abbrev pub empty_store : PersistentIndex
empty_store = record {
  history = empty_tree;
  outputs = empty_tree;
  txs = empty_tree;
  utxos = empty_tree;
  journal = empty_tree;
  meta = empty_tree;
}

abbrev pub empty_state : IndexState
empty_state = record {
  history = [];
  by_height = [];
  pending_txs = [];
  pending_outputs = [];
  tip_height = 4;
  store = empty_store;
}
