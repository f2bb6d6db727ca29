-- ===== src/Tests/Peers.antt =====
-- Blocks, JSON values and a client of the network for the runs: a header is its height, and a
-- request is the byte of its method and the text of its parameter.
use nakamoto_electrs.Prelude.{
  ℕ, zero, suc, ◌*◌, Option, none, some, List, [], ◌∷◌, ◌==◌, ltb, Result, ok, if◌then◌else◌, beq,
  length,
}
use nakamoto_electrs.Prelude.Int.{ℤ}
use nakamoto_electrs.Bytes.{Bytes}
use nakamoto_electrs.BlockSource.{Blocks, BlockSource}
use nakamoto_electrs.Text.{text}
use nakamoto_electrs.Electrum.Crates.{Crates, Reply, done, fail}
use nakamoto_electrs.NakamotoSource.{Nakamoto}
use nakamoto_electrs.Tests.Instances.{Tx, toy, digest}

pub record ToyBlock : Type 0 where
  pub at : ℕ
  pub txs : List Tx

instance abbrev pub blocks : Blocks
blocks = record {
  Header = ℕ;
  Block = ToyBlock;
  header = λ b. b.at;
  txdata = λ b. b.txs;
  block_hash = digest;
  header_hex = λ h. h ∷ [];
}

pub data Json : Type 0 where
  json_null nil : Json
  str : Bytes → Json
  num : ℕ → Json
  int : ℤ → Json
  pair : Json → Json → Json
  field : Bytes → Json → Json → Json

abbrev of_list : List Json → Json
of_list [] = nil
of_list (v ∷ vs) = pair v (of_list vs)

abbrev of_fields : List (Bytes × Json) → Json
of_fields [] = nil
of_fields ((k, v) ∷ vs) = field k v (of_fields vs)

abbrev key : Bytes → Json → Option Json
key k (field j v rest) = let later = key k rest in if beq j k then some v else later
key k json_null = none
key k nil = none
key k (str s) = none
key k (num n) = none
key k (int n) = none
key k (pair v rest) = none

abbrev index : ℕ → Json → Option Json
index zero (pair v rest) = some v
index (suc n) (pair v rest) = index n rest
index n (field j v rest) = none
index n json_null = none
index n nil = none
index n (str s) = none
index n (num i) = none
index n (int i) = none

abbrev as_text : Json → Option Bytes
as_text (str s) = some s
as_text (pair v rest) = none
as_text (field j v rest) = none
as_text json_null = none
as_text nil = none
as_text (num i) = none
as_text (int i) = none

abbrev as_number : Json → Option ℕ
as_number (num n) = some n
as_number (str s) = none
as_number (pair v rest) = none
as_number (field j v rest) = none
as_number json_null = none
as_number nil = none
as_number (int i) = none

abbrev method_named : ℕ → Bytes
method_named n =
    if n == 1
    then text "blockchain.scripthash.subscribe"
    else if n == 2
    then text "blockchain.headers.subscribe"
    else text "server.ping"

abbrev parse_json : Bytes → Reply Json
parse_json [] = fail (text "empty")
parse_json (m ∷ param) = done (
    field (text "id") (num m) (
      field (text "method") (str (method_named m))
        (field (text "params") (pair (str param) nil) nil)))

instance abbrev pub crates : Crates
crates = record {
  Value = Json;
  null = json_null;
  string = str;
  number = num;
  signed = int;
  array = of_list;
  object = of_fields;
  from_str = parse_json;
  get_key = key;
  get_index = index;
  as_str = as_text;
  as_u64 = as_number;
  F64 = ℕ;
  f64_of_u64 = λ n. n;
  f64_literal = length;
  f64_times = λ a b. a * b;
  float = num;
  tx_hex = λ tx. toy.serialize tx;
  digest_string = λ xs. xs;
  hex_decode = done;
  parse_txid_string = done;
  deserialize_error = λ xs. xs;
  radix_error = λ xs. xs;
  show_error = λ e. [];
  show_error_chain = λ e. [];
}

-- headers up to the height 3
abbrev pub three_headers : ℕ → Result (Option ℕ)
three_headers n = if ltb n 4 then ok (some n) else ok none

abbrev pub short_chain : BlockSource
short_chain = record {
  tip = ok (3, digest 3);
  block_header = three_headers;
  block_by_hash = λ hash. ok none;
}

instance abbrev pub node : Nakamoto
node = record {
  NkBlock = ToyBlock;
  NkHeader = ℕ;
  serialize_block = λ b. b.at ∷ [];
  serialize_header = λ h. h ∷ [];
  deserialize_block = λ bytes. some (record { at = length bytes; txs = [] });
  deserialize_header = λ bytes. some (length bytes);
}
