-- ===== src/Indexer/Blocks/Run.antt =====
-- What a valid block is, along the run of `apply_block`, and what the run leaves.
use nakamoto_electrs.Prelude.{
  ℕ, suc, ◌^◌, ◌<◌, ◌≡◌, refl, true, false, none, List, [], ◌∷◌, ◌++◌, ok, Result,
}
use nakamoto_electrs.Prelude.Exec.{Exec, continue}
use nakamoto_electrs.Bitcoin.{OutPoint, TxOut, Bitcoin}
use nakamoto_electrs.Sled.{Sled, IsReliable}
use nakamoto_electrs.Sled.Entries
use nakamoto_electrs.Store.Types.{Txid, StoredOutput}
use nakamoto_electrs.Store.Codec.{journal_key}
use nakamoto_electrs.Store.Index.{load_output}
use nakamoto_electrs.Indexer.State.{IndexState, BlockAction, next_u32}
use nakamoto_electrs.Indexer.Blocks.{
  apply_spend, apply_input, apply_inputs, apply_output, apply_outputs, apply_tx, apply_txs,
}
use nakamoto_electrs.Indexer.Blocks.Undo.{Undoes, Undoes-nil, Undoes-append}
use nakamoto_electrs.Indexer.Blocks.Room.{load_held}
use nakamoto_electrs.Indexer.Blocks.Spend.{Spendable, apply_spend_lem, spent-Undoes}
use nakamoto_electrs.Indexer.Blocks.Fund.{Fundable, apply_output_lem, funded-Undoes}
use nakamoto_electrs.Indexer.Blocks.Confirm.{confirmed, confirmed_lem, confirmed-Undoes}

module _ ⦃sl : Sled⦄ (r : IsReliable sl) ⦃bc : Bitcoin⦄ (height : ℕ) where
  -- The call succeeds with `next`, and records undo it.
  pub record Runs (s : IndexState) (next : ℕ) (m : Result ℕ × IndexState) : Type 0 where
    pub returns : m.0 ≡ ok next
    pub actions : List BlockAction
    pub undoes : Undoes r height s m.1 actions

  -- An input spends nothing that the store knows, or an unspent output.
  pub data ValidInput (txid : Txid) (s : IndexState) (i seq : ℕ) (o : OutPoint) : ℕ → Type 0 where
    coinbase : bc.is_null o ≡ true → ValidInput txid s i seq o seq
    unknown : bc.is_null o ≡ false → load_output o s.store ≡ ok none → ValidInput txid s i seq o seq
    spends :
        bc.is_null o ≡ false
        → (stored : StoredOutput) → Spendable r height txid s i seq o stored
        → ValidInput txid s i seq o (next_u32 (next_u32 seq))

  apply_input_lem :
      (txid : Txid) (s : IndexState) (i seq : ℕ) (o : OutPoint) (n : ℕ)
      → height < 2 ^ 32
      → ValidInput txid s i seq o n
      → Runs s n (apply_input height txid i seq o s)
  unfolding apply_input
  apply_input_lem txid s i seq o n h (coinbase e) =
      rw e (record { returns = refl; actions = []; undoes = Undoes-nil r height s s refl refl })
  apply_input_lem txid s i seq o n h (unknown e l) =
      rw (e, l)
        (unfold apply_spend in
          record { returns = refl; actions = []; undoes = Undoes-nil r height s s refl refl })
  apply_input_lem txid s i seq o n h (spends e stored v) =
      rw
        (
          e,
          load_held r s.store o stored v.held v.storable v.at,
          apply_spend_lem r height txid s i seq o stored,
        )
        (record {
          returns = refl;
          actions = _;
          undoes = spent-Undoes r height txid s i seq o stored h v;
        })

  -- The inputs from the one numbered `i`, each valid in the state that the ones before it leave.
  pub data ValidInputs (txid : Txid) : IndexState → ℕ → ℕ → List OutPoint → ℕ → Type 0 where
    no_input : (s : IndexState) (i seq : ℕ) → ValidInputs txid s i seq [] seq
    input :
        (s : IndexState) (i seq : ℕ) (o : OutPoint) (rest : List OutPoint) (mid n : ℕ)
        → ValidInput txid s i seq o mid
        → ValidInputs txid (apply_input height txid i seq o s).1 (suc i) mid rest n
        → ValidInputs txid s i seq (o ∷ rest) n

  pub data ValidOutputs (txid : Txid) : IndexState → ℕ → ℕ → List TxOut → ℕ → Type 0 where
    no_output : (s : IndexState) (i seq : ℕ) → ValidOutputs txid s i seq [] seq
    output :
        (s : IndexState) (i seq : ℕ) (o : TxOut) (rest : List TxOut) (n : ℕ)
        → Fundable r height txid s i seq o
        → ValidOutputs txid
            (apply_output height txid i seq o s).1
            (suc i)
            (next_u32 (next_u32 seq))
            rest
            n
        → ValidOutputs txid s i seq (o ∷ rest) n

  Runs-then :
      (s : IndexState) (mid n : ℕ) (m : Result ℕ × IndexState) (k : ℕ → Exec IndexState ℕ)
      → Runs s mid m
      → Runs m.1 n (k mid m.1)
      → Runs s n (continue m.0 k m.1)
  Runs-then s mid n m k a b = rw (a.returns) (record {
    returns = b.returns;
    actions = a.actions ++ b.actions;
    undoes = Undoes-append r height s m.1 (k mid m.1).1 a.actions b.actions a.undoes b.undoes;
  })

  apply_inputs_lem :
      (txid : Txid) (s : IndexState) (i seq : ℕ) (os : List OutPoint) (n : ℕ)
      → height < 2 ^ 32
      → ValidInputs txid s i seq os n
      → Runs s n (apply_inputs height txid i seq os s)
  unfolding apply_inputs
  apply_inputs_lem txid _ _ _ _ _ h (no_input s i seq) = record {
    returns = refl;
    actions = [];
    undoes = Undoes-nil r height s s refl refl;
  }
  apply_inputs_lem txid _ _ _ _ _ h (input s i seq o rest mid n v vs) =
      Runs-then s mid n (apply_input height txid i seq o s)
        (λ next. apply_inputs height txid (suc i) next rest)
        (apply_input_lem txid s i seq o mid h v)
        (apply_inputs_lem txid (apply_input height txid i seq o s).1 (suc i) mid rest n h vs)

  apply_output-Runs :
      (txid : Txid) (s : IndexState) (i seq : ℕ) (o : TxOut)
      → height < 2 ^ 32
      → Fundable r height txid s i seq o
      → Runs s (next_u32 (next_u32 seq)) (apply_output height txid i seq o s)
  apply_output-Runs txid s i seq o h v =
      rw (apply_output_lem r height txid s i seq o)
        (record { returns = refl; actions = _; undoes = funded-Undoes r height txid s i seq o h v })

  apply_outputs_lem :
      (txid : Txid) (s : IndexState) (i seq : ℕ) (os : List TxOut) (n : ℕ)
      → height < 2 ^ 32
      → ValidOutputs txid s i seq os n
      → Runs s n (apply_outputs height txid i seq os s)
  unfolding apply_outputs
  apply_outputs_lem txid _ _ _ _ _ h (no_output s i seq) = record {
    returns = refl;
    actions = [];
    undoes = Undoes-nil r height s s refl refl;
  }
  apply_outputs_lem txid _ _ _ _ _ h (output s i seq o rest n v vs) =
      Runs-then s (next_u32 (next_u32 seq)) n (apply_output height txid i seq o s)
        (λ next. apply_outputs height txid (suc i) next rest) (apply_output-Runs txid s i seq o h v)
        (apply_outputs_lem txid (apply_output height txid i seq o s).1 (suc i)
          (next_u32 (next_u32 seq)) rest n h vs)

  -- A transaction whose record is new, and whose inputs and outputs are valid in turn.
  pub record ValidTx (s : IndexState) (seq : ℕ) (tx : bc.Transaction) (n : ℕ) : Type 0 where
    pub new : Entries.find (journal_key height seq) (r.view s.store.journal) ≡ none
    pub mid : ℕ
    pub inputs :
        ValidInputs
          (bc.compute_txid tx)
          (confirmed r height seq tx s)
          0
          (next_u32 seq)
          (bc.prevouts tx)
          mid
    pub outputs :
        ValidOutputs
          (bc.compute_txid tx)
          (apply_inputs height
            (bc.compute_txid tx)
            0
            (next_u32 seq)
            (bc.prevouts tx)
            (confirmed r height seq tx s)).1
          0
          mid
          (bc.outputs tx)
          n

  apply_tx_lem :
      (s : IndexState) (seq : ℕ) (tx : bc.Transaction) (n : ℕ)
      → height < 2 ^ 32
      → ValidTx s seq tx n
      → Runs s n (apply_tx height seq tx s)
  apply_tx_lem s seq tx n h v =
      let id = bc.compute_txid tx in
      let s1 = confirmed r height seq tx s in
      let inputs = apply_inputs height id 0 (next_u32 seq) (bc.prevouts tx) in
      let head : Runs s (next_u32 seq) (ok (next_u32 seq), s1) = record {
        returns = refl;
        actions = _;
        undoes = confirmed-Undoes r height seq tx s v.new;
      } in
      rw (confirmed_lem r height seq tx s) (
        Runs-then s (next_u32 seq) n (ok (next_u32 seq), s1)
          (λ next t.
            continue (apply_inputs height id 0 next (bc.prevouts tx) t).0
              (λ next'. apply_outputs height id 0 next' (bc.outputs tx))
              (apply_inputs height id 0 next (bc.prevouts tx) t).1)
          head
          (Runs-then s1 v.mid n (inputs s1) (λ next. apply_outputs height id 0 next (bc.outputs tx))
            (apply_inputs_lem id s1 0 (next_u32 seq) (bc.prevouts tx) v.mid h v.inputs)
            (apply_outputs_lem id (inputs s1).1 0 v.mid (bc.outputs tx) n h v.outputs)))

  pub data ValidTxs : IndexState → ℕ → List bc.Transaction → ℕ → Type 0 where
    no_tx : (s : IndexState) (seq : ℕ) → ValidTxs s seq [] seq
    next_tx :
        (s : IndexState) (seq : ℕ) (tx : bc.Transaction) (rest : List bc.Transaction) (mid n : ℕ)
        → ValidTx s seq tx mid
        → ValidTxs (apply_tx height seq tx s).1 mid rest n
        → ValidTxs s seq (tx ∷ rest) n

  pub apply_txs_lem :
      (s : IndexState) (seq : ℕ) (txs : List bc.Transaction) (n : ℕ)
      → height < 2 ^ 32
      → ValidTxs s seq txs n
      → Runs s n (apply_txs height seq txs s)
  unfolding apply_txs
  apply_txs_lem _ _ _ _ h (no_tx s seq) = record {
    returns = refl;
    actions = [];
    undoes = Undoes-nil r height s s refl refl;
  }
  apply_txs_lem _ _ _ _ h (next_tx s seq tx rest mid n v vs) =
      Runs-then s mid n (apply_tx height seq tx s) (λ next. apply_txs height next rest)
        (apply_tx_lem s seq tx mid h v) (apply_txs_lem (apply_tx height seq tx s).1 mid rest n h vs)
