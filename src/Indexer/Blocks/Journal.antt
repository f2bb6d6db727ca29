-- ===== src/Indexer/Blocks/Journal.antt =====
-- The undo records that a journal holds for a height, and what a new entry of the journal adds.
use Prim.Native.Nat.{Ordering}
use Prim.Native.Nat.Ordering.{lt, eq, gt}
use mathlib.Core.List.{Perm, perm_middle, append_assoc, append-nil}
use mathlib.Core.List.Perm as Perm
use nakamoto_electrs.Prelude.{
  ℕ, ◌^◌, ◌<◌, ◌≡◌, refl, Bool-cases, inl, inr, ◌⊎◌, none, List, [], ◌∷◌, ◌++◌, All, length, arith,
  ok, err, Result, Result-cases, map, beq_refl, if◌then◌else◌,
}
use nakamoto_electrs.Bytes.{
  Bytes, be_bytes, from_be_bytes, length-be_bytes, from_be_bytes-be_bytes, slice_first, slice_all,
  slice_skip,
}
use nakamoto_electrs.Bytes.Order.{bcmp, eq_of_bcmp}
use nakamoto_electrs.Bitcoin.{Bitcoin}
use nakamoto_electrs.Sled.{Sled}
use nakamoto_electrs.Sled.Entries
use nakamoto_electrs.Sled.Entries.{Entry}
use nakamoto_electrs.HashMap.Keys.{◌≐◌, nat_eq}
use nakamoto_electrs.Store.Types.{StoredJournalAction, JournalActionKind, journal_byte}
use nakamoto_electrs.Store.Loops.{collect}
use nakamoto_electrs.Store.Codec.{journal_key, parse_journal_action}
use nakamoto_electrs.Store.Codec.RoundTrip.{length-journal_key, journal_kind-journal_byte}
use nakamoto_electrs.Store.Codec.Outpoints.{IsOutPoint}
use nakamoto_electrs.Indexer.State.{BlockAction, next_u32}
use nakamoto_electrs.Indexer.Blocks.Room.{HasRoom, second_free}
use nakamoto_electrs.Indexer.Payload.{action_key, parse_txid, outpoint_bytes}
use nakamoto_electrs.Indexer.Payload.RoundTrip.{parse_outpoint-outpoint_bytes}
use nakamoto_electrs.Indexer.Startup.{action_of}

ordering : (o : Ordering) → (o ≡ lt) ⊎ ((o ≡ eq) ⊎ (o ≡ gt))
ordering lt = inl refl
ordering eq = inr (inl refl)
ordering gt = inr (inr refl)

later :
    (k j w : Bytes) (m : List Entry) → Entries.find k ((j, w) ∷ m) ≡ none → Entries.find k m ≡ none
unfolding Entries.find
later k j w m n = ground (arith, n)

-- the value that the journal holds for a record
unfoldable pub value_of : BlockAction → Bytes
value_of (BlockAction.tx txid key) = journal_byte JournalActionKind.tx ∷ txid
value_of (BlockAction.history hk key) = journal_byte JournalActionKind.history ∷ hk
value_of (BlockAction.output o key) = journal_byte JournalActionKind.output ∷ outpoint_bytes o
value_of (BlockAction.spend o key) = journal_byte JournalActionKind.spend ∷ outpoint_bytes o

pub All-append_inv {ℓ κ} :
    {A : Type ℓ} (P : A → Type κ) (xs ys : List A) → All P (xs ++ ys) → All P xs × All P ys
All-append_inv P [] ys h = (tt, h)
All-append_inv P (x ∷ xs) ys (p, ps) = let (qs, rs) = All-append_inv P xs ys ps in ((p, qs), rs)

-- A record whose txid or outpoint fits its type.
abbrev pub IsFit : BlockAction → Type 0
IsFit (BlockAction.tx txid key) = length txid ≡ 32
IsFit (BlockAction.history hk key) = Unit
IsFit (BlockAction.output o key) = IsOutPoint o
IsFit (BlockAction.spend o key) = IsOutPoint o

-- The sequence number is read back with 32 bits.
parse_any :
    (height seq : ℕ) (kind : JournalActionKind) (payload : Bytes)
    → height < 2 ^ 32
    → parse_journal_action (journal_key height seq) (journal_byte kind ∷ payload)
      ≡ ok (record {
        journal_key = journal_key height seq;
        height = height;
        sequence = from_be_bytes (be_bytes 4 seq);
        kind = kind;
        payload = payload;
      })
unfolding parse_journal_action
parse_any height seq kind payload hh = rw (length-journal_key height seq) (
    unfold journal_key in
    let h4 = be_bytes 4 height in
    let s4 = be_bytes 4 seq in
    let t = length-be_bytes 4 height in
    rw
      (
        journal_kind-journal_byte kind,
        slice_first 4 h4 s4 t,
        slice_skip 4 4 8 0 4 h4 s4 t refl refl,
        slice_all 4 s4 (length-be_bytes 4 seq),
        from_be_bytes-be_bytes 4 height hh,
      )
      refl)

module _ ⦃sl : Sled⦄ ⦃bc : Bitcoin⦄ where
  abbrev pub as_list : Result BlockAction → List BlockAction
  as_list (ok entry) = entry ∷ []
  as_list (err e) = []

  -- what a journal action adds to the records of a height
  abbrev pub kept : ℕ → StoredJournalAction → List BlockAction
  kept h a = if a.height ≐ h then as_list (action_of a a.kind) else []

  -- the undo records of a height, in the order of the journal
  unfoldable pub recorded : ℕ → List StoredJournalAction → List BlockAction
  recorded h [] = []
  recorded h (a ∷ rest) = kept h a ++ recorded h rest

  abbrev pub parsed : ℕ → Result StoredJournalAction → List BlockAction
  parsed h (ok a) = kept h a
  parsed h (err e) = []

  -- the same, from the entries of the tree
  unfoldable pub journal_records : ℕ → List Entry → List BlockAction
  journal_records h [] = []
  journal_records h (e ∷ es) = parsed h (parse_journal_action e.0 e.1) ++ journal_records h es

  abbrev pub parse_entry : Entry → Result StoredJournalAction
  parse_entry e = parse_journal_action e.0 e.1

  pub recorded-collect :
      (h : ℕ) (es : List Entry) (actions : List StoredJournalAction)
      → collect parse_entry (map ok es) ≡ ok actions
      → recorded h actions ≡ journal_records h es
  unfolding collect recorded journal_records
  recorded-collect h [] actions e = let same : [] ≡ actions = cc (e) in rw (← same) refl
  recorded-collect h ((k, v) ∷ es) actions e = elim (Result-cases (parse_journal_action k v)) [
    | inl (a, p) ↦ elim (Result-cases (collect parse_entry (map ok es))) [
      | inl (rest, q) ↦
          let same : a ∷ rest ≡ actions = cc (rw (collect, p, q) at e) in
          rw (← same, p, recorded-collect h es rest q) refl
      | inr (x, q) ↦ absurd (cc (rw (collect, p, q) at e))
    ]
    | inr (x, p) ↦ absurd (cc (rw (collect, p) at e))
  ]

  exchange : (xs ys m : List BlockAction) → Perm (xs ++ (ys ++ m)) (ys ++ (xs ++ m))
  exchange [] ys m = Perm.refl _
  exchange (x ∷ xs) ys m =
      Perm.trans (Perm.cons x (exchange xs ys m)) (Perm.symm (perm_middle ys (xs ++ m)))

  -- A new entry adds its record.
  insert-Perm :
      (h : ℕ) (k v : Bytes) (m : List Entry)
      → Entries.find k m ≡ none
      → Perm
          (journal_records h (Entries.insert k v m))
          (parsed h (parse_journal_action k v) ++ journal_records h m)
  unfolding journal_records Entries.insert Entries.find
  insert-Perm h k v [] n = Perm.refl _
  insert-Perm h k v ((j, w) ∷ m) n = elim (ordering (bcmp k j)) [
    | inl below ↦ rw (Entries.insert, below) (Perm.refl _)
    | inr (inl same) ↦ absurd (cc (rw (eq_of_bcmp k j same, beq_refl j) at n))
    | inr (inr above) ↦
        rw (Entries.insert, above)
          (Perm.trans
            (Perm.append_left (parsed h (parse_journal_action j w))
              (insert-Perm h k v m (later k j w m n)))
            (exchange (parsed h (parse_journal_action j w)) (parsed h (parse_journal_action k v))
              (journal_records h m)))
  ]

  entry_lem :
      (h height seq : ℕ) (a : BlockAction)
      → height < 2 ^ 32
      → action_key a ≡ journal_key height seq
      → IsFit a
      → parsed h (parse_journal_action (journal_key height seq) (value_of a))
        ≡ (if height ≐ h then a ∷ [] else [])
  unfolding value_of action_key action_of parse_txid
  entry_lem h height seq (BlockAction.tx txid key) b e f =
      rw (parse_any height seq JournalActionKind.tx txid b, f, e) refl
  entry_lem h height seq (BlockAction.history hk key) b e f =
      rw (parse_any height seq JournalActionKind.history hk b, e) refl
  entry_lem h height seq (BlockAction.output o key) b e f =
      rw
        (
          parse_any height seq JournalActionKind.output (outpoint_bytes o) b,
          parse_outpoint-outpoint_bytes o f,
          e,
        )
        refl
  entry_lem h height seq (BlockAction.spend o key) b e f =
      rw
        (
          parse_any height seq JournalActionKind.spend (outpoint_bytes o) b,
          parse_outpoint-outpoint_bytes o f,
          e,
        )
        refl

  -- From the first journal to the second, the records of `height` grew by `actions`.
  abbrev pub Adds : ℕ → List Entry → List Entry → List BlockAction → Type 0
  Adds height j j' actions =
      (h : ℕ)
      → Perm (journal_records h j') (journal_records h j ++ (if height ≐ h then actions else []))

  pub Adds-nil : (height : ℕ) (j j' : List Entry) → j' ≡ j → Adds height j j' []
  Adds-nil height j j' e h = elim (Bool-cases (height ≐ h)) [
    | inl s ↦ rw (s, e, append-nil (journal_records h j)) (Perm.refl _)
    | inr s ↦ rw (s, e, append-nil (journal_records h j)) (Perm.refl _)
  ]

  pub Adds-append :
      (height : ℕ) (i j k : List Entry) (as' bs : List BlockAction)
      → Adds height i j as'
      → Adds height j k bs
      → Adds height i k (as' ++ bs)
  Adds-append height i j k as' bs a b h =
      let before = a h in
      let after = b h in
      elim (Bool-cases (height ≐ h)) [
        | inl s ↦
            let first : Perm (journal_records h j) (journal_records h i ++ as') = rw s at before in
            let second : Perm (journal_records h k) (journal_records h j ++ bs) = rw s at after in
            rw (s, ← append_assoc (journal_records h i) as' bs)
              (Perm.trans second (Perm.append_right bs first))
        | inr s ↦
            let first : Perm (journal_records h j) (journal_records h i ++ []) = rw s at before in
            let second : Perm (journal_records h k) (journal_records h j ++ []) = rw s at after in
            rw s (Perm.trans (rw (append-nil (journal_records h j)) at second) first)
      ]

  pub Adds-one :
      (height seq : ℕ) (a : BlockAction) (j : List Entry)
      → height < 2 ^ 32
      → action_key a ≡ journal_key height seq
      → IsFit a
      → Entries.find (journal_key height seq) j ≡ none
      → Adds height j (Entries.insert (journal_key height seq) (value_of a) j) (a ∷ [])
  Adds-one height seq a j b e f n h =
      let new = if height ≐ h then a ∷ [] else [] in
      let added = insert-Perm h (journal_key height seq) (value_of a) j n in
      let around = exchange new (journal_records h j) [] in
      let turned = rw (append-nil (journal_records h j), append-nil new) at around in
      Perm.trans (rw (entry_lem h height seq a b e f) at added) turned

  -- Two records under the next two keys.
  pub Adds-two :
      (height seq : ℕ) (a b : BlockAction) (j : List Entry)
      → height < 2 ^ 32
      → action_key a ≡ journal_key height seq
      → action_key b ≡ journal_key height (next_u32 seq)
      → IsFit a
      → IsFit b
      → HasRoom height seq j
      → Adds height j
          (Entries.insert
            (journal_key height (next_u32 seq))
            (value_of b)
            (Entries.insert (journal_key height seq) (value_of a) j))
          (a ∷ b ∷ [])
  Adds-two height seq a b j l ea eb fa fb room =
      let mid = Entries.insert (journal_key height seq) (value_of a) j in
      Adds-append height j mid _ (a ∷ []) (b ∷ []) (Adds-one height seq a j l ea fa room.first) (
        Adds-one height (next_u32 seq) b mid l eb fb (second_free height seq (value_of a) j l room))
