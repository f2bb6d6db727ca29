-- ===== src/Electrum/Notify/Refresh.antt =====
-- What a refresh of the subscriptions stores and reports.
use nakamoto_electrs.Prelude.{
  ◌≡◌, refl, ap, ◌∙◌, arith, Bool, true, false, Option, none, some, List, [], ◌∷◌, ◌++◌, Result, ok,
  err, beq, eq_of_beq, beq_refl, if◌then◌else◌, Bool-cases, inl, inr, Result-cases, ◌⊎◌,
}
use nakamoto_electrs.Bytes.{Bytes}
use nakamoto_electrs.Bitcoin.{Bitcoin}
use nakamoto_electrs.BlockSource.{Blocks}
use nakamoto_electrs.Sled.{Sled}
use nakamoto_electrs.HashMap.{get}
use nakamoto_electrs.HashMap.Keys.{bytes_eq, ◌≐◌}
use nakamoto_electrs.HashMap.Sets.{has}
use nakamoto_electrs.Store.Types.{ScriptHash}
use nakamoto_electrs.Indexer.State.{IndexState}
use nakamoto_electrs.Electrum.Crates.{Crates}
use nakamoto_electrs.Electrum.StatusHash.{script_status}
use nakamoto_electrs.Electrum.Client.{ClientState}
use nakamoto_electrs.Electrum.Notify.{same_status, Change, entry_status, refresh_one, refresh}
use nakamoto_electrs.Electrum.Notify.One.{
  Statuses, refresh_one_get, refresh_one_changes, refresh_one_rest,
}

-- No script hash stands in the list twice.
abbrev pub Distinct : List ScriptHash → Type 0
Distinct [] = Unit
Distinct (sh ∷ subs) = (has sh subs ≡ false) × Distinct subs

-- the status that is read, where it is wanted and can be read
abbrev pub read_status : Bool → Result (Option Bytes) → Option (Option Bytes)
read_status false r = none
read_status true (err e) = none
read_status true (ok status) = some status

-- what is stored where nothing is read
abbrev pub or_else {ℓ} : {A : Type ℓ} → Option A → Option A → Option A
or_else none old = old
or_else (some new) old = some new

-- a change, where the status that is read is not the one that was stored
abbrev pub change_of : ScriptHash → Option (Option Bytes) → Option (Option Bytes) → List Change
change_of sh none old = []
change_of sh (some status) old =
    if same_status (entry_status old) status then [] else (sh, status) ∷ []

module _ ⦃sl : Sled⦄ ⦃bc : Bitcoin⦄ ⦃bl : Blocks⦄ ⦃cr : Crates⦄ where
  abbrev pub read_wanted : (ScriptHash → Bool) → IndexState → ScriptHash → Option (Option Bytes)
  read_wanted wanted s sh = read_status (wanted sh) (script_status sh s)

  -- the subscriptions whose status is not the stored one, with the status
  abbrev pub differing :
      (ScriptHash → Option (Option Bytes)) → Statuses → List ScriptHash → List Change
  differing read m [] = []
  differing read m (sh ∷ subs) = change_of sh (read sh) (get sh m) ++ differing read m subs

  -- one round of the loop
  refresh_cases :
      (wanted : ScriptHash → Bool) (s : IndexState) (sh : ScriptHash) (subs : List ScriptHash)
      (c : ClientState)
      → ((read_wanted wanted s sh ≡ none)
          × (refresh wanted s (sh ∷ subs) c ≡ refresh wanted s subs c))
        ⊎ ((status : Option Bytes) × (read_wanted wanted s sh ≡ some status)
            × (let r = refresh_one sh status c in
                let rest = refresh wanted s subs r.1 in
                refresh wanted s (sh ∷ subs) c ≡ (r.0 ++ rest.0, rest.1)))
  unfolding refresh
  refresh_cases wanted s sh subs c = elim (Bool-cases (wanted sh)) [
    | inl h ↦ elim (Result-cases (script_status sh s)) [
      | inl (status, e) ↦ inr (status, rw (h, e) refl, rw (refresh, h, e) refl)
      | inr (x, e) ↦ inl (rw (h, e) refl, rw (refresh, h, e) refl)
    ]
    | inr h ↦ inl (rw h refl, rw (refresh, h) refl)
  ]

  pub refresh_get :
      (wanted : ScriptHash → Bool) (s : IndexState) (subs : List ScriptHash) (c : ClientState)
      (x : ScriptHash)
      → get x (refresh wanted s subs c).1.status_by_scripthash ≡ (
          if has x subs
          then or_else (read_wanted wanted s x) (get x c.status_by_scripthash)
          else get x c.status_by_scripthash)
  unfolding refresh has
  refresh_get wanted s [] c x = refl
  refresh_get wanted s (sh ∷ subs) c x = elim (refresh_cases wanted s sh subs c) [
    | inl (e, step) ↦ elim (Bool-cases (sh ≐ x)) [
      | inl h ↦
          rw (step, refresh_get wanted s subs c x, has, ← eq_of_beq sh x h, beq_refl sh, e)
            (elim (Bool-cases (has x subs)) [ inl k ↦ rw k refl | inr k ↦ rw k refl ])
      | inr h ↦ rw (step, refresh_get wanted s subs c x, has, h) refl
    ]
    | inr (status, e, step) ↦ elim (Bool-cases (sh ≐ x)) [
      | inl h ↦
          rw
            (
              step,
              refresh_get wanted s subs (refresh_one sh status c).1 x,
              refresh_one_get x sh status c,
              has,
              ← eq_of_beq sh x h,
              beq_refl sh,
              e,
            )
            (elim (Bool-cases (has x subs)) [ inl k ↦ rw k refl | inr k ↦ rw k refl ])
      | inr h ↦
          rw
            (
              step,
              refresh_get wanted s subs (refresh_one sh status c).1 x,
              refresh_one_get x sh status c,
              has,
              h,
            )
            refl
    ]
  ]

  pub differing_eq :
      (read : ScriptHash → Option (Option Bytes)) (m n : Statuses) (subs : List ScriptHash)
      → ((x : ScriptHash) → has x subs ≡ true → get x m ≡ get x n)
      → differing read m subs ≡ differing read n subs
  unfolding has
  differing_eq read m n [] h = refl
  differing_eq read m n (sh ∷ subs) h =
      rw
        (
          h sh (ground (arith, beq_refl sh)),
          differing_eq read m n subs (λ x k. h x (ground (arith, k))),
        )
        refl

  apart :
      (sh x : ScriptHash) (subs : List ScriptHash)
      → has sh subs ≡ false
      → has x subs ≡ true
      → beq sh x ≡ false
  apart sh x subs h k = elim (Bool-cases (beq sh x)) [
    | inl e ↦ absurd (let same = eq_of_beq sh x e in cc)
    | inr e ↦ e
  ]

  pub refresh_changes :
      (wanted : ScriptHash → Bool) (s : IndexState) (subs : List ScriptHash) (c : ClientState)
      → Distinct subs
      → (refresh wanted s subs c).0 ≡ differing (read_wanted wanted s) c.status_by_scripthash subs
  unfolding refresh
  refresh_changes wanted s [] c d = refl
  refresh_changes wanted s (sh ∷ subs) c d = elim (refresh_cases wanted s sh subs c) [
    | inl (e, step) ↦ rw (step, e) (refresh_changes wanted s subs c d.1)
    | inr (status, e, step) ↦
        let n = (refresh_one sh status c).1.status_by_scripthash in
        rw
          (
            step,
            e,
            refresh_one_changes sh status c,
            refresh_changes wanted s subs (refresh_one sh status c).1 d.1,
          )
          (ap (λ r. change_of sh (some status) (get sh c.status_by_scripthash) ++ r)
            (differing_eq (read_wanted wanted s) n c.status_by_scripthash subs
              (λ x k. rw (refresh_one_get x sh status c, apart sh x subs d.0 k) refl)))
  ]

  -- A refresh changes only the statuses.
  pub refresh_rest :
      (wanted : ScriptHash → Bool) (s : IndexState) (subs : List ScriptHash) (c : ClientState)
      → (refresh wanted s subs c).1
        ≡ record c { status_by_scripthash = (refresh wanted s subs c).1.status_by_scripthash }
  unfolding refresh
  refresh_rest wanted s [] c = refl
  refresh_rest wanted s (sh ∷ subs) c = elim (refresh_cases wanted s sh subs c) [
    | inl (e, step) ↦ rw step (refresh_rest wanted s subs c)
    | inr (status, e, step) ↦
        rw step
          (refresh_rest wanted s subs (refresh_one sh status c).1 ∙ refresh_one_rest sh status c _)
  ]
