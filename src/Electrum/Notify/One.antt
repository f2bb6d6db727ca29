-- ===== src/Electrum/Notify/One.antt =====
-- What the refresh of one subscription stores and reports.
use nakamoto_electrs.Prelude.{
  ◌≡◌, refl, ap, arith, true, Option, none, some, [], ◌∷◌, eq_of_beq, if◌then◌else◌, Bool-cases,
  inl, inr, Option-cases,
}
use nakamoto_electrs.Bytes.{Bytes}
use nakamoto_electrs.HashMap.{HashMap, get}
use nakamoto_electrs.HashMap.Keys.{bytes_eq, ◌≐◌}
use nakamoto_electrs.HashMap.Laws.{get-insert}
use nakamoto_electrs.Store.Types.{ScriptHash}
use nakamoto_electrs.Electrum.Client.{ClientState}
use nakamoto_electrs.Electrum.Notify.{same_status, or_insert_none, entry_status, refresh_one}

abbrev pub Statuses : Type 0
Statuses = HashMap ScriptHash (Option Bytes)

pub eq_of_same_status : (a b : Option Bytes) → same_status a b ≡ true → a ≡ b
unfolding same_status
eq_of_same_status none none h = refl
eq_of_same_status none (some b) h = absurd (cc (h))
eq_of_same_status (some a) none h = absurd (cc (h))
eq_of_same_status (some a) (some b) h = ap some (eq_of_beq a b h)

pub or_insert_none_get :
    (x sh : ScriptHash) (m : Statuses)
    → get x (or_insert_none sh (get sh m) m)
      ≡ (if sh ≐ x then some (entry_status (get sh m)) else get x m)
or_insert_none_get x sh m = elim (Option-cases (get sh m)) [
  | inl e ↦ rw (e, get-insert x sh none m) refl
  | inr (status, e) ↦ elim (Bool-cases (sh ≐ x)) [
    | inl h ↦ rw (e, h, ← eq_of_beq sh x h, e) refl
    | inr h ↦ rw (e, h) refl
  ]
]

pub refresh_one_get :
    (x sh : ScriptHash) (status : Option Bytes) (c : ClientState)
    → get x (refresh_one sh status c).1.status_by_scripthash
      ≡ (if sh ≐ x then some status else get x c.status_by_scripthash)
unfolding refresh_one
refresh_one_get x sh status c =
    let m = c.status_by_scripthash in
    elim (Bool-cases (same_status (entry_status (get sh m)) status)) [
      | inl h ↦ rw (refresh_one, h, or_insert_none_get x sh m, eq_of_same_status _ status h) refl
      | inr h ↦
          rw
            (
              refresh_one,
              h,
              get-insert x sh status (or_insert_none sh (get sh m) m),
              or_insert_none_get x sh m,
            )
            (elim (Bool-cases (sh ≐ x)) [ inl k ↦ rw k refl | inr k ↦ rw k refl ])
    ]

pub refresh_one_changes :
    (sh : ScriptHash) (status : Option Bytes) (c : ClientState)
    → (refresh_one sh status c).0 ≡ (
        if same_status (entry_status (get sh c.status_by_scripthash)) status
        then []
        else (sh, status) ∷ [])
unfolding refresh_one
refresh_one_changes sh status c = ground arith

pub refresh_one_rest :
    (sh : ScriptHash) (status : Option Bytes) (c : ClientState) (m : Statuses)
    → record (refresh_one sh status c).1 { status_by_scripthash = m }
      ≡ record c { status_by_scripthash = m }
unfolding refresh_one
refresh_one_rest sh status c m =
    elim (Bool-cases (same_status (entry_status (get sh c.status_by_scripthash)) status)) [
      | inl h ↦ rw (refresh_one, h) refl
      | inr h ↦ rw (refresh_one, h) refl
    ]
