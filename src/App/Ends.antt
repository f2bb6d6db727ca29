-- ===== src/App/Ends.antt =====
-- The start of the client comes to an end.
use nakamoto_electrs.Prelude.{
  ℕ, ◌≡◌, refl, Bool, true, false, Option, none, some, Bool-cases, inl, inr, Option-cases,
}
use nakamoto_electrs.Bytes.{Bytes}
use nakamoto_electrs.App.{
  Cache, is_corrupt, contains_text, Startup, client_error, still_running, lost, Launch, World,
  genesis_mismatch, started, launch_round, launch,
}

abbrev pub empty_cache : Cache
empty_cache = record { headers = none; filters = none }

-- The directories can be removed, and a client that starts without a cache finds no header of
-- another network.
pub record IsWorking (w : World) : Type 0 where
  pub removes : (c : Cache) → w.remove_dirs c ≡ empty_cache
  pub own_genesis :
      (round : ℕ) (e : Bytes)
      → w.start round empty_cache ≡ client_error e
      → contains_text genesis_mismatch e ≡ false

started_lem :
    (after : Bool) (e : Option Bytes) (outcome : Startup)
    → ((m : Bytes) → outcome ≡ client_error m → contains_text genesis_mismatch m ≡ false)
    → (l : Launch) × (started after e outcome ≡ some l)
started_lem after (some e) outcome h = (_, refl)
started_lem after none (client_error m) h = rw (h m refl) (_, refl)
started_lem true none still_running h = (_, refl)
started_lem false none still_running h = (_, refl)
started_lem after none lost h = (_, refl)

-- A round without a cache is the last one.
empty_round :
    (w : World) (round : ℕ)
    → IsWorking w
    → (l : Launch) × ((launch_round w round empty_cache).0 ≡ some l)
unfolding launch_round is_corrupt
empty_round w round k = elim (Bool-cases (w.shutdown round)) [
  | inl h ↦ rw h (_, refl)
  | inr h ↦ rw h (
      started_lem (w.shutdown_after round) (w.create_client round) (w.start round empty_cache)
        (k.own_genesis round))
]

-- A round that is not the last one leaves no cache.
next_cache :
    (w : World) (round : ℕ) (c : Cache)
    → IsWorking w
    → (launch_round w round c).0 ≡ none
    → (launch_round w round c).1 ≡ empty_cache
unfolding launch_round
next_cache w round c k e = elim (Bool-cases (w.shutdown round)) [
  | inl h ↦ absurd (cc (rw h at e))
  | inr h ↦ elim (Bool-cases (is_corrupt c)) [
    | inl i ↦ rw (h, i) (k.removes c)
    | inr i ↦ rw (h, i) (k.removes c)
  ]
]

-- Where the directories of the cache can be removed, and a client that starts without a cache
-- reports no header of another network, the loop that starts the client ends within two rounds,
-- whatever the cache held.
pub launch_lem : (w : World) (c : Cache) → IsWorking w → (l : Launch) × (launch w 2 0 c ≡ some l)
unfolding launch
launch_lem w c k = elim (Option-cases ((launch_round w 0 c).0)) [
  | inl e ↦
      let (l, f) = empty_round w 1 k in (l, rw (launch, e, next_cache w 0 c k e, launch, f) refl)
  | inr (l, e) ↦ (l, rw (launch, e) refl)
]
