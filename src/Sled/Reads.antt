-- ===== src/Sled/Reads.antt =====
-- A read after a write, in a database that does not fail.
use nakamoto_electrs.Prelude.{◌≡◌, Bool-cases, inl, inr, none, some, beq, if◌then◌else◌, ok}
use nakamoto_electrs.Bytes.{Bytes}
use nakamoto_electrs.Sled.{Sled, IsReliable}
use nakamoto_electrs.Sled.Entries.{find-insert, find-remove}

module _ ⦃sl : Sled⦄ (r : IsReliable sl) (j k : Bytes) where
  pub get-insert :
      (v : Bytes) (t : sl.Tree)
      → sl.get j (sl.insert k v t).1 ≡ (if beq j k then ok (some v) else sl.get j t)
  get-insert v t =
      rw
        (
          r.get_lem j (sl.insert k v t).1,
          r.view-insert k v t,
          find-insert j k v (r.view t),
          r.get_lem j t,
        )
        (elim (Bool-cases (beq j k)) [ inl same ↦ rw same | inr other ↦ rw other ])

  pub get-remove :
      (t : sl.Tree) → sl.get j (sl.remove k t).1 ≡ (if beq j k then ok none else sl.get j t)
  get-remove t =
      rw
        (
          r.get_lem j (sl.remove k t).1,
          r.view-remove k t,
          find-remove j k (r.view t) (r.sorted t),
          r.get_lem j t,
        )
        (elim (Bool-cases (beq j k)) [ inl same ↦ rw same | inr other ↦ rw other ])
