-- ===== src/Sled.antt =====
-- The embedded database `sled`, which the repository does not hold: the operations on a tree that
-- src/store.rs calls, and the documented behaviour of a tree whose calls do not fail, which is
-- that of an ordered map.
pub mod Entries
pub mod Reads
use nakamoto_electrs.Prelude.{◌≡◌, Option, List, map}
use nakamoto_electrs.Prelude.{Result, ok}
use nakamoto_electrs.Prelude.Exec.{Exec}
use nakamoto_electrs.Bytes.{Bytes}
use nakamoto_electrs.Sled.Entries
use nakamoto_electrs.Sled.Entries.{Entry, IsSorted}

-- `sled::Tree`; each call may fail.
pub record Sled : Type 1 where
  pub Tree : Type 0
  pub get : Bytes → Tree → Result (Option Bytes)
  pub insert : Bytes → Bytes → Exec Tree (Unit {0})
  pub remove : Bytes → Exec Tree (Unit {0})
  pub iter : Tree → List (Result Entry)
  pub scan_prefix : Bytes → Tree → List (Result Entry)

-- No call fails, and a tree is a map in key order.
pub record IsReliable (sl : Sled) : Type 0 where
  pub view : sl.Tree → List Entry
  pub sorted : (t : sl.Tree) → IsSorted (view t)
  pub get_lem : (k : Bytes) (t : sl.Tree) → sl.get k t ≡ ok (Entries.find k (view t))
  pub insert_ok : (k v : Bytes) (t : sl.Tree) → (sl.insert k v t).0 ≡ ok tt
  pub view-insert :
      (k v : Bytes) (t : sl.Tree) → view (sl.insert k v t).1 ≡ Entries.insert k v (view t)
  pub remove_ok : (k : Bytes) (t : sl.Tree) → (sl.remove k t).0 ≡ ok tt
  pub view-remove : (k : Bytes) (t : sl.Tree) → view (sl.remove k t).1 ≡ Entries.remove k (view t)
  pub iter_lem : (t : sl.Tree) → sl.iter t ≡ map ok (view t)
  pub scan_prefix_lem :
      (p : Bytes) (t : sl.Tree) → sl.scan_prefix p t ≡ map ok (Entries.scan p (view t))
