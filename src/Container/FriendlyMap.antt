-- ===== src/Container/FriendlyMap.antt =====
-- src/container/ThreadFriendlyMap.hpp. Its lock makes each operation atomic, so an operation is one
-- function; `size_max` is the largest size seen, which the console shows.
use callx.Container.Map.{Map}
use callx.Container.Map
use callx.Prelude.{ℕ, ◌+◌, ◌≤◌, Bool, [], Option, arith, Key, if◌then◌else◌, length, ltb, is_some}

pub record FriendlyMap {ℓ κ} (K : Type ℓ) (V : Type κ) : Type (ℓ ⊔ κ) where
  pub entries : Map K V
  pub size_max : ℕ

module _ {ℓ κ} {K : Type ℓ} {V : Type κ} where
  unfoldable pub empty : FriendlyMap K V
  empty = record { entries = []; size_max = 0 }

  unfoldable pub erase_all : FriendlyMap K V → FriendlyMap K V
  erase_all m = record m { entries = [] }

  abbrev pub size : FriendlyMap K V → ℕ
  size m = length m.entries

module _ {ℓ κ} {K : Type ℓ} {V : Type κ} ⦃k : Key K⦄ where
  unfoldable pub find : K → FriendlyMap K V → Option V
  find a m = Map.find a m.entries

  unfoldable pub insert : K → V → FriendlyMap K V → FriendlyMap K V
  insert a v m =
      let entries = Map.insert a v m.entries in
      record {
        entries = entries;
        size_max = if ltb m.size_max (length entries) then m.size_max + 1 else m.size_max;
      }

  -- The new map, and whether an entry was erased.
  unfoldable pub erase : K → FriendlyMap K V → FriendlyMap K V × Bool
  erase a m = (record m { entries = Map.erase a m.entries }, is_some (Map.find a m.entries))

  -- Where the high-water mark is not below the size, it is not after an insertion either, and it has
  -- grown by at most one.
  pub insert-size_max :
      (a : K) (v : V) (m : FriendlyMap K V)
      → size m ≤ m.size_max
      → (size (insert a v m) ≤ (insert a v m).size_max) × ((insert a v m).size_max ≤ m.size_max + 1)
  unfolding insert
  insert-size_max a v m h = ground (arith, Map.length-insert a v m.entries)

  -- An erasure keeps the mark at or above the size.
  pub erase-size_max :
      (a : K) (m : FriendlyMap K V)
      → size m ≤ m.size_max
      → size (erase a m).0 ≤ (erase a m).0.size_max
  unfolding erase
  erase-size_max a m h = omega (arith, Map.length-erase-le a m.entries)
