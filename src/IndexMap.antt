-- ===== src/IndexMap.antt =====
-- `IndexMap` of the indexmap crate, as tower-balance uses it: the operations, and what the crate
-- documents of them, stated over the entries of a map in their order.
pub mod Entries
pub mod Every
pub mod Table
use pants_tower.Base.{ℕ, ◌≡◌, Bool, true, false, List, [], ◌∷◌, Option, length, get_elem?, set}
use Entries.{lookup, upsert, swap_remove, swap_erase, retained}

pub record IndexMap (K V M : Type 0) (dec : Discrete K) : Type 0 where
  pub entries : M → List (K × V)
  pub empty : M
  pub len : M → ℕ
  pub get_index : M → ℕ → Option (K × V)
  -- A write through the reference that `get_index_mut` gives to the value of an entry.
  pub set_index : M → ℕ → K → V → M
  pub insert : M → K → V → M
  -- The value that was removed.
  pub remove : M → K → Option V × M
  pub swap_remove_index : M → ℕ → Option (K × V) × M
  pub entries-empty : entries empty ≡ []
  pub len_lem : (m : M) → len m ≡ length (entries m)
  pub get_index_lem : (m : M) (i : ℕ) → get_index m i ≡ get_elem? (entries m) i
  pub entries-set_index :
      (m : M) (i : ℕ) (k : K) (v : V) → entries (set_index m i k v) ≡ set (entries m) i (k, v)
  pub entries-insert : (m : M) (k : K) (v : V) → entries (insert m k v) ≡ upsert dec k v (entries m)
  pub remove-value : (m : M) (k : K) → (remove m k).0 ≡ lookup dec k (entries m)
  pub entries-remove : (m : M) (k : K) → entries (remove m k).1 ≡ swap_erase dec k (entries m)
  pub swap_remove_index-entry :
      (m : M) (i : ℕ) → (swap_remove_index m i).0 ≡ get_elem? (entries m) i
  pub entries-swap_remove_index :
      (m : M) (i : ℕ) → entries (swap_remove_index m i).1 ≡ swap_remove (entries m) i

-- `retain`, with a closure that changes a value and the state that it captures.
pub record Retain {K V M : Type 0} {dec : Discrete K} (maps : IndexMap K V M dec) (S : Type 0)
    : Type 0 where
  pub retain : (K → V → S → Bool × V × S) → M → S → M × S
  pub entries-retain :
      (f : K → V → S → Bool × V × S) (m : M) (s : S)
      → maps.entries (retain f m s).0 ≡ (retained f (maps.entries m) s).0
  pub retain-state :
      (f : K → V → S → Bool × V × S) (m : M) (s : S)
      → (retain f m s).1 ≡ (retained f (maps.entries m) s).1
