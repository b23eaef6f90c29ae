-- ===== src/IndexMap/Table.antt =====
-- A concrete map: the list of its entries, with numbers for keys.
use pants_tower.Base.{ℕ, List, [], refl, length, get_elem?, set}
use native.Mathlib.Decide.{ℕ_discrete}
use pants_tower.IndexMap.{IndexMap, Retain}
use pants_tower.IndexMap.Entries.{lookup, upsert, swap_remove, swap_erase, retained}

abbrev pub Table : Type 0
Table = List (ℕ × ℕ)

abbrev pub table_of : (V : Type 0) → IndexMap ℕ V (List (ℕ × V)) ℕ_discrete
table_of V = record {
  entries = λ m. m;
  empty = [];
  len = length;
  get_index = get_elem?;
  set_index = λ m i k v. set m i (k, v);
  insert = λ m k v. upsert ℕ_discrete k v m;
  remove = λ m k. (lookup ℕ_discrete k m, swap_erase ℕ_discrete k m);
  swap_remove_index = λ m i. (get_elem? m i, swap_remove m i);
  entries-empty = refl;
  len_lem = λ m. refl;
  get_index_lem = λ m i. refl;
  entries-set_index = λ m i k v. refl;
  entries-insert = λ m k v. refl;
  remove-value = λ m k. refl;
  entries-remove = λ m k. refl;
  swap_remove_index-entry = λ m i. refl;
  entries-swap_remove_index = λ m i. refl;
}

abbrev pub table : IndexMap ℕ ℕ Table ℕ_discrete
table = table_of ℕ

abbrev pub retaining : {S : Type 0} → Retain table S
retaining = record {
  retain = retained;
  entries-retain = λ f m s. refl;
  retain-state = λ f m s. refl;
}
