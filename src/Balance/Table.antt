-- ===== src/Balance/Table.antt =====
-- The endpoints of tower-balance/src/lib.rs as one table from keys to services, which forgets in
-- which of the two maps a service is, and what a change of the discovery makes of it.
use pants_tower.Base.{
  ◌+◌, ◌≤◌, ◌≡◌, ◌∙◌, inl, inr, List, [], ◌∷◌, Option, none, some, arith, Option-cases,
}
use mathlib.Core.Logic.{ite}
use pants_tower.Service.{Poll}
use pants_tower.IndexMap.{IndexMap}
use pants_tower.IndexMap.Entries.{
  count, lookup, upsert, swap_erase, lookup-count, lookup-upsert, lookup-swap_erase,
}
use pants_tower.Choose.{Choose}
use pants_tower.Discover.{Discover, Change, insert, remove}
use pants_tower.Balance.{Balance, apply_change}
use pants_tower.Balance.Moves.{members}

module _ {K V : Type 0} (dec : Discrete K) where
  -- A change of the table.
  abbrev pub install : Change K V → (K → Option V) → K → Option V
  install (insert j v) t k = ite (dec j k) (some v) (t k)
  install (remove j) t k = ite (dec j k) none (t k)

  abbrev pub installs : List (Change K V) → (K → Option V) → K → Option V
  installs [] t = t
  installs (c ∷ cs) t = installs cs (install c t)

abbrev first {ℓ} : {A : Type ℓ} → Option A → Option A → Option A
first (some v) y = some v
first none y = y

module _ {K V M : Type 0} {dec : Discrete K} (maps : IndexMap K V M dec) where
  -- The service of a key, in either of the maps.
  abbrev pub endpoint : {D C : Type 0} → Balance D C M → K → Option V
  endpoint b k =
      first (lookup dec k (maps.entries b.ready)) (lookup dec k (maps.entries b.not_ready))

module _ {D C K V M E DE : Type 0} {dec : Discrete K} (maps : IndexMap K V M dec)
    (disc : Discover D K V DE) (strategy : Choose C M) (f : V → Poll (Unit {0}) E × V) where
  -- The lookups after a change, from those of the lists of entries.
  inserted :
      (xs ys : List (K × V)) (j : K) (v : V) (k : K)
      → count dec k xs + count dec k ys ≤ 1
      → first (lookup dec k (swap_erase dec j xs)) (lookup dec k (upsert dec j v ys))
        ≡ install dec (insert j v) (λ i. first (lookup dec i xs) (lookup dec i ys)) k
  inserted xs ys j v k h = ground (arith, lookup-swap_erase dec k j xs, lookup-upsert dec k j v ys)

  removed :
      (xs ys : List (K × V)) (j k : K)
      → count dec k xs + count dec k ys ≤ 1
      → first (lookup dec k (swap_erase dec j xs)) (lookup dec k (swap_erase dec j ys))
        ≡ install dec (remove j) (λ i. first (lookup dec i xs) (lookup dec i ys)) k
  removed xs ys j k h = ground (arith, lookup-swap_erase dec k j xs, lookup-swap_erase dec k j ys)

  ejected :
      (xs ys : List (K × V)) (j k : K) (v : V)
      → count dec k xs + count dec k ys ≤ 1
      → lookup dec j xs ≡ some v
      → first (lookup dec k (swap_erase dec j xs)) (lookup dec k ys)
        ≡ install dec (remove j) (λ i. first (lookup dec i xs) (lookup dec i ys)) k
  ejected xs ys j k v h e =
      ground (arith, lookup-swap_erase dec k j xs, lookup-count dec k xs, lookup-count dec k ys, e)

  pub apply_change-endpoint :
      (c : Change K V) (b : Balance D C M)
      → ((k : K) → members maps b k ≤ 1)
      → (k : K)
      → endpoint maps (apply_change maps disc strategy f c b) k ≡ install dec c (endpoint maps b) k
  unfolding apply_change
  apply_change-endpoint (insert j v) b h k =
      rw (maps.entries-remove b.ready j, maps.entries-insert b.not_ready j v)
        (inserted (maps.entries b.ready) (maps.entries b.not_ready) j v k (h k))
  apply_change-endpoint (remove j) b h k =
      elim (Option-cases (lookup dec j (maps.entries b.ready))) [
        | inl e ↦
            rw (maps.remove-value b.ready j ∙ e, apply_change)
              (rw (maps.entries-remove b.ready j, maps.entries-remove b.not_ready j)
                (removed (maps.entries b.ready) (maps.entries b.not_ready) j k (h k)))
        | inr (v, e) ↦
            rw (maps.remove-value b.ready j ∙ e, apply_change)
              (rw (maps.entries-remove b.ready j)
                (ejected (maps.entries b.ready) (maps.entries b.not_ready) j k v (h k) e))
      ]
