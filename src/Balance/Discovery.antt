-- ===== src/Balance/Discovery.antt =====
-- `update_from_discover` of tower-balance/src/lib.rs against a table of the endpoints.
use pants_tower.Base.{
  ℕ, zero, suc, ◌≤◌, ◌<◌, ◌≡◌, refl, ap, ◌∙◌, sym, inl, inr, List, [], ◌∷◌, Option, none, some,
  arith, length, Option-cases,
}
use mathlib.Core.Path.{fun_ext}
use mathlib.Core.Logic.{ite}
use pants_tower.Service.{Poll, ready, not_ready, err}
use pants_tower.IndexMap.{IndexMap}
use pants_tower.IndexMap.Entries.{count, lookup, count-upsert, count-swap_erase, lookup-count}
use pants_tower.Machine.{returns, fails, Ends}
use pants_tower.Choose.{Choose}
use pants_tower.Discover.{Discover, Change, insert, remove}
use pants_tower.Balance.{Balance, balance, apply_change, poll_discover, update_from_discover}
use pants_tower.Balance.Table.{endpoint, install, installs, apply_change-endpoint}
use pants_tower.Balance.Moves.{members, Pending}

module _ {K V : Type 0} (dec : Discrete K) where
  -- The endpoints that a change leaves: how many entries has each key?
  abbrev pub change : Change K V → (K → ℕ) → K → ℕ
  change (insert j v) g k = ite (dec j k) 1 (g k)
  change (remove j) g k = ite (dec j k) 0 (g k)

  abbrev pub changes : List (Change K V) → (K → ℕ) → K → ℕ
  changes [] g = g
  changes (c ∷ cs) g = changes cs (change c g)

  change_once : (c : Change K V) (g : K → ℕ) → ((k : K) → g k ≤ 1) → (k : K) → change c g k ≤ 1
  change_once (insert j v) g h k = ground (arith, h k)
  change_once (remove j) g h k = ground (arith, h k)

  pub changes_once :
      (cs : List (Change K V)) (g : K → ℕ) → ((k : K) → g k ≤ 1) → (k : K) → changes cs g k ≤ 1
  changes_once [] g h = h
  changes_once (c ∷ cs) g h = changes_once cs (change c g) (change_once c g h)

  change_ap : (c : Change K V) (g g' : K → ℕ) (k : K) → g k ≡ g' k → change c g k ≡ change c g' k
  change_ap (insert j v) g g' k e = ap (ite (dec j k) 1) e
  change_ap (remove j) g g' k e = ap (ite (dec j k) 0) e

-- The discovery yields these changes and then stops: with an error, or because no more are there.
abbrev pub Drains :
    {D K V DE : Type 0} → Discover D K V DE → D → List (Change K V) → Option DE → Type 0
Drains {D} disc d [] none = (d' : D) × (disc.poll d ≡ (not_ready, d'))
Drains {D} disc d [] (some e) = (d' : D) × (disc.poll d ≡ (err e, d'))
Drains {D} disc d (c ∷ cs) stop = (d' : D) × (disc.poll d ≡ (ready c, d')) × Drains disc d' cs stop

module _ {D C K V M E DE : Type 0} {dec : Discrete K} (maps : IndexMap K V M dec)
    (disc : Discover D K V DE) (strategy : Choose C M) (f : V → Poll (Unit {0}) E × V) where
  apply_change-members :
      (c : Change K V) (b : Balance D C M)
      → ((k : K) → members maps b k ≤ 1)
      → (k : K)
      → members maps (apply_change maps disc strategy f c b) k ≡ change dec c (members maps b) k
  unfolding apply_change
  apply_change-members (insert j v) b h k =
      rw (maps.entries-remove b.ready j, maps.entries-insert b.not_ready j v)
        (ground (
          arith,
          h k,
          count-swap_erase dec k j (maps.entries b.ready),
          count-upsert dec k j v (maps.entries b.not_ready),
        ))
  apply_change-members (remove j) b h k =
      let absent = lookup-count dec j (maps.entries b.ready) in
      let erased = count-swap_erase dec k j (maps.entries b.ready) in
      let erased' = count-swap_erase dec k j (maps.entries b.not_ready) in
      elim (Option-cases (lookup dec j (maps.entries b.ready))) [
        | inl e ↦
            rw (maps.remove-value b.ready j ∙ e, apply_change)
              (rw (maps.entries-remove b.ready j, maps.entries-remove b.not_ready j)
                (ground (arith, erased, erased', absent.0 e, h k)))
        | inr (v, e) ↦
            rw (maps.remove-value b.ready j ∙ e, apply_change)
              (rw (maps.entries-remove b.ready j)
                (ground (arith, erased, present j (maps.entries b.ready) v e, h k)))
      ]
    where
      present : (j : K) (xs : List (K × V)) (v : V) → lookup dec j xs ≡ some v → 1 ≤ count dec j xs
      present j xs v e = ground (arith, lookup-count dec j xs)

  apply_change_held :
      (c : Change K V) (b : Balance D C M)
      → let b' = apply_change maps disc strategy f c b in
        (b'.chosen_ready_index ≡ b.chosen_ready_index)
        × (b'.dispatched_ready_index ≡ b.dispatched_ready_index)
        × (b'.discover ≡ b.discover)
  unfolding apply_change
  apply_change_held (insert j v) b = (refl, refl, refl)
  apply_change_held (remove j) b = ground arith

  apply_change-Pending :
      (c : Change K V) (g : K → ℕ) (b : Balance D C M)
      → ((k : K) → g k ≤ 1)
      → Pending maps g b
      → Pending maps (change dec c g) (apply_change maps disc strategy f c b)
  apply_change-Pending c g b h p =
      let (ch, di, d) = apply_change_held c b in
      record {
        counted = λ k.
            apply_change-members c b (λ j. omega (arith, p.counted j, h j)) k
            ∙ change_ap dec c (members maps b) g k (p.counted k);
        chosen = ch ∙ p.chosen;
        dispatched = di ∙ p.dispatched;
      }

  discovered : D → Balance D C M → Balance D C M
  discovered d b = record b { discover = d }

  poll_discover_ready :
      (b : Balance D C M) (c : Change K V) (d : D)
      → disc.poll b.discover ≡ (ready c, d)
      → poll_discover maps disc strategy f b ≡ returns (some c) (discovered d b)
  unfolding poll_discover discovered
  poll_discover_ready b c d e = ground (arith, e)

  poll_discover_pending :
      (b : Balance D C M) (d : D)
      → disc.poll b.discover ≡ (not_ready, d)
      → poll_discover maps disc strategy f b ≡ returns none (discovered d b)
  unfolding poll_discover discovered
  poll_discover_pending b d e = ground (arith, e)

  poll_discover_failed :
      (b : Balance D C M) (x : DE) (d : D)
      → disc.poll b.discover ≡ (err x, d)
      → poll_discover maps disc strategy f b ≡ fails (balance x) (discovered d b)
  unfolding poll_discover discovered
  poll_discover_failed b x d e = ground (arith, e)

  discovered-Pending :
      (g : K → ℕ) (d : D) (b : Balance D C M) → Pending maps g b → Pending maps g (discovered d b)
  unfolding discovered
  discovered-Pending g d b p = record {
    counted = p.counted;
    chosen = p.chosen;
    dispatched = p.dispatched;
  }

  endpoint-discovered :
      (d : D) (b : Balance D C M) (k : K) → endpoint maps (discovered d b) k ≡ endpoint maps b k
  unfolding discovered
  endpoint-discovered d b k = refl

  -- The table after a change that the discovery yields.
  endpoint-found :
      (c : Change K V) (g : K → ℕ) (d : D) (b : Balance D C M)
      → ((k : K) → g k ≤ 1)
      → Pending maps g b
      → endpoint maps (apply_change maps disc strategy f c (discovered d b))
        ≡ install dec c (endpoint maps b)
  unfolding discovered
  endpoint-found c g d b h p = fun_ext (λ k.
      apply_change-endpoint maps disc strategy f c (discovered d b)
        (λ j. omega (arith, p.counted j, h j)) k)

  discover-discovered : (d : D) (b : Balance D C M) → (discovered d b).discover ≡ d
  unfolding discovered
  discover-discovered d b = refl

  -- Where the discovery yields some changes and then stops, there is fuel for more turns than
  -- changes, and no endpoint is there twice, `update_from_discover` ends with exactly the
  -- endpoints that the changes leave, each once: the service of each key, in whichever of the two
  -- maps it is, is the one that was last inserted under it, or none if the key was then removed,
  -- or the one from before the call if no change is about the key. It returns if the discovery has
  -- no more changes, and fails with its error if it stops with one.
  pub update_from_discover-Ends :
      (cs : List (Change K V)) (stop : Option DE) (fuel : ℕ) (g : K → ℕ) (b : Balance D C M)
      → Drains disc b.discover cs stop
      → length cs < fuel
      → ((k : K) → g k ≤ 1)
      → Pending maps g b
      → Ends
          (λ u b'.
            Pending maps (changes dec cs g) b'
            × ((k : K) → endpoint maps b' k ≡ installs dec cs (endpoint maps b) k)
            × (stop ≡ none))
          (λ e b'.
            Pending maps (changes dec cs g) b'
            × ((k : K) → endpoint maps b' k ≡ installs dec cs (endpoint maps b) k)
            × ((x : DE) × (stop ≡ some x) × (e ≡ balance x)))
          (update_from_discover maps disc strategy f fuel b)
  unfolding update_from_discover
  update_from_discover-Ends cs stop zero g b d l h p = absurd (omega arith)
  update_from_discover-Ends [] none (suc fuel) g b (d', e) l h p =
      rw (poll_discover_pending b d' e)
        (discovered-Pending g d' b p, endpoint-discovered d' b, refl)
  update_from_discover-Ends [] (some x) (suc fuel) g b (d', e) l h p =
      rw (poll_discover_failed b x d' e)
        (discovered-Pending g d' b p, endpoint-discovered d' b, (x, refl, refl))
  update_from_discover-Ends (c ∷ cs) stop (suc fuel) g b (d', e, rest) l h p =
      let b' = apply_change maps disc strategy f c (discovered d' b) in
      let drains : Drains disc b'.discover cs stop =
        rw ((apply_change_held c (discovered d' b)).2, discover-discovered d' b) rest in
      let same : endpoint maps b' ≡ install dec c (endpoint maps b) = endpoint-found c g d' b h p in
      rw (poll_discover_ready b c d' e) (
        rw (sym same) (
          update_from_discover-Ends cs stop fuel (change dec c g) b' drains (omega arith)
            (change_once dec c g h)
            (apply_change-Pending c g (discovered d' b) h (discovered-Pending g d' b p))))
