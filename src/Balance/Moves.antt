-- ===== src/Balance/Moves.antt =====
-- How the services of tower-balance/src/lib.rs move between the two maps.
use pants_tower.Base.{
  ℕ, suc, ◌+◌, ◌≤◌, ◌<◌, ◌≡◌, refl, ap, ◌∙◌, Bool, true, false, Option, none, some, arith, length,
  get_elem?, get_elem?_lt, length-set, get_elem?-set_self, lt_of_get_elem?, subst,
}
use pants_tower.Service.{Poll, ready, not_ready, err}
use pants_tower.IndexMap.{IndexMap}
use pants_tower.IndexMap.Entries.{
  count, count-set, count-get_elem?, count-swap_remove, count-upsert, length-swap_remove,
  length-upsert,
}
use pants_tower.Machine.{Outcome, returns, fails, panics, hangs}
use pants_tower.Choose.{Choose}
use pants_tower.Discover.{Discover}
use pants_tower.Balance.{
  Balance, settle_ready, settle_not_ready, Error, poll_entry, move_to_ready, promote_at,
  move_to_not_ready, poll_ready_index,
}

module _ {K V M : Type 0} {dec : Discrete K} (maps : IndexMap K V M dec) where
  -- The entries with a key, in both maps.
  abbrev pub members : {D C : Type 0} → Balance D C M → K → ℕ
  members b k = count dec k (maps.entries b.ready) + count dec k (maps.entries b.not_ready)

  abbrev pub num_ready : {D C : Type 0} → Balance D C M → ℕ
  num_ready b = length (maps.entries b.ready)

  -- Between two requests of `poll_ready`: no index is held, and `g` counts the entries.
  pub record Pending {D C : Type 0} (g : K → ℕ) (b : Balance D C M) : Type 0 where
    pub counted : (k : K) → members b k ≡ g k
    pub chosen : b.chosen_ready_index ≡ none
    pub dispatched : b.dispatched_ready_index ≡ none

module _ {D C K V M E DE : Type 0} {dec : Discrete K} (maps : IndexMap K V M dec)
    (disc : Discover D K V DE) (strategy : Choose C M) (f : V → Poll (Unit {0}) E × V) where
  -- A service that is polled in place stays where it is.
  entries-poll_entry :
      (m : M) (i : ℕ) (k : K) (v : V)
      → get_elem? (maps.entries m) i ≡ some (k, v)
      → let m' = (poll_entry maps disc strategy f k v m i).1 in
        ((j : K) → count dec j (maps.entries m') ≡ count dec j (maps.entries m))
        × (length (maps.entries m') ≡ length (maps.entries m))
        × (get_elem? (maps.entries m') i ≡ some (k, (f v).1))
  unfolding poll_entry
  entries-poll_entry m i k v h =
      let v' = (f v).1 in
      let e = maps.entries-set_index m i k v' in
      (
        λ j. rw e (count-set dec j k v v' (maps.entries m) i h),
        rw e (length-set (maps.entries m) i (k, v')),
        rw e (get_elem?-set_self (maps.entries m) i (k, v') (lt_of_get_elem? (maps.entries m) i h)),
      )

  -- Taking an entry out of one map and putting it into the other.
  transfer :
      (a b : M) (i : ℕ) (k : K) (v : V)
      → get_elem? (maps.entries a) i ≡ some (k, v)
      → ((j : K) → count dec j (maps.entries a) + count dec j (maps.entries b) ≤ 1)
      → let a' = (maps.swap_remove_index a i).1 in
        let b' = maps.insert b k v in
        ((j : K)
          → count dec j (maps.entries a') + count dec j (maps.entries b')
            ≡ count dec j (maps.entries a) + count dec j (maps.entries b))
        × (suc (length (maps.entries a')) ≡ length (maps.entries a))
        × (length (maps.entries b') ≡ suc (length (maps.entries b)))
        × ((maps.swap_remove_index a i).0 ≡ some (k, v))
  transfer a b i k v h u =
      let there : 1 ≤ count dec k (maps.entries a) = count-get_elem? dec k v (maps.entries a) i h in
      (
        λ j.
            rw (maps.entries-swap_remove_index a i, maps.entries-insert b k v)
              (ground (
                arith,
                u j,
                count-swap_remove dec j k v (maps.entries a) i h,
                count-upsert dec j k v (maps.entries b),
              )),
        rw (maps.entries-swap_remove_index a i)
            (length-swap_remove (maps.entries a) i (lt_of_get_elem? (maps.entries a) i h)),
        rw (maps.entries-insert b k v)
            (length-upsert dec k v (maps.entries b) (omega (arith, u k))),
        maps.swap_remove_index-entry a i ∙ h,
      )

  -- What a poll of one of `n` ready services leaves.
  abbrev pub Polled : (K → ℕ) → ℕ → Outcome (Balance D C M) (Option Bool) (Error E DE) → Type 0
  Polled g n (returns none b) = ⊥
  Polled g n (returns (some true) b) = Pending maps g b × (num_ready maps b ≡ n)
  Polled g n (returns (some false) b) = Pending maps g b × (suc (num_ready maps b) ≡ n)
  Polled g n (fails e b) = Pending maps g b
  Polled g n panics = ⊥
  Polled g n hangs = ⊥

  module _ (g : K → ℕ) (once : (k : K) → g k ≤ 1) where
    settle_ready-Polled :
        (p : Poll (Unit {0}) E) (b : Balance D C M) (i : ℕ) (k : K) (v : V)
        → Pending maps g b
        → get_elem? (maps.entries b.ready) i ≡ some (k, v)
        → Polled g (num_ready maps b) (settle_ready maps disc strategy f i p b)
    unfolding settle_ready move_to_not_ready
    settle_ready-Polled (ready u) b i k v p h = (p, refl)
    settle_ready-Polled not_ready b i k v p h =
        let (c, l, l', r) =
          transfer b.ready b.not_ready i k v h (λ j. omega (arith, p.counted j, once j)) in
        rw (r, move_to_not_ready, Polled)
          (
            record {
              counted = λ j. c j ∙ p.counted j;
              chosen = p.chosen;
              dispatched = p.dispatched;
            },
            l,
          )
    settle_ready-Polled (err e) b i k v p h = p

    pub poll_ready_index-Polled :
        (b : Balance D C M) (i : ℕ)
        → Pending maps g b
        → i < num_ready maps b
        → Polled g (num_ready maps b) (poll_ready_index maps disc strategy f i b)
    unfolding poll_ready_index
    poll_ready_index-Polled b i p h =
        let ((k, v), at) = get_elem?_lt (maps.entries b.ready) i h in
        let found : maps.get_index b.ready i ≡ some (k, v) = maps.get_index_lem b.ready i ∙ at in
        let (c, l, at') = entries-poll_entry b.ready i k v at in
        let (r, m) = poll_entry maps disc strategy f k v b.ready i in
        rw (found, poll_ready_index)
          (subst (λ n. Polled g n (settle_ready maps disc strategy f i r (record b { ready = m })))
            l
            (settle_ready-Polled r (record b { ready = m }) i k (f v).1
              (record {
                counted =
                    λ j. ap (λ x. x + count dec j (maps.entries b.not_ready)) (c j) ∙ p.counted j;
                chosen = p.chosen;
                dispatched = p.dispatched;
              })
              at'))

    -- One turn of `promote_to_ready` at an index of the first n + 1 services leaves those before
    -- it to be polled.
    abbrev pub Promoted : ℕ → Outcome (Balance D C M) (Unit {0}) (Error E DE) → Type 0
    Promoted n (returns u b) = Pending maps g b × (n ≤ length (maps.entries b.not_ready))
    Promoted n (fails e b) = Pending maps g b
    Promoted n panics = ⊥
    Promoted n hangs = ⊥

    settle_not_ready-Promoted :
        (p : Poll (Unit {0}) E) (b : Balance D C M) (i : ℕ) (k : K) (v : V)
        → Pending maps g b
        → get_elem? (maps.entries b.not_ready) i ≡ some (k, v)
        → Promoted i (settle_not_ready maps disc strategy f i p b)
    unfolding settle_not_ready move_to_ready
    settle_not_ready-Promoted (ready u) b i k v p h =
        let (c, l, l', r) =
          transfer b.not_ready b.ready i k v h (λ j. omega (arith, p.counted j, once j)) in
        let bound = lt_of_get_elem? (maps.entries b.not_ready) i h in
        rw (r, move_to_ready, Promoted)
          (
            record {
              counted = λ j. omega (arith, c j, p.counted j);
              chosen = p.chosen;
              dispatched = p.dispatched;
            },
            omega (arith, l, bound),
          )
    settle_not_ready-Promoted not_ready b i k v p h =
        (p, omega (arith, lt_of_get_elem? (maps.entries b.not_ready) i h))
    settle_not_ready-Promoted (err e) b i k v p h = p

    pub promote_at-Promoted :
        (b : Balance D C M) (i : ℕ)
        → Pending maps g b
        → i < length (maps.entries b.not_ready)
        → Promoted i (promote_at maps disc strategy f i b)
    unfolding promote_at
    promote_at-Promoted b i p h =
        let ((k, v), at) = get_elem?_lt (maps.entries b.not_ready) i h in
        let found : maps.get_index b.not_ready i ≡ some (k, v) =
          maps.get_index_lem b.not_ready i ∙ at in
        let (c, l, at') = entries-poll_entry b.not_ready i k v at in
        let (r, m) = poll_entry maps disc strategy f k v b.not_ready i in
        rw (found, promote_at)
          (settle_not_ready-Promoted r (record b { not_ready = m }) i k (f v).1
            (record {
              counted = λ j. omega (arith, c j, p.counted j);
              chosen = p.chosen;
              dispatched = p.dispatched;
            })
            at')
