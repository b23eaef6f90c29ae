-- ===== src/Balance/Endpoints.antt =====
-- tower-balance/src/lib.rs and what it asks of its endpoints: each is called only after it has told
-- that it is ready.
pub mod Choice
pub mod Cycle
use pants_tower.Base.{
  ℕ, zero, suc, ◌≡◌, refl, sym, ap, ◌∙◌, inl, inr, Bool, true, false, Option, none, some, get_elem?,
  get_elem?-set_self, lt_of_get_elem?, Option-cases, Bool-cases, ◌==◌, subst,
}
use pants_tower.Service.{Poll, ready, not_ready, err, Service, Result, success, failure}
use pants_tower.IndexMap.{IndexMap}
use pants_tower.IndexMap.Every.{
  Every, get_elem?-Every, set-Every, swap_remove-Every, upsert-Every, swap_erase-Every,
}
use pants_tower.Machine.{
  Outcome, returns, fails, panics, hangs, Allows, bind-Allows, Method, bind, ◌>>◌, return, modify,
}
use pants_tower.Choose.{Choose, Replicas, TooFew, replicas}
use pants_tower.Discover.{Discover, Change, insert, remove}
use pants_tower.Protocol.{After, Keeps}
use pants_tower.Balance.{
  Balance, Error, balance, apply_change, poll_discover, update_from_discover, poll_entry,
  move_to_ready, settle_not_ready, promote_at, promote_below, promote_to_ready, move_to_not_ready,
  settle_ready, poll_ready_index, choose_index, choose_this, keep_choice, choose_once, unless_found,
  choose_and_poll_ready, expect_polled, poll_dispatched, poll_ready, call,
}

-- What a discovery yields satisfies `P`, and so it goes on.
pub record Yields {D K V DE : Type 0} (disc : Discover D K V DE) (P : K → V → Type 0)
    (Fresh : D → Type 0) : Type 0 where
  pub yielded : (d : D) (k : K) (v : V) → Fresh d → (disc.poll d).0 ≡ ready (insert k v) → P k v
  pub after : (d : D) → Fresh d → Fresh (disc.poll d).1

module _ {D C K V M E DE Req F : Type 0} {dec : Discrete K} (maps : IndexMap K V M dec)
    (disc : Discover D K V DE) (strategy : Choose C M) (svc : Service V Req F E)
    (Idle Armed : K → V → Type 0) (keeps : (k : K) → Keeps svc (Idle k) (Armed k))
    (Fresh : D → Type 0) (yields : Yields disc Idle Fresh) where
  -- No endpoint was called too early.
  pub record Rests (b : Balance D C M) : Type 0 where
    pub ready : Every Idle (maps.entries b.ready)
    pub not_ready : Every Idle (maps.entries b.not_ready)
    pub fresh : Fresh b.discover

  abbrev Fails : Error E DE → Balance D C M → Type 0
  Fails e b = Rests b

  abbrev Keeping : {A : Type 0} → Outcome (Balance D C M) A (Error E DE) → Type 0
  Keeping = Allows (λ a b. Rests b) Fails

  relaxed : (k : K) (p : Poll (Unit {0}) E) (v : V) → After (Idle k) (Armed k) p v → Idle k v
  relaxed k (ready u) v h = (keeps k).relax v h
  relaxed k not_ready v h = h
  relaxed k (err e) v h = h

  apply_change-Rests :
      (c : Change K V) (b : Balance D C M)
      → ((k : K) (v : V) → c ≡ insert k v → Idle k v)
      → Rests b
      → Rests (apply_change maps disc strategy svc.poll_ready c b)
  unfolding apply_change
  apply_change-Rests (insert k v) b y h = record {
    ready = rw (maps.entries-remove b.ready k) (swap_erase-Every Idle dec k _ h.ready);
    not_ready =
        rw (maps.entries-insert b.not_ready k v)
          (upsert-Every Idle dec k v _ (y k v refl) h.not_ready);
    fresh = h.fresh;
  }
  apply_change-Rests (remove k) b y h = elim (Option-cases (maps.remove b.ready k).0) [
    | inl e ↦
        rw (e, apply_change)
          (record {
            ready = rw (maps.entries-remove b.ready k) (swap_erase-Every Idle dec k _ h.ready);
            not_ready =
                rw (maps.entries-remove b.not_ready k) (swap_erase-Every Idle dec k _ h.not_ready);
            fresh = h.fresh;
          })
    | inr (s, e) ↦
        rw (e, apply_change)
          (record {
            ready = rw (maps.entries-remove b.ready k) (swap_erase-Every Idle dec k _ h.ready);
            not_ready = h.not_ready;
            fresh = h.fresh;
          })
  ]

  abbrev Found : Option (Change K V) → Balance D C M → Type 0
  Found c b = Rests b × ((k : K) (v : V) → c ≡ some (insert k v) → Idle k v)

  poll_discover-Found :
      (b : Balance D C M)
      → Rests b
      → Allows Found Fails (poll_discover maps disc strategy svc.poll_ready b)
  unfolding poll_discover
  poll_discover-Found b h =
      found (disc.poll b.discover).0 refl (record {
        ready = h.ready;
        not_ready = h.not_ready;
        fresh = yields.after b.discover h.fresh;
      })
    where
      found :
          (p : Poll (Change K V) DE)
          → (disc.poll b.discover).0 ≡ p
          → Rests (record b { discover = (disc.poll b.discover).1 })
          → Allows Found Fails (elim p [
            | ready change ↦
                returns (some change) (record b { discover = (disc.poll b.discover).1 })
            | not_ready ↦ returns none (record b { discover = (disc.poll b.discover).1 })
            | err e ↦ fails (balance e) (record b { discover = (disc.poll b.discover).1 })
          ])
      found (ready c) e r = (r, λ k v x. yields.yielded b.discover k v h.fresh (cc))
      found not_ready e r = (r, λ k v x. absurd (cc))
      found (err x) e r = r

  update_from_discover-Rests :
      (fuel : ℕ) (b : Balance D C M)
      → Rests b
      → Keeping (update_from_discover maps disc strategy svc.poll_ready fuel b)
  unfolding update_from_discover
  update_from_discover-Rests zero b h = tt
  update_from_discover-Rests (suc fuel) b h =
      bind-Allows Found (λ u b. Rests b) Fails (poll_discover maps disc strategy svc.poll_ready b) _
        (poll_discover-Found b h)
        (change (update_from_discover maps disc strategy svc.poll_ready fuel)
          (update_from_discover-Rests fuel))
    where
      change :
          (next : Method (Balance D C M) (Unit {0}) (Error E DE))
          → ((b : Balance D C M) → Rests b → Keeping (next b))
          → (c : Option (Change K V)) (b : Balance D C M) → Found c b
          → Keeping (
              let m : Method (Balance D C M) (Unit {0}) (Error E DE) = elim c [
                | none ↦ return tt
                | some change ↦
                    (modify (apply_change maps disc strategy svc.poll_ready change) >> next)
              ] in
              m b)
      change next ih none b h = h.0
      change next ih (some c) b h = ih _ (apply_change-Rests c b (λ k v e. h.1 k v (ap some e)) h.0)

  entries-poll_entry :
      (m : M) (i : ℕ) (k : K) (v : V)
      → Every Idle (maps.entries m)
      → get_elem? (maps.entries m) i ≡ some (k, v)
      → let (p, m') = poll_entry maps disc strategy svc.poll_ready k v m i in
        Every Idle (maps.entries m')
        × (get_elem? (maps.entries m') i ≡ some (k, (svc.poll_ready v).1))
        × After (Idle k) (Armed k) p (svc.poll_ready v).1
  unfolding poll_entry
  entries-poll_entry m i k v h e =
      let a = (keeps k).asked v (get_elem?-Every Idle _ i k v e h) in
      (
        rw (maps.entries-set_index m i k (svc.poll_ready v).1)
            (set-Every Idle _ i k _ (relaxed k (svc.poll_ready v).0 _ a) h),
        rw (maps.entries-set_index m i k (svc.poll_ready v).1)
            (get_elem?-set_self (maps.entries m) i _ (lt_of_get_elem? (maps.entries m) i e)),
        a,
      )

  move_to_ready-Rests :
      (i : ℕ) (b : Balance D C M)
      → Rests b
      → Keeping (move_to_ready maps disc strategy svc.poll_ready i b)
  unfolding move_to_ready
  move_to_ready-Rests i b h = elim (Option-cases (maps.swap_remove_index b.not_ready i).0) [
    | inl e ↦ rw (e, move_to_ready, Allows) tt
    | inr ((k, v), e) ↦
        rw (e, move_to_ready, Allows)
          (record {
            ready = rw (maps.entries-insert b.ready k v) (
                upsert-Every Idle dec k v _
                  (get_elem?-Every Idle _ i k v
                    (sym (maps.swap_remove_index-entry b.not_ready i) ∙ e) h.not_ready)
                  h.ready);
            not_ready =
                rw (maps.entries-swap_remove_index b.not_ready i)
                  (swap_remove-Every Idle _ i h.not_ready);
            fresh = h.fresh;
          })
  ]

  settle_not_ready-Rests :
      (i : ℕ) (p : Poll (Unit {0}) E) (b : Balance D C M)
      → Rests b
      → Keeping (settle_not_ready maps disc strategy svc.poll_ready i p b)
  unfolding settle_not_ready
  settle_not_ready-Rests i (ready u) b h = move_to_ready-Rests i b h
  settle_not_ready-Rests i not_ready b h = h
  settle_not_ready-Rests i (err e) b h = h

  promote_at-Rests :
      (i : ℕ) (b : Balance D C M)
      → Rests b
      → Keeping (promote_at maps disc strategy svc.poll_ready i b)
  unfolding promote_at
  promote_at-Rests i b h = elim (Option-cases (maps.get_index b.not_ready i)) [
    | inl e ↦ rw (e, promote_at, Allows) tt
    | inr ((k, v), e) ↦
        rw (e, promote_at)
          (settle_not_ready-Rests i _ _ (record {
            ready = h.ready;
            not_ready =
                (entries-poll_entry b.not_ready i k v h.not_ready
                  (sym (maps.get_index_lem b.not_ready i) ∙ e)).0;
            fresh = h.fresh;
          }))
  ]

  promote_below-Rests :
      (i : ℕ) (b : Balance D C M)
      → Rests b
      → Keeping (promote_below maps disc strategy svc.poll_ready i b)
  unfolding promote_below
  promote_below-Rests zero b h = h
  promote_below-Rests (suc i) b h =
      bind-Allows (λ u b. Rests b) (λ u b. Rests b) Fails
        (promote_at maps disc strategy svc.poll_ready i b) _ (promote_at-Rests i b h)
        (λ u b h. promote_below-Rests i b h)
