-- ===== src/Balance/Cycle.antt =====
-- The cycle of `poll_ready` and `call` of tower-balance/src/lib.rs.
use pants_tower.Base.{
  ℕ, suc, ◌+◌, ◌≤◌, ◌<◌, ◌≡◌, refl, ap, ◌∙◌, inl, inr, List, Bool, true, false, Option, none, some,
  arith, length, get_elem?, get_elem?_lt, set, length-set, Option-cases,
}
use pants_tower.Service.{Poll, ready, not_ready, err}
use pants_tower.IndexMap.{IndexMap}
use pants_tower.IndexMap.Entries.{count, count-set}
use pants_tower.Machine.{Outcome, returns, fails, panics, hangs, Ends, bind, bind-Ends, Ends-mono}
use pants_tower.Choose.{Choose}
use pants_tower.Choose.InRange.{IsInRange}
use pants_tower.Discover.{Discover, Change}
use pants_tower.Balance.{
  Balance, Error, new, move_to_not_ready, settle_ready, expect_polled, poll_dispatched,
  poll_ready_index, promote_to_ready, poll_ready, call, update_from_discover,
}
use pants_tower.Balance.Moves.{members, num_ready, Pending, Polled, poll_ready_index-Polled}
use pants_tower.Balance.Discovery.{Drains, changes, changes_once, update_from_discover-Ends}
use pants_tower.Balance.Ready.{
  Inv, Chosen, Settled, chosen, exhausted, Pending-Inv, Chosen-Inv, promote_below-Ends,
  choose_and_poll_ready-Ends,
}

module _ {D C K V M : Type 0} {dec : Discrete K} (maps : IndexMap K V M dec) where
  pub new-Inv : (discover : D) (chooser : C) → Inv maps (new maps discover chooser)
  unfolding new
  new-Inv discover chooser = record {
    once = λ k. rw maps.entries-empty (omega arith);
    chosen = λ i e. cc;
    dispatched = λ i e. cc;
  }

module _ {D C K V M E DE : Type 0} {dec : Discrete K} (maps : IndexMap K V M dec)
    (disc : Discover D K V DE) (strategy : Choose C M) (f : V → Poll (Unit {0}) E × V) where
  abbrev cleared : Balance D C M → Balance D C M
  cleared b = record b { chosen_ready_index = none }

  -- The discovery is as it was, if the method ends.
  abbrev Finds : {A : Type 0} → D → Outcome (Balance D C M) A (Error E DE) → Type 0
  Finds d (returns a b) = b.discover ≡ d
  Finds d (fails e b) = b.discover ≡ d
  Finds d panics = Unit
  Finds d hangs = Unit

  move_to_not_ready-Finds :
      (i : ℕ) (b : Balance D C M) → Finds b.discover (move_to_not_ready maps disc strategy f i b)
  unfolding move_to_not_ready
  move_to_not_ready-Finds i b = elim (Option-cases (maps.swap_remove_index b.ready i).0) [
    | inl e ↦ rw (e, move_to_not_ready, Finds) tt
    | inr (x, e) ↦ rw (e, move_to_not_ready, Finds) refl
  ]

  settle_ready-Finds :
      (i : ℕ) (p : Poll (Unit {0}) E) (b : Balance D C M)
      → Finds b.discover (settle_ready maps disc strategy f i p b)
  unfolding settle_ready
  settle_ready-Finds i (ready u) b = refl
  settle_ready-Finds i not_ready b = move_to_not_ready-Finds i b
  settle_ready-Finds i (err e) b = refl

  poll_ready_index-Finds :
      (i : ℕ) (b : Balance D C M) → Finds b.discover (poll_ready_index maps disc strategy f i b)
  unfolding poll_ready_index
  poll_ready_index-Finds i b = elim (Option-cases (maps.get_index b.ready i)) [
    | inl e ↦ rw (e, poll_ready_index, Finds) refl
    | inr (x, e) ↦ rw (e, poll_ready_index, Finds) (settle_ready-Finds i _ (record b { ready = _ }))
  ]

  module _ (b : Balance D C M) (v : Inv maps b) where
    -- What is left of the readiness of the service that had the last request.
    abbrev Rested : Outcome (Balance D C M) (Unit {0}) (Error E DE) → Type 0
    Rested =
        Ends (λ u b'. Pending maps (members maps b) b' × (b'.discover ≡ b.discover))
          (λ e b'. Pending maps (members maps b) b')

    rest :
        (n : ℕ) (o : Outcome (Balance D C M) (Option Bool) (Error E DE))
        → Polled maps disc strategy f (members maps b) n o
        → Finds b.discover o
        → Rested (bind o (expect_polled maps disc strategy f))
    unfolding expect_polled
    rest n (returns none b') h k = absurd h
    rest n (returns (some true) b') h k = (h.0, k)
    rest n (returns (some false) b') h k = (h.0, k)
    rest n (fails e b') h k = h
    rest n panics h k = absurd h
    rest n hangs h k = absurd h

    poll_dispatched-Rested : Rested (poll_dispatched maps disc strategy f (cleared b))
    unfolding poll_dispatched
    poll_dispatched-Rested =
        let b' = record b { chosen_ready_index = none; dispatched_ready_index = none } in
        let p : Pending maps (members maps b) b' = record {
          counted = λ k. refl;
          chosen = refl;
          dispatched = refl;
        } in
        elim (Option-cases b.dispatched_ready_index) [
          | inl e ↦ rw (e, poll_dispatched, Ends) (p, refl)
          | inr (i, e) ↦
              rw (e, poll_dispatched)
                (rest (num_ready maps b) (poll_ready_index maps disc strategy f i b')
                  (poll_ready_index-Polled maps disc strategy f (members maps b) v.once b' i p
                    (v.dispatched i e))
                  (poll_ready_index-Finds i b'))
        ]

    -- From a state that holds the invariant, with a chooser that stays in range, a discovery that
    -- yields finitely many changes and then stops, and fuel for more turns than changes,
    -- `poll_ready` neither panics nor runs out of fuel. Where it returns, either a service is
    -- chosen, by an index within `ready`, or none is chosen and `ready` is empty; and the keys of
    -- the endpoints are those before the call with the discovered changes made, once each. Where
    -- it fails, the balancer holds its invariant.
    pub poll_ready-Ends :
        (cs : List (Change K V)) (stop : Option DE) (fuel : ℕ)
        → IsInRange maps strategy
        → Drains disc b.discover cs stop
        → length cs < fuel
        → Ends
            (Settled maps (changes dec cs (members maps b)))
            (λ e b'. Inv maps b')
            (poll_ready maps disc strategy f fuel b)
    unfolding poll_ready promote_to_ready
    poll_ready-Ends cs stop fuel r d l =
        let g = members maps b in
        let g' = changes dec cs g in
        let once' = changes_once dec cs g v.once in
        let Q : Error E DE → Balance D C M → Type 0 = λ e b'. Inv maps b' in
        let P = Settled maps g' in
        bind-Ends (λ u b'. Pending maps g b' × (b'.discover ≡ b.discover)) P Q
          (poll_dispatched maps disc strategy f (cleared b)) _
          (Ends-mono _ (λ u b'. Pending maps g b' × (b'.discover ≡ b.discover))
            (λ e b'. Pending maps g b') Q _ poll_dispatched-Rested (λ u b' h. h)
            (λ e b' p. Pending-Inv maps g b' v.once p))
          (λ u b1 p1.
            bind-Ends (λ u b'. Pending maps g' b') P Q
              (update_from_discover maps disc strategy f fuel b1) _
              (Ends-mono _ (λ u b'. Pending maps g' b') _ Q
                (update_from_discover maps disc strategy f fuel b1)
                (update_from_discover-Ends maps disc strategy f cs stop fuel g b1 (rw p1.1 d) l
                  v.once p1.0)
                (λ u b' h. h.0) (λ e b' h. Pending-Inv maps g' b' once' h.0))
              (λ u b2 p2.
                bind-Ends (λ u b'. Pending maps g' b') P Q
                  (promote_to_ready maps disc strategy f b2) _
                  (Ends-mono (λ u b'. Pending maps g' b') _ (λ e b'. Pending maps g' b') Q _
                    (promote_below-Ends maps disc strategy f g' once' (maps.len b2.not_ready) b2 p2
                      (omega (arith, maps.len_lem b2.not_ready)))
                    (λ u b' h. h) (λ e b' p. Pending-Inv maps g' b' once' p))
                  (λ u b3 p3.
                    Ends-mono P P (λ e b'. Pending maps g' b') Q _
                      (choose_and_poll_ready-Ends maps disc strategy f g' once'
                        (suc (maps.len b3.ready)) b3 r p3 (omega (arith, maps.len_lem b3.ready)))
                      (λ u b' h. h) (λ e b' p. Pending-Inv maps g' b' once' p))))

module _ {K V M : Type 0} {dec : Discrete K} (maps : IndexMap K V M dec) where
  -- Whichever way `poll_ready` settles, the balancer keeps its invariant.
  Settled-Inv :
      {D C : Type 0} (g : K → ℕ) (found : Bool) (b : Balance D C M)
      → ((k : K) → g k ≤ 1)
      → Settled maps g found b
      → Inv maps b
  Settled-Inv g found b h (chosen e c) = Chosen-Inv maps g b h c
  Settled-Inv g found b h (exhausted e p z) = Pending-Inv maps g b h p

module _ {D C K V M E DE Req F : Type 0} {dec : Discrete K} (maps : IndexMap K V M dec)
    (call_service : V → Req → F × V) where
  -- Where `poll_ready` has left a service chosen, and no endpoint is there twice, `call` does not
  -- panic: it calls the chosen service once and keeps its new state in place, returns its
  -- response, notes its index as the one that dispatched, and leaves no index chosen. No endpoint
  -- is lost, and the invariant holds again.
  pub call-Chosen :
      (g : K → ℕ) (b : Balance D C M) (request : Req)
      → ((k : K) → g k ≤ 1)
      → Chosen maps g b
      → (i : ℕ) × (key : K) × (svc : V) × (b' : Balance D C M) × (b.chosen_ready_index ≡ some i)
        × (get_elem? (maps.entries b.ready) i ≡ some (key, svc))
        × (call {E = E} {DE = DE} maps call_service request b
            ≡ returns (call_service svc request).0 b')
        × (maps.entries b'.ready ≡ set (maps.entries b.ready) i (key, (call_service svc request).1))
        × (b'.chosen_ready_index ≡ none)
        × (b'.dispatched_ready_index ≡ some i)
        × ((k : K) → members maps b' k ≡ g k)
        × Inv maps b'
  unfolding call
  call-Chosen g b request h c =
      let (i, e, l) = c.index in
      let ((key, svc), at) = get_elem?_lt (maps.entries b.ready) i l in
      let found : maps.get_index b.ready i ≡ some (key, svc) = maps.get_index_lem b.ready i ∙ at in
      let svc' = (call_service svc request).1 in
      let written = maps.entries-set_index b.ready i key svc' in
      let b' : Balance D C M = record b {
        chosen_ready_index = none;
        dispatched_ready_index = some i;
        ready = maps.set_index b.ready i key svc';
      } in
      let same : (k : K) → members maps b' k ≡ g k = λ k.
        ap (λ x. x + count dec k (maps.entries b.not_ready))
          (ap (count dec k) written ∙ count-set dec k key svc svc' (maps.entries b.ready) i at)
        ∙ c.counted k in
      (
        i,
        key,
        svc,
        b',
        e,
        at,
        rw (e, call) (rw (found, call) refl),
        written,
        refl,
        refl,
        same,
        record {
          once = λ k. omega (arith, same k, h k);
          chosen = λ j x. absurd (cc);
          dispatched = λ j x.
              ground (arith, ap length written, length-set (maps.entries b.ready) i (key, svc'), l);
        },
      )

  -- Without a service chosen `call` panics.
  call_unready :
      (b : Balance D C M) (request : Req)
      → b.chosen_ready_index ≡ none
      → call {E = E} {DE = DE} maps call_service request b ≡ panics
  unfolding call
  call_unready b request e = rw (e, call)
