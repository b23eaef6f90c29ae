-- ===== src/Balance/Endpoints/Choice.antt =====
-- How tower-balance/src/lib.rs chooses an endpoint that is ready, and calls it.
use pants_tower.Base.{
  ℕ, zero, suc, ◌≡◌, refl, sym, ◌∙◌, inl, inr, Bool, true, false, Option, none, some, get_elem?,
  Option-cases, Bool-cases, ◌==◌, subst,
}
use pants_tower.Service.{Poll, ready, not_ready, err, Service, Result, success, failure}
use pants_tower.IndexMap.{IndexMap}
use pants_tower.IndexMap.Every.{get_elem?-Every, set-Every, swap_remove-Every, upsert-Every}
use pants_tower.Machine.{Outcome, returns, panics, Allows, bind-Allows, Method}
use pants_tower.Choose.{Choose, Replicas, TooFew, replicas}
use pants_tower.Discover.{Discover}
use pants_tower.Protocol.{After, Keeps}
use pants_tower.Balance.{
  Balance, Error, update_from_discover, promote_to_ready, move_to_not_ready, settle_ready,
  poll_ready_index, choose_index, choose_this, keep_choice, choose_once, unless_found,
  choose_and_poll_ready, expect_polled, poll_dispatched, poll_ready, call,
}
use pants_tower.Balance.Endpoints.{
  Yields, Rests, entries-poll_entry, update_from_discover-Rests, promote_below-Rests,
}

module _ {D C K V M E DE Req F : Type 0} {dec : Discrete K} (maps : IndexMap K V M dec)
    (disc : Discover D K V DE) (strategy : Choose C M) (svc : Service V Req F E)
    (Idle Armed : K → V → Type 0) (keeps : (k : K) → Keeps svc (Idle k) (Armed k))
    (Fresh : D → Type 0) (yields : Yields disc Idle Fresh) where
  abbrev Resting : Balance D C M → Type 0
  Resting = Rests {E = E} maps disc strategy svc Idle Armed keeps Fresh yields

  abbrev Fails : Error E DE → Balance D C M → Type 0
  Fails e b = Resting b

  abbrev Keeping : {A : Type 0} → Outcome (Balance D C M) A (Error E DE) → Type 0
  Keeping = Allows (λ a b. Resting b) Fails

  -- Whether the entry at an index has told that it is ready.
  abbrev ArmedAt : ℕ → Balance D C M → Type 0
  ArmedAt i b = (k : K) (v : V) → get_elem? (maps.entries b.ready) i ≡ some (k, v) → Armed k v

  abbrev Asked : ℕ → Option Bool → Balance D C M → Type 0
  Asked i answer b = Resting b × (answer ≡ some true → ArmedAt i b)

  move_to_not_ready-Asked :
      (i : ℕ) (b : Balance D C M)
      → Resting b
      → Allows (Asked i) Fails (move_to_not_ready maps disc strategy svc.poll_ready i b)
  unfolding move_to_not_ready
  move_to_not_ready-Asked i b h = elim (Option-cases (maps.swap_remove_index b.ready i).0) [
    | inl e ↦ rw (e, move_to_not_ready, Allows) tt
    | inr ((k, v), e) ↦
        rw (e, move_to_not_ready, Allows)
          (
            record {
              ready =
                  rw (maps.entries-swap_remove_index b.ready i)
                    (swap_remove-Every Idle _ i h.ready);
              not_ready = rw (maps.entries-insert b.not_ready k v) (
                  upsert-Every Idle dec k v _
                    (get_elem?-Every Idle _ i k v (sym (maps.swap_remove_index-entry b.ready i) ∙ e)
                      h.ready)
                    h.not_ready);
              fresh = h.fresh;
            },
            λ x. absurd (cc),
          )
  ]

  settle_ready-Asked :
      (i : ℕ) (p : Poll (Unit {0}) E) (b : Balance D C M) (k : K) (v : V)
      → Resting b
      → get_elem? (maps.entries b.ready) i ≡ some (k, v)
      → After (Idle k) (Armed k) p v
      → Allows (Asked i) Fails (settle_ready maps disc strategy svc.poll_ready i p b)
  unfolding settle_ready
  settle_ready-Asked i (ready u) b k v h e a =
      (h, λ x l w e'. subst (λ (y : K × V). Armed y.0 y.1) (cc) a)
  settle_ready-Asked i not_ready b k v h e a = move_to_not_ready-Asked i b h
  settle_ready-Asked i (err x) b k v h e a = h

  poll_ready_index-Asked :
      (i : ℕ) (b : Balance D C M)
      → Resting b
      → Allows (Asked i) Fails (poll_ready_index maps disc strategy svc.poll_ready i b)
  unfolding poll_ready_index
  poll_ready_index-Asked i b h = elim (Option-cases (maps.get_index b.ready i)) [
    | inl e ↦ rw (e, poll_ready_index, Allows) (h, λ x. absurd (cc))
    | inr ((k, v), e) ↦
        let (r, at, a) =
          entries-poll_entry maps disc strategy svc Idle Armed keeps Fresh yields b.ready i k v
            h.ready (sym (maps.get_index_lem b.ready i) ∙ e) in
        rw (e, poll_ready_index)
          (settle_ready-Asked i _ _ _ _
            (record { ready = r; not_ready = h.not_ready; fresh = h.fresh }) at a)
  ]

  choose_index-Rests :
      (b : Balance D C M) → Resting b → Keeping (choose_index maps disc strategy svc.poll_ready b)
  unfolding choose_index
  choose_index-Rests b h = elim (Bool-cases (maps.len b.ready == 1)) [
    | inl e ↦ rw (e, choose_index) h
    | inr e ↦ rw (e, choose_index) (chosen (replicas maps b.ready))
  ]
    where
      picked :
          (o : Option (ℕ × C))
          → Keeping
              (elim o [ none ↦ panics | some (idx, c) ↦ returns idx (record b { chooser = c }) ])
      picked none = tt
      picked (some (idx, c)) = record { ready = h.ready; not_ready = h.not_ready; fresh = h.fresh }

      chosen :
          (r : Result (Replicas M) TooFew)
          → Keeping (elim r [
            | failure f ↦ panics
            | success r ↦ elim (strategy.choose b.chooser r) [
              | none ↦ panics
              | some (idx, c) ↦ returns idx (record b { chooser = c })
            ]
          ])
      chosen (failure f) = tt
      chosen (success r) = picked (strategy.choose b.chooser r)

  -- What a turn of the choice leaves: where a service is found, that of the chosen index is ready.
  abbrev pub Picks : Bool → Balance D C M → Type 0
  Picks found b = Resting b × (found ≡ true → (i : ℕ) → b.chosen_ready_index ≡ some i → ArmedAt i b)

  keep_choice-Picks :
      (i : ℕ) (answer : Option Bool) (b : Balance D C M)
      → Asked i answer b
      → Allows Picks Fails (keep_choice maps disc strategy svc.poll_ready i answer b)
  unfolding keep_choice choose_this
  keep_choice-Picks i none b h = tt
  keep_choice-Picks i (some true) b h = (
    record { ready = h.0.ready; not_ready = h.0.not_ready; fresh = h.0.fresh },
    λ e j x k v at. h.1 refl k v (cc),
  )
  keep_choice-Picks i (some false) b h = (h.0, λ e. absurd (cc))

  choose_once-Picks :
      (b : Balance D C M)
      → Resting b
      → Allows Picks Fails (choose_once maps disc strategy svc.poll_ready b)
  unfolding choose_once
  choose_once-Picks b h =
      bind-Allows (λ i b. Resting b) Picks Fails (choose_index maps disc strategy svc.poll_ready b)
        _ (choose_index-Rests b h)
        (λ i b h.
          bind-Allows (Asked i) Picks Fails (poll_ready_index maps disc strategy svc.poll_ready i b)
            _ (poll_ready_index-Asked i b h) (keep_choice-Picks i))

  unless_found-Picks :
      (again : Method (Balance D C M) Bool (Error E DE))
      → ((b : Balance D C M) → Resting b → Allows Picks Fails (again b))
      → (found : Bool) (b : Balance D C M) → Picks found b
      → Allows Picks Fails (unless_found maps disc strategy svc.poll_ready found again b)
  unfolding unless_found
  unless_found-Picks again ih true b h = h
  unless_found-Picks again ih false b h = ih b h.0

  choose_and_poll_ready-Picks :
      (fuel : ℕ) (b : Balance D C M)
      → Resting b
      → Allows Picks Fails (choose_and_poll_ready maps disc strategy svc.poll_ready fuel b)
  unfolding choose_and_poll_ready
  choose_and_poll_ready-Picks zero b h = tt
  choose_and_poll_ready-Picks (suc fuel) b h = elim (Bool-cases (maps.len b.ready == 0)) [
    | inl e ↦ rw (e, choose_and_poll_ready) (h, λ x. absurd (cc))
    | inr e ↦
        rw (e, choose_and_poll_ready)
          (bind-Allows Picks Picks Fails (choose_once maps disc strategy svc.poll_ready b) _
            (choose_once-Picks b h) (unless_found-Picks _ (choose_and_poll_ready-Picks fuel)))
  ]

  expect_polled-Rests :
      (i : ℕ) (answer : Option Bool) (b : Balance D C M)
      → Asked i answer b
      → Keeping (expect_polled maps disc strategy svc.poll_ready answer b)
  unfolding expect_polled
  expect_polled-Rests i none b h = tt
  expect_polled-Rests i (some a) b h = h.0

  poll_dispatched-Rests :
      (b : Balance D C M)
      → Resting b
      → Keeping (poll_dispatched maps disc strategy svc.poll_ready b)
  unfolding poll_dispatched
  poll_dispatched-Rests b h =
      let h' : Resting (record b { dispatched_ready_index = none }) = record {
        ready = h.ready;
        not_ready = h.not_ready;
        fresh = h.fresh;
      } in
      elim (Option-cases b.dispatched_ready_index) [
        | inl e ↦ rw (e, poll_dispatched) h'
        | inr (i, e) ↦
            rw (e, poll_dispatched)
              (bind-Allows (Asked i) (λ u b. Resting b) Fails
                (poll_ready_index maps disc strategy svc.poll_ready i _) _
                (poll_ready_index-Asked i _ h') (expect_polled-Rests i))
      ]

  pub poll_ready-Picks :
      (fuel : ℕ) (b : Balance D C M)
      → Resting b
      → Allows Picks Fails (poll_ready maps disc strategy svc.poll_ready fuel b)
  unfolding poll_ready promote_to_ready
  poll_ready-Picks fuel b h =
      bind-Allows (λ u b. Resting b) Picks Fails
        (poll_dispatched maps disc strategy svc.poll_ready (record b { chosen_ready_index = none }))
        _
        (poll_dispatched-Rests _
          (record { ready = h.ready; not_ready = h.not_ready; fresh = h.fresh }))
        (λ u b1 h.
          bind-Allows (λ u b. Resting b) Picks Fails
            (update_from_discover maps disc strategy svc.poll_ready fuel b1) _
            (update_from_discover-Rests maps disc strategy svc Idle Armed keeps Fresh yields fuel b1
              h)
            (λ u b2 h.
              bind-Allows (λ u b. Resting b) Picks Fails
                (promote_to_ready maps disc strategy svc.poll_ready b2) _
                (promote_below-Rests maps disc strategy svc Idle Armed keeps Fresh yields
                  (maps.len b2.not_ready) b2 h)
                (λ u b3 h. choose_and_poll_ready-Picks (suc (maps.len b3.ready)) b3 h)))

  pub call-Rests :
      (req : Req) (b : Balance D C M)
      → Resting b
      → ((i : ℕ) → b.chosen_ready_index ≡ some i → ArmedAt i b)
      → Allows (λ (f : F) b. Resting b) Fails (call maps svc.call req b)
  unfolding call
  call-Rests req b h a = elim (Option-cases b.chosen_ready_index) [
    | inl e ↦ rw (e, call, Allows) tt
    | inr (i, e) ↦ elim (Option-cases (maps.get_index b.ready i)) [
      | inl g ↦ rw (e, call) (rw (g, Allows) tt)
      | inr ((k, v), g) ↦
          rw (e, call)
            (rw (g, Allows)
              (record {
                ready = rw (maps.entries-set_index b.ready i k (svc.call v req).1) (
                    set-Every Idle _ i k _
                      ((keeps k).called v req (a i e k v (sym (maps.get_index_lem b.ready i) ∙ g)))
                      h.ready);
                not_ready = h.not_ready;
                fresh = h.fresh;
              }))
    ]
  ]
