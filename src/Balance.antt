-- ===== src/Balance.antt =====
-- tower-balance/src/lib.rs: a load balancer over the endpoints that a discovery yields. The index
-- map, the discovery, the chooser and the services are parameters.
pub mod Moves
pub mod Cycle
pub mod Ready
pub mod Table
pub mod Discovery
pub mod Endpoints
pub mod Numbered
pub mod Listed
pub mod Driven
mod Tests
use pants_tower.Base.{
  ℕ, zero, suc, ◌+◌, ◌≡◌, Bool, true, false, Option, none, some, ltb, ◌==◌, if◌then◌else◌,
}
use pants_tower.Service.{Poll, Future, map_err, ready, not_ready, err, Result, success, failure}
use pants_tower.IndexMap.{IndexMap}
use pants_tower.Machine.{
  Outcome, returns, fails, panics, hangs, Method, ◌>>=◌, ◌>>◌, return, modify, expect,
}
use pants_tower.Choose.{RoundRobin, Choose, Replicas, replicas}
use pants_tower.Discover.{Change, insert, remove, Discover}

pub data Error (E DE : Type 0) : Type 0 where
  inner : E → Error E DE
  balance : DE → Error E DE
  not_ready_error : Error E DE

pub record Balance (D C M : Type 0) : Type 0 where
  pub discover : D
  pub chooser : C
  pub chosen_ready_index : Option ℕ
  pub dispatched_ready_index : Option ℕ
  pub ready : M
  pub not_ready : M

-- `Balance::new`.
module _ {K V M : Type 0} {dec : Discrete K} (maps : IndexMap K V M dec) where
  pub new : {D C : Type 0} → D → C → Balance D C M
  new discover chooser = record {
    discover = discover;
    chooser = chooser;
    chosen_ready_index = none;
    dispatched_ready_index = none;
    ready = maps.empty;
    not_ready = maps.empty;
  }

-- The balancers with a strategy of the crate; `seed` makes a `SmallRng` from a random source.
module _ {D K V M : Type 0} {dec : Discrete K} (maps : IndexMap K V M dec) where
  p2c_with_rng : {G R RE : Type 0} → (G → Result R RE × G) → D → G → Result (Balance D R M) RE × G
  unfolding new
  p2c_with_rng seed discover rng =
      let (seeded, rng') = seed rng in
      elim seeded [
        | success r ↦ (success (new maps discover r), rng')
        | failure e ↦ (failure e, rng')
      ]

  unfoldable pub round_robin : D → Balance D RoundRobin M
  unfolding new
  round_robin discover = new maps discover (record { pos = 0 })

-- `ResponseFuture`.
poll_response : {F A E DE : Type 0} → Future F A E → F → Poll A (Error E DE) × F
poll_response fut f = let (p, f') = fut.poll f in (map_err inner p, f')

module _ {D C K V M E DE : Type 0} {dec : Discrete K} (maps : IndexMap K V M dec)
    (disc : Discover D K V DE) (strategy : Choose C M)
    (poll_service_ready : V → Poll (Unit {0}) E × V) where
  -- One turn of the loop: the changes of the maps.
  pub apply_change : Change K V → Balance D C M → Balance D C M
  apply_change (insert key svc) self = record self {
    ready = (maps.remove self.ready key).1;
    not_ready = maps.insert self.not_ready key svc;
  }
  apply_change (remove key) self =
      let (ejected, m) = maps.remove self.ready key in
      elim ejected [
        | none ↦ record self { ready = m; not_ready = (maps.remove self.not_ready key).1 }
        | some s ↦ record self { ready = m }
      ]

  pub poll_discover : Method (Balance D C M) (Option (Change K V)) (Error E DE)
  poll_discover self =
      let (p, d) = disc.poll self.discover in
      let self' = record self { discover = d } in
      elim p [
        | ready change ↦ returns (some change) self'
        | not_ready ↦ returns none self'
        | err e ↦ fails (balance e) self'
      ]

  pub update_from_discover : ℕ → Method (Balance D C M) (Unit {0}) (Error E DE)
  update_from_discover zero self = hangs
  update_from_discover (suc fuel) self =
      (poll_discover >>= λ c. elim c [
        | none ↦ return tt
        | some change ↦ (modify (apply_change change) >> update_from_discover fuel)
      ])
        self

  -- A service in a map is polled in place.
  poll_entry : K → V → M → ℕ → Poll (Unit {0}) E × M
  poll_entry key svc m idx =
      let (p, svc') = poll_service_ready svc in (p, maps.set_index m idx key svc')

  move_to_ready : ℕ → Method (Balance D C M) (Unit {0}) (Error E DE)
  move_to_ready idx self =
      let (removed, m) = maps.swap_remove_index self.not_ready idx in
      elim removed [
        | none ↦ panics
        | some (key, svc) ↦
            returns tt (record self { not_ready = m; ready = maps.insert self.ready key svc })
      ]

  settle_not_ready : ℕ → Poll (Unit {0}) E → Method (Balance D C M) (Unit {0}) (Error E DE)
  settle_not_ready idx (ready u) self = move_to_ready idx self
  settle_not_ready idx not_ready self = returns tt self
  settle_not_ready idx (err e) self = fails (inner e) self

  -- The body of the loop of `promote_to_ready` at an index.
  pub promote_at : ℕ → Method (Balance D C M) (Unit {0}) (Error E DE)
  promote_at idx self = elim (maps.get_index self.not_ready idx) [
    | none ↦ panics
    | some (key, svc) ↦
        let (p, m) = poll_entry key svc self.not_ready idx in
        settle_not_ready idx p (record self { not_ready = m })
  ]

  -- From the last index down to the first.
  pub promote_below : ℕ → Method (Balance D C M) (Unit {0}) (Error E DE)
  promote_below zero = return tt
  promote_below (suc idx) = promote_at idx >> promote_below idx

  pub promote_to_ready : Method (Balance D C M) (Unit {0}) (Error E DE)
  unfolding promote_below
  promote_to_ready self = promote_below (maps.len self.not_ready) self

  move_to_not_ready : ℕ → Method (Balance D C M) (Option Bool) (Error E DE)
  move_to_not_ready idx self =
      let (removed, m) = maps.swap_remove_index self.ready idx in
      elim removed [
        | none ↦ panics
        | some (key, svc) ↦
            returns (some false)
              (record self { ready = m; not_ready = maps.insert self.not_ready key svc })
      ]

  settle_ready : ℕ → Poll (Unit {0}) E → Method (Balance D C M) (Option Bool) (Error E DE)
  settle_ready idx (ready u) self = returns (some true) self
  settle_ready idx not_ready self = move_to_not_ready idx self
  settle_ready idx (err e) self = fails (inner e) self

  -- `none` if there is no such service, and else whether it is ready. (An error of the service is
  -- an answer of the source's function too, which its callers all return at once.)
  pub poll_ready_index : ℕ → Method (Balance D C M) (Option Bool) (Error E DE)
  poll_ready_index idx self = elim (maps.get_index self.ready idx) [
    | none ↦ returns none self
    | some (key, svc) ↦
        let (p, m) = poll_entry key svc self.ready idx in
        settle_ready idx p (record self { ready = m })
  ]

  -- The index to try among n > 0 services.
  pub choose_index : Method (Balance D C M) ℕ (Error E DE)
  choose_index self =
      if maps.len self.ready == 1 then returns 0 self else elim (replicas maps self.ready) [
        | failure f ↦ panics
        | success r ↦ elim (strategy.choose self.chooser r) [
          | none ↦ panics
          | some (idx, c) ↦ returns idx (record self { chooser = c })
        ]
      ]

  choose_this : ℕ → Method (Balance D C M) Bool (Error E DE)
  choose_this idx self = returns true (record self { chosen_ready_index = some idx })

  keep_choice : ℕ → Option Bool → Method (Balance D C M) Bool (Error E DE)
  unfolding choose_this
  keep_choice idx answer = do found ← expect answer; if found then choose_this idx else return false

  -- One turn of the loop of `choose_and_poll_ready`: whether the service tried was ready.
  pub choose_once : Method (Balance D C M) Bool (Error E DE)
  choose_once = do idx ← choose_index; answer ← poll_ready_index idx; keep_choice idx answer

  unless_found :
      Bool → Method (Balance D C M) Bool (Error E DE) → Method (Balance D C M) Bool (Error E DE)
  unless_found true again = return true
  unless_found false again = again

  pub choose_and_poll_ready : ℕ → Method (Balance D C M) Bool (Error E DE)
  choose_and_poll_ready zero self = hangs
  choose_and_poll_ready (suc fuel) self =
      if maps.len self.ready == 0
      then returns false self
      else (choose_once >>= λ found. unless_found found (choose_and_poll_ready fuel)) self

  expect_polled : Option Bool → Method (Balance D C M) (Unit {0}) (Error E DE)
  expect_polled answer = expect answer >> return tt

  -- The service that dispatched the last request is polled first.
  pub poll_dispatched : Method (Balance D C M) (Unit {0}) (Error E DE)
  poll_dispatched self =
      let self' = record self { dispatched_ready_index = none } in
      elim self.dispatched_ready_index [
        | none ↦ returns tt self'
        | some idx ↦ (poll_ready_index idx >>= expect_polled) self'
      ]

  -- `fuel` bounds the changes that the discovery yields. The last loop takes at most a turn for
  -- each ready service, and one more.
  pub poll_ready : ℕ → Method (Balance D C M) Bool (Error E DE)
  unfolding poll_dispatched
  poll_ready fuel = do
    modify (λ self. record self { chosen_ready_index = none })
    poll_dispatched
    update_from_discover fuel
    promote_to_ready
    λ self. choose_and_poll_ready (suc (maps.len self.ready)) self

module _ {D C K V M E DE Req F : Type 0} {dec : Discrete K} (maps : IndexMap K V M dec)
    (call_service : V → Req → F × V) where
  -- `call`: a response future of the chosen service, or a panic where none was chosen.
  pub call : Req → Method (Balance D C M) F (Error E DE)
  call request self =
      let self' = record self { chosen_ready_index = none } in
      elim self.chosen_ready_index [
        | none ↦ panics
        | some idx ↦ elim (maps.get_index self.ready idx) [
          | none ↦ panics
          | some (key, svc) ↦
              let (rsp, svc') = call_service svc request in
              returns rsp (record self' {
                dispatched_ready_index = some idx;
                ready = maps.set_index self.ready idx key svc';
              })
        ]
      ]
