-- ===== src/Balance/Driven.antt =====
-- `poll_service` and `poll_close` of `Balance` in tower-balance/src/lib.rs, the operations of a
-- service that is driven, and the counts of its services.
pub mod Serving
pub mod Closing
use pants_tower.Base.{
  ℕ, zero, suc, ◌+◌, Bool, true, false, not, Option, none, some, ◌==◌, ◌&&◌, if◌then◌else◌,
}
use pants_tower.Service.{Poll, ready, not_ready, err, Result, success, failure}
use pants_tower.IndexMap.{IndexMap, Retain}
use pants_tower.Balance.{Balance, Error, inner}

module _ {K V M E : Type 0} {dec : Discrete K} (maps : IndexMap K V M dec)
    (poll_one : V → Poll (Unit {0}) E × V) where
  -- The rest of the loop, after the answer of a service. An error ends it.
  serve_in : Poll (Unit {0}) E → Bool → (Bool → M → Result Bool E × M) → M → Result Bool E × M
  serve_in (ready u) any_not_ready rest m = rest any_not_ready m
  serve_in not_ready any_not_ready rest m = rest true m
  serve_in (err e) any_not_ready rest m = (failure e, m)

  -- The loop over `n` services from an index on.
  serve : ℕ → ℕ → Bool → M → Result Bool E × M
  unfolding serve_in
  serve zero idx any_not_ready m = (success any_not_ready, m)
  serve (suc n) idx any_not_ready m =
      let rest = serve n (idx + 1) in
      elim (maps.get_index m idx) [
        | none ↦ (success any_not_ready, m)
        | some (key, svc) ↦
            let (p, svc') = poll_one svc in
            serve_in p any_not_ready rest (maps.set_index m idx key svc')
      ]

  pub serve_all : Bool → M → Result Bool E × M
  unfolding serve
  serve_all any_not_ready m = serve (maps.len m) 0 any_not_ready m

module _ {D C K V M E DE : Type 0} {dec : Discrete K} (maps : IndexMap K V M dec)
    (poll_one : V → Poll (Unit {0}) E × V) where
  after_both : Result Bool E → Balance D C M → Poll (Unit {0}) (Error E DE) × Balance D C M
  after_both (success true) self = (not_ready, self)
  after_both (success false) self = (ready tt, self)
  after_both (failure e) self = (err (inner e), self)

  after_ready : Result Bool E → Balance D C M → Poll (Unit {0}) (Error E DE) × Balance D C M
  unfolding serve_all after_both
  after_ready (success any_not_ready) self =
      let (r, m) = serve_all maps poll_one any_not_ready self.not_ready in
      after_both r (record self { not_ready = m })
  after_ready (failure e) self = (err (inner e), self)

  pub poll_service : Balance D C M → Poll (Unit {0}) (Error E DE) × Balance D C M
  unfolding serve_all after_ready
  poll_service self =
      let (r, m) = serve_all maps poll_one false self.ready in
      after_ready r (record self { ready = m })

keep_in : {V E : Type 0} → Poll (Unit {0}) E → V → Option E → Bool × V × Option E
keep_in (ready u) svc error = (false, svc, error)
keep_in not_ready svc error = (true, svc, error)
keep_in (err e) svc error = (false, svc, some e)

module _ {K V E : Type 0} (close_one : V → Poll (Unit {0}) E × V) where
  -- The closure that both calls of `retain` are given.
  pub keep : K → V → Option E → Bool × V × Option E
  unfolding keep_in
  keep key svc error = let (p, svc') = close_one svc in keep_in p svc' error

module _ {D C K V M E DE : Type 0} {dec : Discrete K} (maps : IndexMap K V M dec)
    (retain : Retain maps (Option E)) (close_one : V → Poll (Unit {0}) E × V) where
  after_retain : Option E → Balance D C M → Poll (Unit {0}) (Error E DE) × Balance D C M
  after_retain (some e) self = (err (inner e), self)
  after_retain none self = (
    if (maps.len self.ready == 0) && (maps.len self.not_ready == 0) then ready tt else not_ready,
    self,
  )

  pub poll_close : Balance D C M → Poll (Unit {0}) (Error E DE) × Balance D C M
  unfolding keep after_retain
  poll_close self =
      let (m, error) = retain.retain (keep close_one) self.ready none in
      let (n, error') = retain.retain (keep close_one) self.not_ready error in
      after_retain error' (record self { ready = m; not_ready = n })

module _ {D C K V M : Type 0} {dec : Discrete K} (maps : IndexMap K V M dec) where
  pub is_ready : Balance D C M → Bool
  is_ready self = not (maps.len self.ready == 0)

  pub is_not_ready : Balance D C M → Bool
  is_not_ready self = maps.len self.ready == 0

  pub num_ready : Balance D C M → ℕ
  num_ready self = maps.len self.ready

  pub num_not_ready : Balance D C M → ℕ
  num_not_ready self = maps.len self.not_ready
