-- ===== src/RateLimit.antt =====
-- tower-rate-limit/src/lib.rs. A method that reads the clock takes the time as `now`; the timer and
-- its sleep futures are parameters.
pub mod Calls
mod Tests
use pants_tower.Base.{
  ℕ, ◌+◌, ◌-◌, Bool, true, false, ◌&&◌, Option, none, some, ltb, leb, if◌then◌else◌,
}
use pants_tower.Service.{Poll, ready, not_ready, err, map_err, Future, Service}

pub record Rate : Type 0 where
  pub num : ℕ
  pub per : ℕ

pub data Error {ℓ} (E : Type ℓ) : Type ℓ where
  rate_limit : Error E
  upstream : E → Error E

pub data State {ℓ} (Z : Type ℓ) : Type ℓ where
  limited : Z → State Z
  open_until : ℕ → ℕ → State Z

pub record RateLimit {ℓ} (S Z : Type ℓ) : Type ℓ where
  pub inner : S
  pub rate : Rate
  pub state : State Z

pub record ResponseFuture {ℓ} (F : Type ℓ) : Type ℓ where
  pub inner : Option F

-- `Rate::new`: `none` is a failed assertion.
new_rate : ℕ → ℕ → Option Rate
new_rate num per = if ltb 0 num && ltb 0 per then some (record { num = num; per = per }) else none

pub new {ℓ} : {S Z : Type ℓ} → S → Rate → ℕ → RateLimit S Z
new service rate now = record { inner = service; rate = rate; state = open_until now rate.num }

-- `X` is the error of the timer.
module _ {ℓ} {S Z E X : Type ℓ} (timer : Future Z (Unit {ℓ}) X) where
  after_sleep :
      ℕ → Poll (Unit {ℓ}) X → RateLimit S Z → Z → Poll (Unit {ℓ}) (Error E) × RateLimit S Z
  after_sleep now (ready u) self z =
      (ready tt, record self { state = open_until (now + self.rate.per) self.rate.num })
  after_sleep now not_ready self z = (not_ready, record self { state = limited z })
  after_sleep now (err e) self z = (err rate_limit, record self { state = limited z })

  unfoldable pub poll_in : State Z → ℕ → RateLimit S Z → Poll (Unit {ℓ}) (Error E) × RateLimit S Z
  unfolding after_sleep
  poll_in (open_until until rem) now self = (ready tt, self)
  poll_in (limited z) now self = let (p, z') = timer.poll z in after_sleep now p self z'

  unfoldable pub poll_ready : ℕ → RateLimit S Z → Poll (Unit {ℓ}) (Error E) × RateLimit S Z
  unfolding poll_in
  poll_ready now self = poll_in self.state now self

module _ {ℓ} {S Z Req F E : Type ℓ} (sleep : ℕ → Z) (svc : Service S Req F E) where
  unfoldable pub dispatch : RateLimit S Z → Req → ResponseFuture F × RateLimit S Z
  dispatch self request =
      let (f, s) = svc.call self.inner request in
      (record { inner = some f }, record self { inner = s })

  -- The state after a call at `now`. The count that a new period brings is written to the state,
  -- but the local `rem` is not changed, and the state is written again from that.
  unfoldable pub advance : ℕ → ℕ → ℕ → RateLimit S Z → RateLimit S Z
  advance now until rem self =
      let over = leb until now in
      let until' = if over then now + self.rate.per else until in
      let self' = if over then record self { state = open_until until' self.rate.num } else self in
      if ltb 1 rem
      then record self' { state = open_until until' (rem - 1) }
      else record self' { state = limited (sleep (until' - now)) }

  unfoldable pub call_in : State Z → ℕ → RateLimit S Z → Req → ResponseFuture F × RateLimit S Z
  unfolding dispatch advance
  call_in (open_until until rem) now self request = dispatch (advance now until rem self) request
  call_in (limited z) now self request = (record { inner = none }, self)

  unfoldable pub call : ℕ → RateLimit S Z → Req → ResponseFuture F × RateLimit S Z
  unfolding call_in
  call now self request = call_in self.state now self request

-- `Future for ResponseFuture`.
pub poll {ℓ} :
    {F A E : Type ℓ} → Future F A E → ResponseFuture F → Poll A (Error E) × ResponseFuture F
poll fut self = elim self.inner [
  | some f ↦ (let (p, f') = fut.poll f in (map_err upstream p, record { inner = some f' }))
  | none ↦ (err rate_limit, self)
]
