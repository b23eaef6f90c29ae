-- ===== src/Timeout.antt =====
-- tower-timeout/src/lib.rs. The timer is a parameter: `delay now` is a sleep until a time.
pub mod Race
mod Tests
use pants_tower.Base.{ℕ, ◌+◌}
use pants_tower.Service.{Poll, ready, not_ready, err, map_err, Future, Service}

pub record Timeout (S : Type 0) : Type 0 where
  pub inner : S
  pub timeout : ℕ

pub data Error (E : Type 0) : Type 0 where
  inner_error : E → Error E
  timed_out : Error E

pub record ResponseFuture (F Z : Type 0) : Type 0 where
  pub response : F
  pub sleep : Z

pub new : {S : Type 0} → S → ℕ → Timeout S
new inner timeout = record { inner = inner; timeout = timeout }

module _ {S Req F E : Type 0} (svc : Service S Req F E) where
  unfoldable pub poll_ready : Timeout S → Poll (Unit {0}) (Error E) × Timeout S
  poll_ready self =
      let (p, s) = svc.poll_ready self.inner in (map_err inner_error p, record self { inner = s })

  unfoldable pub call :
      {Z : Type 0} → (ℕ → Z) → ℕ → Timeout S → Req → ResponseFuture F Z × Timeout S
  call delay now self request =
      let (f, s) = svc.call self.inner request in
      (record { response = f; sleep = delay (now + self.timeout) }, record self { inner = s })

module _ {F Z A E X : Type 0} (fut : Future F A E) (timer : Future Z (Unit {0}) X) where
  after_sleep : Poll (Unit {0}) X → Poll A (Error E)
  after_sleep (ready u) = err timed_out
  after_sleep not_ready = not_ready
  after_sleep (err e) = err timed_out

  -- The sleep is polled only where the response is not ready.
  after_response : Poll A E → ResponseFuture F Z → Poll A (Error E) × ResponseFuture F Z
  unfolding after_sleep
  after_response (ready v) self = (ready v, self)
  after_response not_ready self =
      let (p, z) = timer.poll self.sleep in (after_sleep p, record self { sleep = z })
  after_response (err e) self = (err (inner_error e), self)

  pub poll : ResponseFuture F Z → Poll A (Error E) × ResponseFuture F Z
  unfolding after_response
  poll self = let (p, f) = fut.poll self.response in after_response p (record self { response = f })

  unfoldable pub future : Future (ResponseFuture F Z) A (Error E)
  unfolding poll
  future = record { poll = poll }
