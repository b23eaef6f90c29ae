-- ===== src/Retry.antt =====
-- tower-retry/src/lib.rs: the state machine of a response that a policy may retry. The result of
-- the service and the policy's futures are parameters.
pub mod Progress
pub mod Outcomes
pub mod Attempts
mod Tests
use pants_tower.Base.{ℕ, zero, suc, Bool, true, false, Option, none, some}
use pants_tower.Service.{Poll, ready, not_ready, err, Result, success, failure, Future, Service}
use pants_tower.Loop.{Turn, stop, again, crash, Answer, loop}

-- `R` and `E` are the results of the service, `C` is the future of the policy.
pub record Policy (P Req R E C : Type 0) : Type 0 where
  pub retry : P → Req → Result R E → Option C
  pub clone_request : P → Req → Option Req

pub record Retry (P S : Type 0) : Type 0 where
  pub policy : P
  pub service : S

pub data State (F C R E : Type 0) : Type 0 where
  called : F → State F C R E
  checking : C → Option (Result R E) → State F C R E
  retrying : State F C R E

pub record ResponseFuture (P S Req F C R E : Type 0) : Type 0 where
  pub request : Option Req
  pub retry : Retry P S
  pub state : State F C R E

-- `result.map(Async::Ready)`.
abbrev pub answer : {R E : Type 0} → Result R E → Poll R E
answer (success r) = ready r
answer (failure e) = err e

module _ {P S Req F C R E : Type 0} (pol : Policy P Req R E C) (svc : Service S Req F E) where
  unfoldable pub poll_ready : Retry P S → Poll (Unit {0}) E × Retry P S
  poll_ready self = let (p, s) = svc.poll_ready self.service in (p, record self { service = s })

  -- The future has a clone of the policy and of the service.
  unfoldable pub call : Retry P S → Req → ResponseFuture P S Req F C R E × Retry P S
  call self request =
      let cloned = pol.clone_request self.policy request in
      let (f, s) = svc.call self.service request in
      let self' = record self { service = s } in
      (record { request = cloned; retry = self'; state = called f }, self')

module _ {P S Req F C R E : Type 0} (pol : Policy P Req R E C) (svc : Service S Req F E)
    (fut : Future F R E) (checks : Future C P (Unit {0})) where
  abbrev Response : Type 0
  Response = ResponseFuture P S Req F C R E

  unfoldable pub consider : Option C → Result R E → Response → Turn Response R E
  consider none result self = stop (answer result) self
  consider (some check) result self = again (record self { state = checking check (some result) })

  unfoldable pub decide_on : Option Req → Result R E → Response → Turn Response R E
  decide_on none result self = stop (answer result) self
  decide_on (some req) result self = consider (pol.retry self.retry.policy req result) result self

  -- The service has answered: is there a request to send again, and does the policy want to?
  unfoldable pub decide : Result R E → Response → Turn Response R E
  decide result self = decide_on self.request result self

  unfoldable pub after_call : Poll R E → Response → Turn Response R E
  after_call (ready r) self = decide (success r) self
  after_call not_ready self = stop not_ready self
  after_call (err e) self = decide (failure e) self

  -- `Err(())` of the policy: the result is taken out and returned.
  unfoldable pub after_check :
      Poll P (Unit {0}) → C → Option (Result R E) → Response → Turn Response R E
  after_check (ready policy) check result self =
      again (record self { retry = record (self.retry) { policy = policy }; state = retrying })
  after_check not_ready check result self =
      stop not_ready (record self { state = checking check result })
  after_check (err u) check none self = crash
  after_check (err u) check (some result) self =
      stop (answer result) (record self { state = checking check none })

  unfoldable pub resend : Option Req → Response → Turn Response R E
  resend none self = crash
  resend (some req) self =
      let (f, s) = svc.call self.retry.service req in
      again (record self {
        request = pol.clone_request self.retry.policy req;
        retry = record (self.retry) { service = s };
        state = called f;
      })

  unfoldable pub after_ready : Poll (Unit {0}) E → Response → Turn Response R E
  after_ready (ready u) self = resend self.request self
  after_ready not_ready self = stop not_ready self
  after_ready (err e) self = stop (err e) self

  unfoldable pub turn_in : State F C R E → Response → Turn Response R E
  turn_in (called f) self =
      let (p, f') = fut.poll f in after_call p (record self { state = called f' })
  turn_in (checking check result) self =
      let (p, check') = checks.poll check in after_check p check' result self
  turn_in retrying self =
      let (p, r) = poll_ready pol svc self.retry in after_ready p (record self { retry = r })

  unfoldable pub turn : Response → Turn Response R E
  turn self = turn_in self.state self

  -- A policy may ask for a retry for ever, so the number of turns is a parameter.
  unfoldable pub poll : ℕ → Response → Answer Response R E
  poll fuel self = loop fuel turn self
