-- ===== src/Protocol/Responses.antt =====
-- The responses of tower-retry/src/lib.rs, which call the service themselves.
use pants_tower.Base.{ℕ, Option, none, some}
use pants_tower.Service.{Poll, ready, not_ready, err, Result, success, failure, Future, Service}
use pants_tower.Loop.{Turn, Meets, Allows, Allowed, loop-Allowed, Meets-Allowed}
use pants_tower.Retry
use pants_tower.Retry.Progress.{Alive, Pends, poll-Meets}
use pants_tower.Protocol.{After, Keeps, Watched, watched, watched-Keeps, Unbroken, Ready}

module _ {P S Req F C R E : Type 0} (pol : Retry.Policy P Req R E C) (svc : Service S Req F E)
    (fut : Future F R E) (checks : Future C P (Unit {0})) (Idle Armed : S → Type 0)
    (keeps : Keeps svc Idle Armed) where
  abbrev Resends : Type 0
  Resends = Retry.ResponseFuture P S Req F C R E

  abbrev Rests : Resends → Type 0
  Rests self = Idle self.retry.service

  abbrev Turned : Turn Resends R E → Type 0
  Turned = Allows Rests (λ p self. Rests self)

  consider-Turned :
      (o : Option C) (r : Result R E) (self : Resends)
      → Rests self
      → Turned (Retry.consider pol svc fut checks o r self)
  unfolding Retry.consider
  consider-Turned none r self h = h
  consider-Turned (some c) r self h = h

  decide_on-Turned :
      (o : Option Req) (r : Result R E) (self : Resends)
      → Rests self
      → Turned (Retry.decide_on pol svc fut checks o r self)
  unfolding Retry.decide_on
  decide_on-Turned none r self h = h
  decide_on-Turned (some q) r self h = consider-Turned (pol.retry self.retry.policy q r) r self h

  after_call-Turned :
      (p : Poll R E) (self : Resends)
      → Rests self
      → Turned (Retry.after_call pol svc fut checks p self)
  unfolding Retry.after_call Retry.decide
  after_call-Turned (ready r) self h = decide_on-Turned self.request (success r) self h
  after_call-Turned not_ready self h = h
  after_call-Turned (err x) self h = decide_on-Turned self.request (failure x) self h

  after_check-Turned :
      (p : Poll P (Unit {0})) (c : C) (r : Option (Result R E)) (self : Resends)
      → Rests self
      → Turned (Retry.after_check pol svc fut checks p c r self)
  unfolding Retry.after_check
  after_check-Turned (ready policy) c r self h = h
  after_check-Turned not_ready c r self h = h
  after_check-Turned (err u) c none self h = tt
  after_check-Turned (err u) c (some r) self h = h

  resend-Turned :
      (o : Option Req) (self : Resends)
      → Armed self.retry.service
      → Turned (Retry.resend pol svc fut checks o self)
  unfolding Retry.resend
  resend-Turned none self h = tt
  resend-Turned (some q) self h = keeps.called self.retry.service q h

  after_ready-Turned :
      (p : Poll (Unit {0}) E) (self : Resends)
      → After Idle Armed p self.retry.service
      → Turned (Retry.after_ready pol svc fut checks p self)
  unfolding Retry.after_ready
  after_ready-Turned (ready u) self h = resend-Turned self.request self h
  after_ready-Turned not_ready self h = h
  after_ready-Turned (err x) self h = h

  turn_in-Turned :
      (s : Retry.State F C R E) (self : Resends)
      → Rests self
      → Turned (Retry.turn_in pol svc fut checks s self)
  unfolding Retry.turn_in Retry.poll_ready
  turn_in-Turned (Retry.called f) self h = after_call-Turned (fut.poll f).0 _ h
  turn_in-Turned (Retry.checking c r) self h = after_check-Turned (checks.poll c).0 _ r self h
  turn_in-Turned Retry.retrying self h =
      after_ready-Turned (svc.poll_ready self.retry.service).0 _ (keeps.asked self.retry.service h)

  pub retry_poll-Allowed :
      (fuel : ℕ) (self : Resends)
      → Rests self
      → Allowed (λ p s. Rests s) (Retry.poll pol svc fut checks fuel self)
  unfolding Retry.poll Retry.turn
  retry_poll-Allowed fuel self h =
      loop-Allowed Rests (λ p s. Rests s) (Retry.turn pol svc fut checks)
        (λ s h. turn_in-Turned s.state s h) fuel self h

module _ {P S Req F C R E : Type 0} (pol : Retry.Policy P Req R E C) (svc : Service S Req F E)
    (fut : Future F R E) (checks : Future C P (Unit {0})) where
  -- The response of a retry, polled through however many turns, does not panic and calls its
  -- service for another attempt only after it has told this response to be ready; where it answers
  -- that it is not ready, the same is true of it again. It starts from a service that was not
  -- called too early, and with a request to send again and a result to fall back on wherever its
  -- state asks for one.
  pub retry_poll-Unbroken :
      (fuel : ℕ) (self : Retry.ResponseFuture P (Watched S) Req F C R E)
      → Alive pol (watched svc) fut checks self
      → Unbroken self.retry.service
      → Meets
          (λ p self'. Pends pol (watched svc) fut checks p self' × Unbroken self'.retry.service)
          (Retry.poll pol (watched svc) fut checks fuel self)
  retry_poll-Unbroken fuel self a h =
      Meets-Allowed (Pends pol (watched svc) fut checks) (λ p s. Unbroken s.retry.service)
        (Retry.poll pol (watched svc) fut checks fuel self)
        (poll-Meets pol (watched svc) fut checks fuel self a)
        (retry_poll-Allowed pol (watched svc) fut checks Unbroken Ready (watched-Keeps svc) fuel
          self h)
