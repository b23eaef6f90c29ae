-- ===== src/Retry/Progress.antt =====
-- The turns of the response future of tower-retry/src/lib.rs.
use pants_tower.Base.{ℕ, ◌≡◌, refl, Option, none, some}
use pants_tower.Service.{Poll, ready, not_ready, err, Result, success, failure, Future, Service}
use pants_tower.Loop.{Keeps, Meets, loop-Meets}
use pants_tower.Retry.{
  Policy, Retry, State, called, checking, retrying, ResponseFuture, answer, poll_ready, call,
  consider, decide_on, decide, after_call, after_check, resend, after_ready, turn_in, turn, poll,
}

-- A request to send again is there wherever it will be asked for, and a result where the policy
-- is asked about it.
abbrev Holds : {Req F C R E : Type 0} → Option Req → State F C R E → Type 0
Holds request (called f) = Unit {0}
Holds none (checking c r) = ⊥
Holds (some q) (checking c none) = ⊥
Holds (some q) (checking c (some r)) = Unit {0}
Holds none retrying = ⊥
Holds (some q) retrying = Unit {0}

module _ {P S Req F C R E : Type 0} (pol : Policy P Req R E C) (svc : Service S Req F E)
    (fut : Future F R E) (checks : Future C P (Unit {0})) where
  abbrev pub Alive : ResponseFuture P S Req F C R E → Type 0
  Alive self = Holds self.request self.state

  abbrev pub Pends : Poll R E → ResponseFuture P S Req F C R E → Type 0
  Pends (ready r) self = Unit {0}
  Pends not_ready self = Alive self
  Pends (err e) self = Unit {0}

  answer-Pends : (r : Result R E) (self : ResponseFuture P S Req F C R E) → Pends (answer r) self
  answer-Pends (success r) self = tt
  answer-Pends (failure x) self = tt

  consider-Keeps :
      (o : Option C) (r : Result R E) (self : ResponseFuture P S Req F C R E) (q : Req)
      → self.request ≡ some q
      → Keeps Alive Pends (consider pol svc fut checks o r self)
  unfolding consider
  consider-Keeps none r self q e = answer-Pends r self
  consider-Keeps (some c) r self q e = rw e tt

  decide_on-Keeps :
      (o : Option Req) (r : Result R E) (self : ResponseFuture P S Req F C R E)
      → self.request ≡ o
      → Keeps Alive Pends (decide_on pol svc fut checks o r self)
  unfolding decide_on
  decide_on-Keeps none r self e = answer-Pends r self
  decide_on-Keeps (some q) r self e = consider-Keeps (pol.retry self.retry.policy q r) r self q e

  decide-Keeps :
      (r : Result R E) (self : ResponseFuture P S Req F C R E)
      → Keeps Alive Pends (decide pol svc fut checks r self)
  unfolding decide
  decide-Keeps r self = decide_on-Keeps self.request r self refl

  after_call-Keeps :
      (p : Poll R E) (self : ResponseFuture P S Req F C R E) (f : F)
      → self.state ≡ called f
      → Keeps Alive Pends (after_call pol svc fut checks p self)
  unfolding after_call
  after_call-Keeps (ready r) self f e = decide-Keeps (success r) self
  after_call-Keeps not_ready self f e = rw e tt
  after_call-Keeps (err x) self f e = decide-Keeps (failure x) self

  after_check-Keeps :
      (p : Poll P (Unit {0})) (c : C) (result : Option (Result R E))
      (self : ResponseFuture P S Req F C R E) (q : Req) (r : Result R E)
      → self.request ≡ some q
      → result ≡ some r
      → Keeps Alive Pends (after_check pol svc fut checks p c result self)
  unfolding after_check
  after_check-Keeps (ready policy) c result self q r e h = rw e tt
  after_check-Keeps not_ready c result self q r e h = rw (e, h) tt
  after_check-Keeps (err u) c none self q r e h = absurd (cc)
  after_check-Keeps (err u) c (some r') self q r e h = answer-Pends r' _

  after_ready-Keeps :
      (p : Poll (Unit {0}) E) (self : ResponseFuture P S Req F C R E) (q : Req)
      → self.request ≡ some q
      → self.state ≡ retrying
      → Keeps Alive Pends (after_ready pol svc fut checks p self)
  unfolding after_ready resend
  after_ready-Keeps (ready u) self q e h = rw (e, resend) tt
  after_ready-Keeps not_ready self q e h = rw (e, h) tt
  after_ready-Keeps (err x) self q e h = tt

  turn_in-Keeps :
      (s : State F C R E) (o : Option Req) (self : ResponseFuture P S Req F C R E)
      → self.state ≡ s
      → self.request ≡ o
      → Holds o s
      → Keeps Alive Pends (turn_in pol svc fut checks s self)
  unfolding turn_in
  turn_in-Keeps (called f) o self e h a = after_call-Keeps (fut.poll f).0 _ (fut.poll f).1 refl
  turn_in-Keeps (checking c r) none self e h a = absurd a
  turn_in-Keeps (checking c none) (some q) self e h a = absurd a
  turn_in-Keeps (checking c (some r)) (some q) self e h a =
      after_check-Keeps (checks.poll c).0 (checks.poll c).1 (some r) self q r h refl
  turn_in-Keeps retrying none self e h a = absurd a
  turn_in-Keeps retrying (some q) self e h a =
      after_ready-Keeps (poll_ready pol svc self.retry).0 _ q h e

  -- A response future that has a request to send again and a result to fall back on wherever its
  -- state will ask for one is polled with no panic, through however many turns: where it answers
  -- that it is not ready, it is such a future again.
  pub poll-Meets :
      (fuel : ℕ) (self : ResponseFuture P S Req F C R E)
      → Alive self
      → Meets Pends (poll pol svc fut checks fuel self)
  unfolding poll turn
  poll-Meets fuel self h =
      loop-Meets Alive Pends (turn pol svc fut checks)
        (λ s a. turn_in-Keeps s.state s.request s refl refl a) fuel self h

  call-Alive : (self : Retry P S) (request : Req) → Alive (call pol svc self request).0
  unfolding call
  call-Alive self request = tt
