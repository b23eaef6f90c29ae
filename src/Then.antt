-- ===== src/Then.antt =====
-- tower-util/src/ext/then.rs. A clone of the second service is the service.
pub mod Order
mod Tests
use pants_tower.Base.{Option, none, some}
use pants_tower.Service.{Poll, ready, not_ready, err, Result, success, failure, Future, Service}

pub record Then (A B : Type 0) : Type 0 where
  pub a : A
  pub b : B

pub record ThenFuture (B FA FB : Type 0) : Type 0 where
  pub b : B
  pub fut_b : Option FB
  pub fut_a : FA

pub new : {A B : Type 0} → A → B → Then A B
new a b = record { a = a; b = b }

clone : {A B : Type 0} → (A → A) → (B → B) → Then A B → Then A B
clone clone_a clone_b self = record { a = clone_a self.a; b = clone_b self.b }

module _ {A B Req RA FA FB E : Type 0} (svc_a : Service A Req FA E)
    (svc_b : Service B (Result RA E) FB E) where
  pub poll_ready : Then A B → Poll (Unit {0}) E × Then A B
  poll_ready self =
      let (p, a') = svc_a.poll_ready self.a in
      let (q, b') = svc_b.poll_ready self.b in
      elim p [
        | ready u ↦ (q, record { a = a'; b = b' })
        | not_ready ↦ (not_ready, record self { a = a' })
        | err e ↦ (err e, record self { a = a' })
      ]

  pub call : Then A B → Req → ThenFuture B FA FB × Then A B
  call self req =
      let (f, a') = svc_a.call self.a req in
      (record { b = self.b; fut_b = none; fut_a = f }, record self { a = a' })

module _ {B RA R FA FB EA E : Type 0} (svc_b : Service B (Result RA EA) FB E)
    (on_a : Future FA RA EA) (on_b : Future FB R E) where
  poll_b : FB → ThenFuture B FA FB → Poll R E × ThenFuture B FA FB
  poll_b f self = let (p, f') = on_b.poll f in (p, record self { fut_b = some f' })

  -- `poll` calls itself once the second future is there.
  call_b : Result RA EA → ThenFuture B FA FB → Poll R E × ThenFuture B FA FB
  unfolding poll_b
  call_b result self = let (f, b') = svc_b.call self.b result in poll_b f (record self { b = b' })

  after_a : Poll RA EA → ThenFuture B FA FB → Poll R E × ThenFuture B FA FB
  unfolding call_b
  after_a (ready resp) self = call_b (success resp) self
  after_a (err e) self = call_b (failure e) self
  after_a not_ready self = (not_ready, self)

  poll_in : Option FB → ThenFuture B FA FB → Poll R E × ThenFuture B FA FB
  unfolding after_a
  poll_in (some f) self = poll_b f self
  poll_in none self = let (p, f') = on_a.poll self.fut_a in after_a p (record self { fut_a = f' })

  pub poll : ThenFuture B FA FB → Poll R E × ThenFuture B FA FB
  unfolding poll_in
  poll self = poll_in self.fut_b self

  unfoldable pub future : Future (ThenFuture B FA FB) R E
  unfolding poll
  future = record { poll = poll }
