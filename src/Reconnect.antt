-- ===== src/Reconnect.antt =====
-- tower-reconnect/src/lib.rs. The service that makes connections, the future of a connection and
-- the services that it yields are parameters. A clone of the target is the target.
pub mod Turns
mod Tests
use pants_tower.Base.{ℕ, Option, none, some}
use pants_tower.Service.{Poll, ready, not_ready, err, map_err, Future, Service}
use pants_tower.Loop.{Turn, stop, again, Answer, loop}

pub data Error {ℓ} (T U : Type ℓ) : Type ℓ where
  service : T → Error T U
  connect : U → Error T U
  not_connected : Error T U

pub data State {ℓ} (F S : Type ℓ) : Type ℓ where
  idle : State F S
  connecting : F → State F S
  connected : S → State F S

pub record Reconnect {ℓ} (M F S Target : Type ℓ) : Type ℓ where
  pub mk_service : M
  pub state : State F S
  pub target : Target

pub record ResponseFuture {ℓ} (F : Type ℓ) : Type ℓ where
  pub inner : Option F

pub new {ℓ} : {M F S Target : Type ℓ} → M → Target → Reconnect M F S Target
new mk_service target = record { mk_service = mk_service; state = idle; target = target }

module _ {ℓ} {M F S Target Req R E U : Type ℓ} (maker : Service M Target F U)
    (connection : Future F S U) (svc : Service S Req R E) where
  unfoldable pub after_maker :
      Poll (Unit {ℓ}) U
      → Reconnect M F S Target
      → Turn (Reconnect M F S Target) (Unit {ℓ}) (Error E U)
  after_maker (ready u) self =
      let (f, made) = maker.call self.mk_service self.target in
      again (record self { mk_service = made; state = connecting f })
  after_maker not_ready self = stop not_ready self
  after_maker (err e) self = stop (err (connect e)) self

  unfoldable pub after_connection :
      Poll S U → Reconnect M F S Target → Turn (Reconnect M F S Target) (Unit {ℓ}) (Error E U)
  after_connection (ready s) self = again (record self { state = connected s })
  after_connection not_ready self = stop not_ready self
  after_connection (err e) self = stop (err (connect e)) (record self { state = idle })

  -- The error of the service is dropped.
  unfoldable pub after_service :
      Poll (Unit {ℓ}) E
      → Reconnect M F S Target
      → Turn (Reconnect M F S Target) (Unit {ℓ}) (Error E U)
  after_service (ready u) self = stop (ready tt) self
  after_service not_ready self = stop not_ready self
  after_service (err e) self = again (record self { state = idle })

  unfoldable pub turn_in :
      State F S → Reconnect M F S Target → Turn (Reconnect M F S Target) (Unit {ℓ}) (Error E U)
  turn_in idle self =
      let (p, made) = maker.poll_ready self.mk_service in
      after_maker p (record self { mk_service = made })
  turn_in (connecting f) self =
      let (p, f') = connection.poll f in after_connection p (record self { state = connecting f' })
  turn_in (connected inner) self =
      let (p, inner') = svc.poll_ready inner in
      after_service p (record self { state = connected inner' })

  unfoldable pub turn :
      Reconnect M F S Target → Turn (Reconnect M F S Target) (Unit {ℓ}) (Error E U)
  turn self = turn_in self.state self

  -- The loop of the source has no bound, so the number of turns is a parameter.
  unfoldable pub poll_ready :
      ℕ → Reconnect M F S Target → Answer (Reconnect M F S Target) (Unit {ℓ}) (Error E U)
  poll_ready fuel self = loop fuel turn self

module _ {ℓ} {M F S Target Req R E : Type ℓ} (svc : Service S Req R E) where
  unfoldable pub call_in :
      State F S → Reconnect M F S Target → Req → ResponseFuture R × Reconnect M F S Target
  call_in idle self request = (record { inner = none }, self)
  call_in (connecting f) self request = (record { inner = none }, self)
  call_in (connected inner) self request =
      let (f, inner') = svc.call inner request in
      (record { inner = some f }, record self { state = connected inner' })

  unfoldable pub call : Reconnect M F S Target → Req → ResponseFuture R × Reconnect M F S Target
  call self request = call_in self.state self request

-- `Future for ResponseFuture`.
pub poll {ℓ} :
    {F A E U : Type ℓ} → Future F A E → ResponseFuture F → Poll A (Error E U) × ResponseFuture F
poll fut self = elim self.inner [
  | some f ↦ (let (p, f') = fut.poll f in (map_err service p, record { inner = some f' }))
  | none ↦ (err not_connected, self)
]
