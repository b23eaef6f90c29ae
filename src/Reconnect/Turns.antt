-- ===== src/Reconnect/Turns.antt =====
-- The loop of `poll_ready` in tower-reconnect/src/lib.rs.
use pants_tower.Base.{ℕ, zero, suc, ◌≡◌, refl, ap, ◌∙◌, some, subst}
use pants_tower.Service.{Poll, ready, not_ready, err, Future, Service}
use pants_tower.Loop.{Turn, again, answers, unfinished, loop, Keeps, Meets, loop-Meets, loop_again}
use pants_tower.Reconnect.{
  Error, service, connect, not_connected, State, idle, connecting, connected, Reconnect,
  after_maker, after_connection, after_service, turn_in, turn, poll_ready, call_in, call,
}

-- What an answer of `poll_ready` leaves: a service where it is ready, and after an error of the
-- connection no connection.
abbrev pub Leaves {ℓ} : {F S E U : Type ℓ} → Poll (Unit {ℓ}) (Error E U) → State F S → Type 0
Leaves (ready u) (connected s) = Unit {0}
Leaves (ready u) idle = ⊥
Leaves (ready u) (connecting f) = ⊥
Leaves not_ready s = Unit {0}
Leaves (err (connect e)) idle = Unit {0}
Leaves (err (connect e)) (connecting f) = ⊥
Leaves (err (connect e)) (connected s) = ⊥
Leaves (err (service e)) s = ⊥
Leaves (err not_connected) s = ⊥

module _ {ℓ} {M F S Target Req R E U : Type ℓ} (maker : Service M Target F U)
    (connection : Future F S U) (svc : Service S Req R E) where
  Turned : Turn (Reconnect M F S Target) (Unit {ℓ}) (Error E U) → Type 0
  Turned = Keeps (λ self. Unit {0}) (λ p self. Leaves p self.state)

  after_maker-Turned :
      (p : Poll (Unit {ℓ}) U) (self : Reconnect M F S Target)
      → self.state ≡ idle
      → Turned (after_maker maker connection svc p self)
  unfolding after_maker Turned
  after_maker-Turned (ready u) self e = tt
  after_maker-Turned not_ready self e = tt
  after_maker-Turned (err x) self e = rw e tt

  after_connection-Turned :
      (p : Poll S U) (self : Reconnect M F S Target)
      → Turned (after_connection maker connection svc p self)
  unfolding after_connection Turned
  after_connection-Turned (ready s) self = tt
  after_connection-Turned not_ready self = tt
  after_connection-Turned (err x) self = tt

  after_service-Turned :
      (p : Poll (Unit {ℓ}) E) (self : Reconnect M F S Target) (inner : S)
      → self.state ≡ connected inner
      → Turned (after_service maker connection svc p self)
  unfolding after_service Turned
  after_service-Turned (ready u) self inner e = rw e tt
  after_service-Turned not_ready self inner e = tt
  after_service-Turned (err x) self inner e = tt

  turn_in-Turned :
      (s : State F S) (self : Reconnect M F S Target)
      → self.state ≡ s
      → Turned (turn_in maker connection svc s self)
  unfolding turn_in
  turn_in-Turned idle self e = after_maker-Turned (maker.poll_ready self.mk_service).0 _ e
  turn_in-Turned (connecting f) self e = after_connection-Turned (connection.poll f).0 _
  turn_in-Turned (connected inner) self e =
      after_service-Turned (svc.poll_ready inner).0 _ (svc.poll_ready inner).1 refl

  -- `poll_ready` does not panic. Where it answers that it is ready, a service is connected; where
  -- it fails, that is by an error of the connection, never of the service, and the state is idle.
  pub poll_ready-Meets :
      (fuel : ℕ) (self : Reconnect M F S Target)
      → Meets (λ p self'. Leaves p self'.state) (poll_ready maker connection svc fuel self)
  unfolding poll_ready turn Turned
  poll_ready-Meets fuel self =
      loop-Meets (λ s. Unit {0}) (λ p s. Leaves p s.state) (turn maker connection svc)
        (λ s u. turn_in-Turned s.state s refl) fuel self tt

  call_connected :
      (s : State F S) (self : Reconnect M F S Target) (request : Req)
      → Leaves {E = E} {U = U} (ready tt) s
      → (inner : S) × (s ≡ connected inner)
        × ((call_in svc s self request).0.inner ≡ some (svc.call inner request).0)
  unfolding call_in
  call_connected idle self request h = absurd h
  call_connected (connecting f) self request h = absurd h
  call_connected (connected inner) self request h = (inner, refl, refl)

  -- Where `poll_ready`, from any state and after however many turns, has answered that it is
  -- ready, there is a connected service, and the call that follows is dispatched to it.
  inner-call :
      (fuel : ℕ) (self self' : Reconnect M F S Target) (request : Req)
      → poll_ready maker connection svc fuel self ≡ answers (ready tt) self'
      → (inner : S) × (self'.state ≡ connected inner)
        × ((call svc self' request).0.inner ≡ some (svc.call inner request).0)
  unfolding call
  inner-call fuel self self' request e =
      call_connected self'.state self' request
        (subst (Meets (λ p s. Leaves p s.state)) e (poll_ready-Meets fuel self))

  module _ (willing : (m : M) → (maker.poll_ready m).0 ≡ ready tt)
      (reached : (f : F) → (s : S) × ((connection.poll f).0 ≡ ready s))
      (broken : (s : S) → (e : E) × ((svc.poll_ready s).0 ≡ err e)) where
    turn_in_again :
        (s : State F S) (self : Reconnect M F S Target)
        → (self' : Reconnect M F S Target) × (turn_in maker connection svc s self ≡ again self')
    unfolding turn_in after_maker after_connection after_service
    turn_in_again idle self =
        let made = record self { mk_service = (maker.poll_ready self.mk_service).1 } in
        (_, ap (λ p. after_maker maker connection svc p made) (willing self.mk_service))
    turn_in_again (connecting f) self =
        let (s, e) = reached f in
        let polled = record self { state = connecting (connection.poll f).1 } in
        (_, ap (λ p. after_connection maker connection svc p polled) e)
    turn_in_again (connected inner) self =
        let (x, e) = broken inner in
        let polled = record self { state = connected (svc.poll_ready inner).1 } in
        (_, ap (λ p. after_service maker connection svc p polled) e)

    -- Where connections are always made at once, and every service that is connected fails its
    -- first `poll_ready`, the loop of `poll_ready` does not end in any number of turns.
    pub poll_ready_spins :
        (fuel : ℕ) (self : Reconnect M F S Target)
        → poll_ready maker connection svc fuel self ≡ unfinished
    unfolding poll_ready turn loop
    poll_ready_spins zero self = refl
    poll_ready_spins (suc fuel) self =
        let (self', e) = turn_in_again self.state self in
        loop_again fuel (turn maker connection svc) self self' e ∙ poll_ready_spins fuel self'
