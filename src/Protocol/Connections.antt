-- ===== src/Protocol/Connections.antt =====
-- tower-reconnect/src/lib.rs, which calls two services: the one that makes connections and the one
-- that is connected.
use pants_tower.Base.{ℕ, ◌≡◌, refl}
use pants_tower.Service.{Poll, ready, not_ready, err, Future, Service}
use pants_tower.Loop.{Turn, Meets, Allows, Allowed, loop-Allowed, Meets-Allowed, Meets-mono}
use pants_tower.Reconnect
use pants_tower.Reconnect.{Reconnect, State, idle, connecting, connected, Error}
use pants_tower.Reconnect.Turns.{Leaves, poll_ready-Meets}
use pants_tower.Protocol.{After, Keeps, Watched, watched, watched-Keeps, Unbroken, Ready}

-- What holds of the service that is connected, if one is.
abbrev pub WhenConnected : {F S : Type 0} → (S → Type 0) → State F S → Type 0
WhenConnected P idle = Unit {0}
WhenConnected P (connecting f) = Unit {0}
WhenConnected P (connected s) = P s

module _ {M F S Target Req R E U : Type 0} (maker : Service M Target F U)
    (connection : Future F S U) (svc : Service S Req R E) (IdleM ArmedM : M → Type 0)
    (keeps_maker : Keeps maker IdleM ArmedM) (Idle Armed : S → Type 0)
    (keeps : Keeps svc Idle Armed)
    (yields : (f : F) (s : S) → (connection.poll f).0 ≡ ready s → Idle s) where
  abbrev Whole : Type 0
  Whole = Reconnect M F S Target

  abbrev pub Rests : Whole → Type 0
  Rests self = IdleM self.mk_service × WhenConnected Idle self.state

  abbrev pub Arms : Whole → Type 0
  Arms self = IdleM self.mk_service × WhenConnected Armed self.state

  abbrev pub Answers : Poll (Unit {0}) (Error E U) → Whole → Type 0
  Answers = After Rests Arms

  abbrev Turned : Turn Whole (Unit {0}) (Error E U) → Type 0
  Turned = Allows Rests Answers

  after_maker-Turned :
      (p : Poll (Unit {0}) U) (self : Whole)
      → After IdleM ArmedM p self.mk_service
      → self.state ≡ idle
      → Turned (Reconnect.after_maker maker connection svc p self)
  unfolding Reconnect.after_maker
  after_maker-Turned (ready u) self h e = (keeps_maker.called self.mk_service self.target h, tt)
  after_maker-Turned not_ready self h e = rw e (h, tt)
  after_maker-Turned (err x) self h e = rw e (h, tt)

  after_connection-Turned :
      (p : Poll S U) (self : Whole) (f : F)
      → IdleM self.mk_service
      → ((s : S) → p ≡ ready s → Idle s)
      → self.state ≡ connecting f
      → Turned (Reconnect.after_connection maker connection svc p self)
  unfolding Reconnect.after_connection
  after_connection-Turned (ready s) self f h y e = (h, y s refl)
  after_connection-Turned not_ready self f h y e = rw e (h, tt)
  after_connection-Turned (err x) self f h y e = (h, tt)

  after_service-Turned :
      (p : Poll (Unit {0}) E) (self : Whole) (s : S)
      → IdleM self.mk_service
      → After Idle Armed p s
      → self.state ≡ connected s
      → Turned (Reconnect.after_service maker connection svc p self)
  unfolding Reconnect.after_service
  after_service-Turned (ready u) self s h k e = rw e (h, k)
  after_service-Turned not_ready self s h k e = rw e (h, k)
  after_service-Turned (err x) self s h k e = (h, tt)

  turn_in-Turned :
      (st : State F S) (self : Whole)
      → self.state ≡ st
      → IdleM self.mk_service
      → WhenConnected Idle st
      → Turned (Reconnect.turn_in maker connection svc st self)
  unfolding Reconnect.turn_in
  turn_in-Turned idle self e h k =
      after_maker-Turned (maker.poll_ready self.mk_service).0 _
        (keeps_maker.asked self.mk_service h) e
  turn_in-Turned (connecting f) self e h k =
      after_connection-Turned (connection.poll f).0 _ (connection.poll f).1 h (yields f) refl
  turn_in-Turned (connected s) self e h k =
      after_service-Turned (svc.poll_ready s).0 _ (svc.poll_ready s).1 h (keeps.asked s k) refl

  pub poll_ready-Allowed :
      (fuel : ℕ) (self : Whole)
      → Rests self
      → Allowed Answers (Reconnect.poll_ready maker connection svc fuel self)
  unfolding Reconnect.poll_ready Reconnect.turn
  poll_ready-Allowed fuel self h =
      loop-Allowed Rests Answers (Reconnect.turn maker connection svc)
        (λ s h. turn_in-Turned s.state s refl h.0 h.1) fuel self h

  call_in-Rests :
      (st : State F S) (self : Whole) (req : Req)
      → self.state ≡ st
      → IdleM self.mk_service
      → WhenConnected Armed st
      → Rests (Reconnect.call_in svc st self req).1
  unfolding Reconnect.call_in
  call_in-Rests idle self req e h k = rw e (h, tt)
  call_in-Rests (connecting f) self req e h k = rw e (h, tt)
  call_in-Rests (connected s) self req e h k = (h, keeps.called s req k)

  pub call-Rests : (self : Whole) (req : Req) → Arms self → Rests (Reconnect.call svc self req).1
  unfolding Reconnect.call
  call-Rests self req h = call_in-Rests self.state self req refl h.0 h.1

-- Neither service was called too early; the one that is connected is ready.
abbrev pub Clean : {M F S Target : Type 0} → Reconnect (Watched M) F (Watched S) Target → Type 0
Clean self = Unbroken self.mk_service × WhenConnected Unbroken self.state

abbrev pub Waiting : {M F S Target : Type 0} → Reconnect (Watched M) F (Watched S) Target → Type 0
Waiting self = Unbroken self.mk_service × WhenConnected Ready self.state

module _ {M F S Target Req R E U : Type 0} (maker : Service M Target F U)
    (connection : Future F (Watched S) U) (svc : Service S Req R E) where
  -- Where connections yield services that were not called too early, `poll_ready`, through however
  -- many reconnections, does not panic and calls the service that makes connections only after it
  -- has told to be ready. Where it answers that it is ready, there is a connected service, which
  -- has told to be ready, so that the call that follows goes to a service that is. Where it fails,
  -- that is by an error of the connection, never of the service, and the state is idle. In every
  -- case, neither service was called too early.
  pub poll_ready-Clean :
      ((f : F) (s : Watched S) → (connection.poll f).0 ≡ ready s → Unbroken s)
      → (fuel : ℕ) (self : Reconnect (Watched M) F (Watched S) Target) → Clean self
      → Meets
          (λ p self'.
            Leaves p self'.state
            × After Clean Waiting p self'
            × ((req : Req) → p ≡ ready tt → Clean (Reconnect.call (watched svc) self' req).1))
          (Reconnect.poll_ready (watched maker) connection (watched svc) fuel self)
  poll_ready-Clean yields fuel self h =
      let Both : Poll (Unit {0}) (Error E U) → Reconnect (Watched M) F (Watched S) Target → Type 0 =
        λ p self'. Leaves p self'.state × After Clean Waiting p self' in
      Meets-mono Both _ _ (λ p self' x. (x.0, x.1, λ req e. call_clean p self' req e x.1))
        (Meets-Allowed (λ p s. Leaves p s.state) (After Clean Waiting) _
          (poll_ready-Meets (watched maker) connection (watched svc) fuel self)
          (poll_ready-Allowed (watched maker) connection (watched svc) Unbroken Ready
            (watched-Keeps maker) Unbroken Ready (watched-Keeps svc) yields fuel self h))
    where
      call_clean :
          (p : Poll (Unit {0}) (Error E U)) (self' : Reconnect (Watched M) F (Watched S) Target)
          (req : Req)
          → p ≡ ready tt
          → After Clean Waiting p self'
          → Clean (Reconnect.call (watched svc) self' req).1
      call_clean (ready u) self' req e k =
          call-Rests (watched maker) connection (watched svc) Unbroken Ready (watched-Keeps maker)
            Unbroken Ready (watched-Keeps svc) yields self' req k
      call_clean not_ready self' req e k = absurd (cc)
      call_clean (err x) self' req e k = absurd (cc)
