-- ===== src/RateLimit/Calls.antt =====
-- How many requests tower-rate-limit/src/lib.rs lets through.
use pants_tower.Base.{
  ℕ, ◌+◌, ◌-◌, ◌≤◌, ◌≡◌, refl, sym, ap, ◌∙◌, none, some, List, [], ◌∷◌, length, arith,
}
use Prim.Native.Nat.{min, max}
use pants_tower.Service.{Poll, ready, not_ready, err, Future, Service}
use pants_tower.RateLimit.{
  Error, State, limited, open_until, RateLimit, ResponseFuture, call, call_in, poll_ready, poll_in,
  after_sleep,
}

abbrev pub sent {ℓ} : {F : Type ℓ} → ResponseFuture F → ℕ
sent f = elim f.inner [ none ↦ 0 | some x ↦ 1 ]

-- What is left to send: the count, but a last request goes out where it is less than one.
abbrev pub left {ℓ} : {Z : Type ℓ} → State Z → ℕ
left (limited z) = 0
left (open_until until rem) = max 1 rem

module _ {ℓ} {S Z Req F E : Type ℓ} (sleep : ℕ → Z) (svc : Service S Req F E) where
  -- Requests at the given times, with no `poll_ready` between them: how many are sent.
  pub calls : List (ℕ × Req) → RateLimit S Z → ℕ × RateLimit S Z
  calls [] self = (0, self)
  calls ((now, request) ∷ rs) self =
      let (f, self') = call sleep svc now self request in
      let (n, self'') = calls rs self' in (sent f + n, self'')

  call_in-left :
      (s : State Z) (now : ℕ) (self : RateLimit S Z) (request : Req)
      → s ≡ self.state
      → let (f, self') = call_in sleep svc s now self request in
        (sent f ≡ min 1 (left s)) × (left self'.state ≡ left s - 1)
  unfolding call_in
  call_in-left (limited z) now self request e = (refl, ap left (sym e))
  call_in-left (open_until until rem) now self request e = ground arith

  -- With no `poll_ready` in between, exactly as many requests are sent as are left in the state,
  -- at whatever times they come, also when a new period has begun; the rest are refused. A count
  -- of zero still lets one request through.
  pub calls-left :
      (rs : List (ℕ × Req)) (self : RateLimit S Z)
      → let (n, self') = calls rs self in
        (n ≡ min (length rs) (left self.state)) × (left self'.state ≡ left self.state - length rs)
  unfolding calls call
  calls-left [] self = omega arith
  calls-left ((now, request) ∷ rs) self = omega (
    arith,
    call_in-left self.state now self request refl,
    calls-left rs (call sleep svc now self request).1,
  )

-- `poll_ready` says ready where a request is left, and else not.
abbrev Ready {ℓ} : {S Z E : Type ℓ} → Poll (Unit {ℓ}) (Error E) → RateLimit S Z → Type 0
Ready (ready u) self = 1 ≤ left self.state
Ready not_ready self = left self.state ≡ 0
Ready (err e) self = left self.state ≡ 0

module _ {ℓ} {S Z X : Type ℓ} (E : Type ℓ) (timer : Future Z (Unit {ℓ}) X) where
  after_sleep-Ready :
      (now : ℕ) (p : Poll (Unit {ℓ}) X) (self : RateLimit S Z) (z : Z)
      → let (q, self') = after_sleep {E = E} timer now p self z in Ready q self'
  unfolding after_sleep
  after_sleep-Ready now (ready u) self z = omega arith
  after_sleep-Ready now not_ready self z = omega arith
  after_sleep-Ready now (err e) self z = omega arith

  poll_in-Ready :
      (s : State Z) (now : ℕ) (self : RateLimit S Z)
      → s ≡ self.state
      → let (q, self') = poll_in {E = E} timer s now self in Ready q self'
  unfolding poll_in
  poll_in-Ready (limited z) now self e =
      after_sleep-Ready now (timer.poll z).0 self (timer.poll z).1
  poll_in-Ready (open_until until rem) now self e = omega (arith, ap left e)

  poll_ready-Ready :
      (now : ℕ) (self : RateLimit S Z)
      → let (q, self') = poll_ready {E = E} timer now self in Ready q self'
  unfolding poll_ready
  poll_ready-Ready now self = poll_in-Ready self.state now self refl

module _ {ℓ} {S Z E X Req F : Type ℓ} (timer : Future Z (Unit {ℓ}) X) (sleep : ℕ → Z)
    (svc : Service S Req F E) where
  -- The request that follows a `poll_ready` is sent to the inner service exactly where that
  -- answered that it is ready, at any later time.
  sent-call :
      (now later : ℕ) (self : RateLimit S Z) (request : Req)
      → let (p, self') = poll_ready {E = E} timer now self in
        sent (call sleep svc later self' request).0 ≡ (elim p [ ready u ↦ 1 | _ ↦ 0 ])
  unfolding call
  sent-call now later self request =
      let (p, self') = poll_ready {E = E} timer now self in
      go p self' (poll_ready-Ready E timer now self)
    where
      go :
          (p : Poll (Unit {ℓ}) (Error E)) (self' : RateLimit S Z)
          → Ready p self'
          → sent (call sleep svc later self' request).0 ≡ (elim p [ ready u ↦ 1 | _ ↦ 0 ])
      go (ready u) self' h =
          omega (arith, (call_in-left sleep svc self'.state later self' request refl).0)
      go not_ready self' h =
          omega (arith, (call_in-left sleep svc self'.state later self' request refl).0)
      go (err e) self' h =
          omega (arith, (call_in-left sleep svc self'.state later self' request refl).0)

-- A sleep that fires brings the full count back.
poll_ready_refill {ℓ} :
    {S Z E X : Type ℓ} (timer : Future Z (Unit {ℓ}) X) (now : ℕ) (self : RateLimit S Z) (z z' : Z)
    → self.state ≡ limited z
    → timer.poll z ≡ (ready tt, z')
    → poll_ready {E = E} timer now self
      ≡ (ready tt, record self { state = open_until (now + self.rate.per) self.rate.num })
unfolding poll_ready poll_in after_sleep
poll_ready_refill timer now self z z' e f =
    ap (λ s. poll_in timer s now self) e ∙ ap (λ x. after_sleep timer now x.0 self x.1) f
