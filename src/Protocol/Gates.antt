-- ===== src/Protocol/Gates.antt =====
-- The middleware that hold requests back: tower-in-flight-limit/src/lib.rs, which asks the service
-- that it wraps before it is ready, and tower-rate-limit/src/lib.rs.
use pants_tower.Base.{
  ℕ, ◌≡◌, refl, Bool, true, false, not, ap, ◌∙◌, ◌||◌, arith, Bool-cases, inl, inr,
}
use pants_tower.Service.{Poll, ready, Service, Future}
use pants_tower.Protocol.{After, Keeps, FedKeeps, Fed, After-map, watched, Watched}
use pants_tower.Protocol.Wrappers.{is_ready-map_err}
use pants_tower.InFlight
use pants_tower.InFlight.{AtomicTask, Shared, InFlightLimit, reserve}
use pants_tower.RateLimit
use pants_tower.RateLimit.{RateLimit, open_until}

module _ {S T Req F E : Type 0} (tasks : AtomicTask T) (svc : Service S Req F E) where
  -- The cell may be anything at each operation: it belongs to every clone.
  abbrev pub in_flight :
      Fed (Shared T) (InFlightLimit S) Req (InFlight.ResponseFuture F) (InFlight.Error E)
  in_flight = record {
    poll_ready =
        λ sh w. ((InFlight.poll_ready tasks svc w sh).0, (InFlight.poll_ready tasks svc w sh).1);
    call = λ sh w req. ((InFlight.call tasks svc w sh req).0, (InFlight.call tasks svc w sh req).1);
  }

module _ {S T Req F E : Type 0} (tasks : AtomicTask T) (svc : Service S Req F E)
    (Idle Armed : S → Type 0) (keeps : Keeps svc Idle Armed) where
  abbrev AfterIn : Poll (Unit {0}) (InFlight.Error E) → InFlightLimit S → Type 0
  AfterIn = After (λ w. Idle w.inner) (λ w. Armed w.inner)

  poll_inner_asked :
      (w : InFlightLimit S)
      → Idle w.inner
      → AfterIn (InFlight.poll_inner tasks svc w).0 (InFlight.poll_inner tasks svc w).1
  unfolding InFlight.poll_inner
  poll_inner_asked w h =
      After-map Idle Armed (λ w. Idle w.inner) (λ w. Armed w.inner) (svc.poll_ready w.inner).0 _
        (svc.poll_ready w.inner).1 _ (is_ready-map_err InFlight.upstream _) (λ h. h) (λ h. h)
        (keeps.asked w.inner h)

  in_flight_asked :
      (sh : Shared T) (reserved : Bool) (inner : S)
      → Idle inner
      → let (p, w', sh') =
          InFlight.poll_ready tasks svc (record { inner = inner; reserved = reserved }) sh in
        AfterIn p w'
  unfolding InFlight.poll_ready
  in_flight_asked sh true inner h = poll_inner_asked (record { inner = inner; reserved = true }) h
  in_flight_asked sh false inner h =
      elim (Bool-cases (reserve (record sh { task = tasks.register sh.task })).0) [
        | inl r ↦ rw r (poll_inner_asked (record { inner = inner; reserved = true }) h)
        | inr r ↦ rw r h
      ]

  in_flight_called :
      (sh : Shared T) (w : InFlightLimit S) (req : Req)
      → Armed w.inner
      → Idle (InFlight.call tasks svc w sh req).1.inner
  unfolding InFlight.call InFlight.dispatch
  in_flight_called sh w req h = elim (Bool-cases w.reserved) [
    | inl e ↦ rw (e, InFlight.call) (keeps.called w.inner req h)
    | inr e ↦ elim (Bool-cases (reserve sh).0) [
      | inl r ↦ rw (e, InFlight.call) (rw r (keeps.called w.inner req h))
      | inr r ↦ rw (e, InFlight.call) (rw r (keeps.relax w.inner h))
    ]
  ]

  pub in_flight-FedKeeps : FedKeeps (in_flight tasks svc) (λ w. Idle w.inner) (λ w. Armed w.inner)
  in_flight-FedKeeps = record {
    relax = λ w h. keeps.relax w.inner h;
    asked = λ sh w h. in_flight_asked sh w.reserved w.inner h;
    called = in_flight_called;
  }

module _ {S Z Req F E X : Type 0} (timer : Future Z (Unit {0}) X) (sleep : ℕ → Z)
    (svc : Service S Req F E) where
  inner-advance :
      (now until rem : ℕ) (w : RateLimit (Watched S) Z)
      → (RateLimit.advance sleep (watched svc) now until rem w).inner ≡ w.inner
  unfolding RateLimit.advance
  inner-advance now until rem w = ground arith

  -- The rate limit answers by its own state only: until its count is used up it tells that it is
  -- ready, and where its service was not asked, the call that follows goes to that service all the
  -- same, before it has told that it is ready.
  pub rate_limit_breaks :
      (inner : Watched S) (rate : RateLimit.Rate) (until rem now now' : ℕ) (req : Req)
      → inner.armed ≡ false
      → let w : RateLimit (Watched S) Z = record {
        inner = inner;
        rate = rate;
        state = open_until until rem;
      } in
        let (p, w') = RateLimit.poll_ready {E = E} timer now w in
        (p ≡ ready tt) × ((RateLimit.call sleep (watched svc) now' w' req).1.inner.broken ≡ true)
  unfolding RateLimit.poll_ready RateLimit.poll_in RateLimit.call RateLimit.call_in
      RateLimit.dispatch
  rate_limit_breaks inner rate until rem now now' req a =
      let w : RateLimit (Watched S) Z = record {
        inner = inner;
        rate = rate;
        state = open_until until rem;
      } in
      (
        refl,
        ap (λ x. x.broken || not x.armed) (inner-advance now' until rem w)
            ∙ ap (λ b. inner.broken || not b) a
            ∙ or_true inner.broken,
      )
    where
      or_true : (b : Bool) → b || true ≡ true
      or_true true = refl
      or_true false = refl
