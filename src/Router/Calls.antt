-- ===== src/Router/Calls.antt =====
-- tower-router/src/lib.rs as a caller of the services behind its routes.
use pants_tower.Base.{ℕ, ◌<◌, ◌≡◌, refl, sym, ap, ◌∙◌, subst, arith}
use pants_tower.Service.{Poll, ready, not_ready, err, map_err, Service, Future}
use pants_tower.Loop.{Turn, Ends, Keeps, loop-Ends}
use pants_tower.Protocol
use pants_tower.Protocol.{After, Watched, watched, watched-Keeps, Unbroken, Ready}
use pants_tower.Router.{
  Borrow, Recognize, Error, inner, ResponseState, dispatched, route_error, queued, refused, invalid,
  ResponseFuture, Held, dispatch, after_ready, turn_in, turn, poll,
}

-- `Sound` says of a recognizer that `P` holds of every service in it.
pub record Guards {T Req R S RE : Type 0} (routes : Recognize T Req R S RE) (P : S → Type 0)
    (Sound : T → Type 0) : Type 0 where
  pub inside : (r : R) (t : T) → Sound t → P (routes.service r t)
  pub put_back : (r : R) (s : S) (t : T) → Sound t → P s → Sound (routes.put r s t)

-- A response that can be polled, and how many turns it has before it.
abbrev pub IsValid : {Req R G F RE : Type 0} → ResponseState Req R G F RE → Type 0
IsValid (dispatched f) = Unit {0}
IsValid (route_error e) = Unit {0}
IsValid (queued g r req) = Unit {0}
IsValid refused = Unit {0}
IsValid invalid = ⊥

abbrev turns_left : {Req R G F RE : Type 0} → ResponseState Req R G F RE → ℕ
turns_left (dispatched f) = 0
turns_left (route_error e) = 0
turns_left (queued g r req) = 1
turns_left refused = 0
turns_left invalid = 0

module _ {B G T Req R S F A E RE : Type 0} (cells : Borrow B G T) (routes : Recognize T Req R S RE)
    (svc : Service S Req F E) (fut : Future F A E) (Idle Armed : S → Type 0)
    (keeps : Protocol.Keeps svc Idle Armed) (Sound : T → Type 0)
    (guards : Guards routes Idle Sound) where
  abbrev Response : Type 0
  Response = Held cells routes svc fut

  -- After an answer that it is not ready, the response can be polled again.
  abbrev pub Leaves : Poll A (Error E RE) → Response → Type 0
  Leaves (ready a) h = Sound (cells.read h.1)
  Leaves not_ready h = Sound (cells.read h.1) × IsValid h.0.state
  Leaves (err e) h = Sound (cells.read h.1)

  abbrev Turned : ℕ → Turn Response A (Error E RE) → Type 0
  Turned n =
      Keeps (λ h. (Sound (cells.read h.1) × IsValid h.0.state) × (turns_left h.0.state < n)) Leaves

  written :
      (r : R) (s : S) (b : B)
      → Sound (cells.read b)
      → Idle s
      → Sound (cells.read (cells.write (routes.put r s (cells.read b)) b))
  written r s b h i =
      subst Sound (sym (cells.read-write _ b)) (guards.put_back r s (cells.read b) h i)

  after_ready-Turned :
      (g : G) (r : R) (req : Req) (p : Poll (Unit {0}) E) (s : S) (b : B)
      (self : ResponseFuture Req R G F RE)
      → Sound (cells.read b)
      → After Idle Armed p s
      → self.state ≡ queued g r req
      → Turned 1 (
          after_ready cells routes svc fut g r req p
            (self, cells.write (routes.put r s (cells.read b)) b))
  unfolding after_ready dispatch
  after_ready-Turned g r req (ready u) s b self h a e =
      let t1 = routes.put r s (cells.read b) in
      let b1 = cells.write t1 b in
      let same : routes.service r (cells.read b1) ≡ s =
        ap (routes.service r) (cells.read-write t1 b) ∙ routes.service-put r s (cells.read b) in
      let i = keeps.called (routes.service r (cells.read b1)) req (subst Armed (sym same) a) in
      (
        (
          subst Sound (sym (cells.read-release g _))
              (written r _ b1 (written r s b h (keeps.relax s a)) i),
          tt,
        ),
        omega arith,
      )
  after_ready-Turned g r req not_ready s b self h a e = rw e (written r s b h a, tt)
  after_ready-Turned g r req (err x) s b self h a e = written r s b h a

  map_err-Leaves :
      (p : Poll A E) (self : ResponseFuture Req R G F RE) (b : B)
      → IsValid self.state
      → Sound (cells.read b)
      → Leaves (map_err inner p) (self, b)
  map_err-Leaves (ready a) self b v h = h
  map_err-Leaves not_ready self b v h = (h, v)
  map_err-Leaves (err e) self b v h = h

  turn_in-Turned :
      (st : ResponseState Req R G F RE) (self : ResponseFuture Req R G F RE) (b : B)
      → self.state ≡ st
      → IsValid st
      → Sound (cells.read b)
      → Turned (turns_left st) (turn_in cells routes svc fut st (self, b))
  unfolding turn_in
  turn_in-Turned (dispatched f) self b e v h =
      map_err-Leaves (fut.poll f).0 (record { state = dispatched (fut.poll f).1 }) b tt h
  turn_in-Turned (route_error x) self b e v h = h
  turn_in-Turned (queued g r req) self b e v h =
      let s = routes.service r (cells.read b) in
      after_ready-Turned g r req (svc.poll_ready s).0 (svc.poll_ready s).1 b self h
        (keeps.asked s (guards.inside r (cells.read b) h)) e
  turn_in-Turned refused self b e v h = h
  turn_in-Turned invalid self b e v h = absurd v

  poll-Leaves :
      (self : ResponseFuture Req R G F RE) (b : B)
      → IsValid self.state
      → Sound (cells.read b)
      → Ends Leaves (poll cells routes svc fut (self, b))
  unfolding poll turn
  poll-Leaves self b v h =
      loop-Ends (λ x. Sound (cells.read x.1) × IsValid x.0.state) (λ x. turns_left x.0.state) Leaves
        (turn cells routes svc fut) (λ x i. turn_in-Turned x.0.state x.0 x.1 refl i.1 i.0) 2
        (self, b) (h, v) (turns_left-lt self.state)
    where
      turns_left-lt : (st : ResponseState Req R G F RE) → turns_left st < 2
      turns_left-lt (dispatched f) = omega arith
      turns_left-lt (route_error e) = omega arith
      turns_left-lt (queued g r req) = omega arith
      turns_left-lt refused = omega arith
      turns_left-lt invalid = omega arith

module _ {B G T Req R S F A E RE : Type 0} (cells : Borrow B G T)
    (routes : Recognize T Req R (Watched S) RE) (svc : Service S Req F E) (fut : Future F A E)
    (Sound : T → Type 0) (guards : Guards routes Unbroken Sound) where
  abbrev pub Clean : Poll A (Error E RE) → Held cells routes (watched svc) fut → Type 0
  Clean = Leaves cells routes (watched svc) fut Unbroken Ready (watched-Keeps svc) Sound guards

  -- Where no service of the router was called too early, a poll of a response that has not ended
  -- does so within two turns, does not panic, and calls the service of its route only after that
  -- has told it to be ready. Where it answers that it is not ready, it can be polled again.
  pub poll-Clean :
      (self : ResponseFuture Req R G F RE) (b : B)
      → IsValid self.state
      → Sound (cells.read b)
      → Ends Clean (poll cells routes (watched svc) fut (self, b))
  poll-Clean =
      poll-Leaves cells routes (watched svc) fut Unbroken Ready (watched-Keeps svc) Sound guards
