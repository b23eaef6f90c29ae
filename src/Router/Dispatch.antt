-- ===== src/Router/Dispatch.antt =====
-- A request of tower-router/src/lib.rs on its way to the service of its route.
use pants_tower.Base.{◌≡◌, refl, sym, ap, subst, ◌∙◌, false}
use pants_tower.Service.{ready, map_err, success, Service, Future}
use pants_tower.Loop.{again, Answer, answers, loop, loop_again, loop_stop}
use pants_tower.Router.{
  Borrow, Recognize, Error, inner, dispatched, queued, ResponseFuture, call, after_recognize,
  after_borrow, dispatch, after_ready, turn_in, turn, poll,
}

module _ {B G T Req R S F A E RE : Type 0} (cells : Borrow B G T) (routes : Recognize T Req R S RE)
    (svc : Service S Req F E) (fut : Future F A E) where
  -- The service `s` of a route has been called with the request and is in place again, the response
  -- future has polled its future, and the router is free.
  pub Served : R → S → Req → Answer (ResponseFuture Req R G F RE × B) A (Error E RE) → Type 0
  Served r s request o =
      let (f, s') = svc.call s request in
      (b : B) × (o
        ≡ answers (map_err inner (fut.poll f).0) (record { state = dispatched (fut.poll f).1 }, b))
      × (cells.borrowed b ≡ false)
      × (routes.service r (cells.read b) ≡ s')

  queued_future : G → R → Req → ResponseFuture Req R G F RE
  queued_future g r request = record { state = queued g r request }

  turn_queued :
      (g : G) (r : R) (request : Req) (b : B)
      → let (p, s) = svc.poll_ready (routes.service r (cells.read b)) in
        p ≡ ready tt
        → turn cells routes svc fut (queued_future g r request, b)
          ≡ again (
              dispatch cells routes svc fut g r request
                (queued_future g r request, cells.write (routes.put r s (cells.read b)) b))
  unfolding turn turn_in after_ready queued_future
  turn_queued g r request b e =
      let s = (svc.poll_ready (routes.service r (cells.read b))).1 in
      ap
        (λ p.
          after_ready cells routes svc fut g r request p
            (queued_future g r request, cells.write (routes.put r s (cells.read b)) b))
        e

  -- From the dispatch on.
  dispatch-Served :
      (g : G) (r : R) (request : Req) (self : ResponseFuture Req R G F RE) (b : B)
      → Served r
          (routes.service r (cells.read b))
          request
          (loop 1 (turn cells routes svc fut) (dispatch cells routes svc fut g r request (self, b)))
  unfolding Served dispatch turn turn_in
  dispatch-Served g r request self b =
      let t = cells.read b in
      let s = (svc.call (routes.service r t) request).1 in
      let b' = cells.write (routes.put r s t) b in
      (
        cells.release g b',
        loop_stop 0 (turn cells routes svc fut) _ _ _ refl,
        cells.borrowed-release g b',
        ap (routes.service r) (cells.read-release g b' ∙ cells.read-write (routes.put r s t) b)
            ∙ routes.service-put r s t,
      )

  poll-Served :
      (g : G) (r : R) (request : Req) (b : B)
      → let (p, s) = svc.poll_ready (routes.service r (cells.read b)) in
        p ≡ ready tt → Served r s request (poll cells routes svc fut (queued_future g r request, b))
  unfolding poll
  poll-Served g r request b e =
      let s = (svc.poll_ready (routes.service r (cells.read b))).1 in
      let t = routes.put r s (cells.read b) in
      let h = queued_future g r request in
      subst (Served r s request)
        (sym (loop_again 1 (turn cells routes svc fut) (h, b) _ (turn_queued g r request b e)))
        (subst
          (λ s'. Served r s' request (
            loop 1 (turn cells routes svc fut)
              (dispatch cells routes svc fut g r request (h, cells.write t b))))
          (ap (routes.service r) (cells.read-write t b) ∙ routes.service-put r s (cells.read b))
          (dispatch-Served g r request h (cells.write t b)))

  call_recognized :
      (b : B) (request : Req) (r : R)
      → cells.borrowed b ≡ false
      → let b' = (cells.try_borrow b).1 in
        let (recognized, t) = routes.recognize (cells.read b') request in
        recognized ≡ success r
        → (g : G) × (call cells routes b request ≡ (queued_future g r request, cells.write t b'))
  unfolding call after_borrow after_recognize queued_future
  call_recognized b request r e q =
      let (g, o) = cells.try_borrow_free b e in
      let b' = (cells.try_borrow b).1 in
      let t = (routes.recognize (cells.read b') request).1 in
      (
        g,
        ap (λ o. after_borrow cells routes o request b') o
            ∙ ap (λ r. after_recognize cells routes g request r (cells.write t b')) q,
      )

  -- For a router that is free, a request that is recognized, and a service of its route that is
  -- ready, the first poll of the response future of `call` calls that service once with the
  -- request and polls its future. The service is in its place with its new state, and the router
  -- is free again.
  pub poll-call :
      (b : B) (request : Req) (r : R)
      → cells.borrowed b ≡ false
      → let b' = (cells.try_borrow b).1 in
        let (recognized, t) = routes.recognize (cells.read b') request in
        recognized ≡ success r
        → let (p, s) = svc.poll_ready (routes.service r t) in
          p ≡ ready tt
          → Served r s request (poll cells routes svc fut (call cells routes b request))
  poll-call b request r e q p =
      let b' = (cells.try_borrow b).1 in
      let t = (routes.recognize (cells.read b') request).1 in
      let (g, c) = call_recognized b request r e q in
      subst
        (λ h.
          Served r (svc.poll_ready (routes.service r t)).1 request (poll cells routes svc fut h))
        (sym c) (go t (cells.write t b') (cells.read-write t b') g p)
    where
      go :
          (t : T) (b : B)
          → cells.read b ≡ t
          → (g : G) → (svc.poll_ready (routes.service r t)).0 ≡ ready tt
          → Served r
              (svc.poll_ready (routes.service r t)).1
              request
              (poll cells routes svc fut (queued_future g r request, b))
      go t b e g =
          subst
            (λ t.
              (svc.poll_ready (routes.service r t)).0 ≡ ready tt
              → Served r (svc.poll_ready (routes.service r t)).1 request
                  (poll cells routes svc fut (queued_future g r request, b)))
            e (poll-Served g r request b)
