-- ===== src/Buffer/Delivery.antt =====
-- From a handle of tower-buffer/src/lib.rs to the worker, and back to the response future.
use pants_tower.Base.{
  ◌≡◌, refl, sym, ap, ◌∙◌, Bool, true, false, List, [], ◌∷◌, ◌++◌, map, Option, none, some, arith,
}
use mathlib.Core.List.{append_assoc, map-append}
use pants_tower.Service.{map_err, success, Future, DirectService}
use pants_tower.Machine.{returns}
use pants_tower.Loop.{answers}
use pants_tower.Channels.{Mpsc, Oneshot}
use pants_tower.Buffer.{inner, Message, Shared}
use pants_tower.Buffer.Client.{Buffer, waits, polls, call, poll}
use pants_tower.Buffer.Worker.{Worker, continues, dispatch}
use pants_tower.Buffer.Worker.Queue.{live, optional}
use pants_tower.Buffer.Worker.Order.{Recorder, Kept}

module _ {S Req F A E H T Q O : Type 0} (svc : DirectService S Req F E)
    (mpsc : Mpsc T Q (Message Req H)) (oneshot : Oneshot H F O) (fut : Future F A E) where
  poll_received :
      (h : H) (f : F) (o : O)
      → oneshot.delivered h o ≡ some f
      → poll oneshot fut (record { state = waits h }, o)
        ≡ answers
            (map_err inner (fut.poll f).0)
            (record { state = polls (fut.poll f).1 }, (oneshot.poll h o).1)
  unfolding poll
  poll_received h f o e = ground (arith, oneshot.poll_delivered h f o e)

  -- Where somebody waits for the message that the worker dispatches, the service is called once
  -- with its request, and the next poll of the response future of that message is a poll of the
  -- future that the service gave.
  pub poll-dispatch :
      (m : Message Req H) (w : Worker S Req H Q O)
      → oneshot.canceled m.tx w.shared.oneshots ≡ false
      → (w' : Worker S Req H Q O) × (dispatch svc mpsc oneshot m w ≡ returns (continues true) w')
        × (let (f, s) = svc.call w.service m.request in
            (w'.service ≡ s)
            × (poll oneshot fut (record { state = waits m.tx }, w'.shared.oneshots)
                ≡ answers (map_err inner (fut.poll f).0) (
                  record { state = polls (fut.poll f).1 },
                  (oneshot.poll m.tx w'.shared.oneshots).1,
                )))
  unfolding dispatch
  poll-dispatch m w e =
      let f = (svc.call w.service m.request).0 in
      let o = (oneshot.send m.tx f w.shared.oneshots).1 in
      (_, refl, (refl, poll_received m.tx f o (oneshot.delivered-send m.tx f w.shared.oneshots e)))

module _ {H Req : Type 0} (dropped : H → Bool) where
  live-append :
      (ms ns : List (Message Req H)) → live dropped (ms ++ ns) ≡ live dropped ms ++ live dropped ns
  live-append [] ns = refl
  live-append (m ∷ ms) ns = ground (arith, live-append ms ns)

optional-append :
    {A : Type 0} (o : Option A) (xs ys : List A) → optional o (xs ++ ys) ≡ optional o xs ++ ys
optional-append none xs ys = refl
optional-append (some x) xs ys = refl

module _ {S Req F E H T Q O : Type 0} (svc : DirectService S Req F E)
    (mpsc : Mpsc T Q (Message Req H)) (oneshot : Oneshot H F O) (dropped : H → Bool)
    (all : List Req) where
  call_accepted :
      (self : Buffer T) (shared : Shared Q O) (request : Req)
      → let (h, o) = oneshot.channel shared.oneshots in
        let m : Message Req H = record { request = request; tx = h } in
        (mpsc.try_send self.tx m shared.queue).0 ≡ success tt
        → let (f, self', shared') = call mpsc oneshot self shared request in
          (f.state ≡ waits h)
          × (shared'.is_open ≡ shared.is_open)
          × (shared'.oneshots ≡ o)
          × (mpsc.contents shared'.queue ≡ mpsc.contents shared.queue ++ m ∷ [])
  unfolding call
  call_accepted self shared request e =
      let (h, o) = oneshot.channel shared.oneshots in
      let m : Message Req H = record { request = request; tx = h } in
      ground (arith, e, mpsc.contents-try_send self.tx m shared.queue e)

  live_queued :
      (o : Option (Message Req H)) (ms : List (Message Req H)) (m : Message Req H)
      → dropped m.tx ≡ false
      → live dropped (optional o (ms ++ m ∷ [])) ≡ live dropped (optional o ms) ++ m ∷ []
  live_queued o ms m d =
      ap (live dropped) (optional-append o ms (m ∷ []))
      ∙ live-append dropped (optional o ms) (m ∷ [])
      ∙ ground (arith, d)

  -- For a worker that is not shutting down and keeps all requests in their order, a `call` whose
  -- message the queue takes adds its request to them, as the last one.
  pub Kept-call :
      (self : Buffer T) (w : Recorder svc mpsc oneshot dropped all) (request : Req)
      → Kept svc mpsc oneshot dropped all w
      → w.finish ≡ false
      → let (h, o) = oneshot.channel w.shared.oneshots in
        (mpsc.try_send self.tx (record { request = request; tx = h }) w.shared.queue).0 ≡ success tt
        → let (f, self', shared') = call mpsc oneshot self w.shared request in
          Kept svc mpsc oneshot dropped (all ++ request ∷ []) (record w { shared = shared' })
  Kept-call self w request k u e =
      let o = w.shared.oneshots in
      let h = (oneshot.channel o).0 in
      let m : Message Req H = record { request = request; tx = h } in
      let (a, b, c, q) = call_accepted self w.shared request e in
      let log = w.service.1 in
      let cur = w.current_message in
      let old = mpsc.contents w.shared.queue in
      let ms = live dropped (optional cur old) in
      let rq : Message Req H → Req = λ m. m.request in
      let alive : dropped h ≡ false =
        sym (k.agrees h) ∙ sym (oneshot.canceled-channel h o) ∙ oneshot.channel_alive o in
      record {
        sent =
            ap (λ xs. log ++ map rq (live dropped (optional cur xs))) q
            ∙ ap (λ xs. log ++ map rq xs) (live_queued cur old m alive)
            ∙ ap (◌++◌ log) (map-append rq ms (m ∷ []))
            ∙ sym (append_assoc log (map rq ms) (request ∷ []))
            ∙ ap (λ xs. xs ++ request ∷ []) k.sent;
        drained = λ f. absurd (cc u);
        agrees = λ g. ap (oneshot.canceled g) c ∙ oneshot.canceled-channel g o ∙ k.agrees g;
      }
