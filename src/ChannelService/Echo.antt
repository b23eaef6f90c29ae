-- ===== src/ChannelService/Echo.antt =====
-- A request of examples/channel_service.rs on its way to the task and back.
use pants_tower.Base.{ℕ, zero, suc, ◌≡◌, ap, ◌∙◌, false, [], ◌∷◌, ◌++◌, some, arith}
use pants_tower.Service.{ready, not_ready, success, Future}
use pants_tower.Loop.{answers}
use pants_tower.Channels.{Mpsc, Oneshot}
use pants_tower.Futures.{Pends}
use pants_tower.ChannelService.{
  ChannelService, Message, answering, Running, after_sleep, poll_answering, call, received, poll_in,
  poll,
}

module _ {Req H O Z X : Type 0} (oneshot : Oneshot H Req O) (timer : Future Z (Unit {0}) X) where
  -- The next n polls of the future of a message answer that it is not ready.
  abbrev pub Dozes : ℕ → Running oneshot timer → Running oneshot timer → Type 0
  Dozes zero r r' = r ≡ r'
  Dozes (suc n) r r' =
      (s : Running oneshot timer) × (poll_answering oneshot timer r ≡ answers not_ready s)
      × Dozes n s r'

  abbrev pub with_sleep : Z → Message Req H → O → Running oneshot timer
  with_sleep z m o = (record { sleep = z; message = m }, o)

  Pends-Dozes :
      (n : ℕ) (z z' : Z) (m : Message Req H) (o : O)
      → Pends timer n z z'
      → Dozes n (with_sleep z m o) (with_sleep z' m o)
  unfolding poll_answering after_sleep
  Pends-Dozes zero z z' m o p = ap (λ x. with_sleep x m o) p
  Pends-Dozes (suc n) z z' m o (y, e, p) =
      (_, ap (λ x. after_sleep oneshot timer x.0 (with_sleep x.1 m o)) e, Pends-Dozes n y z' m o p)

  poll_answering_fires :
      (z : Z) (request : Req) (h : H) (o : O)
      → (timer.poll z).0 ≡ ready tt
      → poll_answering oneshot timer (with_sleep z (request, h) o)
        ≡ answers (ready tt) (with_sleep (timer.poll z).1 (request, h) (oneshot.send h request o).1)
  unfolding poll_answering after_sleep
  poll_answering_fires z request h o e =
      ap (λ p. after_sleep oneshot timer p (with_sleep (timer.poll z).1 (request, h) o)) e

  poll_sent :
      (request : Req) (h : H) (o : O)
      → oneshot.canceled h o ≡ false
      → (poll oneshot (record { rx = some h }) (oneshot.send h request o).1).0 ≡ ready request
  unfolding poll poll_in received
  poll_sent request h o c = ap (received oneshot) (
      oneshot.poll_delivered h request (oneshot.send h request o).1
        (oneshot.delivered-send h request o c))

module _ {T Q Req H O Z X : Type 0} (mpsc : Mpsc T Q (Message Req H)) (oneshot : Oneshot H Req O)
    (sleep : ℕ → Z) (timer : Future Z (Unit {0}) X) where
  call_queued :
      (self : ChannelService T) (rx : Q) (o : O) (request : Req)
      → let h = (oneshot.channel o).0 in
        (mpsc.try_send self.tx (request, h) rx).0 ≡ success tt
        → let (f, self', rx', o') = call mpsc oneshot self rx o request in
          (mpsc.contents rx' ≡ mpsc.contents rx ++ (request, h) ∷ []) × (f ≡ record { rx = some h })
  unfolding call
  call_queued self rx o request e =
      let h = (oneshot.channel o).0 in
      ground (arith, e, mpsc.contents-try_send self.tx (request, h) rx e)

  -- Where the queue takes the request of a call, and the response is still waited for when the
  -- task has come to its message, the future that the task makes of it is not ready while the
  -- sleep is not, through however many polls. When the sleep is over the future is done, and the
  -- next poll of the response answers with the request.
  pub call-Dozes :
      (self : ChannelService T) (rx : Q) (o o' : O) (request : Req) (n : ℕ) (z : Z)
      → let h = (oneshot.channel o).0 in
        (mpsc.try_send self.tx (request, h) rx).0 ≡ success tt
        → oneshot.canceled h o' ≡ false
        → Pends timer n (sleep 500) z
        → (timer.poll z).0 ≡ ready tt
        → let (f, self', rx', o1) = call mpsc oneshot self rx o request in
          let m : Message Req H = (request, h) in
          (mpsc.contents rx' ≡ mpsc.contents rx ++ m ∷ [])
          × Dozes oneshot timer n (answering sleep m, o') (with_sleep oneshot timer z m o')
          × ((run : Running oneshot timer) × (poll_answering oneshot timer
                  (with_sleep oneshot timer z m o')
                ≡ answers (ready tt) run)
              × ((poll oneshot f run.1).0 ≡ ready request))
  unfolding answering
  call-Dozes self rx o o' request n z s c p t =
      let h = (oneshot.channel o).0 in
      let (q, e) = call_queued self rx o request s in
      (
        q,
        Pends-Dozes oneshot timer n (sleep 500) z (request, h) o' p,
        (
          _,
          poll_answering_fires oneshot timer z request h o' t,
          ap (λ f. (poll oneshot f (oneshot.send h request o').1).0) e
              ∙ poll_sent oneshot timer request h o' c,
        ),
      )
