-- ===== src/Buffer/Worker/Order.antt =====
-- The order in which the worker of tower-buffer/src/lib.rs sends requests to the service.
use pants_tower.Base.{
  ℕ, ◌+◌, ◌*◌, ◌<◌, ◌≡◌, refl, sym, ap, subst, ◌∙◌, Bool, true, false, List, [], ◌∷◌, ◌++◌, map,
  arith, length,
}
use mathlib.Core.List.{append-nil}
use pants_tower.Service.{Poll, ready, not_ready, err, DirectService}
use pants_tower.Machine.{Outcome, Ends}
use pants_tower.Channels.{Mpsc, Oneshot}
use pants_tower.Buffer.{Message}
use pants_tower.Buffer.Worker.{
  Worker, Flow, continues, ends, after_close, close, after_service, advance, drive_in, drive,
}
use pants_tower.Buffer.Worker.Queue.{live, queued, Agrees}

-- The service, with the requests that it has been called with, in their order.
abbrev pub recorded :
    {S Req F E : Type 0} → DirectService S Req F E → DirectService (S × List Req) Req F E
recorded svc = record {
  poll_ready = λ s. ((svc.poll_ready s.0).0, ((svc.poll_ready s.0).1, s.1));
  poll_service = λ s. ((svc.poll_service s.0).0, ((svc.poll_service s.0).1, s.1));
  poll_close = λ s. ((svc.poll_close s.0).0, ((svc.poll_close s.0).1, s.1));
  call = λ s r. ((svc.call s.0 r).0, ((svc.call s.0 r).1, s.1 ++ r ∷ []));
}

abbrev pub one : Bool → ℕ
one true = 1
one false = 0

module _ {S Req F E H T Q O : Type 0} (svc : DirectService S Req F E)
    (mpsc : Mpsc T Q (Message Req H)) (oneshot : Oneshot H F O) (dropped : H → Bool)
    (all : List Req) where
  abbrev pub Recorder : Type 0
  Recorder = Worker (S × List Req) Req H Q O

  -- The requests that wait and that somebody waits for.
  abbrev pub waiting : Recorder → List Req
  waiting w = map (λ m. m.request) (live dropped (queued (recorded svc) mpsc oneshot dropped w))

  abbrev pub pending : Recorder → ℕ
  pending w = length (queued (recorded svc) mpsc oneshot dropped w)

  -- What was sent to the service, with what waits, is `all`.
  pub record Kept (w : Recorder) : Type 0 where
    pub sent : w.service.1 ++ waiting w ≡ all
    pub drained : w.finish ≡ true → queued (recorded svc) mpsc oneshot dropped w ≡ []
    pub agrees : Agrees (recorded svc) mpsc oneshot dropped w

  -- How `poll` ends: with all requests kept; at the end of the queue, with all of them sent; or
  -- done with the buffer closed, since the service has failed, with a request at hand, which is
  -- dropped with the worker, as are those that still waited.
  pub data Settled (done : Bool) (w : Recorder) : Type 0 where
    waits : done ≡ false → Kept w → Settled done w
    finished : done ≡ true → w.service.1 ≡ all → Settled done w
    broken :
        (request : Req)
        → done ≡ true
        → w.shared.is_open ≡ false
        → w.service.1 ++ request ∷ waiting w ≡ all
        → Settled done w

  abbrev pub Turned : ℕ → Flow → Recorder → Type 0
  Turned n (continues any) w = Kept w × (2 * pending w + one any < n)
  Turned n (ends done) w = Settled done w

  abbrev pub TurnEnds : ℕ → Outcome Recorder Flow (Unit {0}) → Type 0
  TurnEnds n = Ends (Turned n) (λ e w. Kept w)

  sent_all : (w : Recorder) → Kept w → w.finish ≡ true → w.service.1 ≡ all
  sent_all w k f =
      sym (append-nil w.service.1)
      ∙ ap (λ ms. w.service.1 ++ map (λ m. m.request) (live dropped ms)) (sym (k.drained f))
      ∙ k.sent

  after_close-TurnEnds :
      (n : ℕ) (p : Poll (Unit {0}) E) (w : Recorder)
      → Kept w
      → w.finish ≡ true
      → TurnEnds n (after_close (recorded svc) mpsc oneshot p w)
  unfolding after_close
  after_close-TurnEnds n (ready u) w k f = finished refl (sent_all w k f)
  after_close-TurnEnds n not_ready w k f = waits refl k
  after_close-TurnEnds n (err e) w k f = k

  pub close-TurnEnds :
      (n : ℕ) (w : Recorder)
      → Kept w
      → w.finish ≡ true
      → TurnEnds n (close (recorded svc) mpsc oneshot w)
  unfolding close
  close-TurnEnds n w k f =
      after_close-TurnEnds n (svc.poll_close w.service.0).0
        (record w { service = ((recorded svc).poll_close w.service).1 })
        (record { sent = k.sent; drained = k.drained; agrees = k.agrees }) f

  after_service-TurnEnds :
      (n : ℕ) (p : Poll (Unit {0}) E) (w : Recorder)
      → Kept w
      → 2 * pending w < n
      → TurnEnds n (after_service (recorded svc) mpsc oneshot p w)
  unfolding after_service
  after_service-TurnEnds n (ready u) w k l = (k, omega arith)
  after_service-TurnEnds n not_ready w k l = waits refl k
  after_service-TurnEnds n (err e) w k l = k

  pub drive-TurnEnds :
      (n : ℕ) (w : Recorder)
      → Kept w
      → w.finish ≡ false
      → 2 * pending w < n
      → TurnEnds n (drive (recorded svc) mpsc oneshot true w)
  unfolding drive drive_in advance
  drive-TurnEnds n w k f l =
      subst (λ b. TurnEnds n (drive_in (recorded svc) mpsc oneshot b true w)) (sym f)
        (after_service-TurnEnds n (svc.poll_service w.service.0).0
          (record w { service = ((recorded svc).poll_service w.service).1 })
          (record { sent = k.sent; drained = k.drained; agrees = k.agrees }) l)
