-- ===== src/Buffer/Worker/Readiness.antt =====
-- The worker of tower-buffer/src/lib.rs over a service that is watched.
use pants_tower.Base.{ℕ, ◌+◌, ◌*◌, ◌<◌, refl, Bool, false, not, ◌||◌, List}
use pants_tower.Service.{DirectService}
use pants_tower.Machine.{Ends, Ends-Allows}
use pants_tower.Channels.{Mpsc, Oneshot}
use pants_tower.Protocol.{
  Watched, Unbroken, Ready, is_ready, watched_asked, watched_called, After-map,
}
use pants_tower.Buffer.{Message}
use pants_tower.Buffer.Worker.{poll}
use pants_tower.Buffer.Worker.Order.{recorded, pending, Kept, Settled, Recorder}
use pants_tower.Buffer.Worker.Ending.{poll-Settled}
use pants_tower.Buffer.Worker.Calls.{DirectKeeps, poll-Turning}

-- A service that is driven is not ready any more, until it is asked again.
abbrev pub watched_direct :
    {S Req F E : Type 0} → DirectService S Req F E → DirectService (Watched S) Req F E
watched_direct svc = record {
  poll_ready = λ w. (
    (svc.poll_ready w.service).0,
    record w {
      service = (svc.poll_ready w.service).1;
      armed = is_ready (svc.poll_ready w.service).0;
    },
  );
  poll_service = λ w. (
    (svc.poll_service w.service).0,
    record w { service = (svc.poll_service w.service).1; armed = false },
  );
  poll_close = λ w. (
    (svc.poll_close w.service).0,
    record w { service = (svc.poll_close w.service).1; armed = false },
  );
  call = λ w req. (
    (svc.call w.service req).0,
    record {
      service = (svc.call w.service req).1;
      armed = false;
      broken = w.broken || not w.armed;
    },
  );
}

module _ {S Req F E : Type 0} (svc : DirectService S Req F E) where
  recorded-DirectKeeps :
      DirectKeeps (recorded (watched_direct svc)) (λ s. Unbroken s.0) (λ s. Ready s.0)
  recorded-DirectKeeps = record {
    relax = λ s r. r.0;
    asked = λ s h.
        After-map Unbroken Ready (λ s. Unbroken s.0) (λ s. Ready s.0) (svc.poll_ready s.0.service).0
          (svc.poll_ready s.0.service).0 _ _ refl (λ h. h) (λ h. h)
          (watched_asked (svc.poll_ready s.0.service).0 (svc.poll_ready s.0.service).1 s.0 h);
    called = λ s req r. watched_called s.0 r;
    driven = λ s h. h;
    closed = λ s h. h;
  }

module _ {S Req F E H T Q O : Type 0} (svc : DirectService S Req F E)
    (mpsc : Mpsc T Q (Message Req H)) (oneshot : Oneshot H F O) (dropped : H → Bool)
    (all : List Req) where
  -- For a service of any behaviour, a worker whose requests sent and waiting are, in their order,
  -- all that were asked and not given up by their callers, and fuel for more skipped messages than
  -- wait and for more than twice as many turns and one, `poll` neither panics nor runs out of
  -- fuel. It ends with all requests sent or waiting in that order; or done, with all of them sent
  -- in that order; or done with the buffer closed, and all of them, in that order, are those sent,
  -- the one at hand and those that still waited, of which the last two are dropped with the
  -- worker. Where it fails, all of them, in that order, are those sent and those that still
  -- waited, which are dropped with the worker. The service was called only after it had told that
  -- it is ready, and with no other operation on it since.
  pub poll-Unbroken :
      (skips fuel : ℕ) (w : Recorder (watched_direct svc) mpsc oneshot dropped all)
      → Kept (watched_direct svc) mpsc oneshot dropped all w
      → Unbroken w.service.0
      → pending (watched_direct svc) mpsc oneshot dropped all w < skips
      → 2 * pending (watched_direct svc) mpsc oneshot dropped all w + 1 < fuel
      → Ends
          (λ done w'.
            Settled (watched_direct svc) mpsc oneshot dropped all done w' × Unbroken w'.service.0)
          (λ e w'. Kept (watched_direct svc) mpsc oneshot dropped all w' × Unbroken w'.service.0)
          (poll (recorded (watched_direct svc)) mpsc oneshot skips fuel w)
  poll-Unbroken skips fuel w k u l m =
      Ends-Allows (Settled (watched_direct svc) mpsc oneshot dropped all)
        (λ done w'. Unbroken w'.service.0)
        (λ e w'. Kept (watched_direct svc) mpsc oneshot dropped all w')
        (λ e w'. Unbroken w'.service.0) _
        (poll-Settled (watched_direct svc) mpsc oneshot dropped all skips fuel w k l m)
        (poll-Turning (recorded (watched_direct svc)) mpsc oneshot _ _ (recorded-DirectKeeps svc)
          skips fuel w u)
