-- ===== src/Protocol/Checked.antt =====
-- The responses of tower-filter/src/lib.rs, which call the service after the check.
use pants_tower.Base.{◌≡◌, ◌<◌, ◌+◌, usize_mod}
use pants_tower.Service.{Poll, ready, not_ready, err, Future, Service}
use pants_tower.Loop.{Turn, Ends, Allows, Allowed, loop-Allowed, Ends-Allowed}
use pants_tower.InFlight.{AtomicTask}
use pants_tower.Filter
use pants_tower.Filter.Capacity.{capacity, lost, poll_inner-capacity}
use pants_tower.Protocol.{After, Keeps, Watched, watched, watched-Keeps, Unbroken, Ready}

module _ {T S C Req F A U E : Type 0} (tasks : AtomicTask T) (checks : Future C (Unit {0}) U)
    (svc : Service S Req F E) (fut : Future F A E) (Idle Armed : S → Type 0)
    (keeps : Keeps svc Idle Armed) where
  abbrev Waits : Type 0
  Waits = Filter.ResponseInner C S Req F × Filter.Counts T

  abbrev Calm : Waits → Type 0
  Calm h = Idle h.0.service

  abbrev Filtered : Turn Waits A (Filter.Error U E) → Type 0
  Filtered = Allows Calm (λ p h. Calm h)

  after_check-Filtered :
      (r : Req) (p : Poll (Unit {0}) U) (self : Filter.ResponseInner C S Req F)
      (counts : Filter.Counts T)
      → Idle self.service
      → Filtered (Filter.after_check tasks checks svc fut r p (self, counts))
  unfolding Filter.after_check
  after_check-Filtered r (ready u) self counts h = h
  after_check-Filtered r not_ready self counts h = h
  after_check-Filtered r (err e) self counts h = h

  after_ready-Filtered :
      (r : Req) (p : Poll (Unit {0}) E) (self : Filter.ResponseInner C S Req F)
      (counts : Filter.Counts T)
      → After Idle Armed p self.service
      → Filtered (Filter.after_ready tasks checks svc fut r p (self, counts))
  unfolding Filter.after_ready
  after_ready-Filtered r (ready u) self counts h = keeps.called self.service r h
  after_ready-Filtered r not_ready self counts h = h
  after_ready-Filtered r (err e) self counts h = h

  turn_in-Filtered :
      (s : Filter.State Req F) (self : Filter.ResponseInner C S Req F) (counts : Filter.Counts T)
      → Idle self.service
      → Filtered (Filter.turn_in tasks checks svc fut s (self, counts))
  unfolding Filter.turn_in
  turn_in-Filtered (Filter.checking r) self counts h =
      after_check-Filtered r (checks.poll self.check).0 _ counts h
  turn_in-Filtered (Filter.wait_ready r) self counts h =
      after_ready-Filtered r (svc.poll_ready self.service).0 _ counts (keeps.asked self.service h)
  turn_in-Filtered (Filter.wait_response f) self counts h = h
  turn_in-Filtered Filter.spent self counts h = h

  filter_poll-Allowed :
      (h : Waits) → Calm h → Allowed (λ p h'. Calm h') (Filter.poll_inner tasks checks svc fut h)
  unfolding Filter.poll_inner Filter.turn
  filter_poll-Allowed h c =
      loop-Allowed Calm (λ p h'. Calm h') (Filter.turn tasks checks svc fut)
        (λ x c. turn_in-Filtered x.0.state x.0 x.1 c) 3 h c

module _ {T S C Req F A U E : Type 0} (tasks : AtomicTask T) (checks : Future C (Unit {0}) U)
    (svc : Service S Req F E) (fut : Future F A E) where
  -- One poll of a request that passed the filter ends, where the capacity fits in a `usize`, and
  -- its service is called only after it has told this request to be ready. The capacity that is
  -- left, with the unit that the request holds while it is checked or waits for the service, is as
  -- before, less one unit where the poll answers that the request was rejected.
  pub filter_poll-Unbroken :
      (h : Filter.ResponseInner C (Watched S) Req F × Filter.Counts T)
      → capacity tasks checks (watched svc) fut h < usize_mod
      → Unbroken h.0.service
      → Ends
          (λ p h'.
            (capacity tasks checks (watched svc) fut h' + lost p
              ≡ capacity tasks checks (watched svc) fut h)
            × Unbroken h'.0.service)
          (Filter.poll_inner tasks checks (watched svc) fut h)
  filter_poll-Unbroken h l u =
      Ends-Allowed _ (λ p h'. Unbroken h'.0.service) _
        (poll_inner-capacity tasks checks (watched svc) fut h l)
        (filter_poll-Allowed tasks checks (watched svc) fut Unbroken Ready (watched-Keeps svc) h u)
