-- ===== src/Combinators/Ready.antt =====
-- When the future of tower-util/src/ext/ready.rs gives its service back.
use pants_tower.Base.{ℕ, zero, suc, ◌≡◌, refl, ap, ◌∙◌, none}
use pants_tower.Service.{ready, not_ready, err, Service, Future}
use pants_tower.Futures.{Pends}
use pants_tower.Loop.{Answer, answers, crashed, unfinished}
use pants_tower.Combinators.{WhenReady, new, poll, poll_in, after_ready}

module _ {S Req F E : Type 0} (svc : Service S Req F E) where
  abbrev readiness : Future S (Unit {0}) E
  readiness = record { poll = svc.poll_ready }

  -- Polled again for as long as it is not ready, `n` times at most.
  after_poll :
      Answer (WhenReady S) S E → (WhenReady S → Answer (WhenReady S) S E) → Answer (WhenReady S) S E
  after_poll (answers not_ready self) rest = rest self
  after_poll (answers (ready s) self) rest = answers (ready s) self
  after_poll (answers (err e) self) rest = answers (err e) self
  after_poll crashed rest = crashed
  after_poll unfinished rest = unfinished

  driven : ℕ → WhenReady S → Answer (WhenReady S) S E
  unfolding after_poll
  driven zero self = unfinished
  driven (suc n) self = after_poll (poll svc self) (driven n)

  -- Where a service is not ready for n polls and then is, its `Ready` future, polled again for as
  -- long as it is not ready, gives the service back at poll n + 1, in the state in which that left
  -- it; polled once more, it panics.
  driven-Pends :
      (n : ℕ) (s s' s'' : S)
      → Pends readiness n s s'
      → svc.poll_ready s' ≡ (ready tt, s'')
      → let done : WhenReady S = record { inner = none } in
        (driven (suc n) (new s) ≡ answers (ready s'') done) × (poll svc done ≡ crashed)
  unfolding driven after_poll poll poll_in after_ready new
  driven-Pends zero s s' s'' p e =
      (ap (λ x. after_poll (after_ready svc x.0 x.1) (driven 0)) (ap svc.poll_ready p ∙ e), refl)
  driven-Pends (suc n) s s' s'' (g, q, p) e =
      let (a, b) = driven-Pends n g s' s'' p e in
      (ap (λ x. after_poll (after_ready svc x.0 x.1) (driven (suc n))) q ∙ a, b)
