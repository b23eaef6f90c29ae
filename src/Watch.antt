-- ===== src/Watch.antt =====
-- tower-watch/src/lib.rs: a service that is bound again whenever a watched value changes. The watch
-- and the services are parameters.
pub mod Newest
mod Tests
use pants_tower.Base.{◌≡◌, ◌⊎◌, Bool, true, false, Option, none, some}
use pants_tower.Service.{Poll, ready, not_ready, err, map_err, Service, Future}

-- `Watch` of the futures_watch crate. `current` is what `borrow` gives, and `store` what the other
-- end of the watch does; a change that was not yet notified is `changed`.
pub record Watch (W T WE : Type 0) : Type 0 where
  pub poll : W → Poll (Option (Unit {0})) WE × W
  pub current : W → T
  pub store : T → W → W
  pub changed : W → Bool
  pub current-store : (t : T) (w : W) → current (store t w) ≡ t
  pub current-poll : (w : W) → current (poll w).1 ≡ current w
  pub changed-store : (t : T) (w : W) → changed (store t w) ≡ true
  pub poll_changed : (w : W) → changed w ≡ true → (poll w).0 ≡ ready (some tt)

-- `Bind`, with the state of the closure.
pub record Bind (C T S : Type 0) : Type 0 where
  pub bind : C → T → S × C

pub data Error (E WE : Type 0) : Type 0 where
  inner : E → Error E WE
  watch_error : WE → Error E WE

pub record WatchService (W C S : Type 0) : Type 0 where
  pub watch : W
  pub binder : C
  pub inner : S

module _ {W T WE C S : Type 0} (watches : Watch W T WE) (binds : Bind C T S) where
  unfoldable pub new : W → C → WatchService W C S
  new watch binder =
      let (s, c) = binds.bind binder (watches.current watch) in
      record { watch = watch; binder = c; inner = s }

  rebind : WatchService W C S → WatchService W C S
  rebind self =
      let (s, c) = binds.bind self.binder (watches.current self.watch) in
      record self { binder = c; inner = s }

  after_watch :
      Poll (Option (Unit {0})) WE → WatchService W C S → Poll (Unit {0}) WE × WatchService W C S
  unfolding rebind
  after_watch (ready (some u)) self = (ready tt, rebind self)
  after_watch (ready none) self = (not_ready, self)
  after_watch not_ready self = (not_ready, self)
  after_watch (err e) self = (err e, self)

  pub poll_rebind : WatchService W C S → Poll (Unit {0}) WE × WatchService W C S
  unfolding after_watch
  poll_rebind self =
      let (p, w) = watches.poll self.watch in after_watch p (record self { watch = w })

module _ {W T WE C S Req F E : Type 0} (watches : Watch W T WE) (binds : Bind C T S)
    (svc : Service S Req F E) where
  poll_inner : WatchService W C S → Poll (Unit {0}) (Error E WE) × WatchService W C S
  poll_inner self =
      let (p, s) = svc.poll_ready self.inner in (map_err inner p, record self { inner = s })

  -- Only an error of the watch ends it early.
  after_rebind :
      Poll (Unit {0}) WE → WatchService W C S → Poll (Unit {0}) (Error E WE) × WatchService W C S
  unfolding poll_inner
  after_rebind (ready u) self = poll_inner self
  after_rebind not_ready self = poll_inner self
  after_rebind (err e) self = (err (watch_error e), self)

  unfoldable pub poll_ready : WatchService W C S → Poll (Unit {0}) (Error E WE) × WatchService W C S
  unfolding poll_rebind after_rebind
  poll_ready self = let (p, self') = poll_rebind watches binds self in after_rebind p self'

  unfoldable pub call : WatchService W C S → Req → F × WatchService W C S
  call self req = let (f, s) = svc.call self.inner req in (f, record self { inner = s })

-- `ResponseFuture`.
poll : {F A E WE : Type 0} → Future F A E → F → Poll A (Error E WE) × F
poll fut f = let (p, f') = fut.poll f in (map_err inner p, f')
