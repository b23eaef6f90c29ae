-- ===== src/Combinators.antt =====
-- tower-util/src: make_service.rs and service_fn.rs, and ext/apply.rs, from_err.rs and ready.rs.
pub mod Ready
mod Ext
use pants_tower.Base.{Option, none, some}
use pants_tower.Service.{Poll, ready, not_ready, err, map_err, Service, DirectService, Future}
use pants_tower.Loop.{Answer, answers, crashed}

-- `MakeService` is a service of services.
module _ {M Target F ME : Type 0} (maker : Service M Target F ME) where
  poll_ready_maker : M → Poll (Unit {0}) ME × M
  poll_ready_maker m = maker.poll_ready m

  make_service : M → Target → F × M
  make_service m target = maker.call m target

-- A service from a closure; `into_future` has been applied to what the closure gives.
record ServiceFn (Req F : Type 0) : Type 0 where
  f : Req → F

service_fn : {Req F E : Type 0} → Service (ServiceFn Req F) Req F E
service_fn = record { poll_ready = λ s. (ready tt, s); call = λ s req. (s.f req, s) }

direct_service_fn : {Req F E : Type 0} → DirectService (ServiceFn Req F) Req F E
direct_service_fn = record {
  poll_ready = λ s. (ready tt, s);
  poll_service = λ s. (ready tt, s);
  poll_close = λ s. (ready tt, s);
  call = λ s req. (s.f req, s);
}

-- `Apply`. The closure gets a clone of the service, so the service itself is not called.
record Apply (S In Out : Type 0) : Type 0 where
  service : S
  f : In → S → Out

new_apply : {S In Out : Type 0} → (In → S → Out) → S → Apply S In Out
new_apply f service = record { service = service; f = f }

clone_apply : {S In Out : Type 0} → (S → S) → Apply S In Out → Apply S In Out
clone_apply clone_service self = record self { service = clone_service self.service }

apply :
    {S Req F E In Out : Type 0} → (S → S) → Service S Req F E → Service (Apply S In Out) In Out E
apply clone svc = record {
  poll_ready = λ self.
      ((svc.poll_ready self.service).0, record self { service = (svc.poll_ready self.service).1 });
  call = λ self req. (self.f req (clone self.service), self);
}

-- `FromErr`, with `E::from`.
record FromErr (S : Type 0) : Type 0 where
  service : S

new_from_err : {S : Type 0} → S → FromErr S
new_from_err service = record { service = service }

clone_from_err : {S : Type 0} → (S → S) → FromErr S → FromErr S
clone_from_err clone_service self = record { service = clone_service self.service }

record FromErrFuture (F : Type 0) : Type 0 where
  fut : F

from_err :
    {S Req F E E' : Type 0}
    → (E → E')
    → Service S Req F E
    → Service (FromErr S) Req (FromErrFuture F) E'
from_err from svc = record {
  poll_ready = λ self. (
    map_err from (svc.poll_ready self.service).0,
    record { service = (svc.poll_ready self.service).1 },
  );
  call = λ self req. (
    record { fut = (svc.call self.service req).0 },
    record { service = (svc.call self.service req).1 },
  );
}

from_err_future : {F A E E' : Type 0} → (E → E') → Future F A E → Future (FromErrFuture F) A E'
from_err_future from on_a = record {
  poll = λ self. (map_err from (on_a.poll self.fut).0, record { fut = (on_a.poll self.fut).1 });
}

-- `Ready`: a future of the service itself.
record WhenReady (S : Type 0) : Type 0 where
  inner : Option S

new : {S : Type 0} → S → WhenReady S
new service = record { inner = some service }

module _ {S Req F E : Type 0} (svc : Service S Req F E) where
  after_ready : Poll (Unit {0}) E → S → Answer (WhenReady S) S E
  after_ready (ready u) s = answers (ready s) (record { inner = none })
  after_ready not_ready s = answers not_ready (record { inner = some s })
  after_ready (err e) s = answers (err e) (record { inner = some s })

  poll_in : Option S → Answer (WhenReady S) S E
  unfolding after_ready
  poll_in none = crashed
  poll_in (some s) = let (p, s') = svc.poll_ready s in after_ready p s'

  poll : WhenReady S → Answer (WhenReady S) S E
  unfolding poll_in
  poll self = poll_in self.inner
