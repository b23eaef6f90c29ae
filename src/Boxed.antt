-- ===== src/Boxed.antt =====
-- tower-util/src/boxed.rs, and the implementations of `Service` for boxes and references in
-- tower-service/src/lib.rs. A trait object is its value with the operations that it came with; the
-- variants with and without `Send` are the same here.
use pants_tower.Service.{Poll, Service, Future}

-- `&mut S` and `Box<S>` forward.
module _ {S Req F E : Type 0} (svc : Service S Req F E) where
  by_reference : Service S Req F E
  by_reference = record { poll_ready = λ s. svc.poll_ready s; call = λ s r. svc.call s r }

  by_box : Service S Req F E
  by_box = record { poll_ready = λ s. svc.poll_ready s; call = λ s r. svc.call s r }

record Boxed (S : Type 0) : Type 0 where
  inner : S

record BoxFuture (A E : Type 0) : Type 1 where
  F : Type 0
  fut : Future F A E
  state : F

record BoxService (Req A E : Type 0) : Type 1 where
  S : Type 0
  F : Type 0
  svc : Service S Req F E
  fut : Future F A E
  inner : Boxed S

module _ {A E : Type 0} where
  poll : BoxFuture A E → Poll A E × BoxFuture A E
  poll self =
      let (p, f) = self.fut.poll self.state in (p, record { F = self.F; fut = self.fut; state = f })

-- `Boxed`, behind the box.
module _ {S Req F A E : Type 0} (svc : Service S Req F E) (fut : Future F A E) where
  poll_ready_inner : Boxed S → Poll (Unit {0}) E × Boxed S
  poll_ready_inner self = let (p, s) = svc.poll_ready self.inner in (p, record { inner = s })

  call_inner : Boxed S → Req → BoxFuture A E × Boxed S
  call_inner self request =
      let (f, s) = svc.call self.inner request in
      (record { F = F; fut = fut; state = f }, record { inner = s })

  new : S → BoxService Req A E
  new s = record { S = S; F = F; svc = svc; fut = fut; inner = record { inner = s } }

module _ {Req A E : Type 0} where
  poll_ready : BoxService Req A E → Poll (Unit {0}) E × BoxService Req A E
  unfolding poll_ready_inner
  poll_ready self =
      let (p, inner) = poll_ready_inner self.svc self.fut self.inner in
      (p, record { S = self.S; F = self.F; svc = self.svc; fut = self.fut; inner = inner })

  call : BoxService Req A E → Req → BoxFuture A E × BoxService Req A E
  unfolding call_inner
  call self request =
      let (f, inner) = call_inner self.svc self.fut self.inner request in
      (f, record { S = self.S; F = self.F; svc = self.svc; fut = self.fut; inner = inner })
