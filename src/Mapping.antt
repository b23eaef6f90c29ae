-- ===== src/Mapping.antt =====
-- tower-util/src/ext/map.rs and map_err.rs.
pub mod Laws
use pants_tower.Service.{Poll, ready, not_ready, err, map_err, Future, Service}

pub record Map (S A R : Type 0) : Type 0 where
  pub service : S
  pub f : A → R

pub record MapFuture (F A R : Type 0) : Type 0 where
  pub f : A → R
  pub fut : F

pub record MapErr (S E D : Type 0) : Type 0 where
  pub service : S
  pub f : E → D

pub record MapErrFuture (F E D : Type 0) : Type 0 where
  pub f : E → D
  pub fut : F

pub new : {S A R : Type 0} → S → (A → R) → Map S A R
new service f = record { service = service; f = f }

-- `clone_service` is the clone of the service; that of a function is the function.
clone : {S A R : Type 0} → (S → S) → Map S A R → Map S A R
clone clone_service self = record { service = clone_service self.service; f = self.f }

pub new_err : {S E D : Type 0} → S → (E → D) → MapErr S E D
new_err service f = record { service = service; f = f }

clone_err : {S E D : Type 0} → (S → S) → MapErr S E D → MapErr S E D
clone_err clone_service self = record { service = clone_service self.service; f = self.f }

-- `try_ready!`, and then the function.
map_ready : {A R E : Type 0} → (A → R) → Poll A E → Poll R E
map_ready f (ready a) = ready (f a)
map_ready f not_ready = not_ready
map_ready f (err e) = err e

module _ {S Req F A R E : Type 0} (svc : Service S Req F E) where
  unfoldable pub poll_ready : Map S A R → Poll (Unit {0}) E × Map S A R
  poll_ready self = let (p, s) = svc.poll_ready self.service in (p, record self { service = s })

  unfoldable pub call : Map S A R → Req → MapFuture F A R × Map S A R
  call self req =
      let (x, s) = svc.call self.service req in
      (record { f = self.f; fut = x }, record self { service = s })

module _ {F A R E : Type 0} (fut : Future F A E) where
  poll_map : MapFuture F A R → Poll R E × MapFuture F A R
  unfolding map_ready
  poll_map self = let (p, x) = fut.poll self.fut in (map_ready self.f p, record self { fut = x })

  pub mapped : Future (MapFuture F A R) R E
  unfolding poll_map
  mapped = record { poll = poll_map }

module _ {S Req F E D : Type 0} (svc : Service S Req F E) where
  unfoldable pub poll_ready_err : MapErr S E D → Poll (Unit {0}) D × MapErr S E D
  poll_ready_err self =
      let (p, s) = svc.poll_ready self.service in (map_err self.f p, record self { service = s })

  unfoldable pub call_err : MapErr S E D → Req → MapErrFuture F E D × MapErr S E D
  call_err self req =
      let (x, s) = svc.call self.service req in
      (record { f = self.f; fut = x }, record self { service = s })

module _ {F A E D : Type 0} (fut : Future F A E) where
  poll_map_err : MapErrFuture F E D → Poll A D × MapErrFuture F E D
  poll_map_err self = let (p, x) = fut.poll self.fut in (map_err self.f p, record self { fut = x })

  pub mapped_err : Future (MapErrFuture F E D) A D
  unfolding poll_map_err
  mapped_err = record { poll = poll_map_err }
