-- ===== src/Buffer.antt =====
-- tower-buffer/src/lib.rs: a queue of requests, and the task that sends them to the service. The
-- channels, the executor and the service are parameters.
pub mod Client
pub mod Worker
pub mod Delivery
pub mod System
mod Tests
use pants_tower.Base.{Bool, true, false, Option, none, some, if◌then◌else◌}
use pants_tower.Service.{
  Poll, ready, not_ready, err, map_err, Result, success, failure, Service, DirectService,
}

pub data Error (E : Type 0) : Type 0 where
  inner : E → Error E
  closed : Error E

pub record Message (Req H : Type 0) : Type 0 where
  pub request : Req
  pub tx : H

-- What the buffers, the response futures and the worker share: the queue, the store of oneshots
-- and `State`.
pub record Shared (Q O : Type 0) : Type 0 where
  pub queue : Q
  pub oneshots : O
  pub is_open : Bool

-- `DirectedService`: a service as one that is driven.
unfoldable pub directed : {S Req F E : Type 0} → Service S Req F E → DirectService S Req F E
directed svc = record {
  poll_ready = svc.poll_ready;
  poll_service = λ s. (ready tt, s);
  poll_close = λ s. (ready tt, s);
  call = svc.call;
}
