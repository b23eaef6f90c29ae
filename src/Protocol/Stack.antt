-- ===== src/Protocol/Stack.antt =====
-- Middleware on middleware: tower-timeout/src/lib.rs over tower-in-flight-limit/src/lib.rs, over
-- the service of tower-retry/src/lib.rs, over tower-util/src/option.rs, over a service that is
-- watched.
use pants_tower.Base.{ℕ, false, List}
use pants_tower.Service.{Service}
use pants_tower.InFlight.{AtomicTask, Shared, InFlightLimit}
use pants_tower.InFlight
use pants_tower.Timeout
use pants_tower.Timeout.{Timeout}
use pants_tower.Retry
use pants_tower.Retry.{Policy, Retry}
use pants_tower.Optional
use pants_tower.Optional.{OptionService}
use pants_tower.Protocol.{
  Op, Watched, watched, Unbroken, watched-Keeps, fed, fed-Keeps, run, run-Keeps,
}
use pants_tower.Protocol.Wrappers.{
  optional, optional-Keeps, retry, retry-Keeps, timeout, timeout-FedKeeps, Inside,
}
use pants_tower.Protocol.Gates.{in_flight, in_flight-FedKeeps}

module _ {S T Z P C R Req F E : Type 0} (svc : Service S Req F E) (tasks : AtomicTask T)
    (delay : ℕ → Z) (pol : Policy P Req R (Optional.Error E) C) where
  abbrev pub Retrying : Type 0
  Retrying = Retry P (OptionService (Watched S))

  abbrev pub Limited : Type 0
  Limited = InFlightLimit Retrying × (ℕ → Shared T)

  abbrev Response : Type 0
  Response =
      Retry.ResponseFuture P (OptionService (Watched S)) Req (Optional.ResponseFuture F) C R
        (Optional.Error E)

  abbrev retrying : Service Retrying Req Response (Optional.Error E)
  retrying = retry (optional (watched svc)) pol

  abbrev limited :
      Service Limited Req (InFlight.ResponseFuture Response) (InFlight.Error (Optional.Error E))
  limited = fed (in_flight tasks retrying)

  abbrev pub stacked :
      Service
        (Timeout Limited × (ℕ → ℕ))
        Req
        (Timeout.ResponseFuture (InFlight.ResponseFuture Response) Z)
        (Timeout.Error (InFlight.Error (Optional.Error E)))
  stacked = fed (timeout limited delay)

  -- The service at the bottom, where there is one.
  abbrev pub base : Timeout Limited × (ℕ → ℕ) → OptionService (Watched S)
  base w = w.0.inner.0.inner.service

  -- However a caller uses a timeout over an in-flight limit over a retry over an optional service,
  -- at whatever times, and whatever others do with the shared cell of the in-flight limit: if the
  -- caller calls only what has told it to be ready, so does every layer, down to the service at
  -- the bottom.
  pub stacked-Unbroken :
      (ops : List (Op Req)) (w : Timeout Limited × (ℕ → ℕ))
      → Inside Unbroken (base w).inner
      → Inside Unbroken (base (run stacked false ops w)).inner
  stacked-Unbroken = run-Keeps stacked _ _ (
      fed-Keeps (timeout limited delay) _ _ (
        timeout-FedKeeps limited _ _
          (fed-Keeps (in_flight tasks retrying) _ _ (
            in_flight-FedKeeps tasks retrying _ _ (
              retry-Keeps (optional (watched svc)) _ _
                (optional-Keeps (watched svc) _ _ (watched-Keeps svc)) pol)))
          delay))
