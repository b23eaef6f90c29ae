-- ===== src/PeakEwma.antt =====
-- tower-balance/src/load/peak_ewma.rs: a service with the moving average of its latencies as a load.
-- The numbers of type `f64` and their operations are a parameter, and the readings of the clock, in
-- nanoseconds, are arguments.
pub mod Clock
mod Tests
use pants_tower.Base.{
  ℕ, ◌+◌, ◌-◌, ◌*◌, ◌%◌, ◌^◌, Bool, true, false, Option, none, some, leb, ltb, if◌then◌else◌,
}
use pants_tower.Service.{Poll, ready, not_ready, err, Service}
use pants_tower.Discover.{Change, insert, remove, Discover}

-- `f64`. `of_nat` rounds.
pub record Floats (R : Type 0) : Type 0 where
  pub of_nat : ℕ → R
  pub add : R → R → R
  pub sub : R → R → R
  pub mul : R → R → R
  pub div : R → R → R
  pub neg : R → R
  pub exp : R → R
  pub lt : R → R → Bool

pub record RttEstimate (R : Type 0) : Type 0 where
  pub update_at : ℕ
  pub rtt_ns : R

pub record Handle (R : Type 0) : Type 0 where
  pub sent_at : ℕ
  pub decay_ns : R

-- The estimate is shared with the handles.
pub record PeakEwma (S R I : Type 0) : Type 0 where
  pub service : S
  pub decay_ns : R
  pub instrument : I

-- `InstrumentFuture` with the handle that it begins with.
pub record ResponseFuture (F R I : Type 0) : Type 0 where
  pub future : F
  pub handle : Handle R
  pub instrument : I

record WithPeakEwma (D R I : Type 0) : Type 0 where
  discover : D
  decay_ns : R
  default_rtt : ℕ
  instrument : I

module _ {R : Type 0} (floats : Floats R) where
  -- The seconds as nanoseconds, saturated at 64 bits, with the rest added.
  nanos : ℕ → R
  nanos d =
      let n = d % 1000000000 in
      let s = d - n in
      floats.add (floats.of_nat n) (floats.of_nat (if ltb s (2 ^ 64) then s else 2 ^ 64 - 1))

  -- `none` is a failure of the debug assertion.
  new_estimate : R → ℕ → Option (RttEstimate R)
  new_estimate rtt_ns now =
      if floats.lt (floats.of_nat 0) rtt_ns
      then some (record { update_at = now; rtt_ns = rtt_ns })
      else none

  -- The estimate after a latency, `elapsed` after its last update.
  pub estimate : R → R → R → R → R
  estimate rtt_ns rtt elapsed decay_ns =
      if floats.lt rtt_ns rtt
      then rtt
      else (let decay = floats.exp (floats.div (floats.neg elapsed) decay_ns) in
          let recency = floats.sub (floats.of_nat 1) decay in
          floats.add (floats.mul rtt_ns decay) (floats.mul rtt recency))

  -- `now` is what the clock says after `recv_at` was read. `none` is a failure of one of the debug
  -- assertions.
  pub update : ℕ → ℕ → R → ℕ → RttEstimate R → Option (R × RttEstimate R)
  unfolding estimate nanos
  update sent_at recv_at decay_ns now self =
      if leb sent_at recv_at
      then (if leb self.update_at now
          then (let rtt = nanos (recv_at - sent_at) in
              let next = estimate self.rtt_ns rtt (nanos (now - self.update_at)) decay_ns in
              some (next, record { update_at = now; rtt_ns = next }))
          else none)
      else none

  pub decay : R → ℕ → ℕ → RttEstimate R → Option (R × RttEstimate R)
  unfolding update
  decay decay_ns now later self = update now now decay_ns later self

  -- `Drop for Handle`.
  pub drop_handle : Handle R → ℕ → ℕ → RttEstimate R → Option (R × RttEstimate R)
  unfolding update
  drop_handle self recv_at now rtt = update self.sent_at recv_at self.decay_ns now rtt

  -- `count` is the strong count of the estimate, one for the service and one for each handle.
  pub load :
      {S I : Type 0} → PeakEwma S R I → ℕ → ℕ → ℕ → RttEstimate R → Option (R × RttEstimate R)
  unfolding decay
  load self count now later rtt =
      let pending = (count % 2 ^ 32 + 2 ^ 32 - 1) % 2 ^ 32 in
      elim (decay self.decay_ns now later rtt) [
        | none ↦ none
        | some (e, rtt') ↦ some (floats.mul e (floats.of_nat ((pending + 1) % 2 ^ 32)), rtt')
      ]

  new : {S I : Type 0} → S → ℕ → R → I → ℕ → Option (PeakEwma S R I × RttEstimate R)
  unfolding new_estimate nanos
  new service default_rtt decay_ns instrument now = elim (new_estimate (nanos default_rtt) now) [
    | none ↦ none
    | some rtt ↦
        some (record { service = service; decay_ns = decay_ns; instrument = instrument }, rtt)
  ]

-- `sent_at` is what the clock says.
unfoldable pub handle : {S R I : Type 0} → PeakEwma S R I → ℕ → Handle R
handle self sent_at = record { sent_at = sent_at; decay_ns = self.decay_ns }

module _ {S R I Req F E : Type 0} (svc : Service S Req F E) where
  poll_ready : PeakEwma S R I → Poll (Unit {0}) E × PeakEwma S R I
  poll_ready self = let (p, s) = svc.poll_ready self.service in (p, record self { service = s })

  unfoldable pub call : PeakEwma S R I → Req → ℕ → ResponseFuture F R I × PeakEwma S R I
  unfolding handle
  call self req sent_at =
      let (f, s) = svc.call self.service req in
      (
        record { future = f; handle = handle self sent_at; instrument = self.instrument },
        record self { service = s },
      )

-- `WithPeakEwma`. The clock is read where a service is made; `none` is a failure of its assertion.
module _ {R I : Type 0} (floats : Floats R) where
  new_with : {D : Type 0} → D → ℕ → ℕ → I → WithPeakEwma D R I
  unfolding nanos
  new_with discover default_rtt period instrument = record {
    discover = discover;
    decay_ns = nanos floats period;
    default_rtt = default_rtt;
    instrument = instrument;
  }

  wrap :
      {K V : Type 0}
      → ℕ
      → R
      → I
      → ℕ
      → Change K V
      → Option (Change K (PeakEwma V R I × RttEstimate R))
  unfolding new
  wrap default_rtt decay_ns instrument now (insert k svc) =
      elim (new floats svc default_rtt decay_ns instrument now) [
        | none ↦ none
        | some s ↦ some (insert k s)
      ]
  wrap default_rtt decay_ns instrument now (remove k) = some (remove k)

module _ {R K V I E : Type 0} (floats : Floats R) where
  wrap_poll :
      ℕ
      → R
      → I
      → ℕ
      → Poll (Change K V) E
      → Option (Poll (Change K (PeakEwma V R I × RttEstimate R)) E)
  unfolding wrap
  wrap_poll default_rtt decay_ns instrument now (ready c) =
      elim (wrap floats default_rtt decay_ns instrument now c) [
        | none ↦ none
        | some c' ↦ some (ready c')
      ]
  wrap_poll default_rtt decay_ns instrument now not_ready = some not_ready
  wrap_poll default_rtt decay_ns instrument now (err e) = some (err e)

  poll_discover :
      {D : Type 0}
      → Discover D K V E
      → ℕ
      → WithPeakEwma D R I
      → Option (Poll (Change K (PeakEwma V R I × RttEstimate R)) E) × WithPeakEwma D R I
  unfolding wrap_poll
  poll_discover disc now self =
      let (p, d) = disc.poll self.discover in
      (wrap_poll self.default_rtt self.decay_ns self.instrument now p, record self { discover = d })
