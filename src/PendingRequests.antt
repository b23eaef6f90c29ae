-- ===== src/PendingRequests.antt =====
-- tower-balance/src/load/pending_requests.rs and instrument.rs: a service whose load is the number
-- of the handles that its responses hold. `RefCount` is an `Arc`, whose strong count is a cell that
-- is passed on; a handle is one of its references.
pub mod System
mod Tests
use pants_tower.Base.{ℕ, ◌+◌, ◌-◌, ◌≡◌, arith, Option, none, some}
use pants_tower.Service.{Poll, ready, not_ready, err, Service, Future}
use pants_tower.Machine.{Outcome, returns, fails, panics, Method}
use pants_tower.Discover.{Change, insert, remove, Discover}

pub data Handle : Type 0 where
  handle : Handle

-- `Clone` and `Drop` of an `Arc`.
abbrev pub clone_ref : ℕ → Handle × ℕ
clone_ref count = (handle, count + 1)

abbrev pub drop_ref : Handle → ℕ → ℕ
drop_ref h count = count - 1

-- `Instrument`: it keeps the handle that it is given in its output, or drops it. `holds` counts the
-- handles in an output.
pub record Instrument (I V O : Type 0) : Type 0 where
  pub instrument : I → Handle → V → ℕ → O × ℕ
  pub drop_output : O → ℕ → ℕ
  pub holds : O → ℕ
  pub holds-instrument :
      (i : I) (h : Handle) (v : V) (count : ℕ)
      → (instrument i h v (count + 1)).1 ≡ count + holds (instrument i h v (count + 1)).0
  pub drop_output-holds : (o : O) (count : ℕ) → drop_output o (count + holds o) ≡ count

pub data NoInstrument : Type 0 where
  no_instrument : NoInstrument

pub no_instruments : {V : Type 0} → Instrument NoInstrument V V
no_instruments = record {
  instrument = λ i h v count. (v, drop_ref h count);
  drop_output = λ o count. count;
  holds = λ o. 0;
  holds-instrument = λ i h v count. omega arith;
  drop_output-holds = λ o count. omega arith;
}

pub record InstrumentFuture (F I : Type 0) : Type 0 where
  pub future : F
  pub held : Option Handle
  pub instrument : I

pub record PendingRequests (S I : Type 0) : Type 0 where
  pub service : S
  pub instrument : I

-- A new `Arc` has one reference.
unfoldable pub new : {S I : Type 0} → S → I → PendingRequests S I × ℕ
new service instrument = (record { service = service; instrument = instrument }, 1)

unfoldable pub load : {S I : Type 0} → PendingRequests S I → ℕ → ℕ
load self count = count - 1

module _ {S I Req F E : Type 0} (svc : Service S Req F E) where
  unfoldable pub poll_ready : PendingRequests S I → Poll (Unit {0}) E × PendingRequests S I
  poll_ready self = let (p, s) = svc.poll_ready self.service in (p, record self { service = s })

  unfoldable pub call :
      PendingRequests S I → Req → ℕ → InstrumentFuture F I × PendingRequests S I × ℕ
  call self req count =
      let (h, count') = clone_ref count in
      let (f, s) = svc.call self.service req in
      (
        record { future = f; held = some h; instrument = self.instrument },
        record self { service = s },
        count',
      )

module _ {F I V O E : Type 0} (fut : Future F V E) (instruments : Instrument I V O) where
  abbrev pub Held : Type 0
  Held = InstrumentFuture F I × ℕ

  take_handle : V → Option Handle → Method Held (Poll O E) (Unit {0})
  take_handle rsp none (self, count) = panics
  take_handle rsp (some h) (self, count) =
      let (o, count') = instruments.instrument self.instrument h rsp count in
      returns (ready o) (record self { held = none }, count')

  after_poll : Poll V E → Method Held (Poll O E) (Unit {0})
  unfolding take_handle
  after_poll (ready rsp) (self, count) = take_handle rsp self.held (self, count)
  after_poll not_ready (self, count) = returns not_ready (self, count)
  after_poll (err e) (self, count) = returns (err e) (self, count)

  -- A future that has answered with a response panics when it is polled again and answers again.
  unfoldable pub poll : Method Held (Poll O E) (Unit {0})
  unfolding after_poll
  poll (self, count) =
      let (p, f) = fut.poll self.future in after_poll p (record self { future = f }, count)

-- A future that is dropped drops the handle that it still has.
abbrev pub drop_held : Option Handle → ℕ → ℕ
drop_held none count = count
drop_held (some h) count = drop_ref h count

-- The discovery `WithPendingRequests`; the service that it makes comes with its count.
pub record WithPendingRequests (D I : Type 0) : Type 0 where
  pub discover : D
  pub instrument : I

module _ {D K V I E : Type 0} (disc : Discover D K V E) where
  wrap : I → Change K V → Change K (PendingRequests V I × ℕ)
  unfolding new
  wrap instrument (insert k svc) = insert k (new svc instrument)
  wrap instrument (remove k) = remove k

  wrap_poll : I → Poll (Change K V) E → Poll (Change K (PendingRequests V I × ℕ)) E
  unfolding wrap
  wrap_poll instrument (ready c) = ready (wrap instrument c)
  wrap_poll instrument not_ready = not_ready
  wrap_poll instrument (err e) = err e

  poll_discover :
      WithPendingRequests D I
      → Poll (Change K (PendingRequests V I × ℕ)) E × WithPendingRequests D I
  unfolding wrap_poll
  poll_discover self =
      let (p, d) = disc.poll self.discover in
      (wrap_poll self.instrument p, record self { discover = d })
