-- ===== src/Buffer/Worker.antt =====
-- `Worker` of tower-buffer/src/lib.rs: the task that takes the requests out of the queue.
pub mod Queue
pub mod Order
pub mod Turns
pub mod Ending
pub mod Calls
pub mod Readiness
use pants_tower.Base.{ℕ, zero, suc, Bool, true, false, Option, none, some, if◌then◌else◌}
use pants_tower.Service.{Poll, ready, not_ready, err, Result, success, failure, DirectService}
use pants_tower.Machine.{
  Outcome, returns, fails, panics, hangs, Method, ◌>>=◌, ◌>>◌, return, modify,
}
use pants_tower.Channels.{Mpsc, Oneshot}
use pants_tower.Buffer.{Message, Shared}

-- `rx` and `state` are in `shared`.
pub record Worker (S Req H Q O : Type 0) : Type 0 where
  pub current_message : Option (Message Req H)
  pub service : S
  pub finish : Bool
  pub shared : Shared Q O

-- How a turn of the loop of `poll` ends: with another turn, begun with this `any_outstanding`, or
-- with the answer that the worker is done, or is not.
pub data Flow : Type 0 where
  continues : Bool → Flow
  ends : Bool → Flow

-- `Worker::spawn`. `execute` gives a task back that it does not take.
pub spawn :
    {S Req H Q O X : Type 0}
    → (Worker S Req H Q O → X → Option (Worker S Req H Q O) × X)
    → S
    → Shared Q O
    → X
    → Result (Unit {0}) S × X
spawn execute service shared x =
    let (refused, x') =
      execute
        (record { current_message = none; service = service; finish = false; shared = shared }) x in
    elim refused [ none ↦ (success tt, x') | some worker ↦ (failure worker.service, x') ]

module _ {S Req F E H T Q O : Type 0} (svc : DirectService S Req F E)
    (mpsc : Mpsc T Q (Message Req H)) (oneshot : Oneshot H F O) where
  abbrev pub Task : Type 0 → Type 0
  Task A = Method (Worker S Req H Q O) A (Unit {0})

  -- `poll_cancel()?.is_not_ready()`.
  is_alive : Message Req H → Task Bool
  is_alive msg self =
      let (p, o) = oneshot.poll_cancel msg.tx self.shared.oneshots in
      let self' = record self { shared = record (self.shared) { oneshots = o } } in
      elim p [
        | ready u ↦ returns false self'
        | not_ready ↦ returns true self'
        | err e ↦ fails tt self'
      ]

  -- `self.rx.poll()?`: `none` is `NotReady`.
  receive : Task (Option (Option (Message Req H)))
  receive self =
      let (p, q) = mpsc.poll self.shared.queue in
      let self' = record self { shared = record (self.shared) { queue = q } } in
      elim p [
        | ready next ↦ returns (some next) self'
        | not_ready ↦ returns none self'
        | err e ↦ fails tt self'
      ]

  or_else :
      Message Req H
      → Bool
      → Task (Option (Option (Message Req H)))
      → Task (Option (Option (Message Req H)))
  or_else msg true next = return (some (some msg))
  or_else msg false next = next

  -- The loop over the queue. The fuel bounds the messages in it.
  next_in_queue : ℕ → Task (Option (Option (Message Req H)))
  next_in_queue zero self = hangs
  next_in_queue (suc fuel) self =
      (receive >>= λ next. elim next [
        | none ↦ return none
        | some none ↦ return (some none)
        | some (some msg) ↦ (is_alive msg >>= λ alive. or_else msg alive (next_in_queue fuel))
      ])
        self

  take_current : Task (Option (Message Req H))
  take_current self = returns self.current_message (record self { current_message = none })

  after_take : ℕ → Option (Message Req H) → Task (Option (Option (Message Req H)))
  unfolding next_in_queue
  after_take fuel none = next_in_queue fuel
  after_take fuel (some msg) = is_alive msg >>= λ alive. or_else msg alive (next_in_queue fuel)

  -- A worker that has met the end of the queue is shutting down.
  next_unless : Bool → ℕ → Task (Option (Option (Message Req H)))
  unfolding after_take take_current
  next_unless true fuel = return (some none)
  next_unless false fuel = take_current >>= after_take fuel

  pub poll_next_msg : ℕ → Task (Option (Option (Message Req H)))
  unfolding next_unless
  poll_next_msg fuel self = next_unless self.finish fuel self

  after_close : Poll (Unit {0}) E → Task Flow
  after_close (ready u) = return (ends true)
  after_close not_ready = return (ends false)
  after_close (err e) = fails tt

  pub close : Task Flow
  unfolding after_close
  close self =
      let (p, s) = svc.poll_close self.service in after_close p (record self { service = s })

  after_service : Poll (Unit {0}) E → Task Flow
  after_service (ready u) = return (continues false)
  after_service not_ready = return (ends false)
  after_service (err e) = fails tt

  advance : Task Flow
  unfolding after_service
  advance self =
      let (p, s) = svc.poll_service self.service in after_service p (record self { service = s })

  -- The part below the `match`, with its `debug_assert`.
  drive_in : Bool → Bool → Task Flow
  unfolding close advance
  drive_in true any_outstanding = close
  drive_in false true = advance
  drive_in false false = λ self. panics

  pub drive : Bool → Task Flow
  unfolding drive_in
  drive any_outstanding self = drive_in self.finish any_outstanding self

  -- A response that nobody waits for is dropped.
  unfoldable pub dispatch : Message Req H → Task Flow
  dispatch msg self =
      let (response, s) = svc.call self.service msg.request in
      let (sent, o) = oneshot.send msg.tx response self.shared.oneshots in
      returns (continues true)
        (record self { service = s; shared = record (self.shared) { oneshots = o } })

  put_back : Bool → Message Req H → Task Flow
  unfolding drive
  put_back true msg = modify (λ self. record self { current_message = some msg }) >> drive true
  put_back false msg =
      modify (λ self. record self { current_message = some msg }) >> return (ends false)

  shut : Task Flow
  shut self =
      returns (ends true) (record self { shared = record (self.shared) { is_open = false } })

  after_ready : Bool → Message Req H → Poll (Unit {0}) E → Task Flow
  unfolding dispatch put_back shut
  after_ready any_outstanding msg (ready u) = dispatch msg
  after_ready any_outstanding msg not_ready = put_back any_outstanding msg
  after_ready any_outstanding msg (err e) = shut

  offer : Bool → Message Req H → Task Flow
  unfolding after_ready
  offer any_outstanding msg self =
      let (p, s) = svc.poll_ready self.service in
      after_ready any_outstanding msg p (record self { service = s })

  pub after_next : Bool → Option (Option (Message Req H)) → Task Flow
  unfolding offer drive
  after_next any_outstanding (some (some msg)) = offer any_outstanding msg
  after_next any_outstanding (some none) =
      modify (λ self. record self { finish = true }) >> drive any_outstanding
  after_next true none = drive true
  after_next false none = return (ends false)

  pub turn : ℕ → Bool → Task Flow
  unfolding poll_next_msg after_next
  turn fuel any_outstanding = poll_next_msg fuel >>= after_next any_outstanding

  unless_done : (Bool → Task Bool) → Flow → Task Bool
  unless_done again (continues any_outstanding) = again any_outstanding
  unless_done again (ends done) = return done

  -- Whether the worker is done. `skips` is the fuel for the queue in every turn.
  turns : ℕ → ℕ → Bool → Task Bool
  turns skips zero any_outstanding self = hangs
  turns skips (suc fuel) any_outstanding self =
      (turn skips any_outstanding >>= unless_done (turns skips fuel)) self

  pub poll : ℕ → ℕ → Task Bool
  unfolding turns turn
  poll skips fuel = turns skips fuel true
